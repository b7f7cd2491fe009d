-- ===== src/Store/Reverse/Bounds.antt =====
-- The candidates of `find_alert_candidates` of src/reverse_match.rs, traced to the rows of the tables.
use eal_api.Prelude.{
  ◌≤◌, ◌≡◌, refl, sym, ap, subst, ◌∙◌, Bool, true, ◌&&◌, ◌||◌, Option, none, some, List, [], ◌∷◌,
  ◌++◌, any, is_empty, keep, length, All, Result, ok, collect, ◌>>=◌, >>=-eq-ok, Bool-cases, inl,
  inr, arith,
}
use mathlib.Core.List.{Mem}
use eal_api.Prelude.Ordered.{text_ord}
use eal_api.Prelude.TreeSet.{eqb, eqb_iff_eq}
use eal_api.Text.{text}
use eal_api.Uuids.{Uuid, Uuids}
use eal_api.Floats.{Floats}
use eal_api.WorkerAuth.{Digests}
use eal_api.Contracts.{Contracts}
use eal_api.Store.Rows.{AlertRuleRow, RuleRevisionRow, RuleEmbeddingRow, Store}
use eal_api.Store.Order.{join_on, order_by-All, take-All, length-take-le}
use eal_api.Store.Order.Joins.{members, All-kept, join_on-All}
use eal_api.Store.Order.Paging.{length-collect}
use eal_api.Store.Engine.{Numbers, Constraints}
use eal_api.Store.Encoders.{Encoders}
use eal_api.Store.Identity.{space_of, vector_literal}
use eal_api.Store.Ingest.{same_space}
use eal_api.Store.Reverse.{Watched, CandidateWire, is_active_of, is_current}
use eal_api.Store.Reverse.Stream.{
  Request, nearer, is_candidate, watched, of_revision, threshold_of, similarity_of, candidate_rows,
  decode_candidate, find_alert_candidates,
}

-- What the rows have, and a reading hands on, the results of a reading of all of them have.
pub collect-All :
    {E A B : Type 0} (f : A → Result E B) (P : A → Type 0) (Q : B → Type 0)
    (each : (a : A) (b : B) → P a → f a ≡ ok b → Q b) (xs : List A) (ys : List B)
    → All P xs
    → collect f xs ≡ ok ys
    → All Q ys
collect-All f P Q each [] ys h e = let q : [] ≡ ys = cc e in subst (All Q) q tt
collect-All f P Q each (x ∷ xs) ys h e =
    let (y, e₁, e₂) = >>=-eq-ok (f x) (λ a. collect f xs >>= λ rest. ok (a ∷ rest)) e in
    let (rest, e₃, e₄) = >>=-eq-ok (collect f xs) (λ rest. ok (y ∷ rest)) e₂ in
    let q : y ∷ rest ≡ ys = cc e₄ in
    subst (All Q) q (each x y h.0 e₁, collect-All f P Q each xs rest h.1 e₃)

module _ (floats : Floats) (numbers : Numbers floats)
    (contracts : Contracts (Floats.Single floats) (Floats.Double floats))
    (constraints : Constraints (Floats.Single floats) (Floats.Double floats)) (digests : Digests)
    (encoders : Encoders) (uuids : Uuids) (tenant_id source_id : Uuid)
    (request : Request floats numbers contracts constraints digests encoders uuids) where
  abbrev Candidate : Type 0
  Candidate = CandidateWire (Floats.Double floats)

  -- The candidate is of an embedding of the tenant's, in the space of the page's vector, of a rule
  -- whose active revision the embedding was made for; this revision is enabled, and of the vector's
  -- model; its threshold is the candidate's and is reached by the similarity of the two vectors,
  -- which is the candidate's, and its sources are all or hold the page's.
  pub record IsMatch (s : Store (Floats.Single floats) (Floats.Double floats)) (c : Candidate)
      : Type 0 where
    pub embedding : RuleEmbeddingRow
    pub rule : AlertRuleRow
    pub revision : RuleRevisionRow (Floats.Single floats)
    pub stored_embedding : Mem embedding s.rule_embeddings
    pub stored_rule : Mem rule s.rules
    pub stored_revision : Mem revision s.rule_revisions
    pub tenant :
        (embedding.tenant_id ≡ tenant_id)
        × (rule.tenant_id ≡ tenant_id)
        × (revision.tenant_id ≡ tenant_id)
    pub ids :
        (c.alert_embedding_id ≡ embedding.id)
        × (c.alert_rule_id ≡ rule.id)
        × (c.alert_rule_revision_id ≡ revision.id)
    pub active : rule.active_revision_id ≡ some revision.id
    pub of_rule : revision.alert_rule_id ≡ rule.id
    pub enabled : revision.enabled ≡ true
    pub model : revision.embedding_model ≡ request.page.embedding.model
    pub space : same_space embedding.space (space_of request.page.embedding) ≡ true
    pub threshold : c.threshold ≡ numbers.from_json (numbers.widen revision.similarity_threshold)
    pub similarity :
        c.similarity
        ≡ numbers.from_json (
            numbers.one_minus (
              numbers.cosine_distance embedding.embedding
                (vector_literal floats numbers request.page.embedding.values)))
    pub reached :
        numbers.rank (numbers.widen revision.similarity_threshold)
        ≤ numbers.rank (
            numbers.one_minus (
              numbers.cosine_distance embedding.embedding
                (vector_literal floats numbers request.page.embedding.values)))
    pub in_source :
        (is_empty revision.source_filters
          || any
              (λ filter. eqb filter (text "source:" ++ uuids.to_text source_id))
              revision.source_filters)
        ≡ true

  abbrev matching : Watched (Floats.Single floats) → Bool
  matching =
      is_candidate floats numbers contracts constraints digests encoders uuids tenant_id source_id
        request

  -- Where a row of the join comes from.
  abbrev IsJoined :
      Store (Floats.Single floats) (Floats.Double floats) → Watched (Floats.Single floats) → Type 0
  IsJoined s row =
      (((Mem row.0.0 s.rule_embeddings × Mem row.0.1 s.rules)
          × (is_active_of row.0.0 row.0.1 ≡ true))
        × Mem row.1 s.rule_revisions)
      × (of_revision floats numbers contracts constraints digests encoders uuids row ≡ true)

  watched-IsJoined :
      (s : Store (Floats.Single floats) (Floats.Double floats))
      → All (IsJoined s) (watched floats numbers contracts constraints digests encoders uuids s)
  watched-IsJoined s =
      join_on-All
        (λ (pair : RuleEmbeddingRow × AlertRuleRow).
          (Mem pair.0 s.rule_embeddings × Mem pair.1 s.rules) × (is_active_of pair.0 pair.1 ≡ true))
        (λ revision. Mem revision s.rule_revisions)
        (λ pair revision.
          of_revision floats numbers contracts constraints digests encoders uuids (pair, revision))
        (join_on is_active_of s.rule_embeddings s.rules) s.rule_revisions
        (join_on-All (λ row. Mem row s.rule_embeddings) (λ row. Mem row s.rules) is_active_of
          s.rule_embeddings s.rules (members s.rule_embeddings) (members s.rules))
        (members s.rule_revisions)

  current : (id : Uuid) (o : Option Uuid) → is_current id o ≡ true → o ≡ some id
  current id none h = absurd (cc h)
  current id (some active) h = ap some (ground arith)

  decoded-IsMatch :
      (s : Store (Floats.Single floats) (Floats.Double floats))
      (row : Watched (Floats.Single floats)) (c : Candidate)
      → IsJoined s row × (matching row ≡ true)
      → decode_candidate floats numbers contracts constraints digests encoders uuids request row
        ≡ ok c
      → IsMatch s c
  unfolding decode_candidate
  decoded-IsMatch s row c (((((in_embeddings, in_rules), of), in_revisions), joined), m) h =
      let sim =
        similarity_of floats numbers contracts constraints digests encoders uuids request row in
      let thr = threshold_of floats numbers contracts constraints digests encoders uuids row in
      let active_id =
        current row.0.0.alert_rule_revision_id row.0.1.active_revision_id (ground (arith, of)) in
      let same_revision : row.1.id ≡ row.0.0.alert_rule_revision_id = ground (arith, joined) in
      let same_rule : row.0.1.id ≡ row.0.0.alert_rule_id = ground (arith, of) in
      elim (Bool-cases (numbers.double_is_finite sim && numbers.double_is_finite thr)) [
        | inr e ↦ absurd (cc (rw e at h))
        | inl e ↦ subst (IsMatch s) (cc (rw e at h)) (record {
          embedding = row.0.0;
          rule = row.0.1;
          revision = row.1;
          stored_embedding = in_embeddings;
          stored_rule = in_rules;
          stored_revision = in_revisions;
          tenant = (ground (arith, m), ground (arith, m, of), ground (arith, m, joined));
          ids = (refl, sym same_rule, sym same_revision);
          active = active_id ∙ ap some (sym same_revision);
          of_rule = ground (arith, joined, of);
          enabled = ground (arith, m);
          model = eqb_iff_eq row.1.embedding_model request.page.embedding.model (ground (arith, m));
          space = ground (arith, m);
          threshold = refl;
          similarity = refl;
          reached = ground (arith, m);
          in_source = ground (arith, m);
        })
      ]

  pub find_alert_candidates-IsMatch :
      (s t : Store (Floats.Single floats) (Floats.Double floats)) (found : List Candidate)
      → find_alert_candidates floats numbers contracts constraints digests encoders uuids tenant_id
          source_id request s
        ≡ (ok found, t)
      → (length found ≤ request.max_candidates) × All (IsMatch s) found × (t ≡ s)
  unfolding find_alert_candidates candidate_rows
  find_alert_candidates-IsMatch s t found h =
      let rows =
        candidate_rows floats numbers contracts constraints digests encoders uuids tenant_id
          source_id request s in
      let decode =
        decode_candidate floats numbers contracts constraints digests encoders uuids request in
      let done : collect decode rows ≡ ok found = ap (λ p. p.0) h in
      let chosen : All (λ row. IsJoined s row × (matching row ≡ true)) rows =
        take-All (λ row. IsJoined s row × (matching row ≡ true)) request.max_candidates _
          (order_by-All (nearer floats numbers contracts constraints digests encoders uuids request)
            (λ row. IsJoined s row × (matching row ≡ true))
            (keep matching (watched floats numbers contracts constraints digests encoders uuids s))
            (All-kept (IsJoined s) matching
              (watched floats numbers contracts constraints digests encoders uuids s)
              (watched-IsJoined s))) in
      (
        subst (λ n. n ≤ request.max_candidates) (sym (length-collect decode rows found done))
            (length-take-le request.max_candidates _),
        collect-All decode (λ row. IsJoined s row × (matching row ≡ true)) (IsMatch s)
            (decoded-IsMatch s) rows found chosen done,
        sym (ap (λ p. p.1) h),
      )
