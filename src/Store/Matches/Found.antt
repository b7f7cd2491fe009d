-- ===== src/Store/Matches/Found.antt =====
-- What an evaluation searches for, and what it answers of each page that it finds.
use eal_api.Prelude.{
  ◌≤◌, ◌≡◌, ◌⊎◌, refl, subst, Bool, true, ◌&&◌, ◌||◌, Option, none, some, List, [], ◌∷◌, any,
  is_empty, keep, take, length, ltb, suc, All, All-map, ok, collect, Bool-cases, Result-cases, ℕ,
  inl, inr, arith, ◌==◌,
}
use mathlib.Core.List.{Mem}
use eal_api.Uuids.{Uuid, Uuids}
use eal_api.HttpError
use eal_api.HttpError.{HttpError}
use eal_api.Floats.{Floats}
use eal_api.WorkerAuth.{Digests}
use eal_api.Embedding.{VectorNormalization}
use eal_api.Contracts.{EmbeddingPayload, Contracts}
use eal_api.Headers.{first}
use eal_api.Store.Rows.{EmbeddingRow, PageRevisionRow, PageRow, MatchRow, Store}
use eal_api.Store.Action.{bind-eq-ok, pure-eq-ok, or_raise-found, for_each}
use eal_api.Store.Order.{join_on, order_by-All, take-All}
use eal_api.Store.Order.Joins.{members, All-kept, join_on-All}
use eal_api.Store.Engine.{Numbers, Constraints}
use eal_api.Store.Encoders.{Encoders}
use eal_api.Store.Identity.{space_of, vector_literal}
use eal_api.Store.Ingest.{same_space}
use eal_api.Store.Reverse.Bounds.{collect-All}
use eal_api.Store.Search.{
  Joined, SearchRecord, SearchPage, SearchRequest, has_revision, has_page, is_ranked, is_similar,
  distance_of, nearer, is_after, filtered, ordered_rows, decoded, into_record, decode_search_row,
  page_of, search_embeddings,
}
use eal_api.Store.Matches.{
  insert_match, selected_match, is_same_match, upsert_match, candidate_row, evaluate_record,
  with_threshold, evaluate_matches,
}

module _ (floats : Floats) (numbers : Numbers floats) (tenant_id : Uuid)
    (query : EmbeddingPayload (Floats.Single floats)) (source_ids : List Uuid)
    (s : Store (Floats.Single floats) (Floats.Double floats)) where
  -- The record is of a stored embedding of the tenant's, in the space of the query, of a page of
  -- one of the sources, if any are named, and its similarity to the query is at least `least`.
  pub record IsHit (least : Floats.Single floats) (r : SearchRecord (Floats.Double floats))
      : Type 0 where
    pub embedding : EmbeddingRow
    pub revision : PageRevisionRow
    pub page : PageRow
    pub stored_embedding : Mem embedding s.embeddings
    pub stored_revision : Mem revision s.page_revisions
    pub stored_page : Mem page s.pages
    pub tenant :
        (embedding.tenant_id ≡ tenant_id)
        × (revision.tenant_id ≡ tenant_id)
        × (page.tenant_id ≡ tenant_id)
    pub ids :
        (r.hit.embedding_id ≡ embedding.id)
        × (r.hit.revision_id ≡ embedding.revision_id)
        × (r.hit.page_id ≡ revision.page_id)
        × (r.hit.source_id ≡ page.source_id)
    pub content : r.content_sha256 ≡ revision.content_sha256
    pub space : same_space embedding.space (space_of query) ≡ true
    pub in_source :
        (is_empty source_ids || any (λ source_id. page.source_id == source_id) source_ids) ≡ true
    pub similarity :
        r.hit.similarity
        ≡ numbers.from_json (
            numbers.one_minus (
              numbers.cosine_distance embedding.embedding
                (vector_literal floats numbers query.values)))
    pub reached :
        numbers.rank (numbers.widen least)
        ≤ numbers.rank (
            numbers.one_minus (
              numbers.cosine_distance embedding.embedding
                (vector_literal floats numbers query.values)))

module _ (floats : Floats) (numbers : Numbers floats)
    (contracts : Contracts (Floats.Single floats) (Floats.Double floats)) (tenant_id : Uuid)
    (request : SearchRequest floats numbers contracts)
    (s : Store (Floats.Single floats) (Floats.Double floats)) where
  abbrev IsFound : SearchRecord (Floats.Double floats) → Type 0
  IsFound =
      IsHit floats numbers tenant_id request.embedding request.source_ids s request.min_similarity

  abbrev IsJoined : Joined → Type 0
  IsJoined row =
      (((Mem row.0.0 s.embeddings × Mem row.0.1 s.page_revisions)
          × (has_revision row.0.0 row.0.1 ≡ true))
        × Mem row.1 s.pages)
      × (has_page row.0 row.1 ≡ true)

  abbrev passes : Joined → Bool
  passes row =
      is_ranked floats numbers contracts tenant_id request row
      && is_similar floats numbers contracts request row

  filtered-IsJoined :
      All
        (λ row. IsJoined row × (passes row ≡ true))
        (filtered floats numbers contracts tenant_id request s)
  unfolding filtered
  filtered-IsJoined =
      All-kept IsJoined passes
        (join_on has_page (join_on has_revision s.embeddings s.page_revisions) s.pages)
        (join_on-All
          (λ (pair : EmbeddingRow × PageRevisionRow).
            (Mem pair.0 s.embeddings × Mem pair.1 s.page_revisions)
            × (has_revision pair.0 pair.1 ≡ true))
          (λ page. Mem page s.pages) has_page (join_on has_revision s.embeddings s.page_revisions)
          s.pages
          (join_on-All (λ row. Mem row s.embeddings) (λ row. Mem row s.page_revisions) has_revision
            s.embeddings s.page_revisions (members s.embeddings) (members s.page_revisions))
          (members s.pages))

  record-IsHit :
      (row : Joined) (r : SearchRecord (Floats.Double floats)) (o : Option VectorNormalization)
      → IsJoined row × (passes row ≡ true)
      → decoded floats numbers contracts request row o ≡ ok r
      → IsFound r
  record-IsHit row r none h e = absurd (cc e)
  record-IsHit row r (some n) (((((in_embeddings, in_revisions), of), in_pages), on), p) e =
      let same : into_record floats numbers contracts request row n ≡ r = cc e in
      subst IsFound same (record {
        embedding = row.0.0;
        revision = row.0.1;
        page = row.1;
        stored_embedding = in_embeddings;
        stored_revision = in_revisions;
        stored_page = in_pages;
        tenant = (ground (arith, p), ground (arith, p, of), ground (arith, p, of, on));
        ids = (refl, ground (arith, of), ground (arith, on), refl);
        content = refl;
        space = ground (arith, p);
        in_source = ground (arith, p);
        similarity = refl;
        reached = ground (arith, p);
      })

  decode-IsHit :
      (row : Joined) (r : SearchRecord (Floats.Double floats))
      → IsJoined row × (passes row ≡ true)
      → decode_search_row floats numbers contracts request row ≡ ok r
      → IsFound r
  unfolding decode_search_row
  decode-IsHit row r h e =
      let distance = distance_of floats numbers contracts request row in
      elim (Bool-cases (
        numbers.double_is_finite distance
        && numbers.double_is_finite (numbers.one_minus distance))) [
          | inl f ↦
              record-IsHit row r (contracts.read_normalization row.0.0.space.normalization) h
                (rw f at e)
          | inr f ↦ absurd (cc (rw f at e))
        ]

  page_of-All :
      (P : SearchRecord (Floats.Double floats) → Type 0) (n : ℕ)
      (found : List (SearchRecord (Floats.Double floats)))
      → All P found
      → All P (page_of floats numbers contracts n found).records
  unfolding page_of
  page_of-All P n found h = elim (Bool-cases (ltb n (length found))) [
    | inl e ↦ rw e (take-All P n found h)
    | inr e ↦ rw e h
  ]

  pub search_embeddings-IsHit :
      (t : Store (Floats.Single floats) (Floats.Double floats))
      (page : SearchPage (Floats.Double floats))
      → search_embeddings floats numbers contracts tenant_id request s ≡ (ok page, t)
      → All
          (IsHit floats numbers tenant_id request.embedding request.source_ids s
            request.min_similarity)
          page.records
        × (s ≡ t)
  unfolding search_embeddings ordered_rows
  search_embeddings-IsHit t page h =
      let rows =
        take (suc request.limit) (ordered_rows floats numbers contracts tenant_id request s) in
      let after = is_after floats numbers contracts request request.cursor in
      let all_rows = filtered floats numbers contracts tenant_id request s in
      let P : Joined → Type 0 = λ row. IsJoined row × (passes row ≡ true) in
      let chosen : All P rows = take-All P (suc request.limit) _ (
        order_by-All (nearer floats numbers contracts request) P (keep after all_rows) (
          All-map (λ row k. k.0) (keep after all_rows)
            (All-kept P after all_rows filtered-IsJoined))) in
      elim (Result-cases (collect (decode_search_row floats numbers contracts request) rows)) [
        | inl (found, e) ↦
            let same : page_of floats numbers contracts request.limit found ≡ page =
              cc (rw e at h) in
            (
              subst (λ p. All IsFound p.records) same
                  (page_of-All IsFound request.limit found (
                    collect-All (decode_search_row floats numbers contracts request) P IsFound
                      decode-IsHit rows found chosen e)),
              cc (rw e at h),
            )
        | inr (error, e) ↦ absurd (cc (rw e at h))
      ]

module _ (floats : Floats) (numbers : Numbers floats)
    (contracts : Contracts (Floats.Single floats) (Floats.Double floats))
    (constraints : Constraints (Floats.Single floats) (Floats.Double floats)) (digests : Digests)
    (encoders : Encoders) (uuids : Uuids) (tenant_id rule_id revision_id : Uuid) where
  -- The match is of the tenant, the rule and its revision, and of the page's revision.
  abbrev pub IsMatchOf :
      SearchRecord (Floats.Double floats) → MatchRow (Floats.Double floats) → Type 0
  IsMatchOf r m =
      (m.tenant_id ≡ tenant_id)
      × (m.alert_rule_id ≡ rule_id)
      × (m.alert_rule_revision_id ≡ revision_id)
      × (m.revision_id ≡ r.hit.revision_id)

  -- One match for each record, in their order.
  abbrev pub AreMatchesOf :
      List (SearchRecord (Floats.Double floats)) → List (MatchRow (Floats.Double floats)) → Type 0
  AreMatchesOf [] [] = Unit
  AreMatchesOf [] (m ∷ ms) = ⊥
  AreMatchesOf (r ∷ rs) [] = ⊥
  AreMatchesOf (r ∷ rs) (m ∷ ms) = IsMatchOf r m × AreMatchesOf rs ms

  abbrev row_for :
      Floats.Double floats
      → SearchRecord (Floats.Double floats)
      → Uuid
      → MatchRow (Floats.Double floats)
  row_for threshold r id =
      candidate_row floats numbers contracts constraints digests encoders uuids tenant_id rule_id
        revision_id threshold r id

  first_same :
      (p : MatchRow (Floats.Double floats) → Bool) (rows : List (MatchRow (Floats.Double floats)))
      (row : MatchRow (Floats.Double floats))
      → first (keep p rows) ≡ some row
      → p row ≡ true
  first_same p [] row h = absurd (cc h)
  first_same p (x ∷ rows) row h = elim (Bool-cases (p x)) [
    | inl e ↦ let q : x ≡ row = cc (rw e at h) in subst (λ y. p y ≡ true) q e
    | inr e ↦ first_same p rows row (rw e at h)
  ]

  inserted_row :
      (row : MatchRow (Floats.Double floats))
      (s t : Store (Floats.Single floats) (Floats.Double floats))
      (o : Option (MatchRow (Floats.Double floats)))
      → insert_match constraints row s ≡ (ok o, t)
      → (o ≡ none) ⊎ (o ≡ some row)
  unfolding insert_match
  inserted_row row s t o h = ground arith

  upsert_match-IsMatchOf :
      (threshold : Floats.Double floats) (r : SearchRecord (Floats.Double floats)) (id : Uuid)
      (s t : Store (Floats.Single floats) (Floats.Double floats))
      (m : MatchRow (Floats.Double floats))
      → upsert_match constraints r.hit.embedding_id (row_for threshold r id) s ≡ (ok m, t)
      → IsMatchOf r m
  unfolding upsert_match
  upsert_match-IsMatchOf threshold r id s t m h =
      let row = row_for threshold r id in
      let (o, u, inserting, h₁) = bind-eq-ok (insert_match constraints row) _ h in
      let (there, _) =
        or_raise-found
          (selected_match constraints (is_same_match constraints r.hit.embedding_id row) s o)
          HttpError.internal h₁ in
      elim (inserted_row row s u o inserting) [
        | inl e ↦
            let same =
              first_same (is_same_match constraints r.hit.embedding_id row) s.matches m
                (rw e at there) in
            (ground (arith, same), ground (arith, same), ground (arith, same), ground (arith, same))
        | inr e ↦
            let q : row ≡ m = cc (rw e at there) in subst (IsMatchOf r) q (refl, refl, refl, refl)
      ]

  evaluate_record-IsMatchOf :
      (threshold : Floats.Double floats) (r : SearchRecord (Floats.Double floats))
      (s t : Store (Floats.Single floats) (Floats.Double floats))
      (m : MatchRow (Floats.Double floats))
      → evaluate_record floats numbers contracts constraints digests encoders uuids tenant_id
          rule_id revision_id threshold r s
        ≡ (ok m, t)
      → IsMatchOf r m
  unfolding evaluate_record
  evaluate_record-IsMatchOf threshold r s t m h =
      let (row, u, upserting, h₁) =
        bind-eq-ok
          (upsert_match constraints r.hit.embedding_id
            (row_for threshold r (constraints.gen_random_uuid s)))
          _ h in
      let read = (pure-eq-ok h₁).0 in
      let of =
        upsert_match-IsMatchOf threshold r (constraints.gen_random_uuid s) s u row upserting in
      subst (IsMatchOf r) read of

  all-AreMatchesOf :
      (threshold : Floats.Double floats) (rs : List (SearchRecord (Floats.Double floats)))
      (s t : Store (Floats.Single floats) (Floats.Double floats))
      (ms : List (MatchRow (Floats.Double floats)))
      → for_each
          (evaluate_record floats numbers contracts constraints digests encoders uuids tenant_id
            rule_id revision_id threshold)
          rs
          s
        ≡ (ok ms, t)
      → AreMatchesOf rs ms
  all-AreMatchesOf threshold [] s t ms h = subst (AreMatchesOf []) (pure-eq-ok h).0 tt
  all-AreMatchesOf threshold (r ∷ rs) s t ms h =
      let each =
        evaluate_record floats numbers contracts constraints digests encoders uuids tenant_id
          rule_id revision_id threshold in
      let (m, u, one, h₁) = bind-eq-ok (each r) _ h in
      let (rest, v, more, h₂) = bind-eq-ok (for_each each rs) _ h₁ in
      subst (AreMatchesOf (r ∷ rs)) (pure-eq-ok h₂).0 (
        evaluate_record-IsMatchOf threshold r s u m one,
        all-AreMatchesOf threshold rs u v rest more,
      )

  -- The request asks for the larger of its own bound and the threshold as a 32-bit number.
  abbrev pub HasSearched :
      Floats.Double floats
      → SearchRequest floats numbers contracts
      → Store (Floats.Single floats) (Floats.Double floats)
      → List (MatchRow (Floats.Double floats))
      → Type 0
  HasSearched threshold request s matches =
      (page : SearchPage (Floats.Double floats)) × All
        (IsHit floats numbers tenant_id request.embedding request.source_ids s
          (numbers.single_max request.min_similarity (numbers.narrow threshold)))
        page.records
      × AreMatchesOf page.records matches

  pub evaluate_matches-HasSearched :
      (threshold : Floats.Double floats) (request : SearchRequest floats numbers contracts)
      (s t : Store (Floats.Single floats) (Floats.Double floats))
      (matches : List (MatchRow (Floats.Double floats)))
      → evaluate_matches floats numbers contracts constraints digests encoders uuids tenant_id
          rule_id revision_id threshold request s
        ≡ (ok matches, t)
      → HasSearched threshold request s matches
  unfolding evaluate_matches
  evaluate_matches-HasSearched threshold request s t matches h =
      let asked =
        with_threshold floats numbers contracts constraints digests encoders uuids threshold
          request in
      let (page, u, searching, h₁) =
        bind-eq-ok (search_embeddings floats numbers contracts tenant_id asked) _ h in
      let (hits, _) =
        search_embeddings-IsHit floats numbers contracts tenant_id asked s u page searching in
      (page, hits, all-AreMatchesOf threshold page.records u t matches h₁)
