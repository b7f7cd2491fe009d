-- ===== src/Store/Sources/Reads.antt =====
-- The sources that a tenant reads, and what a creation does to them.
use eal_api.Prelude.{
  ◌≡◌, refl, ap, subst, ◌∙◌, Bool, true, false, not, some, List, [], ◌∷◌, ◌++◌, any, All,
  All-append, ◌==◌, ok, err, arith, if◌then◌else◌, Bool-cases, inl, inr, ◌⊎◌, all, any-false→All,
  Result, ◌%◌, ◌^◌,
}
use eal_api.Prelude.Ordered.{text_ord}
use eal_api.Prelude.TreeSet.{eqb_iff_eq, eqb_refl}
use eal_api.Text.{Text, text}
use eal_api.Uuids.{Uuid}
use eal_api.HttpError
use eal_api.HttpError.{HttpError}
use eal_api.Contracts.{CreateSourcePolicy}
use eal_api.Store.Rows.{Time, SourceRow, Store}
use eal_api.Headers.{first}
use eal_api.Store.Order.Joins.{keep-last}
use eal_api.Store.Engine.{Constraints}
use eal_api.Store.Sources.{is_root, source_row, is_source, insert_source, create_source, get_source}

-- No two sources of a tenant have the same root URL.
abbrev HasUniqueRoots : List SourceRow → Type 0
HasUniqueRoots [] = Unit
HasUniqueRoots (row ∷ rows) =
    All (λ other. is_root row.tenant_id row.root_url other ≡ false) rows × HasUniqueRoots rows

All-last :
    (P : SourceRow → Type 0) (rows : List SourceRow) (row : SourceRow)
    → All P rows
    → P row
    → All P (rows ++ (row ∷ []))
All-last P rows row h k = All-append P rows (row ∷ []) h (k, tt)

unique-append :
    (rows : List SourceRow) (row : SourceRow)
    → HasUniqueRoots rows
    → All (λ other. is_root row.tenant_id row.root_url other ≡ false) rows
    → HasUniqueRoots (rows ++ (row ∷ []))
unique-append [] row h k = (tt, tt)
unique-append (old ∷ rows) row h k = (
  All-last (λ other. is_root old.tenant_id old.root_url other ≡ false) rows row h.0
      (ground (arith, k.0, eqb_iff_eq row.root_url old.root_url, eqb_refl old.root_url)),
  unique-append rows row h.1 k.1,
)

abbrev pub taken : HttpError
taken = HttpError.conflict (text "a source with this canonical root URL already exists")

-- The refusal of a creation whose root is there already: a row that violates a constraint of its
-- own is refused before the conflict is seen.
abbrev pub refusal :
    {Single Double : Type 0}
    → Constraints Single Double
    → Time
    → Uuid
    → CreateSourcePolicy
    → Text
    → Store Single Double
    → HttpError
refusal constraints now tenant_id input root s =
    if constraints.checks_source s
      (source_row now (constraints.gen_random_uuid s) tenant_id input root)
    then taken
    else HttpError.internal

create_source-taken :
    {Single Double : Type 0} (constraints : Constraints Single Double) (now : Time)
    (tenant_id : Uuid) (input : CreateSourcePolicy) (root : Text) (s : Store Single Double)
    → any (is_root tenant_id root) s.sources ≡ true
    → create_source constraints now tenant_id input root s
      ≡ (err (refusal constraints now tenant_id input root s), s)
unfolding create_source insert_source
create_source-taken constraints now tenant_id input root s e =
    elim (Bool-cases (
      constraints.checks_source s
        (source_row now (constraints.gen_random_uuid s) tenant_id input root))) [
          | inl f ↦ rw (f, e) refl
          | inr f ↦ rw f refl
        ]

module _ {Single Double : Type 0} (constraints : Constraints Single Double) (now : Time)
    (tenant_id : Uuid) (input : CreateSourcePolicy) (canonical_root_url : Text) where
  abbrev new_source : Store Single Double → SourceRow
  new_source s = source_row now (constraints.gen_random_uuid s) tenant_id input canonical_root_url

  abbrev with_source : Store Single Double → Store Single Double
  with_source s = record s { sources = s.sources ++ (new_source s ∷ []) }

  create_source-eq :
      (s : Store Single Double)
      → any (is_root tenant_id canonical_root_url) s.sources ≡ false
      → create_source constraints now tenant_id input canonical_root_url s ≡ (
          if constraints.checks_source s (new_source s)
          then (if constraints.admits_source s (new_source s)
              then (ok (new_source s), with_source s)
              else (err HttpError.internal, s))
          else (err HttpError.internal, s))
  unfolding create_source insert_source
  create_source-eq s e = ground (arith, e)

  -- A creation of a source refuses and changes nothing, or appends one with a new root.
  create_source-cases :
      (s : Store Single Double)
      → ((e : HttpError) × (create_source constraints now tenant_id input canonical_root_url s
            ≡ (err e, s)))
        ⊎ ((any (is_root tenant_id canonical_root_url) s.sources ≡ false)
            × (all (λ old. not (old.id == constraints.gen_random_uuid s)) s.sources ≡ true)
            × (create_source constraints now tenant_id input canonical_root_url s
                ≡ (ok (new_source s), with_source s)))
  create_source-cases s = elim (Bool-cases (any (is_root tenant_id canonical_root_url) s.sources)) [
    | inl e ↦ inl (
      refusal constraints now tenant_id input canonical_root_url s,
      create_source-taken constraints now tenant_id input canonical_root_url s e,
    )
    | inr e ↦ elim (Bool-cases (constraints.checks_source s (new_source s))) [
      | inr c ↦ inl (HttpError.internal, create_source-eq s e ∙ rw c refl)
      | inl c ↦ elim (Bool-cases (constraints.admits_source s (new_source s))) [
        | inl f ↦ inr (
          e,
          constraints.admits_source-fresh s (new_source s) f,
          create_source-eq s e ∙ rw (c, f) refl,
        )
        | inr f ↦ inl (HttpError.internal, create_source-eq s e ∙ rw (c, f) refl)
      ]
    ]
  ]

  -- If no two sources of a tenant have the same canonical root URL, then neither have they after
  -- a creation, whether or not it succeeds.
  pub create_source-HasUniqueRoots :
      (s t : Store Single Double) (r : Result HttpError SourceRow)
      → HasUniqueRoots s.sources
      → create_source constraints now tenant_id input canonical_root_url s ≡ (r, t)
      → HasUniqueRoots t.sources
  create_source-HasUniqueRoots s t r unique h = elim (create_source-cases s) [
    | inl (_, refused) ↦
        let e : s ≡ t = cc (h, refused) in subst (λ u. HasUniqueRoots u.sources) e unique
    | inr (new, _, run) ↦
        let e : with_source s ≡ t = cc (h, run) in
        subst (λ u. HasUniqueRoots u.sources) e
          (unique-append s.sources (new_source s) unique
            (any-false→All (is_root tenant_id canonical_root_url) s.sources new))
  ]

  -- Every column but the identifier is the request's, or the time of the call.
  pub record IsRequested (row : SourceRow) : Type 0 where
    pub tenant : row.tenant_id ≡ tenant_id
    pub root : row.root_url ≡ canonical_root_url
    pub named : row.name ≡ input.name
    pub hosts : row.allowed_hosts ≡ input.allowed_hosts
    pub path_prefixes : row.allowed_path_prefixes ≡ input.allowed_path_prefixes
    pub subdomains : row.include_subdomains ≡ input.include_subdomains
    pub modes : row.discovery_modes ≡ input.discovery_modes
    pub interval : row.crawl_interval_seconds ≡ input.crawl_interval_seconds % 2 ^ 32
    pub depth : row.max_depth ≡ input.max_depth % 2 ^ 16
    pub pages : row.max_pages_per_run ≡ input.max_pages_per_run % 2 ^ 32
    pub robots : row.obey_robots ≡ input.obey_robots
    pub on : row.enabled ≡ input.enabled
    pub created : row.created_at ≡ now
    pub updated : row.updated_at ≡ now

  -- The source is the request's, under its canonical root, and the tenant finds it again by its
  -- identifier; another creation with this root is refused and changes nothing.
  abbrev pub IsCreated : Time → CreateSourcePolicy → SourceRow → Store Single Double → Type 0
  IsCreated later again row t =
      IsRequested row
      × (get_source tenant_id row.id t ≡ (ok (some row), t))
      × (create_source constraints later tenant_id again canonical_root_url t
          ≡ (err (refusal constraints later tenant_id again canonical_root_url t), t))

  new_source-IsRequested : (s : Store Single Double) → IsRequested (new_source s)
  new_source-IsRequested s = record {
    tenant = refl;
    root = refl;
    named = refl;
    hosts = refl;
    path_prefixes = refl;
    subdomains = refl;
    modes = refl;
    interval = refl;
    depth = refl;
    pages = refl;
    robots = refl;
    on = refl;
    created = refl;
    updated = refl;
  }

  any-last :
      (p : SourceRow → Bool) (rows : List SourceRow) (row : SourceRow)
      → p row ≡ true
      → any p (rows ++ (row ∷ [])) ≡ true
  any-last p [] row h = ground arith
  any-last p (old ∷ rows) row h = ground (arith, any-last p rows row h)

  no_source :
      (id : Uuid) (rows : List SourceRow)
      → all (λ old. not (old.id == id)) rows ≡ true
      → all (λ old. not (is_source tenant_id id old)) rows ≡ true
  no_source id [] h = refl
  no_source id (old ∷ rows) h = ground (arith, no_source id rows)

  found_again :
      (s : Store Single Double)
      → all (λ old. not (old.id == constraints.gen_random_uuid s)) s.sources ≡ true
      → get_source tenant_id (constraints.gen_random_uuid s) (with_source s)
        ≡ (ok (some (new_source s)), with_source s)
  unfolding get_source
  found_again s fresh =
      ap (λ rows. (ok (first rows), with_source s))
        (keep-last (is_source tenant_id (constraints.gen_random_uuid s)) s.sources (new_source s)
          (no_source (constraints.gen_random_uuid s) s.sources fresh) (ground arith))

  -- A creation that succeeds answers with a source whose columns are all those of the request,
  -- under its canonical root, and which the tenant finds again by its identifier; another creation
  -- with this root, whatever else it asks for, then changes nothing and is refused, as a conflict
  -- if its row passes the checks that precede it and as an internal error otherwise.
  pub create_source-get_source :
      (later : Time) (again : CreateSourcePolicy) (s t : Store Single Double) (row : SourceRow)
      → create_source constraints now tenant_id input canonical_root_url s ≡ (ok row, t)
      → IsCreated later again row t
  create_source-get_source later again s t row h = elim (create_source-cases s) [
    | inl (_, refused) ↦ absurd (cc (h, refused))
    | inr (_, fresh, run) ↦
        let e : new_source s ≡ row = cc (h, run) in
        let f : with_source s ≡ t = cc (h, run) in
        let full : any (is_root tenant_id canonical_root_url) (with_source s).sources ≡ true =
          any-last (is_root tenant_id canonical_root_url) s.sources (new_source s)
            (ground (arith, eqb_refl canonical_root_url)) in
        subst (λ a. IsCreated later again a t) e
          (subst (λ u. IsCreated later again (new_source s) u) f
            (
              new_source-IsRequested s,
              found_again s fresh,
              create_source-taken constraints later tenant_id again canonical_root_url
                  (with_source s) full,
            ))
  ]
