-- ===== src/Store/Ingest/Outcome.antt =====
-- What the statement of `ingest_page` answers.
use eal_api.Prelude.{
  ◌≡◌, refl, ap, subst, Bool, true, not, ◌&&◌, ◌⊎◌, inl, inr, Option, none, some, List, [], ◌∷◌,
  map, keep, all, ◌==◌, Bool-cases, ok, err, arith, Result,
}
use eal_api.Text.{Text}
use eal_api.Uuids.{Uuid}
use eal_api.HttpError
use eal_api.HttpError.{HttpError}
use eal_api.Floats.{Floats}
use eal_api.Headers.{first}
use eal_api.WorkerAuth.{Digests}
use eal_api.Contracts.{PageIngestRequest}
use eal_api.Store.Rows.{Time, PageRow, Space, Store}
use eal_api.Store.Action.{pure, or_raise, ◌>>=◌, bind-outcome, roll_back, run_on}
use eal_api.Store.Order.Joins.{keep-none}
use eal_api.Store.Engine.{Numbers, Constraints}
use eal_api.Store.Encoders.{Encoders}
use eal_api.Store.Identity.{vector_literal, space_of}
use eal_api.Store.Pages.{
  Visit, is_page, page_row, insert_page, upserted_page, upsert_found, selected_revision,
}
use eal_api.Store.Ingest.{
  PageRevision, to_update, ingest_statement, visit_of, ingest_page, inserted_revision,
  inserted_embedding, ingested, the_page, updated_page, selected_embedding,
}

-- The identifiers of the pages are distinct: the primary key.
abbrev HasUniquePages : List PageRow → Type 0
HasUniquePages [] = Unit
HasUniquePages (row ∷ rows) =
    (all (λ other. not (other.id == row.id)) rows ≡ true) × HasUniquePages rows

first_passes :
    (p g : PageRow → Bool) (rows : List PageRow) (row : PageRow)
    → all g rows ≡ true
    → first (keep p rows) ≡ some row
    → g row ≡ true
first_passes p g [] row h k = absurd (cc k)
first_passes p g (x ∷ rows) row h k = elim (Bool-cases (p x)) [
  | inl e ↦ let q : x ≡ row = cc (rw e at k) in subst (λ y. g y ≡ true) q (ground arith)
  | inr e ↦ first_passes p g rows row (ground arith) (rw e at k)
]

none_with_id :
    (visit : Visit) (id : Uuid) (rows : List PageRow)
    → all (λ row. not (row.id == id)) rows ≡ true
    → all (λ row. not (row.id == id && not (is_page visit row))) rows ≡ true
none_with_id visit id [] h = refl
none_with_id visit id (row ∷ rows) h = ground (arith, none_with_id visit id rows)

all_touched :
    (visit : Visit) (rows : List PageRow) (old : PageRow)
    → HasUniquePages rows
    → first (keep (is_page visit) rows) ≡ some old
    → all (λ row. not (row.id == old.id && not (is_page visit row))) rows ≡ true
all_touched visit [] old h k = refl
all_touched visit (x ∷ rows) old h k = elim (Bool-cases (is_page visit x)) [
  | inl e ↦
      let q : x ≡ old = cc (rw e at k) in
      let rest : all (λ row. not (row.id == old.id && not (is_page visit row))) rows ≡ true =
        none_with_id visit old.id rows
          (subst (λ y. all (λ other. not (other.id == y.id)) rows ≡ true) q h.0) in
      ground (arith, e, rest)
  | inr e ↦
      let k' : first (keep (is_page visit) rows) ≡ some old = rw e at k in
      let ih = all_touched visit rows old h.1 k' in
      let g = first_passes (is_page visit) (λ other. not (other.id == x.id)) rows old h.0 k' in
      ground (arith, e, ih, g)
]

module _ {Single Double : Type 0} (constraints : Constraints Single Double) (visit : Visit) where
  nothing_found :
      (s t : Store Single Double) (page : PageRow) (found : Option PageRow)
      → HasUniquePages s.pages
      → first (keep (is_page visit) s.pages) ≡ found
      → upsert_found constraints visit found s ≡ (ok page, t)
      → all (λ row. not (row.id == page.id && not (is_page visit row))) s.pages ≡ true
  unfolding insert_page
  nothing_found s t page none unique h k =
      elim (Bool-cases
        (constraints.admits_page s (page_row visit (constraints.gen_random_uuid s)))) [
          | inl e ↦
              let q : page_row visit (constraints.gen_random_uuid s) ≡ page = cc (rw e at k) in
              let fresh =
                constraints.admits_page-fresh s (page_row visit (constraints.gen_random_uuid s))
                  e in
              none_with_id visit page.id s.pages
                (subst (λ y. all (λ other. not (other.id == y.id)) s.pages ≡ true) q fresh)
          | inr e ↦ absurd (cc (rw e at k))
        ]
  nothing_found s t page (some old) unique h k =
      let touched = all_touched visit s.pages old unique h in
      let q : old.id ≡ page.id = cc k in
      subst (λ id. all (λ row. not (row.id == id && not (is_page visit row))) s.pages ≡ true) q
        touched

  -- A page that the statement inserted or updated is no row that it could update again.
  nothing_to_update :
      (space : Space) (vector : Text) (s t : Store Single Double) (page : PageRow)
      → HasUniquePages s.pages
      → upserted_page constraints visit s s ≡ (ok page, t)
      → to_update constraints visit space vector s page.id ≡ []
  unfolding upserted_page
  nothing_to_update space vector s t page unique h =
      elim (Bool-cases
        (constraints.checks_page s (page_row visit (constraints.gen_random_uuid s)))) [
          | inl e ↦
              keep-none (λ row. row.id == page.id && not (is_page visit row)) s.pages
                (nothing_found s t page (first (keep (is_page visit) s.pages)) unique refl
                  (rw e at h))
          | inr e ↦ absurd (cc (rw e at h))
        ]

  -- The parts of the statement answer with no row, or fail.
  abbrev HasNoRow : {A : Type 0} → Result HttpError (Option A) × Store Single Double → Type 0
  HasNoRow outcome = (outcome.0 ≡ ok none) ⊎ ((e : HttpError) × (outcome.0 ≡ err e))

  rolled_back :
      (s : Store Single Double) (r : Result HttpError (Option PageRevision) × Store Single Double)
      → HasNoRow r
      → HasNoRow (roll_back s r)
  rolled_back s (ok _, t) h = h
  rolled_back s (err _, t) h = h

  answered :
      (space : Space) (vector : Text) (s t : Store Single Double) (page_id : Uuid)
      (revision : Option (Uuid × Bool)) (embedding : Option Uuid)
      → to_update constraints visit space vector s page_id ≡ []
      → HasNoRow (
          (updated_page constraints visit space vector s page_id revision >>= λ updated.
          pure (ingested constraints visit space vector updated revision embedding))
            t)
  answered space vector s t page_id none embedding h = inl refl
  answered space vector s t page_id (some (id, changed)) embedding h = inl (
      ap
        (λ rows. ok (
          ingested constraints visit space vector (map (λ row. row.id) rows) (some (id, changed))
            embedding))
        h)

  ingest_statement-HasNoRow :
      (space : Space) (vector : Text) (s : Store Single Double)
      → HasUniquePages s.pages
      → HasNoRow (ingest_statement constraints visit space vector s)
  unfolding ingest_statement
  ingest_statement-HasNoRow space vector s unique = rolled_back s _ (
      bind-outcome HasNoRow (upserted_page constraints visit s) _ s
        (λ page t h.
          let none_left = nothing_to_update space vector s t page unique h in
          bind-outcome HasNoRow
            (inserted_revision constraints visit space vector page.id
              (the_page constraints visit space vector s page.id))
            _ t
            (λ inserted u _.
              bind-outcome HasNoRow
                (inserted_embedding constraints visit space vector
                  (selected_revision visit s page.id inserted))
                _ u
                (λ new v _.
                  answered space vector s v page.id (selected_revision visit s page.id inserted)
                    (selected_embedding constraints visit space vector s
                      (selected_revision visit s page.id inserted) new)
                    none_left)
                (λ e v _. inr (e, refl)))
            (λ e u _. inr (e, refl)))
        (λ e t _. inr (e, refl)))

module _ (floats : Floats) (numbers : Numbers floats)
    (constraints : Constraints (Floats.Single floats) (Floats.Double floats)) (digests : Digests)
    (encoders : Encoders) where
  without_row :
      {S : Type 0} (r : Result HttpError (Option PageRevision) × S)
      → ((r.0 ≡ ok none) ⊎ ((e : HttpError) × (r.0 ≡ err e)))
      → (e : HttpError) × ((run_on (λ row. or_raise row HttpError.internal) r).0 ≡ err e)
  without_row (ok none, t) h = (HttpError.internal, refl)
  without_row (ok (some row), t) (inl h) = absurd (cc h)
  without_row (ok (some row), t) (inr (e, h)) = absurd (cc h)
  without_row (err e, t) h = (e, refl)

  -- Where pages have distinct identifiers, `ingest_page` never answers with a revision: its last
  -- part updates the page that its first part has written in the same statement, which updates
  -- no row, so that the statement returns none and the call ends in an error.
  pub ingest_page-fails :
      (now : Time) (tenant_id source_id : Uuid) (input : PageIngestRequest (Floats.Single floats))
      (original final : Text) (s : Store (Floats.Single floats) (Floats.Double floats))
      → HasUniquePages s.pages
      → (e : HttpError) × ((ingest_page floats numbers constraints digests encoders now tenant_id
            source_id input original final s).0
          ≡ err e)
  unfolding ingest_page
  ingest_page-fails now tenant_id source_id input original final s unique =
      let visit =
        visit_of floats numbers constraints digests encoders now tenant_id source_id input original
          final in
      let vector = vector_literal floats numbers input.embedding.values in
      without_row (ingest_statement constraints visit (space_of input.embedding) vector s)
        (ingest_statement-HasNoRow constraints visit (space_of input.embedding) vector s unique)
