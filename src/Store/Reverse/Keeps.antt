-- ===== src/Store/Reverse/Keeps.antt =====
-- Actions that keep the embeddings of the pages, and what becomes of a transaction.
use eal_api.Prelude.{
  not, suc, ◌≡◌, refl, sym, ap, ◌∙◌, Bool, true, false, Option, none, some, List, [], ◌∷◌, keep,
  length, Result, ok, err, if◌then◌else◌, any,
}
use eal_api.Uuids.{Uuid}
use eal_api.HttpError
use eal_api.HttpError.{HttpError}
use eal_api.Headers.{first}
use eal_api.Store.Rows.{PageRow, MatchRow, EmbeddingRow, Store}
use eal_api.Store.Action.{
  Action, lift, or_raise, for_each, transaction, roll_back, run_on, bind-eq-ok, pure-eq-ok, ◌>>=◌,
  ◌>>◌,
}
use eal_api.Store.Engine.{Constraints}
use eal_api.Store.Pages.{
  Visit, is_page, is_content, page_row, page_revision_row, insert_page, upsert_found, upserted_page,
  insert_page_revision,
}
use eal_api.Store.Matches.{insert_match, is_match_key}
use eal_api.Store.Reverse.Revision.{page_statement, upsert_page_revision}

module _ {Single Double : Type 0} where
  -- The stored embeddings of pages stay as they were, whether or not the call succeeds.
  abbrev pub Keeps : {A : Type 0} → Action (Store Single Double) A → Type 0
  Keeps m = (s : Store Single Double) → (m s).1.embeddings ≡ s.embeddings

  ran_on :
      {A B : Type 0} (f : A → Action (Store Single Double) B) (rows : List EmbeddingRow)
      (r : Result HttpError A × Store Single Double)
      → ((a : A) → Keeps (f a))
      → r.1.embeddings ≡ rows
      → (run_on f r).1.embeddings ≡ rows
  ran_on f rows (ok a, t) each h = each a t ∙ h
  ran_on f rows (err e, t) each h = h

  pub bind-Keeps :
      {A B : Type 0} (m : Action (Store Single Double) A) (f : A → Action (Store Single Double) B)
      → Keeps m
      → ((a : A) → Keeps (f a))
      → Keeps (m >>= f)
  bind-Keeps m f h each s = ran_on f s.embeddings (m s) each (h s)

  rolled_back :
      {A : Type 0} (s : Store Single Double) (r : Result HttpError A × Store Single Double)
      → r.1.embeddings ≡ s.embeddings
      → (roll_back s r).1.embeddings ≡ s.embeddings
  rolled_back s (ok a, t) h = h
  rolled_back s (err e, t) h = refl

  pub for_each-Keeps :
      {A B : Type 0} (f : A → Action (Store Single Double) B)
      → ((a : A) → Keeps (f a))
      → (xs : List A) → Keeps (for_each f xs)
  for_each-Keeps f each [] s = refl
  for_each-Keeps f each (x ∷ xs) s =
      bind-Keeps (f x) _ (each x)
        (λ b. bind-Keeps (for_each f xs) _ (for_each-Keeps f each xs) (λ rest s. refl)) s

  pub or_raise-Keeps : {A : Type 0} (o : Option A) (e : HttpError) → Keeps (or_raise o e)
  or_raise-Keeps none e s = refl
  or_raise-Keeps (some a) e s = refl

  chosen :
      {A : Type 0} (b : Bool) (x y : Result HttpError A × Store Single Double)
      (rows : List EmbeddingRow)
      → x.1.embeddings ≡ rows
      → y.1.embeddings ≡ rows
      → (if b then x else y).1.embeddings ≡ rows
  chosen true x y rows h k = h
  chosen false x y rows h k = k

  pub for_each-length :
      {A B : Type 0} (f : A → Action (Store Single Double) B) (xs : List A)
      (s t : Store Single Double) (ys : List B)
      → for_each f xs s ≡ (ok ys, t)
      → length ys ≡ length xs
  for_each-length f [] s t ys h = ap length (sym (pure-eq-ok h).0)
  for_each-length f (x ∷ xs) s t ys h =
      let (y, u, _, h₁) = bind-eq-ok (f x) _ h in
      let (rest, v, each, h₂) = bind-eq-ok (for_each f xs) _ h₁ in
      ap length (sym (pure-eq-ok h₂).0) ∙ ap suc (for_each-length f xs u v rest each)

module _ {S A : Type 0} {t : S} where
  committed :
      (s : S) (r : Result HttpError A × S) {a : A} → roll_back s r ≡ (ok a, t) → r ≡ (ok a, t)
  committed s (ok _, u) h = h
  committed s (err _, u) h = absurd (cc h)

  pub succeeded :
      (r : Result HttpError (Unit {0})) (m : Action S A) {s : S} {a : A}
      → (lift r >> transaction m) s ≡ (ok a, t)
      → (u : Unit {0}) × (r ≡ ok u) × (m s ≡ (ok a, t))
  succeeded (ok u) m {s} h = (u, refl, committed s (m s) h)
  succeeded (err _) m h = absurd (cc h)

module _ {Single Double : Type 0} (constraints : Constraints Single Double) where
  pub insert_match-Keeps : (row : MatchRow Double) → Keeps (insert_match constraints row)
  unfolding insert_match
  insert_match-Keeps row s = chosen (not (constraints.checks_match s row)) _ _ s.embeddings refl (
      chosen (any (is_match_key row.tenant_id row.canonical_match_key) s.matches) _ _ s.embeddings
        refl (chosen (constraints.admits_match s row) _ _ s.embeddings refl refl))

  module _ (visit : Visit) where
    upserted_page-Keeps : (s : Store Single Double) → Keeps (upserted_page constraints visit s)
    unfolding upserted_page insert_page
    upserted_page-Keeps s t =
        chosen (not (constraints.checks_page t (page_row visit (constraints.gen_random_uuid t)))) _
          _ t.embeddings refl (found (first (keep (is_page visit) s.pages)) t)
      where
        found : (o : Option PageRow) → Keeps (upsert_found constraints visit o)
        found none t =
            chosen (constraints.admits_page t (page_row visit (constraints.gen_random_uuid t))) _ _
              t.embeddings refl refl
        found (some old) t = refl

    insert_page_revision-Keeps :
        (page_id : Uuid) (predecessor : Option Uuid)
        → Keeps (insert_page_revision constraints visit page_id predecessor)
    unfolding insert_page_revision
    insert_page_revision-Keeps page_id predecessor t =
        let row = page_revision_row visit (constraints.gen_random_uuid t) page_id predecessor in
        chosen (not (constraints.checks_page_revision t row)) _ _ t.embeddings refl (
          chosen (any (is_content visit page_id) t.page_revisions) _ _ t.embeddings refl
            (chosen (constraints.admits_page_revision t row) _ _ t.embeddings refl refl))

    page_statement-Keeps : Keeps (page_statement constraints visit)
    unfolding page_statement
    page_statement-Keeps s = rolled_back s _ (
        bind-Keeps (upserted_page constraints visit s) _ (upserted_page-Keeps s)
          (λ page.
            bind-Keeps (insert_page_revision constraints visit page.id page.latest_revision_id) _
              (insert_page_revision-Keeps page.id page.latest_revision_id) (λ inserted t. refl))
          s)

    pub upsert_page_revision-Keeps : Keeps (upsert_page_revision constraints visit)
    unfolding upsert_page_revision
    upsert_page_revision-Keeps =
        bind-Keeps (page_statement constraints visit) _ page_statement-Keeps (λ row.
          bind-Keeps (or_raise row HttpError.internal) _ (or_raise-Keeps row HttpError.internal)
            (λ page t. refl))
