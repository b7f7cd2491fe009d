-- ===== src/Store/Search/Pages.antt =====
-- The pages of a search, one after another, are the whole ordered result.
use eal_api.Prelude.{
  ℕ, zero, suc, ◌≤◌, ◌<◌, ◌≡◌, refl, sym, ap, subst, ◌∙◌, Bool, true, false, ◌&&◌, Option, none,
  some, List, [], ◌∷◌, ◌++◌, keep, take, length, All, All-keep, All-map, Result, ok, collect, ltb,
  ◌==◌, Bool-cases, inl, inr, arith, Result-cases,
}
use eal_api.Uuids.{Uuid}
use eal_api.HttpError.{HttpError}
use eal_api.Embedding.{VectorNormalization}
use eal_api.Floats.{Floats}
use eal_api.Contracts.{SearchCursor, Contracts}
use eal_api.Store.Rows.{Store}
use eal_api.Store.Order.{
  IsOrdered, insert_by, order_by, insert_by-All, order_by-All, order_by-IsOrdered, keep-order_by,
  take-All,
}
use eal_api.Store.Order.Joins.{All-kept}
use eal_api.Store.Order.Paging.{
  last, last-All, rest_after, IsOrdered-keep, keep-keep, take-all, take-take, length-take,
  collect-take, length-collect, last-collect,
}
use eal_api.Store.Engine.{Numbers}
use eal_api.Store.Search.{
  Joined, SearchRecord, SearchPage, SearchRequest, filtered, nearer, is_after, distance_of,
  ordered_rows, decode_search_row, page_of, search_embeddings, cursor_of, decoded, into_record,
}

-- The rows are of distinct embeddings, which the primary keys of the tables imply.
abbrev pub HasDistinctEmbeddings : List Joined → Type 0
HasDistinctEmbeddings [] = Unit
HasDistinctEmbeddings (x ∷ xs) =
    All (λ y. (x.0.0.id == y.0.0.id) ≡ false) xs × HasDistinctEmbeddings xs

module _ (before : Joined → Joined → Bool) where
  insert_by-distinct :
      (x : Joined) (xs : List Joined)
      → All (λ y. (x.0.0.id == y.0.0.id) ≡ false) xs
      → HasDistinctEmbeddings xs
      → HasDistinctEmbeddings (insert_by before x xs)
  unfolding insert_by
  insert_by-distinct x [] h k = (tt, tt)
  insert_by-distinct x (y ∷ ys) h k = elim (Bool-cases (before x y)) [
    | inl e ↦ rw e (h, k)
    | inr e ↦
        let new : (y.0.0.id == x.0.0.id) ≡ false = ground (arith, h.0) in
        rw e (
          insert_by-All before (λ z. (y.0.0.id == z.0.0.id) ≡ false) x ys new k.0,
          insert_by-distinct x ys h.1 k.1,
        )
  ]

  order_by-distinct :
      (xs : List Joined) → HasDistinctEmbeddings xs → HasDistinctEmbeddings (order_by before xs)
  unfolding order_by
  order_by-distinct [] h = tt
  order_by-distinct (x ∷ xs) h =
      insert_by-distinct x (order_by before xs)
        (order_by-All before (λ y. (x.0.0.id == y.0.0.id) ≡ false) xs h.0)
        (order_by-distinct xs h.1)

-- The distances of the rows are read back from JSON as they are.
abbrev pub HasExactDistances :
    (floats : Floats) (numbers : Numbers floats)
    (contracts : Contracts (Floats.Single floats) (Floats.Double floats))
    → SearchRequest floats numbers contracts
    → List Joined
    → Type 0
HasExactDistances floats numbers contracts request = All (λ row.
    numbers.from_json (distance_of floats numbers contracts request row)
    ≡ distance_of floats numbers contracts request row)

module _ (floats : Floats) (numbers : Numbers floats)
    (contracts : Contracts (Floats.Single floats) (Floats.Double floats)) (tenant_id : Uuid)
    (request : SearchRequest floats numbers contracts) where
  abbrev key : Joined → SearchCursor (Floats.Double floats)
  key row = record {
    distance = distance_of floats numbers contracts request row;
    embedding_id = row.0.0.id;
  }

  abbrev closer : Joined → Joined → Bool
  closer a b = is_after floats numbers contracts request (some (key a)) b

  abbrev IsExactRow : Joined → Type 0
  IsExactRow row =
      numbers.from_json (distance_of floats numbers contracts request row)
      ≡ distance_of floats numbers contracts request row

  abbrev IsExact : List Joined → Type 0
  IsExact = HasExactDistances floats numbers contracts request

  abbrev before : Joined → Joined → Bool
  before = nearer floats numbers contracts request

  before-IsTotal : (a b : Joined) → before a b ≡ false → before b a ≡ true
  before-IsTotal a b h = ground arith

  before-IsTransitive : (a b c : Joined) → before a b ≡ true → before b c ≡ true → before a c ≡ true
  before-IsTransitive a b c h k = ground arith

  closer-irreflexive : (a : Joined) → closer a a ≡ false
  closer-irreflexive a = ground arith

  closer-asymmetric : (a b : Joined) → closer a b ≡ true → closer b a ≡ false
  closer-asymmetric a b h = ground arith

  strict : (xs : List Joined) → IsOrdered before xs → HasDistinctEmbeddings xs → IsOrdered closer xs
  strict [] h k = tt
  strict (x ∷ xs) h k = (each xs h.0 k.0, strict xs h.1 k.1)
    where
      each :
          (ys : List Joined)
          → All (λ y. before x y ≡ true) ys
          → All (λ y. (x.0.0.id == y.0.0.id) ≡ false) ys
          → All (λ y. closer x y ≡ true) ys
      each [] h k = tt
      each (y ∷ ys) h k = (ground (arith, h.0, k.0), each ys h.1 k.1)

  abbrev from : Joined → Bool
  from = is_after floats numbers contracts request request.cursor

  after-from : (row y : Joined) → from row ≡ true → closer row y ≡ true → from y ≡ true
  after-from row y h k = later request.cursor h
    where
      later :
          (c : Option (SearchCursor (Floats.Double floats)))
          → is_after floats numbers contracts request c row ≡ true
          → is_after floats numbers contracts request c y ≡ true
      later none h = refl
      later (some c) h = ground (arith, h, k)

  module _ (s : Store (Floats.Single floats) (Floats.Double floats)) where
    abbrev all_rows : List Joined
    all_rows = filtered floats numbers contracts tenant_id request s

    abbrev rows_from : SearchRequest floats numbers contracts → List Joined
    rows_from other = ordered_rows floats numbers contracts tenant_id other s

    abbrev next_request :
        SearchCursor (Floats.Double floats) → SearchRequest floats numbers contracts
    next_request cursor = record request { cursor = some cursor }

    kept :
        (p : Joined → Bool) → order_by before (keep p all_rows) ≡ keep p (order_by before all_rows)
    kept p = sym (keep-order_by before before-IsTotal before-IsTransitive p all_rows)

    rows_from-strict : HasDistinctEmbeddings all_rows → IsOrdered closer (rows_from request)
    unfolding ordered_rows
    rows_from-strict distinct = subst (IsOrdered closer) (sym (kept from)) (
        IsOrdered-keep closer from (order_by before all_rows) (
          strict (order_by before all_rows)
            (order_by-IsOrdered before before-IsTotal before-IsTransitive all_rows)
            (order_by-distinct before all_rows distinct)))

    rows_from-All : All (λ y. from y ≡ true) (rows_from request)
    unfolding ordered_rows
    rows_from-All =
        order_by-All before (λ y. from y ≡ true) (keep from all_rows) (All-keep from all_rows)

    rows_after :
        (row : Joined)
        → from row ≡ true
        → rows_from (next_request (key row)) ≡ keep (closer row) (rows_from request)
    unfolding ordered_rows filtered
    rows_after row h =
        kept (closer row)
        ∙ sym (keep-keep (closer row) from (order_by before all_rows) (λ y k. after-from row y h k))
        ∙ ap (keep (closer row)) (sym (kept from))

    rows_from-IsExact : IsExact all_rows → IsExact (rows_from request)
    unfolding ordered_rows
    rows_from-IsExact exact =
        order_by-All before IsExactRow (keep from all_rows)
          (All-map (λ row h. h.0) (keep from all_rows) (All-kept IsExactRow from all_rows exact))

    -- After a page of rows come those of the request whose cursor is the last of them.
    pages_join :
        (n : ℕ) (row : Joined)
        → HasDistinctEmbeddings all_rows
        → last (take (suc n) (rows_from request)) ≡ some row
        → rows_from request ≡ take (suc n) (rows_from request) ++ rows_from (next_request (key row))
    pages_join n row distinct h =
        let member =
          last-All (λ y. from y ≡ true) (take (suc n) (rows_from request)) row
            (take-All (λ y. from y ≡ true) (suc n) (rows_from request) rows_from-All) h in
        rest_after closer closer-irreflexive closer-asymmetric n (rows_from request) row
          (rows_from-strict distinct) h
        ∙ ap (λ l. take (suc n) (rows_from request) ++ l) (sym (rows_after row member))

    abbrev decode : Joined → Result HttpError (SearchRecord (Floats.Double floats))
    decode = decode_search_row floats numbers contracts request

    -- Without a next cursor the page is all of the rows from the request's cursor on; with one it
    -- is `limit` rows at their head, before those of the request with the next cursor.
    abbrev pub Continues :
        ℕ
        → List (SearchRecord (Floats.Double floats))
        → Option (SearchCursor (Floats.Double floats))
        → Type 0
    Continues limit records none = collect decode (rows_from request) ≡ ok records
    Continues limit records (some cursor) =
        (length records ≡ limit)
        × ((shown : List Joined) × (collect decode shown ≡ ok records)
            × (rows_from request ≡ shown ++ rows_from (next_request cursor)))

    abbrev read_key : Joined → SearchCursor (Floats.Double floats)
    read_key row = record (key row) { distance = numbers.from_json (key row).distance }

    decoded-key :
        (row : Joined) (b : SearchRecord (Floats.Double floats)) (o : Option VectorNormalization)
        → decoded floats numbers contracts request row o ≡ ok b
        → cursor_of floats numbers contracts (some b) ≡ some (read_key row)
    decoded-key row b none h = absurd (cc h)
    decoded-key row b (some normalization) h =
        let q : into_record floats numbers contracts request row normalization ≡ b = cc h in
        subst (λ r. cursor_of floats numbers contracts (some r) ≡ some (read_key row)) q refl

    decode-key :
        (row : Joined) (b : SearchRecord (Floats.Double floats))
        → decode row ≡ ok b
        → cursor_of floats numbers contracts (some b) ≡ some (read_key row)
    unfolding decode_search_row
    decode-key row b h =
        let distance = distance_of floats numbers contracts request row in
        elim (Bool-cases (
          numbers.double_is_finite distance
          && numbers.double_is_finite (numbers.one_minus distance))) [
            | inl e ↦
                decoded-key row b (contracts.read_normalization row.0.0.space.normalization)
                  (rw e at h)
            | inr e ↦ absurd (cc (rw e at h))
          ]

    full_page :
        (m : ℕ) (rows : List Joined) (found : List (SearchRecord (Floats.Double floats)))
        → HasDistinctEmbeddings all_rows
        → IsExact all_rows
        → rows ≡ take (suc m) (rows_from request)
        → length found ≡ suc m
        → collect decode rows ≡ ok found
        → Continues (suc m) found (cursor_of floats numbers contracts (last found))
    full_page m [] found distinct exact e k h = absurd (cc (k, length-collect decode [] found h))
    full_page m (x ∷ xs) found distinct exact e k h =
        let (a, b, first, newest, read) = last-collect decode x xs found h in
        let place : last (take (suc m) (rows_from request)) ≡ some a = ap last (sym e) ∙ first in
        let joined = pages_join m a distinct place in
        let same : IsExactRow a =
          last-All IsExactRow (take (suc m) (rows_from request)) a
            (take-All IsExactRow (suc m) (rows_from request) (rows_from-IsExact exact)) place in
        let c : cursor_of floats numbers contracts (last found) ≡ some (key a) =
          ap (cursor_of floats numbers contracts) newest
          ∙ decode-key a b read
          ∙ ap (λ d. some (record (key a) { distance = d })) same in
        subst (Continues (suc m) found) (sym c) (
          k,
          (take (suc m) (rows_from request), subst (λ l. collect decode l ≡ ok found) e h, joined),
        )

    page-Continues :
        (limit : ℕ) (found : List (SearchRecord (Floats.Double floats)))
        → 0 < limit
        → HasDistinctEmbeddings all_rows
        → IsExact all_rows
        → collect decode (take (suc limit) (rows_from request)) ≡ ok found
        → Continues limit
            (page_of floats numbers contracts limit found).records
            (page_of floats numbers contracts limit found).response.next_cursor
    unfolding page_of
    page-Continues zero found positive distinct exact h = absurd (omega (arith, positive))
    page-Continues (suc m) found positive distinct exact h =
        let same = length-collect decode (take (suc (suc m)) (rows_from request)) found h in
        elim (Bool-cases (ltb (suc m) (length found))) [
          | inl e ↦ rw e (
              full_page m (take (suc m) (take (suc (suc m)) (rows_from request)))
                (take (suc m) found) distinct exact (take-take (suc m) (rows_from request))
                (length-take (suc m) found e)
                (collect-take decode (suc m) (take (suc (suc m)) (rows_from request)) found h))
          | inr e ↦
              let short : length (take (suc (suc m)) (rows_from request)) ≤ suc m =
                ground (arith, e, same) in
              rw e (
                subst (λ l. collect decode l ≡ ok found)
                  (take-all (suc m) (rows_from request) short) h)
        ]

    -- Where the request's limit is positive, the rows are of distinct embeddings, and their
    -- distances are read back from JSON as they are, a search that answers changes nothing, and its
    -- page is the next part of the tenant's ordered result: with no next cursor all that was left
    -- from the request's cursor on, and otherwise IsExactRow `limit` rows, which with the rows that
    -- the next cursor leads to are all that was left; so following the cursors shows every row
    -- once.
    pub search_embeddings-Continues :
        (t : Store (Floats.Single floats) (Floats.Double floats))
        (page : SearchPage (Floats.Double floats))
        → 0 < request.limit
        → HasDistinctEmbeddings all_rows
        → HasExactDistances floats numbers contracts request all_rows
        → search_embeddings floats numbers contracts tenant_id request s ≡ (ok page, t)
        → (t ≡ s) × Continues request.limit page.records page.response.next_cursor
    unfolding search_embeddings
    search_embeddings-Continues t page positive distinct exact h =
        elim (Result-cases (collect decode (take (suc request.limit) (rows_from request)))) [
          | inl (found, e) ↦
              let run : page_of floats numbers contracts request.limit found ≡ page =
                cc (rw e at h) in
              (
                cc (rw e at h),
                subst (λ p. Continues request.limit p.records p.response.next_cursor) run
                    (page-Continues request.limit found positive distinct exact e),
              )
          | inr (error, e) ↦ absurd (cc (rw e at h))
        ]
