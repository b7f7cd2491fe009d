-- ===== src/SourceScope/Filters.antt =====
-- Source filters in canonical form: parsing a normalised list gives the same sources back.
use eal_api.Prelude.{
  ℕ, suc, ◌≤◌, ◌<◌, ◌≡◌, refl, sym, ap, ◌∙◌, true, false, not, inl, inr, List, [], ◌∷◌, ◌++◌, map,
  some, arith, Bool-cases, ltb, ltb-false→le, le→ltb-false, is_empty, length, all, all-append, All,
  Result, ok, collect, >>=-eq-ok, unwrap_or,
}
use eal_api.Prelude.TreeSet.{from_list, IsSorted, from_list-IsSorted, from_list-eq_self}
use eal_api.Prelude.TreeSet.Laws.{length-from_list-le, from_list-All}
use eal_api.Prelude.Ordered.{nat_ord}
use eal_api.Text.{Text, text, trim, strip_prefix, is_whitespace, is_ascii_hexdigit}
use eal_api.Text.Trim.{trim_none}
use eal_api.Uuids.{Uuid, Uuids, uuid_limit, is_uuid_char}
use eal_api.SourceScope.{
  max_source_filters, source_prefix, parse_source_filter, parse_source_filter_ids, canonical_filter,
  normalize_source_filters, validate_source_filters,
}

strip_prefix-append : (p s : Text) → strip_prefix p (p ++ s) ≡ some s
unfolding strip_prefix
strip_prefix-append [] s = refl
strip_prefix-append (a ∷ p) s = ground (arith, strip_prefix-append p s)

uuid_char_not_white : (c : ℕ) → is_uuid_char c ≡ true → not (is_whitespace c) ≡ true
unfolding is_uuid_char is_ascii_hexdigit is_whitespace
uuid_char_not_white c h = ground arith

uuid_chars_not_white :
    (s : Text) → all is_uuid_char s ≡ true → all (λ c. not (is_whitespace c)) s ≡ true
uuid_chars_not_white [] h = refl
uuid_chars_not_white (c ∷ s) h = ground (arith, uuid_char_not_white c, uuid_chars_not_white s)

prefix_not_white : all (λ c. not (is_whitespace c)) source_prefix ≡ true
unfolding source_prefix is_whitespace
prefix_not_white = refl

prefix_nonempty : (s : Text) → is_empty (source_prefix ++ s) ≡ false
unfolding source_prefix text
prefix_nonempty s = refl

length-map {ℓ κ} :
    {A : Type ℓ} {B : Type κ} (f : A → B) (xs : List A) → length (map f xs) ≡ length xs
length-map f [] = refl
length-map f (x ∷ xs) = ap suc (length-map f xs)

length-collect {ℓ κ ι} :
    {E : Type ℓ} {A : Type κ} {B : Type ι} (f : B → Result E A) (xs : List B) (ys : List A)
    → collect f xs ≡ ok ys
    → length ys ≡ length xs
length-collect f [] ys h = ground arith
length-collect f (x ∷ xs) ys h =
    let (a, _, rest) = >>=-eq-ok (f x) _ h in
    let (later, e, last) = >>=-eq-ok (collect f xs) _ rest in
    ground (arith, length-collect f xs later e)

module _ (uuids : Uuids) where
  open uuids use {parse_str, to_text, parse_str-lt, parse_str-to_text, to_text_chars}

  canonical_not_white :
      (u : Uuid) → all (λ c. not (is_whitespace c)) (canonical_filter uuids u) ≡ true
  unfolding canonical_filter
  canonical_not_white u =
      all-append (λ c. not (is_whitespace c)) source_prefix (to_text u)
      ∙ (rw (prefix_not_white, uuid_chars_not_white (to_text u) (to_text_chars u)))

  -- A canonical filter parses to the source it names.
  parse_source_filter-canonical :
      (u : Uuid) → u < uuid_limit → parse_source_filter uuids (canonical_filter uuids u) ≡ ok u
  unfolding parse_source_filter canonical_filter
  parse_source_filter-canonical u h = rw (
    trim_none (source_prefix ++ to_text u) (unfold canonical_filter in canonical_not_white u),
    prefix_nonempty (to_text u),
    strip_prefix-append source_prefix (to_text u),
    parse_str-to_text u h,
  )

  parse_source_filter-lt :
      (v : Text) (u : Uuid) → parse_source_filter uuids v ≡ ok u → u < uuid_limit
  unfolding parse_source_filter
  parse_source_filter-lt v u h =
      ground (arith, parse_str-lt (unwrap_or (strip_prefix source_prefix (trim v)) (trim v)) u)

  collect-lt :
      (vs : List Text) (us : List Uuid)
      → collect (parse_source_filter uuids) vs ≡ ok us
      → All (λ u. u < uuid_limit) us
  collect-lt [] us h = ground arith
  collect-lt (v ∷ vs) us h =
      let (a, e, rest) = >>=-eq-ok (parse_source_filter uuids v) _ h in
      let (later, e', last) = >>=-eq-ok (collect (parse_source_filter uuids) vs) _ rest in
      ground (arith, parse_source_filter-lt v a e, collect-lt vs later e')

  collect-canonical :
      (us : List Uuid)
      → All (λ u. u < uuid_limit) us
      → collect (parse_source_filter uuids) (map (canonical_filter uuids) us) ≡ ok us
  collect-canonical [] h = refl
  collect-canonical (u ∷ us) h = rw (parse_source_filter-canonical u h.0, collect-canonical us h.1)

  record IsParsed (us : List Uuid) : Type 0 where
    sorted : IsSorted us
    bounded : length us ≤ max_source_filters
    valid : All (λ u. u < uuid_limit) us

  parse_source_filter_ids-IsParsed :
      (vs : List Text) (us : List Uuid) → parse_source_filter_ids uuids vs ≡ ok us → IsParsed us
  unfolding parse_source_filter_ids
  parse_source_filter_ids-IsParsed vs us h =
      elim (Bool-cases (ltb max_source_filters (length vs))) [
        | inl many ↦ absurd (cc (rw many at h))
        | inr few ↦
            let (ids, e, last) =
              >>=-eq-ok (collect (parse_source_filter uuids) vs) _ (rw few at h) in
            let same : from_list ids ≡ us = cc last in
            let fits : length (from_list ids) ≤ max_source_filters = omega (
              arith,
              length-from_list-le ids,
              length-collect (parse_source_filter uuids) vs ids e,
              ltb-false→le max_source_filters (length vs) few,
            ) in
            record {
              sorted = rw (← same) (from_list-IsSorted ids);
              bounded = rw (← same) fits;
              valid = rw (← same) (from_list-All _ ids (collect-lt vs ids e));
            }
      ]

  parse_source_filter_ids-canonical :
      (us : List Uuid)
      → IsParsed us
      → parse_source_filter_ids uuids (map (canonical_filter uuids) us) ≡ ok us
  unfolding parse_source_filter_ids
  parse_source_filter_ids-canonical us p =
      let few : ltb max_source_filters (length (map (canonical_filter uuids) us)) ≡ false =
        le→ltb-false max_source_filters _
          (omega (arith, p.bounded, length-map (canonical_filter uuids) us)) in
      rw (few, collect-canonical us p.valid, from_list-eq_self us p.sorted)

  -- Normalising a list of filters that is accepted keeps the sources it names, gives at most 100
  -- filters that pass validation, and normalising again changes nothing.
  pub normalize_source_filters-stable :
      (vs ws : List Text)
      → normalize_source_filters uuids vs ≡ ok ws
      → (parse_source_filter_ids uuids ws ≡ parse_source_filter_ids uuids vs)
        × (length ws ≤ max_source_filters)
        × (validate_source_filters uuids ws ≡ ok tt)
        × (normalize_source_filters uuids ws ≡ ok ws)
  unfolding normalize_source_filters validate_source_filters
  normalize_source_filters-stable vs ws h =
      let (us, e, last) = >>=-eq-ok (parse_source_filter_ids uuids vs) _ h in
      let p = parse_source_filter_ids-IsParsed vs us e in
      let same : map (canonical_filter uuids) us ≡ ws = cc last in
      let again = parse_source_filter_ids-canonical us p in
      rw (← same) (
        again ∙ sym e,
        omega (arith, p.bounded, length-map (canonical_filter uuids) us),
        rw again,
        rw again,
      )
