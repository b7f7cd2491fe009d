-- ===== src/Query/Analysis/Views.antt =====
-- The analysis of a query computes the numbered views that a direct description gives.
use eal_api.Prelude.{
  ℕ, suc, ◌+◌, ◌^◌, ◌≤◌, ◌≡◌, ◌≢◌, ◌↔◌, refl, sym, ap, ◌∙◌, true, false, inl, inr, List, [], ◌∷◌,
  ◌++◌, append_assoc, append-nil, arith, Bool-cases, lt→leb-false, in_range, length, length-append,
  ok, ◌>>=◌, map_err, map_err-then,
}
use eal_api.Text.{Text, collapse_whitespace}
use eal_api.Query.Words.{
  CharClasses, max_keywords, max_entities, extract_keywords, extract_entities,
}
use eal_api.Query.Words.Keywords.{extract_keywords-IsKeywords}
use eal_api.Query.Words.Entities.{extract_entities-IsDistinct}
use eal_api.Query.Analysis.{
  EmbeddingInputKind, query, keyword, entity, EmbeddingInput, QueryTextViews, Contracts, error,
  push_input, push_inputs, analyze_query,
}

-- The values as inputs of one kind and weight, numbered from `n`.
abbrev pub numbered : EmbeddingInputKind → ℕ → ℕ → List Text → List EmbeddingInput
numbered kind weight n [] = []
numbered kind weight n (value ∷ values) =
    record { kind = kind; ordinal = n; text = value; weight = weight }
    ∷ numbered kind weight (suc n) values

-- The views of a query, described directly.
abbrev pub views_of : CharClasses → Text → QueryTextViews
views_of classes value =
    let whole = collapse_whitespace value in
    let keywords = extract_keywords classes whole in
    let entities = extract_entities classes whole in
    record {
      query_text = whole;
      keywords = keywords;
      entities = entities;
      embedding_inputs =
          (numbered query 12 0 (whole ∷ []) ++ numbered keyword 6 1 keywords)
          ++ numbered entity 9 (1 + length keywords) entities;
    }

length-numbered :
    (kind : EmbeddingInputKind) (weight n : ℕ) (values : List Text)
    → length (numbered kind weight n values) ≡ length values
length-numbered kind weight n [] = refl
length-numbered kind weight n (value ∷ values) = ap suc (length-numbered kind weight (suc n) values)

module _ (contracts : Contracts) where
  open contracts use {max_embedding_input_chars, max_embedding_inputs, validate}

  push_input_room :
      (inputs : List EmbeddingInput) (kind : EmbeddingInputKind) (value : Text) (weight : ℕ)
      → suc (length inputs) ≤ max_embedding_inputs
      → suc (length inputs) ≤ 2 ^ 16
      → push_input contracts inputs kind value weight
        ≡ ok (inputs ++ numbered kind weight (length inputs) (value ∷ []))
  unfolding push_input
  push_input_room inputs kind value weight room small =
      rw
        (
          lt→leb-false max_embedding_inputs (length inputs) room,
          lt→leb-false (2 ^ 16) (length inputs) small,
        )
        refl

  push_inputs_room :
      (inputs : List EmbeddingInput) (kind : EmbeddingInputKind) (weight : ℕ) (values : List Text)
      → length inputs + length values ≤ max_embedding_inputs
      → length inputs + length values ≤ 2 ^ 16
      → push_inputs contracts inputs kind weight values
        ≡ ok (inputs ++ numbered kind weight (length inputs) values)
  unfolding push_inputs
  push_inputs_room inputs kind weight [] room small = ap ok (sym (append-nil inputs))
  push_inputs_room inputs kind weight (value ∷ values) room small =
      let pushed = inputs ++ numbered kind weight (length inputs) (value ∷ []) in
      let longer : length pushed ≡ suc (length inputs) =
        omega (arith, length-append inputs (numbered kind weight (length inputs) (value ∷ []))) in
      let rest =
        push_inputs_room pushed kind weight values (omega (arith, longer))
          (omega (arith, longer)) in
      rw (push_input_room inputs kind value weight (omega arith) (omega arith), rest, longer)
        (ap ok (append_assoc inputs _ _))

  module _ (classes : CharClasses)
      (room : 1 + max_keywords + max_entities ≤ max_embedding_inputs) where
    analyze_query-in_range :
        (value : Text)
        → in_range 3 max_embedding_input_chars (length (collapse_whitespace value)) ≡ true
        → analyze_query contracts classes value ≡ (
            map_err (λ e. error e.code e.message) (validate (views_of classes value)) >>= λ _.
            ok (views_of classes value))
    unfolding analyze_query
    analyze_query-in_range value fits =
        let whole = collapse_whitespace value in
        let keywords = extract_keywords classes whole in
        let entities = extract_entities classes whole in
        let first = numbered query 12 0 (whole ∷ []) in
        let more = first ++ numbered keyword 6 1 keywords in
        let (k, _) = extract_keywords-IsKeywords classes whole in
        let (e, _) = extract_entities-IsDistinct classes whole in
        let long : length more ≡ 1 + length keywords = omega (
          arith,
          length-append first (numbered keyword 6 1 keywords),
          length-numbered keyword 6 1 keywords,
        ) in
        let pushed =
          push_inputs_room more entity 9 entities (omega (arith, k.few, e, room, long))
            (omega (arith, k.few, e, long)) in
        rw
          (
            fits,
            push_input_room [] query whole 12 (omega (arith, room)) (omega arith),
            push_inputs_room first keyword 6 keywords (omega (arith, k.few, room))
                (omega (arith, k.few)),
            pushed,
            long,
          )
          refl

    analyze_query-out_of_range :
        (value : Text)
        → in_range 3 max_embedding_input_chars (length (collapse_whitespace value)) ≡ false
        → (views : QueryTextViews) → analyze_query contracts classes value ≢ ok views
    unfolding analyze_query
    analyze_query-out_of_range value long views h = cc (rw long at h)

    -- With room for 37 inputs, a query is accepted exactly if, its whitespace collapsed, it has 3
    -- to the greatest number of characters, and the contract accepts its views; these then are the
    -- query, its keywords and its entities, with the inputs in this order numbered from 0.
    pub analyze_query-eq-ok_iff :
        (value : Text) (views : QueryTextViews)
        → (analyze_query contracts classes value ≡ ok views) ↔ (
            (in_range 3 max_embedding_input_chars (length (collapse_whitespace value)) ≡ true)
            × (validate (views_of classes value) ≡ ok tt)
            × (views ≡ views_of classes value))
    analyze_query-eq-ok_iff value views = (to, from)
      where
        to :
            analyze_query contracts classes value ≡ ok views
            → (in_range 3 max_embedding_input_chars (length (collapse_whitespace value)) ≡ true)
              × (validate (views_of classes value) ≡ ok tt)
              × (views ≡ views_of classes value)
        to h =
            elim (Bool-cases
              (in_range 3 max_embedding_input_chars (length (collapse_whitespace value)))) [
                | inl fits ↦
                    let (_, valid, last) =
                      map_err-then _ (validate (views_of classes value)) _
                        (sym (analyze_query-in_range value fits) ∙ h) in
                    (fits, valid, cc last)
                | inr long ↦ absurd (analyze_query-out_of_range value long views h)
              ]

        from :
            (in_range 3 max_embedding_input_chars (length (collapse_whitespace value)) ≡ true)
              × (validate (views_of classes value) ≡ ok tt)
              × (views ≡ views_of classes value)
            → analyze_query contracts classes value ≡ ok views
        from (fits, valid, same) = rw (analyze_query-in_range value fits, valid, same) refl
