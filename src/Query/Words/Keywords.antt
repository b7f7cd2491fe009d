-- ===== src/Query/Words/Keywords.antt =====
-- Keywords are bounded in number, distinct, and no stop words.
use eal_api.Prelude.{
  ◌≤◌, ◌<◌, ◌≡◌, refl, sym, ◌∙◌, Bool, true, false, ◌||◌, inl, inr, List, [], ◌∷◌, ◌++◌, arith,
  Bool-cases, ltb, leb, leb→le, leb-false→lt, ◌⊎◌, length, length-append, All, All-append,
}
use eal_api.Prelude.Ordered.{Ord, text_ord}
use eal_api.Prelude.TreeSet.{eqb, contains, insert, contains-insert, eqb_iff_eq, eqb_refl}
use eal_api.Text.{Text, to_ascii_lowercase}
use eal_api.Query.Words.{
  max_keywords, is_stopword, keyword_loop, CharClasses, raw_tokens, extract_keywords,
}

module _ {ℓ} {A : Type ℓ} ⦃o : Ord A⦄ where
  -- No element occurs twice.
  abbrev pub IsDistinct : List A → Type 0
  IsDistinct [] = Unit
  IsDistinct (x ∷ xs) = (contains x xs ≡ false) × IsDistinct xs

  pub contains-append :
      (a : A) (xs ys : List A) → contains a (xs ++ ys) ≡ (contains a xs || contains a ys)
  unfolding contains
  contains-append a [] ys = refl
  contains-append a (x ∷ xs) ys = ground (arith, contains-append a xs ys)

  pub contains_single : (a b : A) → contains a (b ∷ []) ≡ eqb a b
  unfolding contains
  contains_single a b = ground arith

  ne_flip : (a b : A) → eqb a b ≡ false → eqb b a ≡ false
  ne_flip a b h = elim (Bool-cases (eqb b a)) [
    | inl e ↦ absurd (cc (h, eqb_refl a, eqb_iff_eq b a e))
    | inr n ↦ n
  ]

  pub IsDistinct-push :
      (xs : List A) (a : A) → contains a xs ≡ false → IsDistinct xs → IsDistinct (xs ++ a ∷ [])
  unfolding contains
  IsDistinct-push [] a h d = (refl, tt)
  IsDistinct-push (x ∷ xs) a h d =
      ground (
        arith,
        contains-append x xs (a ∷ []),
        contains_single x a,
        ne_flip a x,
        IsDistinct-push xs a,
      )

abbrev IsKeyword : Text → Type 0
IsKeyword word = (3 ≤ length word) × (is_stopword word ≡ false)

record IsGathered (seen output : List Text) : Type 0 where
  few : length output ≤ max_keywords
  distinct : IsDistinct output
  each : All IsKeyword output
  same : (a : Text) → contains a seen ≡ contains a output

-- What `extract_keywords` promises.
pub record IsKeywords (output : List Text) : Type 0 where
  pub few : length output ≤ max_keywords
  pub distinct : IsDistinct output
  pub each : All IsKeyword output

IsKeyword-tests :
    (word : Text) (seen : List Text)
    → (ltb (length word) 3 || (is_stopword word || contains word seen)) ≡ false
    → IsKeyword word × (contains word seen ≡ false)
IsKeyword-tests word seen h = ground arith

module _ (seen output : List Text) (word : Text) (g : IsGathered seen output) where
  pushed_keywords :
      (ltb (length word) 3 || (is_stopword word || contains word seen)) ≡ false
      → length (output ++ word ∷ []) ≤ max_keywords
      → IsGathered (insert word seen) (output ++ word ∷ [])
  pushed_keywords h room =
      let (keyword, new) = IsKeyword-tests word seen h in
      record {
        few = room;
        distinct = IsDistinct-push output word (sym (g.same word) ∙ new) g.distinct;
        each = All-append IsKeyword output (word ∷ []) g.each (keyword, tt);
        same = λ a.
            contains-insert a word seen
            ∙ ground
                (arith, g.same a, contains-append a output (word ∷ []), contains_single a word);
      }

IsGathered→IsKeywords : (seen output : List Text) → IsGathered seen output → IsKeywords output
IsGathered→IsKeywords seen output g = record { few = g.few; distinct = g.distinct; each = g.each }

-- Whether a token is skipped, and whether a keyword fills the output.
abbrev is_skipped : List Text → Text → Bool
is_skipped seen word = ltb (length word) 3 || (is_stopword word || contains word seen)

-- The tokens up to the limit: each that qualifies is in the output.
abbrev pub IsCovered : List Text → List Text → Type 0
IsCovered output tokens =
    (max_keywords ≤ length output)
    ⊎ All
        (λ token.
          IsKeyword (to_ascii_lowercase token) → contains (to_ascii_lowercase token) output ≡ true)
        tokens

-- What was gathered stays, and nothing else than keywords is added.
record IsResult (output result tokens : List Text) : Type 0 where
  keywords : IsKeywords result
  kept : (a : Text) → contains a output ≡ true → contains a result ≡ true
  covered : IsCovered result tokens

skipped_found :
    (seen output result : List Text) (word : Text)
    → IsGathered seen output
    → ((a : Text) → contains a output ≡ true → contains a result ≡ true)
    → is_skipped seen word ≡ true
    → IsKeyword word
    → contains word result ≡ true
skipped_found seen output result word g kept h k = kept word (sym (g.same word) ∙ ground arith)

contains-push : (xs : List Text) (a : Text) → contains a (xs ++ a ∷ []) ≡ true
contains-push xs a = contains-append a xs (a ∷ []) ∙ ground (arith, contains_single a a, eqb_refl a)

contains_pushed :
    (xs : List Text) (a b : Text) → contains a xs ≡ true → contains a (xs ++ b ∷ []) ≡ true
contains_pushed xs a b h = contains-append a xs (b ∷ []) ∙ ground arith

IsCovered-skip :
    (result tokens : List Text) (token : Text)
    → (IsKeyword (to_ascii_lowercase token) → contains (to_ascii_lowercase token) result ≡ true)
    → IsCovered result tokens
    → IsCovered result (token ∷ tokens)
IsCovered-skip result tokens token h (inl full) = inl full
IsCovered-skip result tokens token h (inr all_in) = inr (h, all_in)

keyword_loop-IsResult :
    (seen output tokens : List Text)
    → IsGathered seen output
    → length output < max_keywords
    → IsResult output (keyword_loop seen output tokens) tokens
unfolding keyword_loop
keyword_loop-IsResult seen output [] g room = record {
  keywords = IsGathered→IsKeywords seen output g;
  kept = λ a h. h;
  covered = inr tt;
}
keyword_loop-IsResult seen output (token ∷ tokens) g room =
    let word = to_ascii_lowercase token in
    let pushed = output ++ word ∷ [] in
    let fits : length pushed ≤ max_keywords = omega (arith, length-append output (word ∷ [])) in
    elim (Bool-cases (is_skipped seen word)) [
      | inl skip ↦
          let ih = keyword_loop-IsResult seen output tokens g room in
          rw skip (record {
            keywords = ih.keywords;
            kept = ih.kept;
            covered =
                IsCovered-skip _ tokens token (skipped_found seen output _ word g ih.kept skip)
                  ih.covered;
          })
      | inr take_it ↦
          let g' = pushed_keywords seen output word g take_it fits in
          elim (Bool-cases (leb max_keywords (length pushed))) [
            | inl full ↦
                rw (take_it, full)
                  (record {
                    keywords = IsGathered→IsKeywords (insert word seen) pushed g';
                    kept = λ a. contains_pushed output a word;
                    covered = inl (leb→le max_keywords (length pushed) full);
                  })
            | inr more ↦
                let ih =
                  keyword_loop-IsResult (insert word seen) pushed tokens g'
                    (leb-false→lt max_keywords (length pushed) more) in
                rw (take_it, more)
                  (record {
                    keywords = ih.keywords;
                    kept = λ a h. ih.kept a (contains_pushed output a word h);
                    covered =
                        IsCovered-skip _ tokens token
                          (λ _. ih.kept word (contains-push output word)) ih.covered;
                  })
          ]
    ]

-- The keywords of a query are at most 24 distinct words of at least 3 characters that are no stop
-- words; and they cover the query: unless there are 24, each of its tokens that has 3 characters
-- in lower case and is no stop word is among them.
pub extract_keywords-IsKeywords :
    (classes : CharClasses) (query : Text)
    → IsKeywords (extract_keywords classes query)
      × IsCovered (extract_keywords classes query) (raw_tokens classes query)
unfolding extract_keywords
extract_keywords-IsKeywords classes query =
    let empty : IsGathered [] [] = record {
      few = omega arith;
      distinct = tt;
      each = tt;
      same = λ a. refl;
    } in
    let r = keyword_loop-IsResult [] [] (raw_tokens classes query) empty (omega arith) in
    (r.keywords, r.covered)
