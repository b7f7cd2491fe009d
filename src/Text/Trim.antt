-- ===== src/Text/Trim.antt =====
-- Trimming: what is cut off, and that a second trim cuts nothing.
use eal_api.Prelude.{ℕ, ◌≡◌, refl, ap, ◌∙◌, Bool, true, not, [], ◌∷◌, arith, all}
use eal_api.Text.{Text, trim_start_matches, trim_end_matches, trim_matches, trim, is_whitespace}

module _ (p : ℕ → Bool) where
  trim_end_matches_idem :
      (s : Text) → trim_end_matches p (trim_end_matches p s) ≡ trim_end_matches p s
  unfolding trim_end_matches
  trim_end_matches_idem [] = refl
  trim_end_matches_idem (c ∷ s) = ground (arith, trim_end_matches_idem s)

  trim_start-trim_end :
      (s : Text)
      → trim_start_matches p (trim_end_matches p (trim_start_matches p s))
        ≡ trim_end_matches p (trim_start_matches p s)
  unfolding trim_start_matches trim_end_matches
  trim_start-trim_end [] = refl
  trim_start-trim_end (c ∷ s) = ground (arith, trim_start-trim_end s)

  pub trim_matches_idem : (s : Text) → trim_matches p (trim_matches p s) ≡ trim_matches p s
  unfolding trim_matches
  trim_matches_idem s =
      ap (trim_end_matches p) (trim_start-trim_end s)
      ∙ trim_end_matches_idem (trim_start_matches p s)

  all-trim_start_matches :
      (q : ℕ → Bool) (s : Text) → all q s ≡ true → all q (trim_start_matches p s) ≡ true
  unfolding trim_start_matches
  all-trim_start_matches q [] h = refl
  all-trim_start_matches q (c ∷ s) h = ground (arith, all-trim_start_matches q s)

  all-trim_end_matches :
      (q : ℕ → Bool) (s : Text) → all q s ≡ true → all q (trim_end_matches p s) ≡ true
  unfolding trim_end_matches
  all-trim_end_matches q [] h = refl
  all-trim_end_matches q (c ∷ s) h = ground (arith, all-trim_end_matches q s)

  -- What holds of every character still holds after trimming.
  pub all-trim_matches :
      (q : ℕ → Bool) (s : Text) → all q s ≡ true → all q (trim_matches p s) ≡ true
  unfolding trim_matches
  all-trim_matches q s h =
      all-trim_end_matches q (trim_start_matches p s) (all-trim_start_matches q s h)

  trim_start_none : (s : Text) → all (λ c. not (p c)) s ≡ true → trim_start_matches p s ≡ s
  unfolding trim_start_matches
  trim_start_none [] h = refl
  trim_start_none (c ∷ s) h = ground arith

  trim_end_none : (s : Text) → all (λ c. not (p c)) s ≡ true → trim_end_matches p s ≡ s
  unfolding trim_end_matches
  trim_end_none [] h = refl
  trim_end_none (c ∷ s) h = ground (arith, trim_end_none s)

  -- A text with no character to trim is left as it is.
  pub trim_matches_none : (s : Text) → all (λ c. not (p c)) s ≡ true → trim_matches p s ≡ s
  unfolding trim_matches
  trim_matches_none s h = rw (trim_start_none s h) (trim_end_none s h)

pub trim_idem : (s : Text) → trim (trim s) ≡ trim s
unfolding trim
trim_idem s = trim_matches_idem is_whitespace s

pub trim_none : (s : Text) → all (λ c. not (is_whitespace c)) s ≡ true → trim s ≡ s
unfolding trim
trim_none s h = trim_matches_none is_whitespace s h
