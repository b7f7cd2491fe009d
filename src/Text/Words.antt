-- ===== src/Text/Words.antt =====
-- Splitting at separators and joining again; collapsing runs of white space.
use eal_api.Prelude.{
  ℕ, ◌≡◌, refl, ap, ◌∙◌, Bool, true, false, not, List, [], ◌∷◌, ◌++◌, append-nil, arith, all, keep,
  All, keep-All,
}
use eal_api.Text.{
  Text, extend_head, split, split_whitespace, is_whitespace, is_nonempty, join, join_rest,
  collapse_whitespace,
}

module _ (p : ℕ → Bool) where
  -- Free of separators.
  abbrev pub IsFree : Text → Type 0
  IsFree s = all (λ c. not (p c)) s ≡ true

  extend_head-All :
      (c : ℕ) (pieces : List Text)
      → p c ≡ false
      → All IsFree pieces
      → All IsFree (extend_head c pieces)
  unfolding extend_head
  extend_head-All c [] h k = (ground arith, tt)
  extend_head-All c (piece ∷ pieces) h k = (ground arith, k.1)

  -- No piece holds a separator.
  pub split-IsFree : (s : Text) → All IsFree (split p s)
  unfolding split
  split-IsFree [] = (refl, tt)
  split-IsFree (c ∷ s) = ground (arith, split-IsFree s, extend_head-All c (split p s))

  pub split_free : (w : Text) → IsFree w → split p w ≡ w ∷ []
  unfolding split extend_head
  split_free [] h = refl
  split_free (c ∷ w) h = ground (arith, split_free w)

  pub split-append :
      (w : Text) (c : ℕ) (s : Text) → IsFree w → p c ≡ true → split p (w ++ c ∷ s) ≡ w ∷ split p s
  unfolding split extend_head
  split-append [] c s h k = ground arith
  split-append (d ∷ w) c s h k = ground (arith, split-append w c s)

  -- Splitting undoes joining, where the pieces are free of the separator.
  pub split-join_rest :
      (c : ℕ) (w : Text) (ws : List Text)
      → p c ≡ true
      → IsFree w
      → All IsFree ws
      → split p (w ++ join_rest (c ∷ []) ws) ≡ w ∷ ws
  unfolding join_rest
  split-join_rest c w [] k h hs = rw append-nil (split_free w h)
  split-join_rest c w (v ∷ vs) k h hs =
      split-append w c (v ++ join_rest (c ∷ []) vs) h k
      ∙ ap (◌∷◌ w) (split-join_rest c v vs k hs.0 hs.1)

-- A word: not empty, and free of white space.
abbrev pub IsWord : Text → Type 0
IsWord w = (is_nonempty w ≡ true) × IsFree is_whitespace w

keep-IsWord : (ws : List Text) → All (IsFree is_whitespace) ws → All IsWord (keep is_nonempty ws)
keep-IsWord [] h = tt
keep-IsWord ([] ∷ ws) h = keep-IsWord ws h.1
keep-IsWord ((c ∷ w) ∷ ws) h = ((refl, h.0), keep-IsWord ws h.1)

pub split_whitespace-IsWord : (s : Text) → All IsWord (split_whitespace s)
unfolding split_whitespace
split_whitespace-IsWord s = keep-IsWord (split is_whitespace s) (split-IsFree is_whitespace s)

IsWord-nonempty : (ws : List Text) → All IsWord ws → All (λ w. is_nonempty w ≡ true) ws
IsWord-nonempty [] h = tt
IsWord-nonempty (w ∷ ws) h = (h.0.0, IsWord-nonempty ws h.1)

IsWord-IsFree : (ws : List Text) → All IsWord ws → All (IsFree is_whitespace) ws
IsWord-IsFree [] h = tt
IsWord-IsFree (w ∷ ws) h = (h.0.1, IsWord-IsFree ws h.1)

-- The words of a text made by joining words with a space are those words.
pub split_whitespace-join :
    (ws : List Text) → All IsWord ws → split_whitespace (join (0x20 ∷ []) ws) ≡ ws
unfolding split_whitespace join split is_whitespace
split_whitespace-join [] h = refl
split_whitespace-join (w ∷ ws) h =
    ap (keep is_nonempty)
      (split-join_rest is_whitespace 0x20 w ws refl h.0.1 (IsWord-IsFree ws h.1))
    ∙ keep-All is_nonempty (w ∷ ws) (IsWord-nonempty (w ∷ ws) h)

pub split_whitespace-collapse :
    (s : Text) → split_whitespace (collapse_whitespace s) ≡ split_whitespace s
unfolding collapse_whitespace
split_whitespace-collapse s = split_whitespace-join (split_whitespace s) (split_whitespace-IsWord s)

-- Collapsing white space a second time changes nothing.
pub collapse_whitespace_idem :
    (s : Text) → collapse_whitespace (collapse_whitespace s) ≡ collapse_whitespace s
unfolding collapse_whitespace
collapse_whitespace_idem s = ap (join (0x20 ∷ [])) (split_whitespace-collapse s)
