-- ===== src/Prelude/Ordered.antt =====
-- `Ord`: a total order given by a three-way comparison; the orders of numbers and of texts.
use Prim.Native.Nat.{ℕ, compare, Ordering}
use mathlib.Core.Path.{◌≡◌, refl}
use mathlib.Core.List.{List, [], ◌∷◌}
use native.Mathlib.Omega.{arith}

pub record Ord {ℓ} (A : Type ℓ) : Type ℓ where
  pub cmp : A → A → Ordering
  pub cmp_refl : (a : A) → cmp a a ≡ Ordering.eq
  pub eq_of_cmp : (a b : A) → cmp a b ≡ Ordering.eq → a ≡ b
  pub gt_of_lt : (a b : A) → cmp a b ≡ Ordering.lt → cmp b a ≡ Ordering.gt
  pub lt_of_gt : (a b : A) → cmp a b ≡ Ordering.gt → cmp b a ≡ Ordering.lt
  pub lt_trans : (a b c : A) → cmp a b ≡ Ordering.lt → cmp b c ≡ Ordering.lt → cmp a c ≡ Ordering.lt

pub compare_refl : (a : ℕ) → compare a a ≡ Ordering.eq
compare_refl a = ground arith

pub eq_of_compare : (a b : ℕ) → compare a b ≡ Ordering.eq → a ≡ b
eq_of_compare a b h = ground arith

pub compare_gt_of_lt : (a b : ℕ) → compare a b ≡ Ordering.lt → compare b a ≡ Ordering.gt
compare_gt_of_lt a b h = ground arith

pub compare_lt_of_gt : (a b : ℕ) → compare a b ≡ Ordering.gt → compare b a ≡ Ordering.lt
compare_lt_of_gt a b h = ground arith

pub compare_trans :
    (a b c : ℕ) → compare a b ≡ Ordering.lt → compare b c ≡ Ordering.lt → compare a c ≡ Ordering.lt
compare_trans a b c h k = ground arith

instance abbrev pub nat_ord : Ord ℕ
nat_ord = record {
  cmp = compare;
  cmp_refl = compare_refl;
  eq_of_cmp = eq_of_compare;
  gt_of_lt = compare_gt_of_lt;
  lt_of_gt = compare_lt_of_gt;
  lt_trans = compare_trans;
}

-- Texts are compared by code points; on UTF-8 this is the order of the bytes.
unfoldable pub text_cmp : List ℕ → List ℕ → Ordering
text_cmp [] [] = Ordering.eq
text_cmp [] (b ∷ t) = Ordering.lt
text_cmp (a ∷ s) [] = Ordering.gt
text_cmp (a ∷ s) (b ∷ t) =
    let rest = text_cmp s t in
    elim (compare a b) [
      | Ordering.eq ↦ rest
      | Ordering.lt ↦ Ordering.lt
      | Ordering.gt ↦ Ordering.gt
    ]

pub text_cmp_refl : (s : List ℕ) → text_cmp s s ≡ Ordering.eq
unfolding text_cmp
text_cmp_refl [] = refl
text_cmp_refl (a ∷ s) = ground (arith, text_cmp_refl s)

pub eq_of_text_cmp : (s t : List ℕ) → text_cmp s t ≡ Ordering.eq → s ≡ t
unfolding text_cmp
eq_of_text_cmp [] [] h = refl
eq_of_text_cmp [] (b ∷ t) h = ground arith
eq_of_text_cmp (a ∷ s) [] h = ground arith
eq_of_text_cmp (a ∷ s) (b ∷ t) h = ground (arith, eq_of_text_cmp s t)

pub text_cmp_gt_of_lt : (s t : List ℕ) → text_cmp s t ≡ Ordering.lt → text_cmp t s ≡ Ordering.gt
unfolding text_cmp
text_cmp_gt_of_lt [] [] h = ground arith
text_cmp_gt_of_lt [] (b ∷ t) h = refl
text_cmp_gt_of_lt (a ∷ s) [] h = ground arith
text_cmp_gt_of_lt (a ∷ s) (b ∷ t) h = ground (arith, text_cmp_gt_of_lt s t)

pub text_cmp_lt_of_gt : (s t : List ℕ) → text_cmp s t ≡ Ordering.gt → text_cmp t s ≡ Ordering.lt
unfolding text_cmp
text_cmp_lt_of_gt [] [] h = ground arith
text_cmp_lt_of_gt [] (b ∷ t) h = ground arith
text_cmp_lt_of_gt (a ∷ s) [] h = refl
text_cmp_lt_of_gt (a ∷ s) (b ∷ t) h = ground (arith, text_cmp_lt_of_gt s t)

pub text_cmp_trans :
    (s t u : List ℕ)
    → text_cmp s t ≡ Ordering.lt
    → text_cmp t u ≡ Ordering.lt
    → text_cmp s u ≡ Ordering.lt
unfolding text_cmp
text_cmp_trans [] [] u h k = ground arith
text_cmp_trans [] (b ∷ t) [] h k = ground arith
text_cmp_trans [] (b ∷ t) (c ∷ u) h k = refl
text_cmp_trans (a ∷ s) [] u h k = ground arith
text_cmp_trans (a ∷ s) (b ∷ t) [] h k = ground arith
text_cmp_trans (a ∷ s) (b ∷ t) (c ∷ u) h k = ground (arith, text_cmp_trans s t u)

instance abbrev pub text_ord : Ord (List ℕ)
text_ord = record {
  cmp = text_cmp;
  cmp_refl = text_cmp_refl;
  eq_of_cmp = eq_of_text_cmp;
  gt_of_lt = text_cmp_gt_of_lt;
  lt_of_gt = text_cmp_lt_of_gt;
  lt_trans = text_cmp_trans;
}
