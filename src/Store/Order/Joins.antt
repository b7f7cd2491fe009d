-- ===== src/Store/Order/Joins.antt =====
-- What a JOIN finds of rows that stand last and are new.
use eal_api.Prelude.{
  ◌≡◌, refl, ap₂, ◌∙◌, Bool, true, false, not, List, [], ◌∷◌, ◌++◌, keep, all, All, append-nil,
  if◌then◌else◌, arith, All-append, All-map, Bool-cases, inl, inr, subst, sym,
}
use mathlib.Core.List.{Mem, mem-cons_self, mem-cons_of_mem}
use eal_api.Store.Order.{join_on, pairs_with}

module _ {ℓ} {A : Type ℓ} where
  pub keep-append : (p : A → Bool) (xs ys : List A) → keep p (xs ++ ys) ≡ keep p xs ++ keep p ys
  keep-append p [] ys = refl
  keep-append p (x ∷ xs) ys = ground (arith, keep-append p xs ys)

  pub keep-none : (p : A → Bool) (xs : List A) → all (λ x. not (p x)) xs ≡ true → keep p xs ≡ []
  keep-none p [] h = refl
  keep-none p (x ∷ xs) h = ground (arith, keep-none p xs)

  -- Of rows that all fail a test, and one more that passes, the last is kept.
  pub keep-last :
      (p : A → Bool) (xs : List A) (x : A)
      → all (λ y. not (p y)) xs ≡ true
      → p x ≡ true
      → keep p (xs ++ (x ∷ [])) ≡ x ∷ []
  keep-last p xs x h k = rw (keep-append p xs (x ∷ []), keep-none p xs h, k) refl

module _ {ℓ κ} {A : Type ℓ} {B : Type κ} where
  keep-pairs_with :
      (g : A → Bool) (x : A) (ys : List B)
      → keep (λ row. g row.0) (pairs_with x ys) ≡ (if g x then pairs_with x ys else [])
  unfolding pairs_with
  keep-pairs_with g x [] = ground arith
  keep-pairs_with g x (y ∷ ys) = ground (arith, keep-pairs_with g x ys)

  -- A test of the left rows alone may be made before the join.
  pub keep-join_on :
      (g : A → Bool) (p : A → B → Bool) (xs : List A) (ys : List B)
      → keep (λ row. g row.0) (join_on p xs ys) ≡ join_on p (keep g xs) ys
  unfolding join_on
  keep-join_on g p [] ys = refl
  keep-join_on g p (x ∷ xs) ys =
      keep-append (λ row. g row.0) (pairs_with x (keep (p x) ys)) (join_on p xs ys)
      ∙ ground (arith, keep-pairs_with g x (keep (p x) ys), keep-join_on g p xs ys)

  pub join_on-one :
      (p : A → B → Bool) (x : A) (ys : List B) (y : B)
      → all (λ z. not (p x z)) ys ≡ true
      → p x y ≡ true
      → join_on p (x ∷ []) (ys ++ (y ∷ [])) ≡ (x, y) ∷ []
  unfolding join_on pairs_with
  join_on-one p x ys y h k = rw (keep-last (p x) ys y h k) refl

module _ {ℓ κ} {A : Type ℓ} {B : Type κ} where
  -- A right row that pairs with none of the left rows changes nothing.
  pub join_on-unmatched :
      (p : A → B → Bool) (xs : List A) (ys : List B) (y : B)
      → All (λ x. p x y ≡ false) xs
      → join_on p xs (ys ++ (y ∷ [])) ≡ join_on p xs ys
  unfolding join_on
  join_on-unmatched p [] ys y h = refl
  join_on-unmatched p (x ∷ xs) ys y h =
      ap₂ (λ found rest. pairs_with x found ++ rest)
        (keep-append (p x) ys (y ∷ []) ∙ ground (arith, h.0, append-nil (keep (p x) ys)))
        (join_on-unmatched p xs ys y h.1)

module _ {ℓ} {A : Type ℓ} where
  pub members : (xs : List A) → All (λ x. Mem x xs) xs
  members [] = tt
  members (x ∷ xs) = (mem-cons_self, All-map (λ y h. mem-cons_of_mem x h) xs (members xs))

  pub All-kept {κ} :
      (P : A → Type κ) (p : A → Bool) (xs : List A)
      → All P xs
      → All (λ x. P x × (p x ≡ true)) (keep p xs)
  All-kept P p [] h = tt
  All-kept P p (x ∷ xs) h = elim (Bool-cases (p x)) [
    | inl e ↦ rw e ((h.0, e), All-kept P p xs h.1)
    | inr e ↦ rw e (All-kept P p xs h.1)
  ]

module _ {ℓ κ} {A : Type ℓ} {B : Type κ} where
  pairs_with-All {ι μ} :
      (P : A → Type ι) (Q : B → Type μ) (x : A) (ys : List B)
      → P x
      → All Q ys
      → All (λ row. P row.0 × Q row.1) (pairs_with x ys)
  unfolding pairs_with
  pairs_with-All P Q x [] h k = tt
  pairs_with-All P Q x (y ∷ ys) h k = ((h, k.0), pairs_with-All P Q x ys h k.1)

  -- A joined row is of a left and a right row that satisfy the condition of the join.
  pub join_on-All {ι μ} :
      (P : A → Type ι) (Q : B → Type μ) (p : A → B → Bool) (xs : List A) (ys : List B)
      → All P xs
      → All Q ys
      → All (λ row. (P row.0 × Q row.1) × (p row.0 row.1 ≡ true)) (join_on p xs ys)
  unfolding join_on
  join_on-All P Q p [] ys h k = tt
  join_on-All P Q p (x ∷ xs) ys h k =
      All-append _ (pairs_with x (keep (p x) ys)) (join_on p xs ys)
        (All-map (λ row q. ((q.0.0, q.1.0), subst (λ z. p z row.1 ≡ true) (sym q.0.1) q.1.1))
          (pairs_with x (keep (p x) ys))
          (pairs_with-All (λ z. P z × (z ≡ x)) (λ y. Q y × (p x y ≡ true)) x (keep (p x) ys)
            (h.0, refl) (All-kept Q (p x) ys k)))
        (join_on-All P Q p xs ys h.1 k)
