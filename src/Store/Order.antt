-- ===== src/Store/Order.antt =====
-- ORDER BY and LIMIT on a list of rows. `before` is the comparison of the keys.
pub mod Joins
pub mod Paging
use eal_api.Prelude.{
  ℕ, zero, suc, ◌≤◌, ◌≡◌, refl, Bool, true, false, ◌||◌, List, [], ◌∷◌, ◌++◌, ◌⊎◌, inl, inr, length,
  take, keep, All, All-map, if◌then◌else◌, arith, Bool-cases,
}

module _ {ℓ} {A : Type ℓ} (before : A → A → Bool) where
  unfoldable pub insert_by : A → List A → List A
  insert_by a [] = a ∷ []
  insert_by a (x ∷ xs) = let rest = insert_by a xs in if before a x then a ∷ x ∷ xs else x ∷ rest

  unfoldable pub order_by : List A → List A
  order_by [] = []
  order_by (x ∷ xs) = insert_by x (order_by xs)

  -- Every row comes before those that follow it.
  abbrev pub IsOrdered : List A → Type 0
  IsOrdered [] = Unit
  IsOrdered (x ∷ xs) = All (λ y. before x y ≡ true) xs × IsOrdered xs

  abbrev pub IsTotal : Type ℓ
  IsTotal = (a b : A) → before a b ≡ false → before b a ≡ true

  abbrev pub IsTransitive : Type ℓ
  IsTransitive = (a b c : A) → before a b ≡ true → before b c ≡ true → before a c ≡ true

  pub insert_by-All {κ} :
      (P : A → Type κ) (a : A) (xs : List A) → P a → All P xs → All P (insert_by a xs)
  unfolding insert_by
  insert_by-All P a [] p h = (p, tt)
  insert_by-All P a (x ∷ xs) p h = ground (arith, insert_by-All P a xs p h.1)

  pub order_by-All {κ} : (P : A → Type κ) (xs : List A) → All P xs → All P (order_by xs)
  unfolding order_by
  order_by-All P [] h = tt
  order_by-All P (x ∷ xs) h = insert_by-All P x (order_by xs) h.0 (order_by-All P xs h.1)

  module _ (total : IsTotal) (transitive : IsTransitive) where
    insert_by-IsOrdered : (a : A) (xs : List A) → IsOrdered xs → IsOrdered (insert_by a xs)
    unfolding insert_by
    insert_by-IsOrdered a [] h = (tt, tt)
    insert_by-IsOrdered a (x ∷ xs) h = elim (Bool-cases (before a x)) [
      | inl e ↦ rw e ((e, All-map (λ y k. transitive a x y e k) xs h.0), h)
      | inr e ↦ rw e (
        insert_by-All (λ y. before x y ≡ true) a xs (total a x e) h.0,
        insert_by-IsOrdered a xs h.1,
      )
    ]

    pub order_by-IsOrdered : (xs : List A) → IsOrdered (order_by xs)
    unfolding order_by
    order_by-IsOrdered [] = tt
    order_by-IsOrdered (x ∷ xs) = insert_by-IsOrdered x (order_by xs) (order_by-IsOrdered xs)

    insert_by-first :
        (a : A) (xs : List A) → All (λ y. before a y ≡ true) xs → insert_by a xs ≡ a ∷ xs
    unfolding insert_by
    insert_by-first a [] h = refl
    insert_by-first a (x ∷ xs) h = rw (h.0) refl

    All-kept {κ} : (P : A → Type κ) (p : A → Bool) (xs : List A) → All P xs → All P (keep p xs)
    All-kept P p [] h = tt
    All-kept P p (x ∷ xs) h = ground (arith, All-kept P p xs h.1)

    keep-insert_by :
        (p : A → Bool) (a : A) (xs : List A)
        → IsOrdered xs
        → keep p (insert_by a xs) ≡ (if p a then insert_by a (keep p xs) else keep p xs)
    unfolding insert_by
    keep-insert_by p a [] h = refl
    keep-insert_by p a (x ∷ xs) h =
        let ih = keep-insert_by p a xs h.1 in
        elim (Bool-cases (before a x)) [
          | inl e ↦
              let first = insert_by-first a (keep p xs) (
                All-kept (λ y. before a y ≡ true) p xs
                  (All-map (λ y k. transitive a x y e k) xs h.0)) in
              ground (arith, e, first)
          | inr e ↦ ground (arith, e, ih)
        ]

    -- To sort the rows that a test keeps is to keep them among the sorted rows.
    pub keep-order_by : (p : A → Bool) (xs : List A) → keep p (order_by xs) ≡ order_by (keep p xs)
    unfolding order_by
    keep-order_by p [] = refl
    keep-order_by p (x ∷ xs) =
        ground (arith, keep-insert_by p x (order_by xs) (order_by-IsOrdered xs), keep-order_by p xs)

-- `xs JOIN ys ON p`
unfoldable pub pairs_with {ℓ κ} : {A : Type ℓ} {B : Type κ} → A → List B → List (A × B)
pairs_with x [] = []
pairs_with x (y ∷ ys) = (x, y) ∷ pairs_with x ys

unfoldable pub join_on {ℓ κ} :
    {A : Type ℓ} {B : Type κ} → (A → B → Bool) → List A → List B → List (A × B)
unfolding pairs_with
join_on p [] ys = []
join_on p (x ∷ xs) ys = pairs_with x (keep (p x) ys) ++ join_on p xs ys

module _ {ℓ} {A : Type ℓ} where
  pub take-All {κ} : (P : A → Type κ) (n : ℕ) (xs : List A) → All P xs → All P (take n xs)
  take-All P zero xs h = tt
  take-All P (suc n) [] h = tt
  take-All P (suc n) (x ∷ xs) h = (h.0, take-All P n xs h.1)

  pub length-take-le : (n : ℕ) (xs : List A) → length (take n xs) ≤ n
  length-take-le zero xs = omega arith
  length-take-le (suc n) [] = omega arith
  length-take-le (suc n) (x ∷ xs) = omega (arith, length-take-le n xs)

  pub take-IsOrdered :
      (before : A → A → Bool) (n : ℕ) (xs : List A)
      → IsOrdered before xs
      → IsOrdered before (take n xs)
  take-IsOrdered before zero xs h = tt
  take-IsOrdered before (suc n) [] h = tt
  take-IsOrdered before (suc n) (x ∷ xs) h =
      (take-All (λ y. before x y ≡ true) n xs h.0, take-IsOrdered before n xs h.1)
