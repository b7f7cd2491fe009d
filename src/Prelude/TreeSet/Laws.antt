-- ===== src/Prelude/TreeSet/Laws.antt =====
-- Sets by their members: subsets, disjointness, extensionality, and sorted vectors without repeats.
use Prim.Native.Nat.{Ordering, ◌+◌, ◌≤◌}
use mathlib.Core.Path.{◌≡◌, refl, sym, ap, ap₂, ◌∙◌}
use mathlib.Core.Bool.{true, false, not, false≢true}
use mathlib.Core.Logic.{◌≢◌, ◌⊎◌, inl, inr}
use mathlib.Core.List.{List, [], ◌∷◌}
use native.Mathlib.Omega.{arith}
use eal_api.Prelude.Tests.{Bool-cases}
use eal_api.Prelude.Lists.{All, any, is_empty, length}
use eal_api.Prelude.Ordered.{Ord}
use eal_api.Prelude.TreeSet.{
  eqb, contains, insert, from_list, is_subset, is_disjoint, sort_insert, sort, push_unless_same,
  dedup, Below, IsSorted, eqb_iff_eq, eqb_refl, insert-All, Below-trans,
}

Ordering-cases : (c : Ordering) → (c ≡ Ordering.lt) ⊎ ((c ≡ Ordering.eq) ⊎ (c ≡ Ordering.gt))
Ordering-cases Ordering.lt = inl refl
Ordering-cases Ordering.eq = inr (inl refl)
Ordering-cases Ordering.gt = inr (inr refl)

module _ {ℓ} {A : Type ℓ} ⦃o : Ord A⦄ where
  pub contains_head : (a : A) (xs : List A) → contains a (a ∷ xs) ≡ true
  unfolding contains
  contains_head a xs = rw (eqb_refl a)

  pub contains_later : (a x : A) (xs : List A) → contains a xs ≡ true → contains a (x ∷ xs) ≡ true
  unfolding contains
  contains_later a x xs h = ground arith

  pub contains-Below : (a : A) (xs : List A) → All (Below a) xs → contains a xs ≡ false
  unfolding contains
  contains-Below a [] h = refl
  contains-Below a (x ∷ xs) h = ground (arith, h.0, contains-Below a xs h.1)

  pub is_subset-contains :
      (s t : List A) (a : A) → is_subset s t ≡ true → contains a s ≡ true → contains a t ≡ true
  unfolding is_subset contains
  is_subset-contains [] t a h k = ground arith
  is_subset-contains (x ∷ s) t a h k = elim (Bool-cases (eqb a x)) [
    | inl e ↦ rw (eqb_iff_eq a x e) (ground arith)
    | inr n ↦ is_subset-contains s t a (ground arith) (ground arith)
  ]

  pub is_subset_intro :
      (s t : List A) → ((a : A) → contains a s ≡ true → contains a t ≡ true) → is_subset s t ≡ true
  unfolding is_subset contains
  is_subset_intro [] t h = refl
  is_subset_intro (x ∷ s) t h =
      let here = h x (contains_head x s) in
      let later : is_subset s t ≡ true =
        is_subset_intro s t (λ a m. h a (contains_later a x s m)) in
      rw here later

  -- A set that is no subset has a member outside.
  pub outside_of_not_subset :
      (s t : List A)
      → is_subset s t ≡ false
      → (a : A) × (contains a s ≡ true) × (contains a t ≡ false)
  unfolding is_subset contains
  outside_of_not_subset [] t h = cc
  outside_of_not_subset (x ∷ s) t h = elim (Bool-cases (contains x t)) [
    | inl e ↦
        let (a, p, q) = outside_of_not_subset s t (ground arith) in (a, contains_later a x s p, q)
    | inr n ↦ (x, contains_head x s, n)
  ]

  pub not_subset_of_outside :
      (s t : List A) (a : A) → contains a s ≡ true → contains a t ≡ false → is_subset s t ≡ false
  not_subset_of_outside s t a h k = elim (Bool-cases (is_subset s t)) [
    | inl e ↦ absurd (cc (is_subset-contains s t a e h))
    | inr n ↦ n
  ]

  pub is_subset_refl : (s : List A) → is_subset s s ≡ true
  is_subset_refl s = is_subset_intro s s (λ a m. m)

  -- `s.iter().any(|a| !t.contains(a))`
  pub any_outside : (s t : List A) → any (λ a. not (contains a t)) s ≡ not (is_subset s t)
  unfolding is_subset contains
  any_outside [] t = refl
  any_outside (x ∷ s) t = ground (arith, any_outside s t)

  is_empty-insert : (a : A) (xs : List A) → is_empty (insert a xs) ≡ false
  unfolding insert
  is_empty-insert a [] = refl
  is_empty-insert a (x ∷ xs) = ground arith

  pub is_empty-from_list : (xs : List A) → is_empty (from_list xs) ≡ is_empty xs
  unfolding from_list
  is_empty-from_list [] = refl
  is_empty-from_list (x ∷ xs) = is_empty-insert x (from_list xs)

  length-insert-le : (a : A) (xs : List A) → length (insert a xs) ≤ length xs + 1
  unfolding insert
  length-insert-le a [] = omega arith
  length-insert-le a (x ∷ xs) = ground (arith, length-insert-le a xs)

  pub length-from_list-le : (xs : List A) → length (from_list xs) ≤ length xs
  unfolding from_list
  length-from_list-le [] = omega arith
  length-from_list-le (x ∷ xs) =
      omega (arith, length-insert-le x (from_list xs), length-from_list-le xs)

  pub from_list-All {κ} : (P : A → Type κ) (xs : List A) → All P xs → All P (from_list xs)
  unfolding from_list
  from_list-All P [] h = tt
  from_list-All P (x ∷ xs) h = insert-All P x (from_list xs) h.0 (from_list-All P xs h.1)

  -- Sets that are not disjoint share a member.
  pub shared_of_not_disjoint :
      (s t : List A)
      → is_disjoint s t ≡ false
      → (a : A) × (contains a s ≡ true) × (contains a t ≡ true)
  unfolding is_disjoint contains
  shared_of_not_disjoint [] t h = cc
  shared_of_not_disjoint (x ∷ s) t h = elim (Bool-cases (contains x t)) [
    | inl e ↦ (x, contains_head x s, e)
    | inr n ↦
        let (a, p, q) = shared_of_not_disjoint s t (ground arith) in (a, contains_later a x s p, q)
  ]

  pub not_disjoint_of_shared :
      (s t : List A) (a : A) → contains a s ≡ true → contains a t ≡ true → is_disjoint s t ≡ false
  unfolding is_disjoint contains
  not_disjoint_of_shared [] t a h k = absurd (false≢true h)
  not_disjoint_of_shared (x ∷ s) t a h k = elim (Bool-cases (eqb a x)) [
    | inl e ↦
        let same = eqb_iff_eq a x e in
        let found : contains x t ≡ true = rw (← same) k in ground arith
    | inr n ↦ ground (arith, not_disjoint_of_shared s t a)
  ]

  not-IsSorted_members :
      (x y : A) (xs ys : List A)
      → Below x y
      → All (Below y) ys
      → contains x (x ∷ xs) ≡ contains x (y ∷ ys)
      → ⊥
  not-IsSorted_members x y xs ys h k e =
      cc (contains_head x xs, e, contains-Below x (y ∷ ys) (h, Below-trans x y ys h k))

  tail_members :
      (x : A) (xs ys : List A)
      → All (Below x) xs
      → All (Below x) ys
      → (a : A) → contains a (x ∷ xs) ≡ contains a (x ∷ ys)
      → contains a xs ≡ contains a ys
  unfolding contains
  tail_members x xs ys h k a e = elim (Bool-cases (eqb a x)) [
    | inl same ↦
        let eq = eqb_iff_eq a x same in rw eq (contains-Below x xs h ∙ (rw (contains-Below x ys k)))
    | inr other ↦ ground arith
  ]

  -- Two sets with the same members are the same list.
  pub IsSorted-ext :
      (xs ys : List A)
      → IsSorted xs
      → IsSorted ys
      → ((a : A) → contains a xs ≡ contains a ys)
      → xs ≡ ys
  IsSorted-ext [] [] h k e = refl
  IsSorted-ext [] (y ∷ ys) h k e = absurd (cc (e y, contains_head y ys, contains-Below y [] tt))
  IsSorted-ext (x ∷ xs) [] h k e = absurd (cc (e x, contains_head x xs, contains-Below x [] tt))
  IsSorted-ext (x ∷ xs) (y ∷ ys) h k e = elim (Ordering-cases (o.cmp x y)) [
    | inl lt ↦ absurd (not-IsSorted_members x y xs ys lt k.0 (e x))
    | inr (inl eq) ↦
        let same : x ≡ y = o.eq_of_cmp x y eq in
        ap₂ ◌∷◌ same (
          IsSorted-ext xs ys h.1 k.1 (λ a.
            tail_members x xs ys h.0 (rw same k.0) a
              (e a ∙ ap (λ z. contains a (z ∷ ys)) (sym same))))
    | inr (inr gt) ↦ absurd (not-IsSorted_members y x ys xs (o.lt_of_gt x y gt) h.0 (sym (e y)))
  ]

  push_unless_same-insert :
      (a x : A) (xs : List A)
      → o.cmp a x ≡ Ordering.gt
      → push_unless_same x (insert a xs) ≡ insert a (push_unless_same x xs)
  unfolding push_unless_same insert
  push_unless_same-insert a x [] h = ground (arith, o.lt_of_gt a x)
  push_unless_same-insert a x (z ∷ zs) h =
      ground (arith, o.lt_of_gt a x, o.eq_of_cmp x z, o.eq_of_cmp a z, o.gt_of_lt a z)

  push_unless_same-head :
      (a x : A) (xs : List A)
      → o.cmp a x ≢ Ordering.gt
      → push_unless_same a (push_unless_same x xs) ≡ insert a (push_unless_same x xs)
  unfolding push_unless_same insert
  push_unless_same-head a x [] h = ground (arith, o.eq_of_cmp a x)
  push_unless_same-head a x (z ∷ zs) h = ground (arith, o.eq_of_cmp a x)

  dedup-sort_insert : (a : A) (xs : List A) → dedup (sort_insert a xs) ≡ insert a (dedup xs)
  unfolding sort_insert dedup push_unless_same insert
  dedup-sort_insert a [] = refl
  dedup-sort_insert a (x ∷ xs) = ground (
    arith,
    dedup-sort_insert a xs,
    push_unless_same-head a x (dedup xs),
    push_unless_same-insert a x (dedup xs),
  )

  -- A sorted vector without repeats is the set of its elements.
  pub dedup-sort : (xs : List A) → dedup (sort xs) ≡ from_list xs
  unfolding sort dedup from_list
  dedup-sort [] = refl
  dedup-sort (x ∷ xs) = dedup-sort_insert x (sort xs) ∙ ap (insert x) (dedup-sort xs)
