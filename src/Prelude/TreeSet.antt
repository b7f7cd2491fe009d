-- ===== src/Prelude/TreeSet.antt =====
-- `BTreeSet` as a strictly increasing list, and `sort` with `dedup` on vectors.
pub mod Laws
use Prim.Native.Nat.{Ordering}
use mathlib.Core.Path.{◌≡◌, refl, ap₂, ◌∙◌}
use mathlib.Core.Bool.{Bool, true, false, ◌||◌, not}
use mathlib.Core.List.{List, [], ◌∷◌}
use native.Mathlib.Omega.{arith}
use eal_api.Prelude.Lists.{All, All-map, all, any}
use eal_api.Prelude.Ordered.{Ord}

module _ {ℓ} {A : Type ℓ} ⦃o : Ord A⦄ where
  -- `a == b`
  abbrev pub eqb : A → A → Bool
  eqb a b = elim (o.cmp a b) [ Ordering.eq ↦ true | _ ↦ false ]

  -- `set.contains(&a)`
  unfoldable pub contains : A → List A → Bool
  contains a [] = false
  contains a (x ∷ xs) = eqb a x || contains a xs

  -- `set.insert(a)`, whose result `insert_is_new` tells.
  unfoldable pub insert : A → List A → List A
  insert a [] = a ∷ []
  insert a (x ∷ xs) =
      let rest = insert a xs in
      elim (o.cmp a x) [ Ordering.lt ↦ a ∷ x ∷ xs | Ordering.eq ↦ x ∷ xs | Ordering.gt ↦ x ∷ rest ]

  abbrev pub insert_is_new : A → List A → Bool
  insert_is_new a xs = not (contains a xs)

  -- `iter.collect::<BTreeSet<_>>()`
  unfoldable pub from_list : List A → List A
  from_list [] = []
  from_list (x ∷ xs) = insert x (from_list xs)

  -- `s.is_subset(&t)`
  unfoldable pub is_subset : List A → List A → Bool
  is_subset s t = all (λ a. contains a t) s

  -- `s.is_disjoint(&t)`
  unfoldable pub is_disjoint : List A → List A → Bool
  is_disjoint s t = not (any (λ a. contains a t) s)

  -- `v.sort()`, by insertion; equal elements stay next to one another.
  unfoldable pub sort_insert : A → List A → List A
  sort_insert a [] = a ∷ []
  sort_insert a (x ∷ xs) =
      let rest = sort_insert a xs in elim (o.cmp a x) [ Ordering.gt ↦ x ∷ rest | _ ↦ a ∷ x ∷ xs ]

  unfoldable pub sort : List A → List A
  sort [] = []
  sort (x ∷ xs) = sort_insert x (sort xs)

  -- `v.dedup()`: of equal neighbours the first stays.
  unfoldable pub push_unless_same : A → List A → List A
  push_unless_same a [] = a ∷ []
  push_unless_same a (x ∷ xs) = elim (o.cmp a x) [ Ordering.eq ↦ a ∷ xs | _ ↦ a ∷ x ∷ xs ]

  unfoldable pub dedup : List A → List A
  dedup [] = []
  dedup (x ∷ xs) = push_unless_same x (dedup xs)

  abbrev pub Below : A → A → Type 0
  Below a b = o.cmp a b ≡ Ordering.lt

  -- Strictly increasing: what a `BTreeSet` yields in iteration.
  abbrev pub IsSorted : List A → Type 0
  IsSorted [] = Unit
  IsSorted (x ∷ xs) = All (Below x) xs × IsSorted xs

  pub eqb_iff_eq : (a b : A) → eqb a b ≡ true → a ≡ b
  eqb_iff_eq a b h = o.eq_of_cmp a b (ground arith)

  pub eqb_refl : (a : A) → eqb a a ≡ true
  eqb_refl a = ground (arith, o.cmp_refl a)

  pub eqb_of_eq : (a b : A) → a ≡ b → eqb a b ≡ true
  eqb_of_eq a b h = ground (arith, o.cmp_refl a)

  pub insert-All {κ} : (P : A → Type κ) (a : A) (xs : List A) → P a → All P xs → All P (insert a xs)
  unfolding insert
  insert-All P a [] p h = (p, tt)
  insert-All P a (x ∷ xs) p h = ground (arith, insert-All P a xs p h.1)

  pub Below-trans : (a b : A) (xs : List A) → Below a b → All (Below b) xs → All (Below a) xs
  Below-trans a b xs h k = All-map (λ x q. o.lt_trans a b x h q) xs k

  pub insert-IsSorted : (a : A) (xs : List A) → IsSorted xs → IsSorted (insert a xs)
  unfolding insert
  insert-IsSorted a [] h = (tt, tt)
  insert-IsSorted a (x ∷ xs) h = ground (
    arith,
    insert-IsSorted a xs h.1,
    insert-All (Below x) a xs,
    o.lt_of_gt a x,
    Below-trans a x xs,
  )

  pub from_list-IsSorted : (xs : List A) → IsSorted (from_list xs)
  unfolding from_list
  from_list-IsSorted [] = tt
  from_list-IsSorted (x ∷ xs) = insert-IsSorted x (from_list xs) (from_list-IsSorted xs)

  pub contains-insert :
      (a b : A) (xs : List A) → contains a (insert b xs) ≡ (eqb a b || contains a xs)
  unfolding contains insert
  contains-insert a b [] = refl
  contains-insert a b (x ∷ xs) =
      ground (arith, contains-insert a b xs, o.eq_of_cmp b x, o.eq_of_cmp a b)

  -- The set made of a list has the list's members.
  pub contains-from_list : (a : A) (xs : List A) → contains a (from_list xs) ≡ contains a xs
  unfolding from_list contains
  contains-from_list a [] = refl
  contains-from_list a (x ∷ xs) =
      ground (arith, contains-insert a x (from_list xs), contains-from_list a xs)

  insert-Below : (a : A) (xs : List A) → All (Below a) xs → insert a xs ≡ a ∷ xs
  unfolding insert
  insert-Below a [] h = refl
  insert-Below a (x ∷ xs) h = ground (arith, h.0)

  -- A set made of a strictly increasing list is the list.
  pub from_list-eq_self : (xs : List A) → IsSorted xs → from_list xs ≡ xs
  unfolding from_list
  from_list-eq_self [] h = refl
  from_list-eq_self (x ∷ xs) h = ap₂ insert refl (from_list-eq_self xs h.1) ∙ insert-Below x xs h.0
