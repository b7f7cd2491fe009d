-- ===== src/Store/Order/Paging.antt =====
-- Pages of a strictly ordered list: what follows the last row of a page.
use eal_api.Prelude.{
  ℕ, zero, suc, ◌≤◌, ◌≡◌, refl, ap, subst, Bool, true, false, Option, none, some, List, [], ◌∷◌,
  ◌++◌, keep, take, length, All, keep-All, Result, ok, collect, ◌>>=◌, ltb, arith, >>=-eq-ok,
}
use eal_api.Store.Order.{IsOrdered, take-All}

abbrev pub last {ℓ} : {A : Type ℓ} → List A → Option A
last [] = none
last (x ∷ []) = some x
last (x ∷ (y ∷ ys)) = last (y ∷ ys)

module _ {A : Type 0} where
  pub last-All : (P : A → Type 0) (xs : List A) (x : A) → All P xs → last xs ≡ some x → P x
  last-All P [] x h k = absurd (cc k)
  last-All P (y ∷ []) x h k = subst P (cc k) h.0
  last-All P (y ∷ (z ∷ zs)) x h k = last-All P (z ∷ zs) x h.1 k

  pub keep-keep :
      (p q : A → Bool) (xs : List A)
      → ((x : A) → p x ≡ true → q x ≡ true)
      → keep p (keep q xs) ≡ keep p xs
  keep-keep p q [] h = refl
  keep-keep p q (x ∷ xs) h = ground (arith, h x, keep-keep p q xs h)

  pub All-kept : (P : A → Type 0) (p : A → Bool) (xs : List A) → All P xs → All P (keep p xs)
  All-kept P p [] h = tt
  All-kept P p (x ∷ xs) h = ground (arith, All-kept P p xs h.1)

  pub IsOrdered-keep :
      (before : A → A → Bool) (p : A → Bool) (xs : List A)
      → IsOrdered before xs
      → IsOrdered before (keep p xs)
  IsOrdered-keep before p [] h = tt
  IsOrdered-keep before p (x ∷ xs) h =
      ground (arith, IsOrdered-keep before p xs h.1, All-kept (λ y. before x y ≡ true) p xs h.0)

  pub take-all : (n : ℕ) (xs : List A) → length (take (suc n) xs) ≤ n → take (suc n) xs ≡ xs
  take-all n [] h = refl
  take-all zero (x ∷ xs) h = absurd (omega (arith, h))
  take-all (suc n) (x ∷ xs) h = ap (λ ys. x ∷ ys) (take-all n xs (omega (arith, h)))

  pub take-take : (n : ℕ) (xs : List A) → take n (take (suc n) xs) ≡ take n xs
  take-take zero xs = refl
  take-take (suc n) [] = refl
  take-take (suc n) (x ∷ xs) = ap (λ ys. x ∷ ys) (take-take n xs)

  pub length-take : (n : ℕ) (xs : List A) → ltb n (length xs) ≡ true → length (take n xs) ≡ n
  length-take zero xs h = refl
  length-take (suc n) [] h = ground arith
  length-take (suc n) (x ∷ xs) h = ap suc (length-take n xs (ground arith))

  -- What strictly follows the last of the first rows are the others.
  module _ (after : A → A → Bool) (irreflexive : (a : A) → after a a ≡ false)
      (asymmetric : (a b : A) → after a b ≡ true → after b a ≡ false) where
    pub rest_after :
        (n : ℕ) (xs : List A) (x : A)
        → IsOrdered after xs
        → last (take (suc n) xs) ≡ some x
        → xs ≡ take (suc n) xs ++ keep (after x) xs
    rest_after n [] x h k = refl
    rest_after zero (y ∷ ys) x h k =
        let q : y ≡ x = cc k in
        let rest : keep (after x) ys ≡ ys =
          keep-All (after x) ys (subst (λ z. All (λ w. after z w ≡ true) ys) q h.0) in
        let out : after x y ≡ false = subst (λ z. after z y ≡ false) q (irreflexive y) in
        rw (out, rest) refl
    rest_after (suc n) (y ∷ []) x h k =
        let q : y ≡ x = cc k in
        let out : after x y ≡ false = subst (λ z. after z y ≡ false) q (irreflexive y) in
        rw out refl
    rest_after (suc n) (y ∷ (z ∷ zs)) x h k =
        let ih = rest_after n (z ∷ zs) x h.1 k in
        let out = asymmetric y x (
          last-All (λ w. after y w ≡ true) (take (suc n) (z ∷ zs)) x
            (take-All (λ w. after y w ≡ true) (suc n) (z ∷ zs) h.0) k) in
        rw out (ap (λ l. y ∷ l) ih)

-- A walk that reads every row reads the first rows, and the last of them, as it goes.
module _ {E A B : Type 0} (f : A → Result E B) where
  pub collect-take :
      (n : ℕ) (xs : List A) (ys : List B)
      → collect f xs ≡ ok ys
      → collect f (take n xs) ≡ ok (take n ys)
  collect-take zero xs ys h = refl
  collect-take (suc n) [] ys h =
      let q : [] ≡ ys = cc h in subst (λ l. collect f [] ≡ ok (take (suc n) l)) q refl
  collect-take (suc n) (x ∷ xs) ys h =
      let (y, e, h') = >>=-eq-ok (f x) (λ a. collect f xs >>= λ rest. ok (a ∷ rest)) h in
      let (rest, e', h'') = >>=-eq-ok (collect f xs) (λ rest. ok (y ∷ rest)) h' in
      let q : y ∷ rest ≡ ys = cc h'' in
      let ih = collect-take n xs rest e' in
      subst (λ l. collect f (take (suc n) (x ∷ xs)) ≡ ok (take (suc n) l)) q (rw (e, ih) refl)

  pub length-collect : (xs : List A) (ys : List B) → collect f xs ≡ ok ys → length ys ≡ length xs
  length-collect [] ys h = let q : [] ≡ ys = cc h in subst (λ l. length l ≡ 0) q refl
  length-collect (x ∷ xs) ys h =
      let (y, e, h') = >>=-eq-ok (f x) (λ a. collect f xs >>= λ rest. ok (a ∷ rest)) h in
      let (rest, e', h'') = >>=-eq-ok (collect f xs) (λ rest. ok (y ∷ rest)) h' in
      let q : y ∷ rest ≡ ys = cc h'' in
      subst (λ l. length l ≡ suc (length xs)) q (ap suc (length-collect xs rest e'))

  last-cons : (a b : B) (bs : List B) → last bs ≡ some a → last (b ∷ bs) ≡ some a
  last-cons a b [] h = absurd (cc h)
  last-cons a b (c ∷ cs) h = h

  pub last-collect :
      (x : A) (xs : List A) (ys : List B)
      → collect f (x ∷ xs) ≡ ok ys
      → (a : A) × (b : B) × (last (x ∷ xs) ≡ some a) × (last ys ≡ some b) × (f a ≡ ok b)
  last-collect x [] ys h =
      let (y, e, h') = >>=-eq-ok (f x) (λ a. ok (a ∷ [])) h in
      let q : y ∷ [] ≡ ys = cc h' in (x, y, refl, subst (λ l. last l ≡ some y) q refl, e)
  last-collect x (z ∷ zs) ys h =
      let (y, e, h') = >>=-eq-ok (f x) (λ a. collect f (z ∷ zs) >>= λ rest. ok (a ∷ rest)) h in
      let (rest, e', h'') = >>=-eq-ok (collect f (z ∷ zs)) (λ rest. ok (y ∷ rest)) h' in
      let q : y ∷ rest ≡ ys = cc h'' in
      let (a, b, k, l, m) = last-collect z zs rest e' in
      (a, b, k, subst (λ l. last l ≡ some b) q (last-cons b y rest l), m)
