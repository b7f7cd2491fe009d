-- ===== src/Prelude/Results.antt =====
-- `Result<A, E>` with its bind, as `?` uses it, and conversions from `Option`.
use mathlib.Core.Path.{◌≡◌, refl}
use mathlib.Core.Bool.{Bool, true, false}
use mathlib.Core.Logic.{◌⊎◌, inl, inr}
use mathlib.Core.Option.{Option, none, some}
use mathlib.Core.List.{List, [], ◌∷◌}

pub data Result {ℓ κ} (E : Type ℓ) (A : Type κ) : Type (ℓ ⊔ κ) where
  ok : A → Result E A
  err : E → Result E A

infixl 5 ◌>>=◌ ◌>>◌
abbrev pub ◌>>=◌ {ℓ κ ι} :
    {E : Type ℓ} {A : Type κ} {B : Type ι} → Result E A → (A → Result E B) → Result E B
ok value >>= next = next value
err error >>= next = err error

abbrev pub ◌>>◌ {ℓ κ} : {E : Type ℓ} {B : Type κ} → Result E (Unit {0}) → Result E B → Result E B
check >> rest = check >>= λ _. rest

-- `if !test { return Err(e) }`
abbrev pub ensure {ℓ} : {E : Type ℓ} → Bool → E → Result E (Unit {0})
ensure true e = ok tt
ensure false e = err e

-- `if test { return Err(e) }`
abbrev pub refuse {ℓ} : {E : Type ℓ} → Bool → E → Result E (Unit {0})
refuse true e = err e
refuse false e = ok tt

-- `option.ok_or(e)`
abbrev pub ok_or {ℓ κ} : {E : Type ℓ} {A : Type κ} → Option A → E → Result E A
ok_or none e = err e
ok_or (some a) e = ok a

-- `option.and_then(f)`
abbrev pub and_then {ℓ κ} : {A : Type ℓ} {B : Type κ} → Option A → (A → Option B) → Option B
and_then none f = none
and_then (some a) f = f a

-- `option.unwrap_or(a)`
abbrev pub unwrap_or {ℓ} : {A : Type ℓ} → Option A → A → A
unwrap_or none d = d
unwrap_or (some a) d = a

-- `result.map_err(f)`
abbrev pub map_err {ℓ κ ι} :
    {E : Type ℓ} {F : Type κ} {A : Type ι} → (E → F) → Result E A → Result F A
map_err f (ok a) = ok a
map_err f (err e) = err (f e)

module _ {ℓ κ} {E : Type ℓ} {A : Type κ} where
  -- `iter().map(f).collect::<Result<Vec<_>, _>>()`: the first error ends the walk.
  abbrev pub collect {ι} : {B : Type ι} → (B → Result E A) → List B → Result E (List A)
  collect f [] = ok []
  collect f (x ∷ xs) = f x >>= λ a. collect f xs >>= λ rest. ok (a ∷ rest)

  pub Result-cases : (r : Result E A) → ((a : A) × (r ≡ ok a)) ⊎ ((e : E) × (r ≡ err e))
  Result-cases (ok a) = inl (a, refl)
  Result-cases (err e) = inr (e, refl)

  -- A bind that succeeds ran its first part with some value, and the rest with this value.
  pub >>=-eq-ok {ι} :
      {B : Type ι} (first : Result E A) (next : A → Result E B) {y : B}
      → (first >>= next) ≡ ok y
      → (x : A) × (first ≡ ok x) × (next x ≡ ok y)
  >>=-eq-ok (err error) next run = cc
  >>=-eq-ok (ok x) next run = (x, refl, run)

pub ensure-eq-ok {ℓ} : {E : Type ℓ} (b : Bool) (e : E) {u : Unit {0}} → ensure b e ≡ ok u → b ≡ true
ensure-eq-ok true e h = refl
ensure-eq-ok false e h = cc

pub refuse-eq-ok {ℓ} :
    {E : Type ℓ} (b : Bool) (e : E) {u : Unit {0}} → refuse b e ≡ ok u → b ≡ false
refuse-eq-ok true e h = cc
refuse-eq-ok false e h = refl

-- The same for each kind of check at the head of a `do` block.
module _ {ℓ κ} {E : Type ℓ} {B : Type κ} {x : B} where
  pub ensure-then :
      (b : Bool) (e : E) (k : Unit {0} → Result E B)
      → (ensure b e >>= k) ≡ ok x
      → (b ≡ true) × (k tt ≡ ok x)
  ensure-then true e k h = (refl, h)
  ensure-then false e k h = cc

  pub refuse-then :
      (b : Bool) (e : E) (k : Unit {0} → Result E B)
      → (refuse b e >>= k) ≡ ok x
      → (b ≡ false) × (k tt ≡ ok x)
  refuse-then true e k h = cc
  refuse-then false e k h = (refl, h)

  pub ok_or-then {ι} :
      {A : Type ι} (o : Option A) (e : E) (k : A → Result E B)
      → (ok_or o e >>= k) ≡ ok x
      → (a : A) × (o ≡ some a) × (k a ≡ ok x)
  ok_or-then none e k h = cc
  ok_or-then (some a) e k h = (a, refl, h)

  pub map_err-then {ι μ} :
      {F : Type ι} {A : Type μ} (f : F → E) (r : Result F A) (k : A → Result E B)
      → (map_err f r >>= k) ≡ ok x
      → (a : A) × (r ≡ ok a) × (k a ≡ ok x)
  map_err-then f (ok a) k h = (a, refl, h)
  map_err-then f (err e) k h = cc

pub ok_or-eq-ok {ℓ κ} :
    {E : Type ℓ} {A : Type κ} (o : Option A) (e : E) {a : A} → ok_or o e ≡ ok a → o ≡ some a
ok_or-eq-ok none e h = absurd (cc h)
ok_or-eq-ok (some a) e h = cc h

pub map_err-eq-ok {ℓ κ ι} :
    {E : Type ℓ} {F : Type κ} {A : Type ι} (f : E → F) (r : Result E A) {a : A}
    → map_err f r ≡ ok a
    → r ≡ ok a
map_err-eq-ok f (ok a) h = cc h
map_err-eq-ok f (err e) h = absurd (cc h)
