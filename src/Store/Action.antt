-- ===== src/Store/Action.antt =====
-- A call of the API on a state: its result, and the state that it leaves, after an error too,
-- since what a statement has written stays written. A transaction takes it back.
use eal_api.Prelude.{
  ◌≡◌, refl, ap, Bool, true, false, Option, none, some, List, [], ◌∷◌, Result, ok, err, All, map,
  subst,
}
use eal_api.Headers.{first}
use eal_api.HttpError.{HttpError}

abbrev pub Action {ℓ} : Type 0 → Type ℓ → Type ℓ
Action S A = S → Result HttpError A × S

module _ {S : Type 0} where
  abbrev pub pure {ℓ} : {A : Type ℓ} → A → Action S A
  pure a s = (ok a, s)

  abbrev pub raise {ℓ} : {A : Type ℓ} → HttpError → Action S A
  raise e s = (err e, s)

  abbrev pub gets {ℓ} : {A : Type ℓ} → (S → A) → Action S A
  gets f s = (ok (f s), s)

  abbrev pub modify : (S → S) → Action S (Unit {0})
  modify f s = (ok tt, f s)

  -- `result?`
  abbrev pub lift {ℓ} : {A : Type ℓ} → Result HttpError A → Action S A
  lift r s = (r, s)

  -- `option.ok_or(e)?`
  abbrev pub or_raise {ℓ} : {A : Type ℓ} → Option A → HttpError → Action S A
  or_raise none e = raise e
  or_raise (some a) e = pure a

  -- `if !test { return Err(e) }`
  abbrev pub require : Bool → HttpError → Action S (Unit {0})
  require true e = pure tt
  require false e = raise e

  abbrev pub run_on {ℓ κ} :
      {A : Type ℓ} {B : Type κ} → (A → Action S B) → Result HttpError A × S → Result HttpError B × S
  run_on f (ok a, t) = f a t
  run_on f (err e, t) = (err e, t)

  infixl 5 ◌>>=◌ ◌>>◌
  abbrev pub ◌>>=◌ {ℓ κ} : {A : Type ℓ} {B : Type κ} → Action S A → (A → Action S B) → Action S B
  ◌>>=◌ m f s = run_on f (m s)

  abbrev pub ◌>>◌ {ℓ} : {B : Type ℓ} → Action S (Unit {0}) → Action S B → Action S B
  m >> k = m >>= λ _. k

  abbrev pub roll_back {ℓ} : {A : Type ℓ} → S → Result HttpError A × S → Result HttpError A × S
  roll_back s (ok a, t) = (ok a, t)
  roll_back s (err e, t) = (err e, s)

  -- `begin` ... `commit`: an error drops the transaction, and what it had written.
  abbrev pub transaction {ℓ} : {A : Type ℓ} → Action S A → Action S A
  transaction m s = roll_back s (m s)

  -- `for x in xs { ... }`, with the results in order.
  abbrev pub for_each {ℓ κ} :
      {A : Type ℓ} {B : Type κ} → (A → Action S B) → List A → Action S (List B)
  for_each f [] = pure []
  for_each f (x ∷ xs) = f x >>= λ b. for_each f xs >>= λ rest. pure (b ∷ rest)

  -- A bind runs its rest where its first part left off, and not at all after an error.
  pub bind-ok {ℓ κ} :
      {A : Type ℓ} {B : Type κ} (m : Action S A) (f : A → Action S B) {s t : S} {a : A}
      → m s ≡ (ok a, t)
      → (m >>= f) s ≡ f a t
  bind-ok m f h = ap (run_on f) h

  pub bind-err {ℓ κ} :
      {A : Type ℓ} {B : Type κ} (m : Action S A) (f : A → Action S B) {s t : S} {e : HttpError}
      → m s ≡ (err e, t)
      → (m >>= f) s ≡ (err e, t)
  bind-err m f h = ap (run_on f) h

  pub transaction-ok {ℓ} :
      {A : Type ℓ} (m : Action S A) {s t : S} {a : A}
      → m s ≡ (ok a, t)
      → transaction m s ≡ (ok a, t)
  transaction-ok m {s} h = ap (roll_back s) h

  pub transaction-err {ℓ} :
      {A : Type ℓ} (m : Action S A) {s t : S} {e : HttpError}
      → m s ≡ (err e, t)
      → transaction m s ≡ (err e, s)
  transaction-err m {s} h = ap (roll_back s) h

  -- A bind that succeeds ran its first part with some value, and the rest with this value.
  pub bind-eq-ok {ℓ κ} :
      {A : Type ℓ} {B : Type κ} (m : Action S A) (f : A → Action S B) {s u : S} {b : B}
      → (m >>= f) s ≡ (ok b, u)
      → (a : A) × (t : S) × (m s ≡ (ok a, t)) × (f a t ≡ (ok b, u))
  bind-eq-ok {A = A} {B = B} m f {s} {u} {b} h = split (m s) refl h
    where
      split :
          (r : Result HttpError A × S)
          → m s ≡ r
          → run_on f r ≡ (ok b, u)
          → (a : A) × (t : S) × (m s ≡ (ok a, t)) × (f a t ≡ (ok b, u))
      split (ok a, t) e h = (a, t, e, h)
      split (err error, t) e h = absurd (cc h)

  pub pure-eq-ok : {A : Type 0} {a b : A} {s t : S} → pure a s ≡ (ok b, t) → (a ≡ b) × (s ≡ t)
  pure-eq-ok h = (cc h, ap (λ p. p.1) h)

  pub or_raise-found :
      {A : Type 0} (o : Option A) (e : HttpError) {s t : S} {a : A}
      → or_raise o e s ≡ (ok a, t)
      → (o ≡ some a) × (s ≡ t)
  or_raise-found none e h = absurd (cc h)
  or_raise-found (some b) e {s} {t} {a} h =
      let same : b ≡ a = cc h in (ap (λ x. some x) same, ap (λ p. p.1) h)

  -- What holds of the rest after every success of the first part, and of its every error, holds
  -- of the bind.
  pub bind-outcome {ℓ κ ι} :
      {A : Type ℓ} {B : Type κ} (P : Result HttpError B × S → Type ι) (m : Action S A)
      (f : A → Action S B) (s : S)
      → ((a : A) (t : S) → m s ≡ (ok a, t) → P (f a t))
      → ((e : HttpError) (t : S) → m s ≡ (err e, t) → P (err e, t))
      → P ((m >>= f) s)
  bind-outcome {A = A} P m f s good bad = split (m s) refl
    where
      split : (r : Result HttpError A × S) → m s ≡ r → P (run_on f r)
      split (ok a, t) e = good a t e
      split (err error, t) e = bad error t e

-- What a query for one row answers with has what all of its rows have.
pub first-All {ℓ} :
    {S : Type 0} {A : Type ℓ} {B : Type 0} (f : A → B) (P : B → Type 0) (rows : List A) {s t : S}
    {b : B}
    → All (λ row. P (f row)) rows
    → gets (λ _. first (map f rows)) s ≡ (ok (some b), t)
    → P b × (t ≡ s)
first-All f P [] h e = absurd (cc e)
first-All f P (row ∷ rows) h e = (subst P (cc e) h.0, cc e)
