-- ===== src/Server/Routes/Steps.antt =====
-- What the steps of a handler that succeeds were.
use eal_api.Prelude.{
  ◌≡◌, refl, Bool, true, false, Option, none, some, [], ◌∷◌, ◌++◌, Result, ok, err,
}
use eal_api.Text.{Text}
use eal_api.Uuids.{Uuid}
use eal_api.HttpError.{HttpError}
use eal_api.Server.Events.{EventAudience, TenantEvent}
use eal_api.Store.Rows.{Store}
use eal_api.Store.Action.{Action, lift, require, or_raise, ◌>>=◌}
use eal_api.Server.Routes.{World, on_store, send}

abbrev pub event_of : Uuid → EventAudience → Text → TenantEvent
event_of tenant_id audience payload = record {
  tenant_id = tenant_id;
  audience = audience;
  payload = payload;
}

module _ {S B : Type 0} {s u : S} {b : B} where
  pub lift-then :
      {A : Type 0} (r : Result HttpError A) (k : A → Action S B)
      → (lift r >>= k) s ≡ (ok b, u)
      → (a : A) × (r ≡ ok a) × (k a s ≡ (ok b, u))
  lift-then (ok a) k h = (a, refl, h)
  lift-then (err e) k h = absurd (cc h)

  pub require-then :
      (test : Bool) (e : HttpError) (k : Unit {0} → Action S B)
      → (require test e >>= k) s ≡ (ok b, u)
      → (test ≡ true) × (k tt s ≡ (ok b, u))
  require-then true e k h = (refl, h)
  require-then false e k h = absurd (cc h)

  pub or_raise-then :
      {A : Type 0} (o : Option A) (e : HttpError) (k : A → Action S B)
      → (or_raise o e >>= k) s ≡ (ok b, u)
      → (a : A) × (o ≡ some a) × (k a s ≡ (ok b, u))
  or_raise-then (some a) e k h = (a, refl, h)
  or_raise-then none e k h = absurd (cc h)

module _ {Single Double B : Type 0} {w u : World Single Double} {b : B} where
  pub on_store-then :
      {A : Type 0} (m : Action (Store Single Double) A) (k : A → Action (World Single Double) B)
      → (on_store m >>= k) w ≡ (ok b, u)
      → (a : A) × (t : Store Single Double) × (m w.store ≡ (ok a, t))
        × (k a (record w { store = t }) ≡ (ok b, u))
  on_store-then {A = A} m k h = split (m w.store) refl h
    where
      split :
          (r : Result HttpError A × Store Single Double)
          → m w.store ≡ r
          → ((λ _. (r.0, record w { store = r.1 })) >>= k) w ≡ (ok b, u)
          → (a : A) × (t : Store Single Double) × (m w.store ≡ (ok a, t))
            × (k a (record w { store = t }) ≡ (ok b, u))
      split (ok a, t) e h = (a, t, e, h)
      split (err error, t) e h = absurd (cc h)

pub send-then :
    {Single Double B : Type 0} {u : World Single Double} {b : B} (w : World Single Double)
    (o : Option Text) (tenant_id : Uuid) (audience : EventAudience)
    (k : Unit {0} → Action (World Single Double) B)
    → (send o tenant_id audience >>= k) w ≡ (ok b, u)
    → (payload : Text) × (o ≡ some payload)
      × (k tt (record w { events = w.events ++ (event_of tenant_id audience payload ∷ []) })
          ≡ (ok b, u))
send-then w (some payload) tenant_id audience k h = (payload, refl, h)
send-then w none tenant_id audience k h = absurd (cc h)
