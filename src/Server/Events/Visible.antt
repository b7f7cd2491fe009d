-- ===== src/Server/Events/Visible.antt =====
-- Who sees an event, and that the stream shows nothing else.
use eal_api.Prelude.{
  ℕ, suc, ◌≡◌, ◌↔◌, ◌⊎◌, refl, ap, Bool, true, false, ◌||◌, inl, inr, List, [], ◌∷◌, Bool-cases,
  ◌==◌, ==_iff, if◌then◌else◌,
}
use eal_api.Prelude.Ordered.{text_ord}
use eal_api.Prelude.TreeSet.{eqb, eqb_iff_eq, eqb_of_eq}
use eal_api.Text.{Text}
use eal_api.Auth.Context.{AuthContext, can_access_owner}
use eal_api.Server.Events.{
  EventAudience, tenant_administrators, subject_or_tenant_administrators, TenantEvent, in_audience,
  event_visible_to, Received, event, lagged, closed, send_loop,
}

-- The audience is the tenant's administrators, and the subject where one is named.
abbrev pub IsAudience : EventAudience → AuthContext → Type 0
IsAudience tenant_administrators auth = auth.tenant_admin ≡ true
IsAudience (subject_or_tenant_administrators subject) auth =
    (auth.tenant_admin ≡ true) ⊎ (auth.subject ≡ subject)

or_admin : (admin : Bool) (a b : Text) → ((admin || eqb a b) ≡ true) ↔ ((admin ≡ true) ⊎ (a ≡ b))
or_admin true a b = (λ h. inl refl, λ h. refl)
or_admin false a b =
    (λ h. inr (eqb_iff_eq a b h), λ h. elim h [ inl e ↦ absurd (cc e) | inr e ↦ eqb_of_eq a b e ])

in_audience_iff :
    (audience : EventAudience) (auth : AuthContext)
    → (in_audience audience auth ≡ true) ↔ IsAudience audience auth
unfolding can_access_owner
in_audience_iff tenant_administrators auth = (λ h. h, λ h. h)
in_audience_iff (subject_or_tenant_administrators subject) auth =
    or_admin auth.tenant_admin auth.subject subject

-- An event is visible exactly to its own tenant, and there to the administrators and, where the
-- audience names a subject, to this subject.
pub event_visible_to_iff :
    (e : TenantEvent) (auth : AuthContext)
    → (event_visible_to e auth ≡ true)
      ↔ ((e.tenant_id ≡ auth.tenant_id) × IsAudience e.audience auth)
unfolding event_visible_to
event_visible_to_iff e auth =
    let (to, from) = in_audience_iff e.audience auth in
    let (same, of_same) = ==_iff e.tenant_id auth.tenant_id in
    elim (Bool-cases (e.tenant_id == auth.tenant_id)) [
      | inl ours ↦ rw ours (λ h. (same ours, to h), λ h. from h.1)
      | inr other ↦ rw other (λ h. absurd (cc h), λ h. absurd (cc (other, of_same h.0)))
    ]

-- What is received without the events that are not visible.
abbrev pub visible_only : AuthContext → List Received → List Received
visible_only auth [] = []
visible_only auth (event e ∷ rest) =
    let more = visible_only auth rest in if event_visible_to e auth then event e ∷ more else more
visible_only auth (lagged n ∷ rest) = lagged n ∷ visible_only auth rest
visible_only auth (closed ∷ rest) = closed ∷ visible_only auth rest

-- The payloads of the visible events before the channel closes.
abbrev pub visible_payloads : AuthContext → List Received → List Text
visible_payloads auth [] = []
visible_payloads auth (event e ∷ rest) =
    let more = visible_payloads auth rest in
    if event_visible_to e auth then e.payload ∷ more else more
visible_payloads auth (lagged n ∷ rest) = visible_payloads auth rest
visible_payloads auth (closed ∷ rest) = []

module _ (accepts : ℕ → Bool) (auth : AuthContext) where
  send_loop-visible_only_from :
      (n : ℕ) (received : List Received)
      → send_loop accepts auth n received ≡ send_loop accepts auth n (visible_only auth received)
  unfolding send_loop
  send_loop-visible_only_from n [] = refl
  send_loop-visible_only_from n (event e ∷ rest) = elim (Bool-cases (event_visible_to e auth)) [
    | inl seen ↦
        rw (seen, seen)
          (ap (λ s. if accepts n then e.payload ∷ s else [])
            (send_loop-visible_only_from (suc n) rest))
    | inr hidden ↦ rw hidden (send_loop-visible_only_from n rest)
  ]
  send_loop-visible_only_from n (lagged k ∷ rest) = send_loop-visible_only_from n rest
  send_loop-visible_only_from n (closed ∷ rest) = refl

  all_accepted :
      (n : ℕ) (received : List Received)
      → ((m : ℕ) → accepts m ≡ true)
      → send_loop accepts auth n received ≡ visible_payloads auth received
  unfolding send_loop
  all_accepted n [] up = refl
  all_accepted n (event e ∷ rest) up = elim (Bool-cases (event_visible_to e auth)) [
    | inl seen ↦ rw (seen, up n) (ap (◌∷◌ e.payload) (all_accepted (suc n) rest up))
    | inr hidden ↦ rw hidden (all_accepted n rest up)
  ]
  all_accepted n (lagged k ∷ rest) up = all_accepted n rest up
  all_accepted n (closed ∷ rest) up = refl

-- What a connection sends does not depend on the events that its identity may not see; and where
-- every send succeeds it is the payloads of all others, in order, until the channel closes.
pub send_loop-visible :
    (accepts : ℕ → Bool) (auth : AuthContext) (received : List Received)
    → (send_loop accepts auth 0 received ≡ send_loop accepts auth 0 (visible_only auth received))
      × (send_loop (λ n. true) auth 0 received ≡ visible_payloads auth received)
send_loop-visible accepts auth received = (
  send_loop-visible_only_from accepts auth 0 received,
  all_accepted (λ n. true) auth 0 received (λ m. refl),
)
