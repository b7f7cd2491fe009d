-- ===== src/Server/Events.antt =====
-- The events of a tenant and the WebSocket that streams them. A subscriber of the broadcast
-- channel receives events, notices that it lagged, or the end of the channel; a send to the
-- socket succeeds or not, which `accepts` says of the n-th send.
pub mod Visible
use eal_api.Prelude.{
  ℕ, suc, Bool, false, not, List, [], ◌∷◌, Option, any, if◌then◌else◌, ◌==◌, Result, ok, err, ◌>>=◌,
  ◌>>◌, ensure, ok_or,
}
use eal_api.Prelude.Ordered.{text_ord}
use eal_api.Prelude.TreeSet.{eqb}
use eal_api.Text.{Text, text}
use eal_api.Uuids.{Uuid}
use eal_api.Headers
use eal_api.Headers.{HeaderMap, HeaderValue}
use eal_api.HttpError
use eal_api.HttpError.{HttpError}
use eal_api.Auth.Context.{AuthContext, can_access_owner, is_tenant_admin}

pub data EventAudience : Type 0 where
  tenant_administrators : EventAudience
  subject_or_tenant_administrators : Text → EventAudience

pub record TenantEvent : Type 0 where
  pub tenant_id : Uuid
  pub audience : EventAudience
  pub payload : Text

abbrev pub in_audience : EventAudience → AuthContext → Bool
in_audience tenant_administrators auth = is_tenant_admin auth
in_audience (subject_or_tenant_administrators subject) auth = can_access_owner auth subject

unfoldable pub event_visible_to : TenantEvent → AuthContext → Bool
event_visible_to event auth =
    if event.tenant_id == auth.tenant_id then in_audience event.audience auth else false

-- What `events.recv()` returns.
pub data Received : Type 0 where
  event : TenantEvent → Received
  lagged : ℕ → Received
  closed : Received

module _ (accepts : ℕ → Bool) (auth : AuthContext) where
  -- The loop of the sending task over what it receives, and the frames that it sends from the
  -- n-th on; a failed send ends it.
  unfoldable pub send_loop : ℕ → List Received → List Text
  send_loop n [] = []
  send_loop n (event e ∷ rest) =
      let hidden = send_loop n rest in
      let sent = send_loop (suc n) rest in
      if not (event_visible_to e auth) then hidden else if accepts n then e.payload ∷ sent else []
  send_loop n (lagged skipped ∷ rest) = send_loop n rest
  send_loop n (closed ∷ rest) = []

unfoldable pub authorize_websocket_origin :
    HeaderMap → List HeaderValue → Result HttpError (Unit {0})
authorize_websocket_origin headers allowed_origins = do
  origin ←
      ok_or (Headers.get headers (text "origin"))
        (HttpError.forbidden (text "WebSocket requests require an Origin header"))
  ensure (any (λ allowed. eqb allowed origin) allowed_origins)
      (HttpError.forbidden (text "WebSocket origin is not in CORS_ALLOWED_ORIGINS"))
