-- ===== src/Auth/Context.antt =====
-- The identity of a request, and what it may do.
use eal_api.Prelude.{Bool, ◌||◌, List, Result, ok, err, if◌then◌else◌}
use eal_api.Prelude.Ordered.{text_ord}
use eal_api.Prelude.TreeSet.{eqb}
use eal_api.Text.{Text, text}
use eal_api.Uuids.{Uuid}
use eal_api.HttpError
use eal_api.HttpError.{HttpError}

pub record AuthContext : Type 0 where
  pub tenant_id : Uuid
  pub subject : Text
  pub roles : List Text
  pub tenant_admin : Bool

abbrev pub is_tenant_admin : AuthContext → Bool
is_tenant_admin auth = auth.tenant_admin

unfoldable pub can_access_owner : AuthContext → Text → Bool
can_access_owner auth owner_subject = auth.tenant_admin || eqb auth.subject owner_subject

unfoldable pub require_tenant_admin : AuthContext → Result HttpError (Unit {0})
require_tenant_admin auth =
    if auth.tenant_admin
    then ok tt
    else err (HttpError.forbidden (text "this operation requires a tenant administrator role"))
