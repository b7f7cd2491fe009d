-- ===== src/Tenant.antt =====
-- src/tenant.rs: the tenant that a trusted caller names in a header.
use eal_api.Prelude.{Result, ◌>>=◌, ok_or}
use eal_api.Text.{text}
use eal_api.Uuids.{Uuid, Uuids}
use eal_api.Headers
use eal_api.Headers.{HeaderMap, HeaderText}
use eal_api.HttpError
use eal_api.HttpError.{HttpError}

module _ (uuids : Uuids) (to_str : HeaderText) where
  unfoldable pub tenant_id_from_headers : HeaderMap → Result HttpError Uuid
  tenant_id_from_headers headers = do
    raw ←
        ok_or (Headers.get headers (text "x-eal-tenant-id"))
          (HttpError.unauthorized (text "missing X-Eal-Tenant-Id header"))
    value ← ok_or (to_str raw) (HttpError.unauthorized (text "invalid X-Eal-Tenant-Id header"))
    ok_or (uuids.parse_str value) (HttpError.unauthorized (text "X-Eal-Tenant-Id must be a UUID"))
