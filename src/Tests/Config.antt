-- ===== src/Tests/Config.antt =====
-- Configurations, in development and with a secret.
use eal_api.Prelude.{◌≡◌, refl, true, false, none, List, [], ◌∷◌, ok, is_empty}
use eal_api.Prelude.Int.{pos}
use eal_api.Prelude.Ordered.{text_ord, text_cmp}
use eal_api.Prelude.TreeSet.{contains, insert, is_subset}
use eal_api.Text.{
  Text, text, byte_length, utf8_width, trim, trim_matches, trim_start_matches, trim_end_matches,
  is_whitespace, split, extend_head, to_ascii_lowercase, ascii_lower, is_ascii_alphanumeric,
}
use eal_api.Headers.{as_bytes, utf8}
use eal_api.Json.{Json, str, arr, cons, nil}
use eal_api.Auth.Roles.{
  is_role_byte, is_identifier_byte, insert_role, insert_json_roles, parsed_roles, parse_roles,
  is_claim_part, parse_claim_path, validate_cookie_name,
}
use eal_api.Auth.Roles.WellFormed.{IsRoleSet, parse_roles-IsRoleSet}
use eal_api.Auth.Config.{
  JwtVerifier, JwtSettings, AuthConfig, jwt_mode, insecure_headers, is_jwt, Environment, secret_of,
  unconfigured, jwt, from_env,
}
use eal_api.Auth.Config.Safety.{IsSafeVerifier, jwt-IsSafeVerifier, from_env-insecure}
use eal_api.Tests.Instances.{zeros}

unfoldable pub settings : JwtSettings
unfolding text zeros
settings = record {
  secret = zeros 32;
  issuer = text " issuer";
  audience = text "api";
  tenant_claim = text "app.tenant";
  role_claim = text "role";
  allowed_roles = text "admin" ∷ text "member" ∷ [];
  admin_roles = text "admin" ∷ [];
  leeway_seconds = pos 30;
  cookie_name = text "session";
}

unfoldable pub verifier : JwtVerifier
unfolding text zeros
verifier = record {
  secret = zeros 32;
  issuer = text "issuer";
  audience = text "api";
  tenant_claim_path = text "app" ∷ text "tenant" ∷ [];
  role_claim_path = text "role" ∷ [];
  allowed_roles = text "admin" ∷ text "member" ∷ [];
  admin_roles = text "admin" ∷ [];
  leeway_seconds = pos 30;
}

unfoldable config : AuthConfig
unfolding verifier text
config = record { mode = jwt_mode verifier; cookie_name = text "session" }

jwt_run : jwt settings ≡ ok config
unfolding settings config verifier zeros text jwt trim trim_matches trim_start_matches
    trim_end_matches is_whitespace byte_length utf8_width parse_claim_path is_claim_part
    is_identifier_byte is_ascii_alphanumeric as_bytes utf8 split extend_head is_subset contains
    text_cmp validate_cookie_name
jwt_run = refl

jwt-IsSafeVerifier_example :
    (v : JwtVerifier) × (config.mode ≡ jwt_mode v) × IsSafeVerifier settings v
jwt-IsSafeVerifier_example = jwt-IsSafeVerifier settings config jwt_run

abbrev nothing_set : Environment
nothing_set name = none

insecure_run : from_env nothing_set false true ≡ ok insecure_headers
unfolding from_env unconfigured
insecure_run = refl

insecure_is_not_jwt : is_jwt insecure_headers ≡ false
unfolding is_jwt insecure_headers
insecure_is_not_jwt = refl

from_env-insecure_example :
    (false ≡ false)
    × (true ≡ true)
    × (secret_of (nothing_set (text "EAL_JWT_HS256_SECRET")) ≡ none)
    × (insecure_headers ≡ insecure_headers)
from_env-insecure_example =
    from_env-insecure nothing_set false true insecure_headers insecure_run insecure_is_not_jwt

abbrev two_roles : List Text
two_roles = text "admin" ∷ text "member" ∷ []

abbrev claimed : Json
claimed = arr (cons (str (text "Member")) (cons (str (text " admin")) nil))

roles_run : parse_roles claimed ≡ ok two_roles
unfolding text parse_roles parsed_roles insert_json_roles insert_role to_ascii_lowercase ascii_lower
    trim trim_matches trim_start_matches trim_end_matches is_whitespace byte_length utf8_width
    as_bytes utf8 is_role_byte is_ascii_alphanumeric insert text_cmp
roles_run = refl

parse_roles-IsRoleSet_example : IsRoleSet two_roles × (is_empty two_roles ≡ false)
parse_roles-IsRoleSet_example = parse_roles-IsRoleSet claimed two_roles roles_run
