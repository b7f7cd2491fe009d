-- ===== src/Auth/Config.antt =====
-- The authentication configuration: the checks of `AuthConfig::jwt`, and `AuthConfig::from_env`
-- over an environment, which is a partial function from names to values.
pub mod Safety
use eal_api.Prelude.{
  ℕ, ◌+◌, ◌-◌, ◌*◌, Bool, true, false, not, ◌&&◌, ◌||◌, Option, none, some, List, [], ◌∷◌, ◌++◌,
  ltb, in_range, ◌==◌, if◌then◌else◌, is_empty, length, Result, ok, err, ◌>>=◌, ◌>>◌, ensure,
  refuse, ok_or, unwrap_or,
}
use eal_api.Prelude.Int.{ℤ, pos, int_leb, ◌-ℤ◌, fits_i64}
use eal_api.Prelude.Ordered.{text_ord}
use eal_api.Prelude.TreeSet.{is_subset}
use eal_api.Text.{Text, text, byte_length, trim}
use eal_api.Headers.{Bytes, as_bytes}
use eal_api.Auth.Roles.{parse_role_set, parse_claim_path, validate_cookie_name}

abbrev pub min_secret_bytes : ℕ
min_secret_bytes = 32

abbrev pub max_secret_bytes : ℕ
max_secret_bytes = 4096

abbrev default_leeway_seconds : ℤ
default_leeway_seconds = pos 30

pub record JwtVerifier : Type 0 where
  pub secret : Bytes
  pub issuer : Text
  pub audience : Text
  pub tenant_claim_path : List Text
  pub role_claim_path : List Text
  pub allowed_roles : List Text
  pub admin_roles : List Text
  pub leeway_seconds : ℤ

pub data AuthMode : Type 0 where
  jwt_mode : JwtVerifier → AuthMode
  insecure_headers_mode : AuthMode

pub record AuthConfig : Type 0 where
  pub mode : AuthMode
  pub cookie_name : Text

-- The arguments of `AuthConfig::jwt`.
pub record JwtSettings : Type 0 where
  pub secret : Bytes
  pub issuer : Text
  pub audience : Text
  pub tenant_claim : Text
  pub role_claim : Text
  pub allowed_roles : List Text
  pub admin_roles : List Text
  pub leeway_seconds : ℤ
  pub cookie_name : Text

unfoldable pub jwt : JwtSettings → Result Text AuthConfig
jwt s = do
  ensure (in_range min_secret_bytes max_secret_bytes (length s.secret))
      (text "EAL_JWT_HS256_SECRET must contain between 32 and 4096 bytes")
  let issuer = trim s.issuer
  let audience = trim s.audience
  refuse (is_empty issuer || ltb 512 (byte_length issuer))
      (text "EAL_JWT_ISSUER must contain between 1 and 512 bytes")
  refuse (is_empty audience || ltb 512 (byte_length audience))
      (text "EAL_JWT_AUDIENCE must contain between 1 and 512 bytes")
  tenant_claim_path ← parse_claim_path s.tenant_claim
  role_claim_path ← parse_claim_path s.role_claim
  refuse (is_empty s.allowed_roles) (text "EAL_JWT_ALLOWED_ROLES must contain at least one role")
  ensure (is_subset s.admin_roles s.allowed_roles)
      (text "EAL_JWT_TENANT_ADMIN_ROLES must be a subset of EAL_JWT_ALLOWED_ROLES")
  ensure (int_leb (pos 0) s.leeway_seconds && int_leb s.leeway_seconds (pos 300))
      (text "EAL_JWT_LEEWAY_SECONDS must be between 0 and 300")
  validate_cookie_name s.cookie_name
  ok (record {
    mode = jwt_mode (record {
      secret = s.secret;
      issuer = issuer;
      audience = audience;
      tenant_claim_path = tenant_claim_path;
      role_claim_path = role_claim_path;
      allowed_roles = s.allowed_roles;
      admin_roles = s.admin_roles;
      leeway_seconds = s.leeway_seconds;
    });
    cookie_name = s.cookie_name;
  })

unfoldable pub insecure_headers : AuthConfig
insecure_headers = record { mode = insecure_headers_mode; cookie_name = text "eal_access_token" }

abbrev pub mode_is_jwt : AuthMode → Bool
mode_is_jwt (jwt_mode verifier) = true
mode_is_jwt insecure_headers_mode = false

unfoldable pub is_jwt : AuthConfig → Bool
is_jwt config = mode_is_jwt config.mode

abbrev mode_text : AuthMode → Text
mode_text (jwt_mode verifier) = text "verified_jwt"
mode_text insecure_headers_mode = text "explicit_insecure_headers"

unfoldable pub mode_name : AuthConfig → Text
mode_name config = mode_text config.mode

-- `env::var(name).ok()`
abbrev pub Environment : Type 0
Environment = Text → Option Text

abbrev pub nonempty : Text → Option Text
nonempty value = if is_empty value then none else some value

abbrev pub trimmed_nonempty : Option Text → Option Text
trimmed_nonempty none = none
trimmed_nonempty (some value) = nonempty (trim value)

-- `s.parse::<i64>().ok()`
unfoldable pub parse_digits : ℕ → Text → Option ℕ
parse_digits n [] = some n
parse_digits n (c ∷ s) =
    let rest = parse_digits (n * 10 + (c - b'0')) s in if in_range b'0' b'9' c then rest else none

unfoldable pub parse_magnitude : Text → Option ℕ
parse_magnitude [] = none
parse_magnitude (c ∷ s) = parse_digits 0 (c ∷ s)

abbrev pub within_i64 : Option ℤ → Option ℤ
within_i64 none = none
within_i64 (some a) = if fits_i64 a then some a else none

abbrev pub negated : Option ℕ → Option ℤ
negated none = none
negated (some n) = some (pos 0 -ℤ pos n)

abbrev pub positive : Option ℕ → Option ℤ
positive none = none
positive (some n) = some (pos n)

unfoldable pub parse_i64 : Text → Option ℤ
parse_i64 [] = none
parse_i64 (c ∷ s) =
    if c == b'-'
    then within_i64 (negated (parse_magnitude s))
    else if c == b'+'
    then within_i64 (positive (parse_magnitude s))
    else within_i64 (positive (parse_magnitude (c ∷ s)))

-- An optional variable that must be an integer where it is set.
abbrev pub optional_i64 : Option Text → Text → Result Text (Option ℤ)
optional_i64 none error = ok none
optional_i64 (some value) error = ok_or (parse_i64 (trim value)) error >>= λ n. ok (some n)

-- `.filter(|value| !value.trim().is_empty())`: the secret itself is not trimmed.
abbrev pub secret_of : Option Text → Option Text
secret_of none = none
secret_of (some value) = if is_empty (trim value) then none else some value

unfoldable pub unconfigured : Bool → Bool → Result Text AuthConfig
unconfigured production allow_insecure_tenant_header =
    if production
    then err (
        text
          "production authentication requires EAL_JWT_HS256_SECRET, EAL_JWT_ISSUER, and EAL_JWT_AUDIENCE")
    else if allow_insecure_tenant_header
    then ok insecure_headers
    else err (
        text
          "authentication is not configured; set JWT verification variables or explicitly enable the isolated development header scaffold")

module _ (env : Environment) where
  unfoldable pub required_env : Text → Result Text Text
  required_env name =
      ok_or (trimmed_nonempty (env name))
        (name ++ text " is required when JWT authentication is enabled")

  unfoldable pub env_string : Text → Text → Text
  env_string name default = unwrap_or (trimmed_nonempty (env name)) default

  unfoldable pub configured_allowed_roles : Result Text (List Text)
  configured_allowed_roles =
      parse_role_set
        (env_string (text "EAL_JWT_ALLOWED_ROLES") (text "authenticated,member,admin,owner"))

  unfoldable pub configured_admin_roles : Result Text (List Text)
  configured_admin_roles =
      parse_role_set (env_string (text "EAL_JWT_TENANT_ADMIN_ROLES") (text "admin,owner"))

  unfoldable pub configured_leeway : Result Text (Option ℤ)
  configured_leeway =
      optional_i64 (env (text "EAL_JWT_LEEWAY_SECONDS"))
        (text "EAL_JWT_LEEWAY_SECONDS must be an integer")

  -- The branch of `from_env` with a secret.
  unfoldable pub jwt_from_env : Text → Result Text AuthConfig
  jwt_from_env secret = do
    issuer ← required_env (text "EAL_JWT_ISSUER")
    audience ← required_env (text "EAL_JWT_AUDIENCE")
    allowed_roles ← configured_allowed_roles
    admin_roles ← configured_admin_roles
    leeway ← configured_leeway
    jwt (record {
      secret = as_bytes secret;
      issuer = issuer;
      audience = audience;
      tenant_claim = env_string (text "EAL_JWT_TENANT_CLAIM") (text "tenant_id");
      role_claim = env_string (text "EAL_JWT_ROLE_CLAIM") (text "role");
      allowed_roles = allowed_roles;
      admin_roles = admin_roles;
      leeway_seconds = unwrap_or leeway default_leeway_seconds;
      cookie_name = env_string (text "EAL_JWT_COOKIE_NAME") (text "eal_access_token");
    })

  unfoldable pub from_env : Bool → Bool → Result Text AuthConfig
  from_env production allow_insecure_tenant_header =
      elim (secret_of (env (text "EAL_JWT_HS256_SECRET"))) [
        | some secret ↦ jwt_from_env secret
        | none ↦ unconfigured production allow_insecure_tenant_header
      ]
