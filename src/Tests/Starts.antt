-- ===== src/Tests/Starts.antt =====
-- A server that starts in production, its crawler and its events.
use eal_api.Prelude.{ltb}
use eal_api.Prelude.{
  ℕ, zero, suc, ◌≡◌, ◌↔◌, refl, ap, true, false, ◌||◌, none, some, List, [], ◌∷◌, ◌++◌, in_range,
  length, if◌then◌else◌, ok,
}
use eal_api.Prelude.Int.{pos}
use eal_api.Prelude.Ordered.{text_ord, text_cmp}
use eal_api.Prelude.TreeSet.{
  eqb, contains, insert, is_subset, sort, sort_insert, dedup, push_unless_same,
}
use eal_api.Text.{
  Text, text, byte_length, utf8_width, trim, trim_matches, trim_start_matches, trim_end_matches,
  is_whitespace, split, extend_head, to_ascii_lowercase, ascii_lower, is_ascii_alphanumeric,
  is_ascii_hexdigit,
}
use eal_api.Headers
use eal_api.Headers.{Bytes, HeaderMap, HeaderValue, as_bytes, utf8}
use eal_api.Auth.Context.{AuthContext}
use eal_api.Auth.Roles.{
  is_role_byte, is_identifier_byte, insert_role, insert_roles, parse_role_set, is_claim_part,
  parse_claim_path, validate_cookie_name,
}
use eal_api.Auth.Config.{
  JwtVerifier, AuthConfig, jwt_mode, Environment, jwt, required_env, env_string,
  configured_allowed_roles, configured_admin_roles, configured_leeway, jwt_from_env, from_env,
  is_jwt,
}
use eal_api.Migrations.{
  Databases, MigrationStatement, statements, execute_all, migrate_all, schema_ready,
}
use eal_api.WorkerAuth.{
  Digests, min_token_bytes, max_token_bytes, fixed_time_eq, difference_from, token_matches,
  parse_configured_digest, configured_digest, is_configured, authorize,
}
use eal_api.WorkerAuth.Digest.{authorize-eq-ok_iff}
use eal_api.Server.Events.{
  subject_or_tenant_administrators, tenant_administrators, TenantEvent, event_visible_to, Received,
  event, lagged, closed, send_loop,
}
use eal_api.Server.Events.Visible.{
  IsAudience, event_visible_to_iff, visible_only, visible_payloads, send_loop-visible,
}
use eal_api.Server.Startup.{
  production, parse_environment, validate_startup_policy, is_flag, env_flag, parse_origin,
  parse_origins, raw_origins, configured_origins, AppState, connected, migrated, verified_schema,
  startup,
}
use eal_api.Server.Startup.Production.{IsReady, startup-IsReady}
use eal_api.Tests.Sites.{places, place_view}

-- A toy digest: the first 32 bytes, padded.
unfoldable pub pad : ℕ → Bytes → Bytes
pad zero s = []
pad (suc n) [] = 0 ∷ pad n []
pad (suc n) (c ∷ s) = c ∷ pad n s

pub length-pad : (n : ℕ) (s : Bytes) → length (pad n s) ≡ n
unfolding pad
length-pad zero s = refl
length-pad (suc n) [] = ap suc (length-pad n [])
length-pad (suc n) (c ∷ s) = ap suc (length-pad n s)

pub decoded_length : (s : Text) (bytes : Bytes) → some (pad 32 s) ≡ some bytes → length bytes ≡ 32
decoded_length s bytes h = let e : pad 32 s ≡ bytes = cc h in rw (← e) (length-pad 32 s)

unfoldable pub digests : Digests
unfolding pad
digests = record {
  sha256 = pad 32;
  length-sha256 = length-pad 32;
  hex_decode = λ s. some (pad 32 s);
  length-hex_decode = decoded_length;
}

unfoldable pub sixteen : Text
unfolding text
sixteen = text "0123456789abcdef"

unfoldable pub env : Environment
unfolding text text_cmp sixteen
env name =
    if eqb name (text "APP_ENV")
    then some (text "Production")
    else if eqb name (text "DATABASE_URL")
    then some (text "postgres")
    else if eqb name (text "MIGRATE_ON_STARTUP")
    then some (text "yes")
    else if eqb name (text "CORS_ALLOWED_ORIGINS")
    then some (text "10, 11")
    else if eqb name (text "EAL_INGEST_TOKEN_SHA256")
    then some ((sixteen ++ sixteen) ++ (sixteen ++ sixteen))
    else if eqb name (text "EAL_JWT_HS256_SECRET")
    then some (sixteen ++ sixteen)
    else if eqb name (text "EAL_JWT_ISSUER") || eqb name (text "EAL_JWT_AUDIENCE")
    then some (text "eal")
    else none

-- The crawler sends the 32 bytes that the toy digest keeps.
unfoldable crawler : HeaderMap
unfolding text text_cmp sixteen
crawler name = if eqb name (text "x-eal-ingest-token") then (sixteen ++ sixteen) ∷ [] else []

authorize_run : authorize digests env crawler ≡ ok tt
unfolding authorize token_matches fixed_time_eq difference_from configured_digest
    parse_configured_digest digests pad env crawler sixteen text text_cmp trim trim_matches
    trim_start_matches trim_end_matches is_whitespace byte_length utf8_width as_bytes utf8
    is_ascii_hexdigit
authorize_run = refl

authorize-eq-ok_iff_example : (authorize digests env crawler ≡ ok tt) ↔ (
    (token : HeaderValue) × (Headers.get crawler (text "x-eal-ingest-token") ≡ some token)
    × (in_range min_token_bytes max_token_bytes (length token) ≡ true)
    × (configured_digest digests env ≡ ok (digests.sha256 token)))
authorize-eq-ok_iff_example = authorize-eq-ok_iff digests env crawler

unfoldable pub databases : Databases
databases = record {
  Database = List MigrationStatement;
  Transaction = List MigrationStatement;
  connect = λ url. ok [];
  begin = λ db. ok db;
  execute_unprepared = λ done statement. ok (done ++ statement ∷ []);
  commit = λ done. ok done;
  query_ready = λ db. ok (some (ok (ltb 6 (length db))));
}

unfoldable pub verifier : JwtVerifier
unfolding text sixteen
verifier = record {
  secret = sixteen ++ sixteen;
  issuer = text "eal";
  audience = text "eal";
  tenant_claim_path = text "tenant_id" ∷ [];
  role_claim_path = text "role" ∷ [];
  allowed_roles = text "admin" ∷ text "authenticated" ∷ text "member" ∷ text "owner" ∷ [];
  admin_roles = text "admin" ∷ text "owner" ∷ [];
  leeway_seconds = pos 30;
}

unfoldable pub auth_config : AuthConfig
unfolding verifier text
auth_config = record { mode = jwt_mode verifier; cookie_name = text "eal_access_token" }

auth_run : from_env env true false ≡ ok auth_config
unfolding from_env jwt_from_env required_env env_string configured_allowed_roles
    configured_admin_roles configured_leeway jwt auth_config verifier parse_role_set insert_roles
    insert_role is_role_byte is_identifier_byte is_claim_part parse_claim_path validate_cookie_name
    env sixteen text text_cmp trim trim_matches trim_start_matches trim_end_matches is_whitespace
    byte_length utf8_width as_bytes utf8 split extend_head to_ascii_lowercase ascii_lower
    is_ascii_alphanumeric insert is_subset contains
auth_run = refl

crawler_known : is_configured digests env ≡ true
unfolding is_configured configured_digest parse_configured_digest digests pad env sixteen text
    text_cmp trim trim_matches trim_start_matches trim_end_matches is_whitespace byte_length
    utf8_width as_bytes utf8 is_ascii_hexdigit
crawler_known = refl

unfoldable pub state : AppState databases.Database
unfolding auth_config text databases statements
state = record {
  environment = production;
  db = some statements;
  schema_ready = true;
  ingest_auth_configured = true;
  auth = auth_config;
  allowed_origins = text "https://blog.site.org" ∷ [];
  supabase_url = none;
}

startup_run : startup places some digests databases env ≡ ok state
unfolding startup parse_environment connected migrated env_flag is_flag verified_schema migrate_all
    schema_ready execute_all statements validate_startup_policy configured_origins raw_origins
    parse_origins parse_origin places place_view databases state env text text_cmp trim trim_matches
    trim_start_matches trim_end_matches is_whitespace split extend_head to_ascii_lowercase
    ascii_lower sort sort_insert dedup push_unless_same from_env jwt_from_env required_env
    env_string configured_allowed_roles configured_admin_roles configured_leeway jwt auth_config
    verifier parse_role_set insert_roles insert_role is_role_byte is_identifier_byte is_claim_part
    parse_claim_path validate_cookie_name sixteen byte_length utf8_width as_bytes utf8
    is_ascii_alphanumeric insert is_subset contains is_configured configured_digest
    parse_configured_digest digests pad is_ascii_hexdigit is_jwt
startup_run = refl

in_production : state.environment ≡ production
unfolding state
in_production = refl

startup-IsReady_example : IsReady places some digests databases env state
startup-IsReady_example =
    startup-IsReady places some digests databases env state startup_run in_production

abbrev pub member : AuthContext
member = record {
  tenant_id = 7;
  subject = text "user";
  roles = text "member" ∷ [];
  tenant_admin = false;
}

abbrev theirs : TenantEvent
theirs = record {
  tenant_id = 7;
  audience = subject_or_tenant_administrators (text "user");
  payload = text "matched";
}

abbrev foreign : TenantEvent
foreign = record { tenant_id = 8; audience = tenant_administrators; payload = text "other" }

event_visible_to_iff_example :
    (event_visible_to theirs member ≡ true)
    ↔ ((theirs.tenant_id ≡ member.tenant_id) × IsAudience theirs.audience member)
event_visible_to_iff_example = event_visible_to_iff theirs member

abbrev received : List Received
received = event foreign ∷ lagged 3 ∷ event theirs ∷ closed ∷ event theirs ∷ []

send_loop-visible_example :
    (send_loop (λ n. false) member 0 received
      ≡ send_loop (λ n. false) member 0 (visible_only member received))
    × (send_loop (λ n. true) member 0 received ≡ visible_payloads member received)
send_loop-visible_example = send_loop-visible (λ n. false) member received
