-- ===== src/Server/Startup.antt =====
-- Startup, from the environment to the state that the handlers share, and the health report. An
-- error of the driver is the text of its context.
pub mod Production
use eal_api.Prelude.{
  ℕ, Bool, true, false, not, ◌&&◌, ◌||◌, Option, none, some, List, [], ◌∷◌, ◌++◌, map, any, keep,
  is_empty, ◌==◌, if◌then◌else◌, Result, ok, err, ◌>>=◌, ◌>>◌, ensure, refuse, ok_or, unwrap_or,
  map_err, collect,
}
use eal_api.Prelude.Ordered.{text_ord}
use eal_api.Prelude.TreeSet.{eqb, sort, dedup}
use eal_api.Text.{Text, text, trim, split, join, to_ascii_lowercase, is_nonempty}
use eal_api.Headers.{HeaderValue}
use eal_api.Urls.{Host, UrlView, Urls}
use eal_api.Auth.Config.{AuthConfig, Environment, from_env, is_jwt, mode_name}
use eal_api.Migrations.{Databases, migrate_all, schema_ready}
use eal_api.WorkerAuth.{Digests, is_configured}

pub data AppEnvironment : Type 0 where
  development test production : AppEnvironment

unfoldable pub parse_environment : Option Text → Result Text AppEnvironment
parse_environment value =
    let normalized = to_ascii_lowercase (trim (unwrap_or value (text "development"))) in
    if is_empty normalized || (eqb normalized (text "dev") || eqb normalized (text "development"))
    then ok development
    else if eqb normalized (text "test")
    then ok test
    else if eqb normalized (text "prod") || eqb normalized (text "production")
    then ok production
    else err (text "unsupported APP_ENV value: " ++ normalized)

unfoldable pub as_str : AppEnvironment → Text
unfolding text
as_str development = text "development"
as_str test = text "test"
as_str production = text "production"

-- `environment == AppEnvironment::Production`
abbrev pub is_production : AppEnvironment → Bool
is_production development = false
is_production test = false
is_production production = true

unfoldable pub validate_startup_policy :
    AppEnvironment → (database schema jwt ingest : Bool) → Result Text (Unit {0})
validate_startup_policy environment database schema jwt ingest = do
  refuse (is_production environment && not database)
      (text "production startup requires durable PostgreSQL storage")
  refuse (is_production environment && not schema)
      (text "production startup requires the durable Embedded Alerts schema")
  refuse (is_production environment && not jwt)
      (text "production startup requires verified JWT authentication")
  refuse (is_production environment && not ingest)
      (text "production startup requires authenticated crawler ingestion")

abbrev pub is_some {ℓ} : {A : Type ℓ} → Option A → Bool
is_some none = false
is_some (some a) = true

-- A variable that is set and not blank.
abbrev pub set_nonblank : Option Text → Option Text
set_nonblank none = none
set_nonblank (some value) = if is_empty (trim value) then none else some value

unfoldable pub is_flag : Option Text → Bool
is_flag none = false
is_flag (some value) =
    let word = to_ascii_lowercase (trim value) in
    eqb word (text "1") || (eqb word (text "true") || eqb word (text "yes"))

-- `env_flag`
unfoldable pub env_flag : Environment → Text → Bool
env_flag env name = is_flag (env name)

-- `match env::var("CORS_ALLOWED_ORIGINS")`
unfoldable pub raw_origins : Environment → AppEnvironment → Result Text Text
raw_origins env environment = elim (set_nonblank (env (text "CORS_ALLOWED_ORIGINS"))) [
  | some value ↦ ok value
  | none ↦
      if is_production environment
      then err (text "CORS_ALLOWED_ORIGINS must contain explicit browser origins in production")
      else ok (
          join (text ",") (
            text "http://localhost:8081"
            ∷ text "http://localhost:8082"
            ∷ text "http://localhost:8083"
            ∷ []))
]

module _ (urls : Urls) (header_value : Text → Option HeaderValue) where
  open urls use {Url, parse, view, origin}

  -- One round of the loop of `parse_origins`.
  unfoldable pub parse_origin : Text → Result Text HeaderValue
  parse_origin raw_origin = do
    url ← map_err (λ _. text "parse CORS origin") (parse raw_origin)
    ensure (eqb (view url).scheme (text "http") || eqb (view url).scheme (text "https"))
        (text "CORS origins must use http or https")
    ensure (is_some (view url).host) (text "CORS origins must contain a host")
    ensure (is_empty (view url).username && not (is_some (view url).password))
        (text "CORS origins must not contain credentials")
    ensure
        (eqb (view url).path (text "/")
          && (not (is_some (view url).query) && not (is_some (view url).fragment)))
        (text "CORS origins must not contain paths, queries, or fragments")
    refuse (eqb (origin url) (text "null")) (text "opaque CORS origins are not allowed")
    ok_or (header_value (origin url)) (text "failed to parse header value")

  unfoldable pub parse_origins : Text → Result Text (List HeaderValue)
  parse_origins raw = do
    origins ← collect parse_origin (keep is_nonempty (map trim (split (λ c. c == b',') raw)))
    let unique = dedup (sort origins)
    refuse (is_empty unique) (text "CORS_ALLOWED_ORIGINS must contain at least one explicit origin")
    ok unique

  unfoldable pub configured_origins : Environment → AppEnvironment → Result Text (List HeaderValue)
  configured_origins env environment = raw_origins env environment >>= λ raw. parse_origins raw

-- `AppState`, without the event channel.
pub record AppState (Database : Type 0) : Type 0 where
  pub environment : AppEnvironment
  pub db : Option Database
  pub schema_ready : Bool
  pub ingest_auth_configured : Bool
  pub auth : AuthConfig
  pub allowed_origins : List HeaderValue
  pub supabase_url : Option Text

pub record Health : Type 0 where
  pub status : Text
  pub environment : Text
  pub alert_storage_mode : Text
  pub indexing_storage_mode : Text
  pub production_ready : Bool
  pub database_connected : Bool
  pub supabase_configured : Bool
  pub tenant_context : Text
  pub schema_ready : Bool
  pub ingest_auth_configured : Bool

unfoldable pub health : {Database : Type 0} → AppState Database → Health
health state =
    let durable = is_some state.db && state.schema_ready in
    let production_ready = durable && (is_jwt state.auth && state.ingest_auth_configured) in
    record {
      status = if production_ready then text "ok" else text "degraded";
      environment = as_str state.environment;
      alert_storage_mode =
          if durable then text "postgresql_immutable_revisions" else text "unavailable";
      indexing_storage_mode =
          if durable
          then text "reverse_alert_stream_plus_historical_pgvector"
          else text "unavailable";
      production_ready = production_ready;
      database_connected = is_some state.db;
      supabase_configured = is_some state.supabase_url;
      tenant_context = mode_name state.auth;
      schema_ready = state.schema_ready;
      ingest_auth_configured = state.ingest_auth_configured;
    }

module _ (urls : Urls) (header_value : Text → Option HeaderValue) (digests : Digests)
    (databases : Databases) where
  open databases use {Database, connect}

  unfoldable pub connected : Environment → Result Text (Option Database)
  connected env = elim (set_nonblank (env (text "DATABASE_URL"))) [
    | none ↦ ok none
    | some url ↦ map_err (λ _. text "connect database") (connect url) >>= λ db. ok (some db)
  ]

  unfoldable pub migrated : Environment → Option Database → Result Text (Option Database)
  migrated env db =
      if env_flag env (text "MIGRATE_ON_STARTUP")
      then (ok_or db (text "MIGRATE_ON_STARTUP requires DATABASE_URL") >>= λ database.
          map_err (λ _. text "apply Embedded Alerts migrations") (migrate_all databases database)
          >>= λ after. ok (some after))
      else ok db

  unfoldable pub verified_schema : Option Database → Result Text Bool
  verified_schema none = ok false
  verified_schema (some database) =
      map_err (λ _. text "verify durable Embedded Alerts schema") (schema_ready databases database)

  -- `main`, up to the router.
  unfoldable pub startup : Environment → Result Text (AppState Database)
  startup env = do
    environment ← parse_environment (env (text "APP_ENV"))
    auth ←
        from_env env (is_production environment)
          (env_flag env (text "ALLOW_INSECURE_TENANT_HEADER"))
    opened ← connected env
    db ← migrated env opened
    schema ← verified_schema db
    let ingest = is_configured digests env
    validate_startup_policy environment (is_some db) schema (is_jwt auth) ingest
    allowed_origins ← configured_origins urls header_value env environment
    ok (record {
      environment = environment;
      db = db;
      schema_ready = schema;
      ingest_auth_configured = ingest;
      auth = auth;
      allowed_origins = allowed_origins;
      supabase_url = env (text "SUPABASE_URL");
    })
