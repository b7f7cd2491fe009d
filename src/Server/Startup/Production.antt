-- ===== src/Server/Startup/Production.antt =====
-- A server that starts in production is ready for it.
use eal_api.Prelude.{
  ◌≡◌, ◌≢◌, refl, sym, ap, ◌∙◌, Bool, true, false, Option, none, some, inl, inr, subst, List,
  Option-cases, keep, map, ◌==◌, is_empty, ok, >>=-eq-ok, refuse-then, collect,
}
use eal_api.Prelude.Ordered.{text_ord}
use eal_api.Prelude.TreeSet.{IsSorted, from_list-IsSorted, sort, dedup}
use eal_api.Prelude.TreeSet.Laws.{dedup-sort}
use eal_api.Text.{Text, text, trim, split, is_nonempty}
use eal_api.Headers.{HeaderValue}
use eal_api.Urls.{Urls}
use eal_api.Auth.Config.{Environment, from_env, is_jwt}
use eal_api.Migrations.{Databases}
use eal_api.WorkerAuth.{Digests, is_configured}
use eal_api.Server.Startup.{
  AppEnvironment, production, parse_environment, is_production, validate_startup_policy, is_some,
  set_nonblank, env_flag, parse_origin, parse_origins, raw_origins, configured_origins, Databases,
  AppState, health, connected, migrated, verified_schema, startup,
}

all_four :
    (database schema jwt ingest : Bool)
    → validate_startup_policy production database schema jwt ingest ≡ ok tt
    → (database ≡ true) × (schema ≡ true) × (jwt ≡ true) × (ingest ≡ true)
unfolding validate_startup_policy
all_four true true true true h = (refl, refl, refl, refl)
all_four true true true false h = absurd (cc h)
all_four true true false ingest h = absurd (cc h)
all_four true false jwt ingest h = absurd (cc h)
all_four false schema jwt ingest h = absurd (cc h)

policy_holds :
    (environment : AppEnvironment) (database schema jwt ingest : Bool)
    → validate_startup_policy environment database schema jwt ingest ≡ ok tt
    → environment ≡ production
    → (database ≡ true) × (schema ≡ true) × (jwt ≡ true) × (ingest ≡ true)
policy_holds environment database schema jwt ingest h e =
    all_four database schema jwt ingest (rw e at h)

raw_origins_set :
    (env : Environment) (environment : AppEnvironment) (raw : Text)
    → raw_origins env environment ≡ ok raw
    → environment ≡ production
    → set_nonblank (env (text "CORS_ALLOWED_ORIGINS")) ≡ some raw
unfolding raw_origins
raw_origins_set env environment raw h e =
    elim (Option-cases (set_nonblank (env (text "CORS_ALLOWED_ORIGINS")))) [
      | inl unset ↦ absurd (cc (rw (unset, e, raw_origins) at h))
      | inr (value, given) ↦ given ∙ ap some (cc (rw (given, raw_origins) at h))
    ]

module _ (urls : Urls) (header_value : Text → Option HeaderValue) where
  parse_origins-IsSorted :
      (raw : Text) (origins : List HeaderValue)
      → parse_origins urls header_value raw ≡ ok origins
      → (is_empty origins ≡ false) × IsSorted origins
  unfolding parse_origins
  parse_origins-IsSorted raw origins h =
      let (found, _, h1) =
        >>=-eq-ok
          (collect (parse_origin urls header_value)
            (keep is_nonempty (map trim (split (λ c. c == b',') raw))))
          _ h in
      let (some_origin, last) = refuse-then (is_empty (dedup (sort found))) _ _ h1 in
      let same : dedup (sort found) ≡ origins = cc last in
      rw (← same) (some_origin, rw (dedup-sort found) (from_list-IsSorted found))

  module _ (digests : Digests) (databases : Databases) where
    open databases use {Database}

    -- What a server that started satisfies.
    pub record IsReady (env : Environment) (state : AppState Database) : Type 0 where
      pub database : is_some state.db ≡ true
      pub schema : verified_schema urls header_value digests databases state.db ≡ ok true
      pub schema_ready : state.schema_ready ≡ true
      pub verified_tokens : is_jwt state.auth ≡ true
      pub crawler_token : is_configured digests env ≡ true
      pub origins_set : set_nonblank (env (text "CORS_ALLOWED_ORIGINS")) ≢ none
      pub origins : is_empty state.allowed_origins ≡ false
      pub origins_sorted : IsSorted state.allowed_origins
      pub healthy : (health state).production_ready ≡ true

    ready :
        (env : Environment) (state : AppState Database)
        → verified_schema urls header_value digests databases state.db ≡ ok state.schema_ready
        → (raw : Text) → raw_origins env state.environment ≡ ok raw
        → parse_origins urls header_value raw ≡ ok state.allowed_origins
        → state.ingest_auth_configured ≡ is_configured digests env
        → validate_startup_policy state.environment
            (is_some state.db)
            state.schema_ready
            (is_jwt state.auth)
            state.ingest_auth_configured
          ≡ ok tt
        → state.environment ≡ production
        → IsReady env state
    unfolding health
    ready env state schema raw chosen parsed ingest policy e =
        let (connected_ok, schema_ok, jwt_ok, ingest_ok) =
          policy_holds state.environment _ _ _ _ policy e in
        let (some_origin, sorted) = parse_origins-IsSorted raw state.allowed_origins parsed in
        record {
          database = connected_ok;
          schema = schema ∙ ap ok schema_ok;
          schema_ready = schema_ok;
          verified_tokens = jwt_ok;
          crawler_token = sym ingest ∙ ingest_ok;
          origins_set = λ unset. cc (raw_origins_set env state.environment raw chosen e, unset);
          origins = some_origin;
          origins_sorted = sorted;
          healthy = rw (connected_ok, schema_ok, jwt_ok, ingest_ok) refl;
        }

    -- A server that starts in production has a database with the durable schema, verifies tokens,
    -- knows its crawler, and has at least one explicit origin, in order and once each; so its
    -- health report says that it is ready for production.
    pub startup-IsReady :
        (env : Environment) (state : AppState Database)
        → startup urls header_value digests databases env ≡ ok state
        → state.environment ≡ production
        → IsReady env state
    unfolding startup configured_origins
    startup-IsReady env state h in_production =
        let (environment, _, h1) = >>=-eq-ok (parse_environment (env (text "APP_ENV"))) _ h in
        let (auth, _, h2) =
          >>=-eq-ok
            (from_env env (is_production environment)
              (env_flag env (text "ALLOW_INSECURE_TENANT_HEADER")))
            _ h1 in
        let (opened, _, h3) = >>=-eq-ok (connected urls header_value digests databases env) _ h2 in
        let (db, _, h4) =
          >>=-eq-ok (migrated urls header_value digests databases env opened) _ h3 in
        let (schema, schema_found, h5) =
          >>=-eq-ok (verified_schema urls header_value digests databases db) _ h4 in
        let (_, policy, h6) =
          >>=-eq-ok
            (validate_startup_policy environment (is_some db) schema (is_jwt auth)
              (is_configured digests env))
            _ h5 in
        let (origins, configured, last) =
          >>=-eq-ok (configured_origins urls header_value env environment) _ h6 in
        let built : record {
          environment = environment;
          db = db;
          schema_ready = schema;
          ingest_auth_configured = is_configured digests env;
          auth = auth;
          allowed_origins = origins;
          supabase_url = env (text "SUPABASE_URL");
        }
            ≡ state =
          cc last in
        let (raw, chosen, parsed) = >>=-eq-ok (raw_origins env environment) _ configured in
        subst (IsReady env) built (
          ready env _ schema_found raw chosen parsed refl policy
            (ap (λ (s : AppState Database). s.environment) built ∙ in_production))
