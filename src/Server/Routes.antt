-- ===== src/Server/Routes.antt =====
-- src/server_routes.rs, with `publish_event` and `require_database` of src/server_websocket.rs: the
-- handlers of the API, on the tables and on the events that the channel has been sent. A handler
-- that takes an `AuthContext` runs after the extractor has authenticated the request.
pub mod Handlers
pub mod Steps
pub mod Creation
pub mod Matching
pub mod Crawler
use eal_api.Prelude.{
  ℕ, Bool, true, false, not, ◌&&◌, Option, none, some, List, [], ◌∷◌, ◌++◌, map, ◌==◌,
  if◌then◌else◌, Result, ok, err, map_err,
}
use eal_api.Prelude.Ordered.{text_ord}
use eal_api.Prelude.TreeSet.{eqb}
use eal_api.Text.{Text, text}
use eal_api.Uuids.{Uuid, Uuids}
use eal_api.HttpError
use eal_api.HttpError.{HttpError}
use eal_api.Floats.{Floats}
use eal_api.Headers.{HeaderMap, HeaderText}
use eal_api.Tenant.{tenant_id_from_headers}
use eal_api.Urls.{Urls}
use eal_api.Indexing
use eal_api.Indexing.{canonicalize_source_root, canonicalize_for_source}
use eal_api.WorkerAuth.{Digests, authorize}
use eal_api.Auth.Context.{AuthContext, is_tenant_admin, require_tenant_admin}
use eal_api.Auth.Config.{Environment}
use eal_api.SourceScope.{constrain_search_sources, display}
use eal_api.Alerts.{CreateAlertRule, normalized}
use eal_api.Contracts.{PageIngestRequest, EmbeddingSearchRequest, CreateSourcePolicy, Contracts}
use eal_api.Server.Startup.{AppState}
use eal_api.Server.Events.{
  EventAudience, tenant_administrators, subject_or_tenant_administrators, TenantEvent,
}
use eal_api.Store.Rows.{Time, SourceRow, MatchRow, Store}
use eal_api.Store.Action.{Action, pure, lift, or_raise, require, for_each, ◌>>=◌, ◌>>◌}
use eal_api.Store.Engine.{Numbers, Constraints}
use eal_api.Store.Encoders.{Encoders}
use eal_api.Store.Rules.{
  AlertRule, list_alert_rules, get_alert_rule, create_alert_rule, require_alert_rule,
}
use eal_api.Store.Sources.{list_sources, get_source, create_source}
use eal_api.Store.Ingest.{PageRevision, ingest_page}
use eal_api.Store.Search.{EmbeddingSearchResponse, SearchRequest, search_embeddings}
use eal_api.Store.Matches.{evaluate_matches}
use eal_api.Store.Reverse.{
  AlertRuleEmbeddingUpsertRequest, AlertRuleEmbeddingReceipt, ReverseAlertPageRequest,
  ReverseAlertMatchResponse, validate_upsert, validate_page_request,
}
use eal_api.Store.Reverse.Embeddings.{upsert_alert_rule_embedding}
use eal_api.Store.Reverse.Stream.{ingest_and_reverse_match}

-- The `data` of an event.
pub data EventData (Single Double : Type 0) : Type 0 where
  rule_data : AlertRule Single → EventData Single Double
  source_data : SourceRow → EventData Single Double
  page_data : PageRevision → EventData Single Double
  reverse_data : ReverseAlertMatchResponse Double → EventData Single Double
  match_data : MatchRow Double → EventData Single Double

-- The libraries, the machine and the database that the handlers run on. `payload` is the JSON of
-- an event with its type, tenant, time and data, unless serde refuses.
pub record Services : Type 1 where
  pub floats : Floats
  pub numbers : Numbers floats
  pub contracts : Contracts (Floats.Single floats) (Floats.Double floats)
  pub constraints : Constraints (Floats.Single floats) (Floats.Double floats)
  pub digests : Digests
  pub encoders : Encoders
  pub uuids : Uuids
  pub urls : Urls
  pub to_str : HeaderText
  pub env : Environment
  pub payload :
      Text → Uuid → Time → EventData (Floats.Single floats) (Floats.Double floats) → Option Text

pub record World (Single Double : Type 0) : Type 0 where
  pub store : Store Single Double
  pub events : List TenantEvent

abbrev pub created : ℕ
created = 201

abbrev pub success : ℕ
success = 200

abbrev pub source_policy : SourceRow → Indexing.SourcePolicy
source_policy row = record {
  root_url = row.root_url;
  allowed_hosts = row.allowed_hosts;
  include_subdomains = row.include_subdomains;
  allowed_path_prefixes = row.allowed_path_prefixes;
}

abbrev pub requested_policy : CreateSourcePolicy → Indexing.SourcePolicy
requested_policy input = record {
  root_url = input.root_url;
  allowed_hosts = input.allowed_hosts;
  include_subdomains = input.include_subdomains;
  allowed_path_prefixes = input.allowed_path_prefixes;
}

unfoldable pub require_database : {D : Type 0} → AppState D → Result HttpError D
require_database state =
    if state.schema_ready then connection state.db else err HttpError.database_required
  where
    connection : {D : Type 0} → Option D → Result HttpError D
    connection none = err HttpError.database_required
    connection (some db) = ok db

module _ {Single Double : Type 0} where
  -- A call of the store, which leaves the channel alone.
  abbrev pub on_store {ℓ} :
      {A : Type ℓ} → Action (Store Single Double) A → Action (World Single Double) A
  on_store m w = let (r, t) = m w.store in (r, record w { store = t })

  -- `state.events.send(..)`, whose result is dropped.
  abbrev pub send : Option Text → Uuid → EventAudience → Action (World Single Double) (Unit {0})
  send none tenant_id audience w = (err HttpError.internal, w)
  send (some payload) tenant_id audience w = (
    ok tt,
    record w {
      events =
          w.events
          ++ (record { tenant_id = tenant_id; audience = audience; payload = payload } ∷ []);
    },
  )

unfoldable pub require_enabled_alert_rule : Bool → Result HttpError (Unit {0})
require_enabled_alert_rule enabled =
    if enabled then ok tt else err (HttpError.validation (text "alert rule is disabled"))

abbrev pub status_of : Bool → ℕ
status_of changed = if changed then created else success

pub record EvaluateMatchesRequest (Single Double : Type 0) : Type 0 where
  pub alert_rule_id : Uuid
  pub threshold : Double
  pub search : EmbeddingSearchRequest Single Double
