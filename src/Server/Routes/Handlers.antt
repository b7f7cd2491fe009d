-- ===== src/Server/Routes/Handlers.antt =====
-- The handlers of src/server_routes.rs.
use eal_api.Prelude.{ℕ, Bool, ◌&&◌, List, ◌==◌, map_err}
use eal_api.Prelude.Ordered.{text_ord}
use eal_api.Prelude.TreeSet.{eqb}
use eal_api.Text.{Text, text}
use eal_api.Uuids.{Uuid}
use eal_api.HttpError
use eal_api.HttpError.{HttpError}
use eal_api.Floats.{Floats}
use eal_api.Headers.{HeaderMap}
use eal_api.Tenant.{tenant_id_from_headers}
use eal_api.Indexing.{canonicalize_source_root, canonicalize_for_source}
use eal_api.WorkerAuth.{authorize}
use eal_api.Auth.Context.{AuthContext, is_tenant_admin, require_tenant_admin}
use eal_api.SourceScope.{constrain_search_sources, display}
use eal_api.Alerts.{CreateAlertRule, normalized}
use eal_api.Contracts.{PageIngestRequest, EmbeddingSearchRequest, CreateSourcePolicy}
use eal_api.Server.Startup.{AppState}
use eal_api.Server.Events.{EventAudience, tenant_administrators, subject_or_tenant_administrators}
use eal_api.Store.Rows.{Time, SourceRow, MatchRow}
use eal_api.Store.Action.{Action, pure, lift, or_raise, require, for_each, ◌>>=◌, ◌>>◌}
use eal_api.Store.Rules.{
  AlertRule, list_alert_rules, get_alert_rule, create_alert_rule, require_alert_rule,
}
use eal_api.Store.Sources.{list_sources, get_source, create_source}
use eal_api.Store.Ingest.{PageRevision, ingest_page}
use eal_api.Store.Search.{EmbeddingSearchResponse, search_embeddings}
use eal_api.Store.Matches.{evaluate_matches}
use eal_api.Store.Reverse.{
  AlertRuleEmbeddingUpsertRequest, AlertRuleEmbeddingReceipt, ReverseAlertPageRequest,
  ReverseAlertMatchResponse, validate_upsert, validate_page_request,
}
use eal_api.Store.Reverse.Embeddings.{upsert_alert_rule_embedding}
use eal_api.Store.Reverse.Stream.{ingest_and_reverse_match}
use eal_api.Server.Routes.{
  Services, World, EventData, rule_data, source_data, page_data, reverse_data, match_data, on_store,
  send, require_database, require_enabled_alert_rule, source_policy, requested_policy, created,
  status_of, EvaluateMatchesRequest,
}

module _ (services : Services) {D : Type 0} (state : AppState D) (now : Time) where
  open services use {
    floats, numbers, contracts, constraints, digests, encoders, uuids, urls, to_str, env, payload,
  }

  abbrev pub Single : Type 0
  Single = Floats.Single floats

  abbrev pub Double : Type 0
  Double = Floats.Double floats

  abbrev Handler : Type 0 → Type 0
  Handler A = Action (World Single Double) A

  unfoldable pub publish_event :
      Uuid → EventAudience → Text → EventData Single Double → Handler (Unit {0})
  publish_event tenant_id audience event_type data_ =
      send (payload event_type tenant_id now data_) tenant_id audience

  unfoldable pub list_records : AuthContext → Handler (List (AlertRule Single))
  list_records auth = do
    database ← lift (require_database state)
    on_store (list_alert_rules auth.tenant_id auth.subject (is_tenant_admin auth))

  unfoldable pub get_record : AuthContext → Uuid → Handler (AlertRule Single)
  get_record auth id = do
    database ← lift (require_database state)
    found ← on_store (get_alert_rule auth.tenant_id id auth.subject (is_tenant_admin auth))
    or_raise found (HttpError.not_found (text "alert rule was not found"))

  -- `rule_id` and `revision_id` are the identifiers that the store draws.
  unfoldable pub create_record :
      Uuid → Uuid → AuthContext → CreateAlertRule Single → Handler (ℕ × AlertRule Single)
  create_record rule_id revision_id auth request = do
    input ← lift (map_err HttpError.validation (normalized floats uuids request))
    database ← lift (require_database state)
    rule ←
        on_store
          (create_alert_rule constraints now rule_id revision_id auth.tenant_id auth.subject input)
    publish_event auth.tenant_id (subject_or_tenant_administrators auth.subject)
        (text "alert_rule.created") (rule_data rule)
    pure (created, rule)

  unfoldable pub upsert_alert_embedding :
      Uuid
      → HeaderMap
      → AlertRuleEmbeddingUpsertRequest Single
      → Handler (ℕ × AlertRuleEmbeddingReceipt)
  upsert_alert_embedding alert_rule_id headers input = do
    lift (authorize digests env headers)
    tenant_id ← lift (tenant_id_from_headers uuids to_str headers)
    lift (map_err HttpError.validation (validate_upsert contracts input))
    database ← lift (require_database state)
    receipt ← on_store (
        upsert_alert_rule_embedding floats numbers contracts constraints digests encoders now
          tenant_id alert_rule_id input)
    pure (status_of receipt.created, receipt)

  unfoldable pub list_sources_route : AuthContext → Handler (List SourceRow)
  list_sources_route auth = do
    database ← lift (require_database state)
    on_store (list_sources auth.tenant_id)

  unfoldable pub get_source_route : AuthContext → Uuid → Handler SourceRow
  get_source_route auth source_id = do
    database ← lift (require_database state)
    found ← on_store (get_source auth.tenant_id source_id)
    or_raise found (HttpError.not_found (text "source policy was not found"))

  unfoldable pub create_source_route : AuthContext → CreateSourcePolicy → Handler (ℕ × SourceRow)
  create_source_route auth input = do
    lift (require_tenant_admin auth)
    lift (map_err HttpError.validation (contracts.validate_source input))
    canonical_root ←
        lift (map_err HttpError.validation (canonicalize_source_root urls (requested_policy input)))
    database ← lift (require_database state)
    source ← on_store (create_source constraints now auth.tenant_id input canonical_root)
    publish_event auth.tenant_id tenant_administrators (text "source.created") (source_data source)
    pure (created, source)

  -- The checks that both routes for a fetched page make of its source, up to the two canonical
  -- URLs.
  unfoldable pub page_urls : Uuid → Uuid → PageIngestRequest Single → Handler (Text × Text)
  page_urls tenant_id source_id input = do
    require (input.source_id == source_id)
        (HttpError.bad_request (text "body source_id must match the source_id route parameter"))
    database ← lift (require_database state)
    found ← on_store (get_source tenant_id source_id)
    source ← or_raise found (HttpError.not_found (text "source policy was not found"))
    require source.enabled (HttpError.validation (text "source policy is disabled"))
    original ← lift (
        map_err HttpError.validation
          (canonicalize_for_source urls (source_policy source) input.url))
    final ← lift (
        map_err HttpError.validation
          (canonicalize_for_source urls (source_policy source) input.final_url))
    pure (original, final)

  unfoldable pub ingest_page_route :
      Uuid → HeaderMap → PageIngestRequest Single → Handler (ℕ × PageRevision)
  ingest_page_route source_id headers input = do
    lift (authorize digests env headers)
    tenant_id ← lift (tenant_id_from_headers uuids to_str headers)
    lift (map_err HttpError.validation (contracts.validate_page input))
    canonical ← page_urls tenant_id source_id input
    revision ← on_store (
        ingest_page floats numbers constraints digests encoders now tenant_id source_id input
          canonical.0 canonical.1)
    publish_event tenant_id tenant_administrators (text "page.revision_indexed")
        (page_data revision)
    pure (status_of revision.changed, revision)

  unfoldable pub reverse_match_page :
      Uuid
      → HeaderMap
      → ReverseAlertPageRequest Single
      → Handler (ℕ × ReverseAlertMatchResponse Double)
  reverse_match_page source_id headers input = do
    lift (authorize digests env headers)
    tenant_id ← lift (tenant_id_from_headers uuids to_str headers)
    lift (map_err HttpError.validation (validate_page_request contracts input))
    canonical ← page_urls tenant_id source_id input.page
    response ← on_store (
        ingest_and_reverse_match floats numbers contracts constraints digests encoders uuids now
          tenant_id source_id input canonical.0 canonical.1)
    publish_event tenant_id tenant_administrators (text "page.reverse_match_completed")
        (reverse_data response)
    pure (status_of response.changed, response)

  unfoldable pub search_embeddings_route :
      AuthContext → EmbeddingSearchRequest Single Double → Handler (EmbeddingSearchResponse Double)
  search_embeddings_route auth input = do
    lift (map_err HttpError.validation (contracts.validate_search input))
    database ← lift (require_database state)
    page ← on_store (search_embeddings floats numbers contracts auth.tenant_id input)
    pure page.response

  -- `is_finite() && (0.0..=1.0).contains(&x)`
  abbrev pub is_unit_double : Double → Bool
  is_unit_double x =
      numbers.double_is_finite x
      && (numbers.double_le numbers.double_zero x && numbers.double_le x numbers.double_one)

  abbrev pub in_scope :
      EmbeddingSearchRequest Single Double → List Uuid → EmbeddingSearchRequest Single Double
  in_scope search source_ids = record search { source_ids = source_ids }

  abbrev pub publish_match : Uuid → AlertRule Single → MatchRow Double → Handler (Unit {0})
  publish_match tenant_id rule candidate =
      publish_event tenant_id (subject_or_tenant_administrators rule.owner_subject)
        (text "match.candidate") (match_data candidate)

  unfoldable pub evaluate_matches_route :
      AuthContext → EvaluateMatchesRequest Single Double → Handler (List (MatchRow Double))
  evaluate_matches_route auth input = do
    require (is_unit_double input.threshold)
        (HttpError.validation (text "threshold must be finite and between 0 and 1"))
    lift (map_err HttpError.validation (contracts.validate_search input.search))
    database ← lift (require_database state)
    rule ←
        on_store (
          require_alert_rule auth.tenant_id input.alert_rule_id auth.subject (is_tenant_admin auth))
    lift (require_enabled_alert_rule rule.enabled)
    require (eqb input.search.embedding.model rule.embedding_model) (
        HttpError.validation
          (text "search embedding model must match the active alert-rule revision"))
    source_ids ← lift (
        map_err (λ error. HttpError.validation (display error))
          (constrain_search_sources uuids rule.source_filters input.search.source_ids))
    lift (
        map_err HttpError.validation (contracts.validate_search (in_scope input.search source_ids)))
    candidates ← on_store (
        evaluate_matches floats numbers contracts constraints digests encoders uuids auth.tenant_id
          input.alert_rule_id rule.revision_id
          (numbers.double_max input.threshold (numbers.widen rule.similarity_threshold))
          (in_scope input.search source_ids))
    published ← for_each (publish_match auth.tenant_id rule) candidates
    pure candidates
