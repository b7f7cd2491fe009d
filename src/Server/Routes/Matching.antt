-- ===== src/Server/Routes/Matching.antt =====
-- The route that evaluates an alert rule against the stored pages.
use eal_api.Prelude.{◌≡◌, true, List, ◌++◌, ok, length, All}
use eal_api.Prelude.Ordered.{text_ord}
use eal_api.Text.{Text}
use eal_api.Uuids.{Uuid}
use eal_api.HttpError
use eal_api.HttpError.{HttpError}
use eal_api.Floats.{Floats}
use eal_api.SourceScope.{constrain_search_sources}
use eal_api.Auth.Context.{AuthContext, is_tenant_admin}
use eal_api.Server.Startup.{AppState}
use eal_api.Server.Events.{subject_or_tenant_administrators, TenantEvent}
use eal_api.Store.Rows.{Time, MatchRow, Store}
use eal_api.Store.Action.{Action}
use eal_api.Store.Rules.{AlertRule}
use eal_api.Store.Rules.Reads.{IsVisible}
use eal_api.Store.Matches.{evaluate_matches}
use eal_api.Store.Matches.Found.{HasSearched}
use eal_api.Server.Routes.{Services, World, EvaluateMatchesRequest}
use eal_api.Server.Routes.Handlers.{in_scope}

-- An event for the owner of a rule and the administrators of a tenant.
abbrev IsForOwner : Uuid → Text → TenantEvent → Type 0
IsForOwner tenant_id owner event =
    (event.tenant_id ≡ tenant_id) × (event.audience ≡ subject_or_tenant_administrators owner)

module _ (services : Services) {D : Type 0} (state : AppState D) (now : Time) where
  abbrev Worlds : Type 0
  Worlds = World (Floats.Single services.floats) (Floats.Double services.floats)

  -- As many events as matches, all for the owner of the rule.
  abbrev HasSent :
      Uuid
      → AlertRule (Floats.Single services.floats)
      → List (MatchRow (Floats.Double services.floats))
      → Worlds
      → Worlds
      → Type 0
  HasSent tenant_id rule matches v u =
      (u.store ≡ v.store)
      × ((sent : List TenantEvent) × (u.events ≡ v.events ++ sent)
          × (length sent ≡ length matches)
          × All (IsForOwner tenant_id rule.owner_subject) sent)

  -- The rule is one that the caller may see, enabled and of the model of the search, whose sources
  -- are narrowed to the rule's and whose threshold to the rule's and the requested one; what is
  -- found is what the store's evaluation answers.
  abbrev pub IsEvaluated :
      AuthContext
      → EvaluateMatchesRequest (Floats.Single services.floats) (Floats.Double services.floats)
      → List (MatchRow (Floats.Double services.floats))
      → Worlds
      → Worlds
      → Type 0
  IsEvaluated auth input matches w u =
      (rule : AlertRule (Floats.Single services.floats)) × (source_ids : List Uuid) × (rule.id
        ≡ input.alert_rule_id)
      × IsVisible auth.tenant_id auth.subject (is_tenant_admin auth) rule
      × (rule.enabled ≡ true)
      × (input.search.embedding.model ≡ rule.embedding_model)
      × (constrain_search_sources services.uuids rule.source_filters input.search.source_ids
          ≡ ok source_ids)
      × (evaluate_matches services.floats services.numbers services.contracts services.constraints
            services.digests services.encoders services.uuids auth.tenant_id input.alert_rule_id
            rule.revision_id
            (services.numbers.double_max input.threshold
              (services.numbers.widen rule.similarity_threshold))
            (in_scope services state now input.search source_ids) w.store
          ≡ (ok matches, u.store))
      × HasSearched services.floats services.numbers services.contracts services.constraints
          services.digests services.encoders services.uuids auth.tenant_id input.alert_rule_id
          rule.revision_id
          (services.numbers.double_max input.threshold
            (services.numbers.widen rule.similarity_threshold))
          (in_scope services state now input.search source_ids) w.store matches
      × ((sent : List TenantEvent) × (u.events ≡ w.events ++ sent)
          × (length sent ≡ length matches)
          × All (IsForOwner auth.tenant_id rule.owner_subject) sent)

  abbrev evaluation :
      AuthContext
      → EvaluateMatchesRequest (Floats.Single services.floats) (Floats.Double services.floats)
      → AlertRule (Floats.Single services.floats)
      → List Uuid
      → Action
          (Store (Floats.Single services.floats) (Floats.Double services.floats))
          (List (MatchRow (Floats.Double services.floats)))
  evaluation auth input rule source_ids =
      evaluate_matches services.floats services.numbers services.contracts services.constraints
        services.digests services.encoders services.uuids auth.tenant_id input.alert_rule_id
        rule.revision_id
        (services.numbers.double_max input.threshold
          (services.numbers.widen rule.similarity_threshold))
        (in_scope services state now input.search source_ids)
