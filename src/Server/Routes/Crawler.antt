-- ===== src/Server/Routes/Crawler.antt =====
-- The routes that only the crawler may call.
use eal_api.Prelude.{
  ℕ, ◌≡◌, refl, sym, ap, ◌∙◌, true, Option, some, [], ◌∷◌, ◌++◌, ok, err, map_err, map_err-eq-ok,
  ◌==◌,
}
use eal_api.Text.{Text, text}
use eal_api.Uuids.{Uuid}
use eal_api.HttpError
use eal_api.HttpError.{HttpError}
use eal_api.Floats.{Floats}
use eal_api.Headers.{HeaderMap}
use eal_api.Tenant.{tenant_id_from_headers}
use eal_api.Indexing.{canonicalize_for_source}
use eal_api.WorkerAuth.{authorize}
use eal_api.Contracts.{PageIngestRequest}
use eal_api.Server.Startup.{AppState}
use eal_api.Server.Events.{tenant_administrators}
use eal_api.Store.Rows.{Time, SourceRow, Store}
use eal_api.Store.Action.{bind-eq-ok}
use eal_api.Store.Sources.{get_source}
use eal_api.Store.Reverse.{
  AlertRuleEmbeddingUpsertRequest, ReverseAlertPageRequest, ReverseAlertMatchResponse,
  validate_page_request,
}
use eal_api.Store.Reverse.Stream.{ingest_and_reverse_match}
use eal_api.Server.Routes.{
  Services, World, reverse_data, require_database, source_policy, status_of,
}
use eal_api.Server.Routes.Steps.{
  event_of, lift-then, require-then, or_raise-then, on_store-then, send-then,
}
use eal_api.Server.Routes.Handlers.{
  upsert_alert_embedding, ingest_page_route, reverse_match_page, page_urls, publish_event,
}

module _ (services : Services) {D : Type 0} (state : AppState D) (now : Time)
    (w : World (Floats.Single services.floats) (Floats.Double services.floats)) where
  -- A call without the crawler's credentials is refused with the error of the authorization by
  -- each of the three routes, whatever it asks for, and neither writes nor sends anything.
  pub crawler_routes-refuse :
      (id : Uuid) (headers : HeaderMap) (e : HttpError)
      (upsert : AlertRuleEmbeddingUpsertRequest (Floats.Single services.floats))
      (page : PageIngestRequest (Floats.Single services.floats))
      (reverse : ReverseAlertPageRequest (Floats.Single services.floats))
      → authorize services.digests services.env headers ≡ err e
      → (upsert_alert_embedding services state now id headers upsert w ≡ (err e, w))
        × (ingest_page_route services state now id headers page w ≡ (err e, w))
        × (reverse_match_page services state now id headers reverse w ≡ (err e, w))
  unfolding upsert_alert_embedding ingest_page_route reverse_match_page
  crawler_routes-refuse id headers e upsert page reverse h = (rw h refl, rw h refl, rw h refl)

  -- What the route's checks found of the source that the page belongs to.
  abbrev IsSourceOf :
      Uuid
      → Uuid
      → PageIngestRequest (Floats.Single services.floats)
      → SourceRow
      → Text × Text
      → Type 0
  IsSourceOf tenant_id source_id input source canonical =
      ((input.source_id == source_id) ≡ true)
      × (get_source tenant_id source_id w.store ≡ (ok (some source), w.store))
      × (source.enabled ≡ true)
      × (canonicalize_for_source services.urls (source_policy source) input.url ≡ ok canonical.0)
      × (canonicalize_for_source services.urls (source_policy source) input.final_url
          ≡ ok canonical.1)

  get_source-same :
      (tenant_id source_id : Uuid)
      (s t : Store (Floats.Single services.floats) (Floats.Double services.floats))
      (found : Option SourceRow)
      → get_source tenant_id source_id s ≡ (ok found, t)
      → s ≡ t
  unfolding get_source
  get_source-same tenant_id source_id s t found h = ap (λ p. p.1) h

  page_urls-IsSourceOf :
      (tenant_id source_id : Uuid) (input : PageIngestRequest (Floats.Single services.floats))
      (canonical : Text × Text)
      (v : World (Floats.Single services.floats) (Floats.Double services.floats))
      → page_urls services state now tenant_id source_id input w ≡ (ok canonical, v)
      → ((source : SourceRow) × IsSourceOf tenant_id source_id input source canonical) × (w ≡ v)
  unfolding page_urls
  page_urls-IsSourceOf tenant_id source_id input canonical v h =
      let (matches, h₁) =
        require-then (input.source_id == source_id)
          (HttpError.bad_request (text "body source_id must match the source_id route parameter")) _
          h in
      let (_, _, h₂) = lift-then (require_database state) _ h₁ in
      let (found, t, read, h₃) = on_store-then (get_source tenant_id source_id) _ h₂ in
      let (source, there, h₄) =
        or_raise-then found (HttpError.not_found (text "source policy was not found")) _ h₃ in
      let (enabled, h₅) =
        require-then source.enabled (HttpError.validation (text "source policy is disabled")) _
          h₄ in
      let (original, e₁, h₆) =
        lift-then
          (map_err HttpError.validation
            (canonicalize_for_source services.urls (source_policy source) input.url))
          _ h₅ in
      let (final, e₂, h₇) =
        lift-then
          (map_err HttpError.validation
            (canonicalize_for_source services.urls (source_policy source) input.final_url))
          _ h₆ in
      let same = get_source-same tenant_id source_id w.store t found read in
      let answer : ok (original, final) ≡ ok canonical = ap (λ p. p.0) h₇ in
      let left : original ≡ canonical.0 = cc answer in
      let right : final ≡ canonical.1 = cc answer in
      (
        (
          source,
          (
            matches,
            read ∙ ap (λ o. (ok o, t)) there ∙ ap (λ s. (ok (some source), s)) (sym same),
            enabled,
            map_err-eq-ok HttpError.validation
                  (canonicalize_for_source services.urls (source_policy source) input.url) e₁
                ∙ ap (λ i. ok i) left,
            map_err-eq-ok HttpError.validation
                  (canonicalize_for_source services.urls (source_policy source) input.final_url) e₂
                ∙ ap (λ i. ok i) right,
          ),
        ),
        ap (λ s. record w { store = s }) same ∙ ap (λ p. p.1) h₇,
      )

  -- The tables and the events that a matched page leaves.
  abbrev pub IsMatched :
      Uuid
      → HeaderMap
      → ReverseAlertPageRequest (Floats.Single services.floats)
      → ℕ
      → ReverseAlertMatchResponse (Floats.Double services.floats)
      → World (Floats.Single services.floats) (Floats.Double services.floats)
      → Type 0
  IsMatched source_id headers input status response u =
      (authorize services.digests services.env headers ≡ ok tt)
      × ((tenant_id : Uuid) × (tenant_id_from_headers services.uuids services.to_str headers
            ≡ ok tenant_id)
          × ((source : SourceRow) × (canonical : Text × Text) × IsSourceOf tenant_id source_id
                input.page source canonical
              × (ingest_and_reverse_match services.floats services.numbers services.contracts
                    services.constraints services.digests services.encoders services.uuids now
                    tenant_id source_id input canonical.0 canonical.1 w.store
                  ≡ (ok response, u.store)))
          × ((payload : Text) × (u.events
                ≡ w.events ++ (event_of tenant_id tenant_administrators payload ∷ []))))

  -- A page that the route matches comes from the authorized crawler, for the tenant that its
  -- header names, and from an enabled source of this tenant, which the body names too and whose
  -- allowlist holds both of the page's URLs; the tables are what the matching of this page under
  -- its canonical URLs leaves, and exactly one event is sent, to the tenant's administrators.
  pub reverse_match_page-IsMatched :
      (source_id : Uuid) (headers : HeaderMap)
      (input : ReverseAlertPageRequest (Floats.Single services.floats)) (status : ℕ)
      (response : ReverseAlertMatchResponse (Floats.Double services.floats))
      (u : World (Floats.Single services.floats) (Floats.Double services.floats))
      → reverse_match_page services state now source_id headers input w ≡ (ok (status, response), u)
      → IsMatched source_id headers input status response u
  unfolding reverse_match_page publish_event
  reverse_match_page-IsMatched source_id headers input status response u h =
      let (_, known, h₁) = lift-then (authorize services.digests services.env headers) _ h in
      let (tenant_id, named, h₂) =
        lift-then (tenant_id_from_headers services.uuids services.to_str headers) _ h₁ in
      let (_, _, h₃) =
        lift-then (map_err HttpError.validation (validate_page_request services.contracts input)) _
          h₂ in
      let (canonical, v, checked, h₄) =
        bind-eq-ok (page_urls services state now tenant_id source_id input.page) _ h₃ in
      let (source, same) =
        page_urls-IsSourceOf tenant_id source_id input.page canonical v checked in
      let (made, t, stored, h₅) =
        on_store-then
          (ingest_and_reverse_match services.floats services.numbers services.contracts
            services.constraints services.digests services.encoders services.uuids now tenant_id
            source_id input canonical.0 canonical.1)
          _ h₄ in
      let (payload, _, h₆) =
        send-then (record v { store = t })
          (services.payload (text "page.reverse_match_completed") tenant_id now (reverse_data made))
          tenant_id tenant_administrators _ h₅ in
      let answer : ok (status_of made.changed, made) ≡ ok (status, response) = ap (λ p. p.0) h₆ in
      let made_it : made ≡ response = cc answer in
      let left : t ≡ u.store = ap (λ p. p.1.store) h₆ in
      let sent = sym (ap (λ p. p.1.events) h₆) in
      let run = λ (x : World (Floats.Single services.floats) (Floats.Double services.floats)).
        ingest_and_reverse_match services.floats services.numbers services.contracts
          services.constraints services.digests services.encoders services.uuids now tenant_id
          source_id input canonical.0 canonical.1 x.store in
      (
        known,
        (
          tenant_id,
          named,
          (
            source.0,
            canonical,
            source.1,
            ap run same ∙ stored ∙ ap (λ r. (ok r, t)) made_it ∙ ap (λ s. (ok response, s)) left,
          ),
          (
            payload,
            sent
                ∙ ap
                    (λ (x : World (Floats.Single services.floats) (Floats.Double services.floats)).
                      x.events ++ (event_of tenant_id tenant_administrators payload ∷ []))
                    (sym same),
          ),
        ),
      )
