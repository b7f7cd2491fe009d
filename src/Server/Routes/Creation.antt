-- ===== src/Server/Routes/Creation.antt =====
-- What the routes that create a rule or a source do when they succeed.
use eal_api.Prelude.{
  ℕ, ◌≡◌, sym, ap, subst, ◌∙◌, true, false, some, [], ◌∷◌, ◌++◌, ok, map_err, map_err-eq-ok, arith,
}
use eal_api.Prelude.Ordered.{text_ord}
use eal_api.Prelude.TreeSet.{eqb, eqb_refl}
use eal_api.Text.{Text, text}
use eal_api.Uuids.{Uuid}
use eal_api.HttpError
use eal_api.Floats.{Floats}
use eal_api.Urls.{Urls}
use eal_api.Indexing.{canonicalize, canonicalize_source_root}
use eal_api.Indexing.Canonical.{IsIndexable, canonicalize-IsIndexable, canonicalize-stable}
use eal_api.Auth.Context.{AuthContext, require_tenant_admin}
use eal_api.Alerts.{CreateAlertRule, normalized}
use eal_api.Contracts.{CreateSourcePolicy}
use eal_api.Server.Startup.{AppState}
use eal_api.Server.Events.{tenant_administrators, subject_or_tenant_administrators}
use eal_api.Store.Rows.{Time, SourceRow}
use eal_api.Store.Rules.{AlertRule, create_alert_rule, get_alert_rule}
use eal_api.Store.Rules.Reads.{input_of}
use eal_api.Store.Rules.RoundTrip.{create_alert_rule-get_alert_rule}
use eal_api.Store.Sources.{create_source, get_source}
use eal_api.Store.Sources.Reads.{IsRequested, create_source-get_source}
use eal_api.Server.Routes.{
  Services, World, rule_data, source_data, require_database, requested_policy,
}
use eal_api.Server.Routes.Steps.{event_of, lift-then, on_store-then, send-then}
use eal_api.Server.Routes.Handlers.{create_record, create_source_route, publish_event}

module _ (services : Services) {D : Type 0} (state : AppState D) (now : Time)
    (w u : World (Floats.Single services.floats) (Floats.Double services.floats)) where
  -- The rule is the caller's normalised input, the caller reads it back, and the only event is
  -- for the caller and the administrators of the tenant.
  abbrev pub IsRecorded :
      AuthContext
      → CreateAlertRule (Floats.Single services.floats)
      → ℕ
      → AlertRule (Floats.Single services.floats)
      → Type 0
  IsRecorded auth request status rule =
      (status ≡ 201)
      × (normalized services.floats services.uuids request ≡ ok (input_of rule))
      × (rule.owner_subject ≡ auth.subject)
      × (get_alert_rule auth.tenant_id rule.id auth.subject false u.store
          ≡ (ok (some rule), u.store))
      × ((payload : Text) × (u.events
            ≡ w.events
              ++ (event_of auth.tenant_id (subject_or_tenant_administrators auth.subject) payload
                  ∷ [])))

  -- A rule that the route creates has the caller's input in normal form and the caller as its
  -- owner, and the caller reads it back from the tables; exactly one event is sent, to the owner
  -- and the administrators of the caller's tenant.
  pub create_record-IsRecorded :
      (rule_id revision_id : Uuid) (auth : AuthContext)
      (request : CreateAlertRule (Floats.Single services.floats)) (status : ℕ)
      (rule : AlertRule (Floats.Single services.floats))
      → create_record services state now rule_id revision_id auth request w ≡ (ok (status, rule), u)
      → IsRecorded auth request status rule
  unfolding create_record publish_event
  create_record-IsRecorded rule_id revision_id auth request status rule h =
      let (input, e, h₁) =
        lift-then (map_err HttpError.validation (normalized services.floats services.uuids request))
          _ h in
      let (_, _, h₂) = lift-then (require_database state) _ h₁ in
      let (made, t, stored, h₃) =
        on_store-then
          (create_alert_rule services.constraints now rule_id revision_id auth.tenant_id
            auth.subject input)
          _ h₂ in
      let (payload, _, h₄) =
        send-then (record w { store = t })
          (services.payload (text "alert_rule.created") auth.tenant_id now (rule_data made))
          auth.tenant_id (subject_or_tenant_administrators auth.subject) _ h₃ in
      let answer : ok (201, made) ≡ ok (status, rule) = ap (λ p. p.0) h₄ in
      let same : made ≡ rule = cc answer in
      let left : t ≡ u.store = ap (λ p. p.1.store) h₄ in
      let sent = sym (ap (λ p. p.1.events) h₄) in
      let (kept, named, _, owned, _, read) =
        create_alert_rule-get_alert_rule services.constraints now rule_id revision_id auth.tenant_id
          auth.subject input auth.subject false w.store t made stored in
      let mine : eqb auth.subject auth.subject ≡ true = eqb_refl auth.subject in
      let again : get_alert_rule auth.tenant_id made.id auth.subject false t ≡ (ok (some made), t) =
        subst (λ id. get_alert_rule auth.tenant_id id auth.subject false t ≡ (ok (some made), t))
          (sym named) (rw mine at read) in
      let normal : normalized services.floats services.uuids request ≡ ok (input_of made) =
        map_err-eq-ok HttpError.validation (normalized services.floats services.uuids request) e
        ∙ ap (λ i. ok i) (sym kept) in
      (
        sym (cc answer),
        subst (λ r. normalized services.floats services.uuids request ≡ ok (input_of r)) same
            normal,
        subst (λ r. r.owner_subject ≡ auth.subject) same owned,
        subst
            (λ r.
              get_alert_rule auth.tenant_id r.id auth.subject false u.store
              ≡ (ok (some r), u.store))
            same
            (subst
              (λ v.
                get_alert_rule auth.tenant_id made.id auth.subject false v ≡ (ok (some made), v))
              left again),
        (payload, sent),
      )

  -- The source is the caller's, an administrator's, with the request's columns; its root is the
  -- canonical form of the requested one under the source's own allowlist, of which it is the
  -- canonical form itself; it is found again, and the only event is for the administrators of the
  -- tenant.
  abbrev pub IsAdded : AuthContext → CreateSourcePolicy → ℕ → SourceRow → Type 0
  IsAdded auth input status row =
      (auth.tenant_admin ≡ true)
      × (status ≡ 201)
      × ((root : Text) × (canonicalize services.urls input.root_url input.allowed_hosts
              input.include_subdomains input.allowed_path_prefixes
            ≡ ok root)
          × IsRequested services.constraints now auth.tenant_id input root row)
      × ((url : Urls.Url services.urls) × (Urls.parse services.urls input.root_url ≡ ok url)
          × IsIndexable row.allowed_hosts row.include_subdomains row.allowed_path_prefixes
              (Urls.view services.urls url))
      × (canonicalize services.urls row.root_url row.allowed_hosts row.include_subdomains
            row.allowed_path_prefixes
          ≡ ok row.root_url)
      × (get_source auth.tenant_id row.id u.store ≡ (ok (some row), u.store))
      × ((payload : Text) × (u.events
            ≡ w.events ++ (event_of auth.tenant_id tenant_administrators payload ∷ [])))

  administers :
      (auth : AuthContext) (x : Unit {0})
      → require_tenant_admin auth ≡ ok x
      → auth.tenant_admin ≡ true
  unfolding require_tenant_admin
  administers auth x h = ground arith

  -- Under the policy of the row, the requested root is indexable and the stored one canonical.
  row_root :
      (auth : AuthContext) (input : CreateSourcePolicy) (root : Text) (row : SourceRow)
      → canonicalize services.urls input.root_url input.allowed_hosts input.include_subdomains
          input.allowed_path_prefixes
        ≡ ok root
      → IsRequested services.constraints now auth.tenant_id input root row
      → ((url : Urls.Url services.urls) × (Urls.parse services.urls input.root_url ≡ ok url)
          × IsIndexable row.allowed_hosts row.include_subdomains row.allowed_path_prefixes
              (Urls.view services.urls url))
        × (canonicalize services.urls row.root_url row.allowed_hosts row.include_subdomains
              row.allowed_path_prefixes
            ≡ ok row.root_url)
  row_root auth input root row e requested =
      rw (requested.root, requested.hosts, requested.subdomains, requested.path_prefixes)
        (let (url, final, parsed, indexable, _, _) =
            canonicalize-IsIndexable services.urls input.root_url root input.allowed_hosts
              input.include_subdomains input.allowed_path_prefixes e in
          (
            (url, parsed, indexable),
            canonicalize-stable services.urls input.root_url root input.allowed_hosts
                input.include_subdomains input.allowed_path_prefixes e,
          ))

  -- A source that the route creates was asked for by an administrator of the tenant and has the
  -- columns of the request; its root is the canonical form of the requested one, which the
  -- source's own hosts, subdomains and path prefixes admit, and which they leave as it is; it is
  -- found again in the tables, and exactly one event is sent, to the administrators of this tenant.
  pub create_source_route-IsAdded :
      (auth : AuthContext) (input : CreateSourcePolicy) (status : ℕ) (row : SourceRow)
      → create_source_route services state now auth input w ≡ (ok (status, row), u)
      → IsAdded auth input status row
  unfolding create_source_route publish_event canonicalize_source_root
  create_source_route-IsAdded auth input status row h =
      let (permitted, admin, h₁) = lift-then (require_tenant_admin auth) _ h in
      let (_, _, h₂) =
        lift-then (map_err HttpError.validation (services.contracts.validate_source input)) _ h₁ in
      let (root, e, h₃) =
        lift-then
          (map_err HttpError.validation
            (canonicalize_source_root services.urls (requested_policy input)))
          _ h₂ in
      let (_, _, h₄) = lift-then (require_database state) _ h₃ in
      let (made, t, stored, h₅) =
        on_store-then (create_source services.constraints now auth.tenant_id input root) _ h₄ in
      let (payload, _, h₆) =
        send-then (record w { store = t })
          (services.payload (text "source.created") auth.tenant_id now (source_data made))
          auth.tenant_id tenant_administrators _ h₅ in
      let answer : ok (201, made) ≡ ok (status, row) = ap (λ p. p.0) h₆ in
      let same : made ≡ row = cc answer in
      let left : t ≡ u.store = ap (λ p. p.1.store) h₆ in
      let sent = sym (ap (λ p. p.1.events) h₆) in
      let (requested, read, _) =
        create_source-get_source services.constraints now auth.tenant_id input root now input
          w.store t made stored in
      let canonical =
        map_err-eq-ok HttpError.validation
          (canonicalize_source_root services.urls (requested_policy input)) e in
      let asked : IsRequested services.constraints now auth.tenant_id input root row =
        subst (IsRequested services.constraints now auth.tenant_id input root) same requested in
      let (indexable, stable) = row_root auth input root row canonical asked in
      (
        administers auth permitted admin,
        sym (cc answer),
        (root, canonical, asked),
        indexable,
        stable,
        subst (λ r. get_source auth.tenant_id r.id u.store ≡ (ok (some r), u.store)) same
            (subst (λ v. get_source auth.tenant_id made.id v ≡ (ok (some made), v)) left read),
        (payload, sent),
      )
