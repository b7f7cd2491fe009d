-- ===== src/Store/Reverse/Atomic.antt =====
-- The matching of a page by `ingest_and_reverse_match` of src/reverse_match.rs, as a whole.
use eal_api.Prelude.{
  length-keep-le, ◌≤◌, ◌≡◌, refl, sym, ap, subst, ◌∙◌, false, List, keep, length, ok, arith,
  map_err, in_range, map_err-eq-ok, >>=-eq-ok, ensure-eq-ok,
}
use eal_api.Text.{Text, text}
use eal_api.Uuids.{Uuid, Uuids}
use eal_api.HttpError
use eal_api.HttpError.{HttpError}
use eal_api.Floats.{Floats}
use eal_api.WorkerAuth.{Digests}
use eal_api.Contracts.{Contracts}
use eal_api.Store.Rows.{Time, Store}
use eal_api.Store.Action.{Action, or_raise, bind-eq-ok, pure-eq-ok}
use eal_api.Store.Engine.{Numbers, Constraints}
use eal_api.Store.Encoders.{Encoders}
use eal_api.Store.Matches.{insert_match, selected_match}
use eal_api.Store.Identity.{embedding_sha256}
use eal_api.Store.Reverse.Stream
use eal_api.Store.Reverse.{
  PageWire, ReverseAlertCandidate, CandidateWire, ReverseAlertMatchResponse, validate_page_request,
}
use eal_api.Store.Reverse.Bounds.{find_alert_candidates-IsMatch}
use eal_api.Store.Reverse.Revision.{upsert_page_revision}
use eal_api.Store.Reverse.Stream.{
  is_admitted, Request, find_alert_candidates, candidate_rows, persist_all,
  persist_reverse_candidate, ingest_and_reverse_match, visit_of,
}
use eal_api.Store.Reverse.Keeps.{
  Keeps, bind-Keeps, for_each-Keeps, or_raise-Keeps, for_each-length, succeeded, insert_match-Keeps,
  upsert_page_revision-Keeps,
}

module _ (floats : Floats) (numbers : Numbers floats)
    (contracts : Contracts (Floats.Single floats) (Floats.Double floats))
    (constraints : Constraints (Floats.Single floats) (Floats.Double floats)) (digests : Digests)
    (encoders : Encoders) (uuids : Uuids) (now : Time) (tenant_id source_id : Uuid)
    (request : Request floats numbers contracts constraints digests encoders uuids)
    (original final : Text) where
  abbrev matching_page :
      Action
        (Store (Floats.Single floats) (Floats.Double floats))
        (ReverseAlertMatchResponse (Floats.Double floats))
  matching_page =
      ingest_and_reverse_match floats numbers contracts constraints digests encoders uuids now
        tenant_id source_id request original final

  abbrev run :
      Action
        (Store (Floats.Single floats) (Floats.Double floats))
        (ReverseAlertMatchResponse (Floats.Double floats))
  run =
      Stream.matching floats numbers contracts constraints digests encoders uuids now tenant_id
        source_id request original final

  persist_reverse_candidate-Keeps :
      (page : PageWire) (vector_sha256 : Text) (candidate : CandidateWire (Floats.Double floats))
      (key : Text)
      → Keeps (
          persist_reverse_candidate floats numbers contracts constraints digests encoders uuids
            tenant_id page request vector_sha256 candidate key)
  unfolding persist_reverse_candidate
  persist_reverse_candidate-Keeps page vector_sha256 candidate key s =
      bind-Keeps (insert_match constraints _) _ (insert_match-Keeps constraints _)
        (λ inserted.
          bind-Keeps
            (or_raise (selected_match constraints _ s inserted)
              (HttpError.conflict (text "canonical match identity exists with different evidence")))
            _ (or_raise-Keeps _ _) (λ durable t. refl))
        s

  matching-Keeps : Keeps run
  unfolding Stream.matching find_alert_candidates persist_all
  matching-Keeps =
      bind-Keeps (upsert_page_revision constraints _) _ (upsert_page_revision-Keeps constraints _)
        (λ page.
          bind-Keeps
            (find_alert_candidates floats numbers contracts constraints digests encoders uuids
              tenant_id source_id request)
            _ (λ s. refl)
            (λ found.
              bind-Keeps
                (persist_all floats numbers contracts constraints digests encoders uuids tenant_id
                  page request
                  (embedding_sha256 floats numbers digests encoders request.page.embedding.values)
                  found)
                _
                (for_each-Keeps _ (λ candidate. persist_reverse_candidate-Keeps page _ candidate _)
                  (keep (is_admitted floats numbers contracts constraints digests encoders uuids)
                    found))
                (λ candidates s. refl)))

  counted :
      (page : PageWire) (vector_sha256 : Text)
      (s t u v : Store (Floats.Single floats) (Floats.Double floats))
      (found : List (CandidateWire (Floats.Double floats)))
      (candidates : List (ReverseAlertCandidate (Floats.Double floats)))
      → find_alert_candidates floats numbers contracts constraints digests encoders uuids tenant_id
          source_id request s
        ≡ (ok found, t)
      → persist_all floats numbers contracts constraints digests encoders uuids tenant_id page
          request vector_sha256 found u
        ≡ (ok candidates, v)
      → length candidates ≤ request.max_candidates
  unfolding persist_all
  counted page vector_sha256 s t u v found candidates finding persisting =
      let (few, _, _) =
        find_alert_candidates-IsMatch floats numbers contracts constraints digests encoders uuids
          tenant_id source_id request s t found finding in
      let passed =
        keep (is_admitted floats numbers contracts constraints digests encoders uuids) found in
      let same = for_each-length _ passed u v candidates persisting in
      let fewer =
        length-keep-le (is_admitted floats numbers contracts constraints digests encoders uuids)
          found in
      omega (arith, same, few, fewer)

  matching-IsBounded :
      (s t : Store (Floats.Single floats) (Floats.Double floats))
      (response : ReverseAlertMatchResponse (Floats.Double floats))
      → run s ≡ (ok response, t)
      → (length response.candidates ≤ request.max_candidates)
        × (response.page_vector_persisted ≡ false)
  unfolding Stream.matching persist_all
  matching-IsBounded s t response h =
      let (page, s₁, _, h₁) = bind-eq-ok (upsert_page_revision constraints _) _ h in
      let (found, s₂, finding, h₂) =
        bind-eq-ok
          (find_alert_candidates floats numbers contracts constraints digests encoders uuids
            tenant_id source_id request)
          _ h₁ in
      let (candidates, s₃, persisting, h₃) =
        bind-eq-ok
          (persist_all floats numbers contracts constraints digests encoders uuids tenant_id page
            request (embedding_sha256 floats numbers digests encoders request.page.embedding.values)
            found)
          _ h₂ in
      let same = (pure-eq-ok h₃).0 in
      (
        subst
            (λ (r : ReverseAlertMatchResponse (Floats.Double floats)).
              length r.candidates ≤ request.max_candidates)
            same (counted page _ s₁ s₂ s₂ s₃ found candidates finding persisting),
        ap (λ (r : ReverseAlertMatchResponse (Floats.Double floats)). r.page_vector_persisted)
            (sym same),
      )

  validated :
      (u : Unit {0}) → validate_page_request contracts request ≡ ok u → request.max_candidates ≤ 500
  unfolding validate_page_request
  validated u h =
      let (_, _, h₁) = >>=-eq-ok (contracts.validate_page request.page) _ h in
      let inside = ensure-eq-ok (in_range 1 500 request.max_candidates) _ h₁ in
      ground (arith, inside)

  -- A matching that succeeds answers with at most as many candidates as the request allows, which
  -- are at most 500, and stores no embedding: the answer says that the page's vector was not
  -- persisted, and the table of the pages' embeddings is as it was.
  pub ingest_and_reverse_match-IsBounded :
      (s t : Store (Floats.Single floats) (Floats.Double floats))
      (response : ReverseAlertMatchResponse (Floats.Double floats))
      → matching_page s ≡ (ok response, t)
      → (length response.candidates ≤ request.max_candidates)
        × (request.max_candidates ≤ 500)
        × (response.page_vector_persisted ≡ false)
        × (t.embeddings ≡ s.embeddings)
  unfolding ingest_and_reverse_match
  ingest_and_reverse_match-IsBounded s t response h =
      let (u, valid, done) =
        succeeded (map_err HttpError.validation (validate_page_request contracts request)) run h in
      let (count, vector) = matching-IsBounded s t response done in
      (
        count,
        validated u
            (map_err-eq-ok HttpError.validation (validate_page_request contracts request) valid),
        vector,
        ap (λ p. p.1.embeddings) (sym done) ∙ matching-Keeps s,
      )
