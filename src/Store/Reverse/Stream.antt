-- ===== src/Store/Reverse/Stream.antt =====
-- src/reverse_match.rs: `ingest_and_reverse_match` and its parts.
use eal_api.Prelude.{
  Bool, false, not, ◌&&◌, ◌||◌, List, ◌++◌, keep, take, any, leb, ltb, ◌==◌, if◌then◌else◌,
  is_empty, ok, err, Result, collect, map_err,
}
use eal_api.Prelude.Ordered.{text_ord}
use eal_api.Prelude.TreeSet.{eqb}
use eal_api.Text.{Text, text}
use eal_api.Uuids.{Uuid, Uuids}
use eal_api.HttpError
use eal_api.HttpError.{HttpError}
use eal_api.Floats.{Floats}
use eal_api.Headers.{as_bytes}
use eal_api.WorkerAuth.{Digests}
use eal_api.Contracts.{Contracts}
use eal_api.Store.Rows.{
  Time, Space, reverse_alert_stream, historical_page_search, Evidence, MatchRow, Store,
}
use eal_api.Store.Action.{Action, pure, gets, lift, or_raise, transaction, for_each, ◌>>=◌, ◌>>◌}
use eal_api.Store.Order.{order_by, join_on}
use eal_api.Store.Engine.{Numbers, Constraints}
use eal_api.Store.Encoders.{Encoders}
use eal_api.Store.Identity.{
  normalize_content, sha256_hex, embedding_sha256, vector_literal, space_of, MatchIdentity,
  match_key,
}
use eal_api.Store.Pages.{Visit}
use eal_api.Store.Ingest.{same_space}
use eal_api.Store.Matches.{insert_match, selected_match}
use eal_api.Store.Reverse.{
  ReverseAlertPageRequest, ReverseAlertCandidate, ReverseAlertMatchResponse, PageWire,
  CandidateWire, Watched, is_active_of, is_stream_evidence, validate_page_request,
}
use eal_api.Store.Reverse.Revision.{upsert_page_revision}

module _ (floats : Floats) (numbers : Numbers floats)
    (contracts : Contracts (Floats.Single floats) (Floats.Double floats))
    (constraints : Constraints (Floats.Single floats) (Floats.Double floats)) (digests : Digests)
    (encoders : Encoders) (uuids : Uuids) where
  open numbers use {rank, widen, one_minus, cosine_distance, double_is_finite, double_lt, from_json}
  open constraints use {gen_random_uuid}

  abbrev pub Request : Type 0
  Request = ReverseAlertPageRequest (Floats.Single floats)

  abbrev pub Tables : Type 0
  Tables = Store (Floats.Single floats) (Floats.Double floats)

  -- Rules' embeddings with their rules, if active, and the revisions of these.
  abbrev pub of_revision : Watched (Floats.Single floats) → Bool
  of_revision ((embedding, _), revision) =
      revision.tenant_id == embedding.tenant_id
      && (revision.id == embedding.alert_rule_revision_id
          && revision.alert_rule_id == embedding.alert_rule_id)

  abbrev pub watched : Tables → List (Watched (Floats.Single floats))
  watched s =
      join_on (λ pair revision. of_revision (pair, revision))
        (join_on is_active_of s.rule_embeddings s.rules) s.rule_revisions

  abbrev pub distance_of : Request → Watched (Floats.Single floats) → Floats.Double floats
  distance_of request ((embedding, _), _) =
      cosine_distance embedding.embedding
        (vector_literal floats numbers request.page.embedding.values)

  abbrev pub similarity_of : Request → Watched (Floats.Single floats) → Floats.Double floats
  similarity_of request row = one_minus (distance_of request row)

  abbrev pub threshold_of : Watched (Floats.Single floats) → Floats.Double floats
  threshold_of (_, revision) = widen revision.similarity_threshold

  -- `jsonb_array_length(source_filters) = 0 OR source_filters ? ('source:' || $2)`
  abbrev admits_source_id : Uuid → List Text → Bool
  admits_source_id source_id filters =
      is_empty filters
      || any (λ filter. eqb filter (text "source:" ++ uuids.to_text source_id)) filters

  abbrev pub is_candidate : Uuid → Uuid → Request → Watched (Floats.Single floats) → Bool
  is_candidate tenant_id source_id request row =
      row.0.0.tenant_id == tenant_id
      && (same_space row.0.0.space (space_of request.page.embedding)
          && (row.1.enabled
              && (eqb row.1.embedding_model request.page.embedding.model
                  && (leb (rank (threshold_of row)) (rank (similarity_of request row))
                      && admits_source_id source_id row.1.source_filters))))

  -- `ORDER BY distance, id`
  abbrev pub nearer :
      Request → Watched (Floats.Single floats) → Watched (Floats.Single floats) → Bool
  nearer request a b =
      ltb (rank (distance_of request a)) (rank (distance_of request b))
      || (rank (distance_of request a) == rank (distance_of request b) && leb a.0.0.id b.0.0.id)

  unfoldable pub candidate_rows :
      Uuid → Uuid → Request → Tables → List (Watched (Floats.Single floats))
  candidate_rows tenant_id source_id request s =
      take request.max_candidates
        (order_by (nearer request) (keep (is_candidate tenant_id source_id request) (watched s)))

  -- A number that is not finite has no JSON that reads as one.
  unfoldable pub decode_candidate :
      Request
      → Watched (Floats.Single floats)
      → Result HttpError (CandidateWire (Floats.Double floats))
  decode_candidate request row =
      if double_is_finite (similarity_of request row) && double_is_finite (threshold_of row)
      then ok (record {
        alert_rule_id = row.0.0.alert_rule_id;
        alert_rule_revision_id = row.0.0.alert_rule_revision_id;
        alert_embedding_id = row.0.0.id;
        similarity = from_json (similarity_of request row);
        threshold = from_json (threshold_of row);
      })
      else err HttpError.internal

  unfoldable pub find_alert_candidates :
      Uuid → Uuid → Request → Action Tables (List (CandidateWire (Floats.Double floats)))
  find_alert_candidates tenant_id source_id request =
      gets (candidate_rows tenant_id source_id request) >>= λ rows.
      lift (collect (decode_candidate request) rows)

  abbrev stream_row :
      Uuid
      → PageWire
      → Request
      → Text
      → CandidateWire (Floats.Double floats)
      → Text
      → Uuid
      → MatchRow (Floats.Double floats)
  stream_row tenant_id page request vector_sha256 candidate key id = record {
    id = id;
    tenant_id = tenant_id;
    alert_rule_id = candidate.alert_rule_id;
    alert_rule_revision_id = candidate.alert_rule_revision_id;
    revision_id = page.page_revision_id;
    evidence =
        reverse_alert_stream candidate.alert_embedding_id vector_sha256
          (space_of request.page.embedding);
    canonical_match_key = key;
    similarity = candidate.similarity;
    threshold = candidate.threshold;
  }

  -- The row of an earlier match with the same evidence, of a revision with the same content.
  abbrev is_same_stream :
      Tables
      → Text
      → Uuid
      → Text
      → Space
      → MatchRow (Floats.Double floats)
      → MatchRow (Floats.Double floats)
      → Bool
  is_same_stream s content_sha256 embedding_id vector_sha256 space row existing =
      existing.tenant_id == row.tenant_id
      && (eqb existing.canonical_match_key row.canonical_match_key
          && (existing.alert_rule_id == row.alert_rule_id
              && (existing.alert_rule_revision_id == row.alert_rule_revision_id
                  && (existing.revision_id == row.revision_id
                      && (is_stream_evidence embedding_id vector_sha256 space existing.evidence
                          && any
                              (λ revision.
                                revision.tenant_id == row.tenant_id
                                && (revision.id == existing.revision_id
                                    && eqb revision.content_sha256 content_sha256))
                              s.page_revisions)))))

  abbrev stream_id : Evidence → Uuid → Uuid
  stream_id (historical_page_search _) id = id
  stream_id (reverse_alert_stream embedding_id _ _) id = embedding_id

  abbrev candidate_of :
      Uuid → MatchRow (Floats.Double floats) → ReverseAlertCandidate (Floats.Double floats)
  candidate_of embedding_id row = record {
    id = row.id;
    alert_rule_id = row.alert_rule_id;
    alert_rule_revision_id = row.alert_rule_revision_id;
    page_revision_id = row.revision_id;
    alert_embedding_id = stream_id row.evidence embedding_id;
    similarity = from_json row.similarity;
    threshold = from_json row.threshold;
    canonical_match_key = row.canonical_match_key;
  }

  unfoldable pub persist_reverse_candidate :
      Uuid
      → PageWire
      → Request
      → Text
      → CandidateWire (Floats.Double floats)
      → Text
      → Action Tables (ReverseAlertCandidate (Floats.Double floats))
  persist_reverse_candidate tenant_id page request vector_sha256 candidate key s =
      let row = stream_row tenant_id page request vector_sha256 candidate key (gen_random_uuid s) in
      let is_same =
        is_same_stream s page.content_sha256 candidate.alert_embedding_id vector_sha256
          (space_of request.page.embedding) row in
      (do
        inserted ← insert_match constraints row
        durable ←
            or_raise (selected_match constraints is_same s inserted)
              (HttpError.conflict (text "canonical match identity exists with different evidence"))
        pure (candidate_of candidate.alert_embedding_id durable))
        s

  abbrev pub identity_of :
      Uuid → PageWire → Request → CandidateWire (Floats.Double floats) → MatchIdentity
  identity_of tenant_id page request candidate = record {
    tenant_id = tenant_id;
    alert_rule_id = candidate.alert_rule_id;
    alert_rule_revision_id = candidate.alert_rule_revision_id;
    page_revision_id = page.page_revision_id;
    content_sha256 = page.content_sha256;
    model = request.page.embedding.model;
    model_version = request.page.embedding.model_version;
    dimensions = request.page.embedding.dimensions;
    normalization = request.page.embedding.normalization;
  }

  -- `!similarity.is_finite() || similarity < threshold`, which the loop passes over.
  abbrev pub is_admitted : CandidateWire (Floats.Double floats) → Bool
  is_admitted candidate =
      double_is_finite candidate.similarity
      && not (double_lt candidate.similarity candidate.threshold)

  -- The loop over the candidates.
  unfoldable pub persist_all :
      Uuid
      → PageWire
      → Request
      → Text
      → List (CandidateWire (Floats.Double floats))
      → Action Tables (List (ReverseAlertCandidate (Floats.Double floats)))
  persist_all tenant_id page request vector_sha256 found =
      for_each
        (λ candidate.
          persist_reverse_candidate tenant_id page request vector_sha256 candidate
            (match_key digests encoders uuids (identity_of tenant_id page request candidate)))
        (keep is_admitted found)

  abbrev pub visit_of : Time → Uuid → Uuid → Request → Text → Text → Visit
  visit_of now tenant_id source_id request canonical_original_url canonical_final_url =
      let content = normalize_content request.page.content_text in
      record {
        now = now;
        tenant_id = tenant_id;
        source_id = source_id;
        canonical_url = canonical_final_url;
        original_url = canonical_original_url;
        title = request.page.title;
        content_text = content;
        content_sha256 = sha256_hex digests encoders (as_bytes content);
        content_type = request.page.content_type;
        http_status = request.page.http_status;
        published_at = request.page.published_at;
        fetched_at = request.page.fetched_at;
      }

  -- What the transaction does.
  unfoldable pub matching :
      Time
      → Uuid
      → Uuid
      → Request
      → Text
      → Text
      → Action Tables (ReverseAlertMatchResponse (Floats.Double floats))
  matching now tenant_id source_id request canonical_original_url canonical_final_url = do
    page ←
        upsert_page_revision constraints
          (visit_of now tenant_id source_id request canonical_original_url canonical_final_url)
    let vector_sha256 =
        embedding_sha256 floats numbers digests encoders request.page.embedding.values
    found ← find_alert_candidates tenant_id source_id request
    candidates ← persist_all tenant_id page request vector_sha256 found
    pure (record {
      page_id = page.page_id;
      page_revision_id = page.page_revision_id;
      content_sha256 = page.content_sha256;
      changed = page.changed;
      page_vector_persisted = false;
      candidates = candidates;
    })

  unfoldable pub ingest_and_reverse_match :
      Time
      → Uuid
      → Uuid
      → Request
      → Text
      → Text
      → Action Tables (ReverseAlertMatchResponse (Floats.Double floats))
  ingest_and_reverse_match now tenant_id source_id request canonical_original_url
        canonical_final_url =
      lift (map_err HttpError.validation (validate_page_request contracts request))
      >> transaction
          (matching now tenant_id source_id request canonical_original_url canonical_final_url)
