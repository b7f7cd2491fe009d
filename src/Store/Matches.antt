-- ===== src/Store/Matches.antt =====
-- src/store.rs: `evaluate_matches`, which records the stored pages that match an alert rule. Every
-- candidate is a statement of its own, so that those before an error stay.
pub mod Found
use eal_api.Prelude.{
  Bool, false, not, ◌&&◌, Option, none, some, List, [], ◌∷◌, ◌++◌, keep, any, ◌==◌, if◌then◌else◌,
  ok, err,
}
use eal_api.Prelude.Ordered.{text_ord}
use eal_api.Prelude.TreeSet.{eqb}
use eal_api.Text.{Text}
use eal_api.Uuids.{Uuid, Uuids}
use eal_api.HttpError
use eal_api.Floats.{Floats}
use eal_api.Headers.{first}
use eal_api.WorkerAuth.{Digests}
use eal_api.Contracts.{Contracts}
use eal_api.Store.Rows.{Evidence, historical_page_search, reverse_alert_stream, MatchRow, Store}
use eal_api.Store.Action.{Action, pure, or_raise, for_each, ◌>>=◌}
use eal_api.Store.Engine.{Numbers, Constraints}
use eal_api.Store.Encoders.{Encoders}
use eal_api.Store.Identity.{MatchIdentity, match_key}
use eal_api.Store.Search.{SearchRecord, SearchRequest, search_embeddings}

-- The unique columns of the table.
abbrev pub is_match_key : {Double : Type 0} → Uuid → Text → MatchRow Double → Bool
is_match_key tenant_id key row = row.tenant_id == tenant_id && eqb row.canonical_match_key key

abbrev binds_embedding : Uuid → Evidence → Bool
binds_embedding id (historical_page_search embedding_id) = embedding_id == id
binds_embedding id (reverse_alert_stream _ _ _) = false

module _ {Single Double : Type 0} (constraints : Constraints Single Double) where
  open constraints use {checks_match, admits_match}

  -- INSERT ... ON CONFLICT (tenant_id, canonical_match_key) DO NOTHING RETURNING
  unfoldable pub insert_match :
      MatchRow Double → Action (Store Single Double) (Option (MatchRow Double))
  insert_match row t =
      if not (checks_match t row)
      then (err HttpError.internal, t)
      else if any (is_match_key row.tenant_id row.canonical_match_key) t.matches
      then (ok none, t)
      else if admits_match t row
      then (ok (some row), record t { matches = t.matches ++ (row ∷ []) })
      else (err HttpError.internal, t)

  -- The row that was inserted, or else the one that stood there when the statement began.
  abbrev pub selected_match :
      (MatchRow Double → Bool)
      → Store Single Double
      → Option (MatchRow Double)
      → Option (MatchRow Double)
  selected_match is_same s (some row) = some row
  selected_match is_same s none = first (keep is_same s.matches)

  abbrev pub is_same_match : Uuid → MatchRow Double → MatchRow Double → Bool
  is_same_match embedding_id row existing =
      existing.tenant_id == row.tenant_id
      && (existing.alert_rule_id == row.alert_rule_id
          && (existing.alert_rule_revision_id == row.alert_rule_revision_id
              && (existing.revision_id == row.revision_id
                  && (binds_embedding embedding_id existing.evidence
                      && eqb existing.canonical_match_key row.canonical_match_key))))

  unfoldable pub upsert_match :
      Uuid → MatchRow Double → Action (Store Single Double) (MatchRow Double)
  upsert_match embedding_id row s =
      (insert_match row >>= λ upserted.
      or_raise (selected_match (is_same_match embedding_id row) s upserted) HttpError.internal)
        s

module _ (floats : Floats) (numbers : Numbers floats)
    (contracts : Contracts (Floats.Single floats) (Floats.Double floats))
    (constraints : Constraints (Floats.Single floats) (Floats.Double floats)) (digests : Digests)
    (encoders : Encoders) (uuids : Uuids) where
  open numbers use {narrow, single_max, from_json}
  open constraints use {gen_random_uuid}

  abbrev pub identity_of : Uuid → Uuid → Uuid → SearchRecord (Floats.Double floats) → MatchIdentity
  identity_of tenant_id alert_rule_id alert_rule_revision_id found = record {
    tenant_id = tenant_id;
    alert_rule_id = alert_rule_id;
    alert_rule_revision_id = alert_rule_revision_id;
    page_revision_id = found.hit.revision_id;
    content_sha256 = found.content_sha256;
    model = found.hit.model;
    model_version = found.hit.model_version;
    dimensions = found.hit.dimensions;
    normalization = found.hit.normalization;
  }

  abbrev pub candidate_row :
      Uuid
      → Uuid
      → Uuid
      → Floats.Double floats
      → SearchRecord (Floats.Double floats)
      → Uuid
      → MatchRow (Floats.Double floats)
  candidate_row tenant_id alert_rule_id alert_rule_revision_id threshold found id = record {
    id = id;
    tenant_id = tenant_id;
    alert_rule_id = alert_rule_id;
    alert_rule_revision_id = alert_rule_revision_id;
    revision_id = found.hit.revision_id;
    evidence = historical_page_search found.hit.embedding_id;
    canonical_match_key =
        match_key digests encoders uuids
          (identity_of tenant_id alert_rule_id alert_rule_revision_id found);
    similarity = found.hit.similarity;
    threshold = threshold;
  }

  -- `decode_json_row` of a match.
  abbrev pub read_match : MatchRow (Floats.Double floats) → MatchRow (Floats.Double floats)
  read_match row = record row {
    similarity = from_json row.similarity;
    threshold = from_json row.threshold;
  }

  -- One turn of the loop.
  unfoldable pub evaluate_record :
      Uuid
      → Uuid
      → Uuid
      → Floats.Double floats
      → SearchRecord (Floats.Double floats)
      → Action
          (Store (Floats.Single floats) (Floats.Double floats))
          (MatchRow (Floats.Double floats))
  evaluate_record tenant_id alert_rule_id alert_rule_revision_id threshold found s =
      (upsert_match constraints found.hit.embedding_id (
            candidate_row tenant_id alert_rule_id alert_rule_revision_id threshold found
              (gen_random_uuid s))
          >>= λ row. pure (read_match row))
        s

  -- `search.min_similarity.max(threshold as f32)`
  abbrev pub with_threshold :
      Floats.Double floats
      → SearchRequest floats numbers contracts
      → SearchRequest floats numbers contracts
  with_threshold threshold search = record search {
    min_similarity = single_max search.min_similarity (narrow threshold);
  }

  unfoldable pub evaluate_matches :
      Uuid
      → Uuid
      → Uuid
      → Floats.Double floats
      → SearchRequest floats numbers contracts
      → Action
          (Store (Floats.Single floats) (Floats.Double floats))
          (List (MatchRow (Floats.Double floats)))
  evaluate_matches tenant_id alert_rule_id alert_rule_revision_id threshold search = do
    page ← search_embeddings floats numbers contracts tenant_id (with_threshold threshold search)
    for_each (evaluate_record tenant_id alert_rule_id alert_rule_revision_id threshold) page.records
