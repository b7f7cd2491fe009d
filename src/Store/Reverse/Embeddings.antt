-- ===== src/Store/Reverse/Embeddings.antt =====
-- src/reverse_match.rs: `upsert_alert_rule_embedding`, the immutable embedding of a rule's revision.
use eal_api.Prelude.{
  Bool, true, false, not, ◌&&◌, Option, none, some, [], ◌∷◌, ◌++◌, keep, any, ◌==◌, if◌then◌else◌,
  ok, err, map_err,
}
use eal_api.Prelude.Ordered.{text_ord}
use eal_api.Prelude.TreeSet.{eqb}
use eal_api.Text.{Text, text}
use eal_api.Uuids.{Uuid}
use eal_api.HttpError
use eal_api.Floats.{Floats}
use eal_api.Headers.{first}
use eal_api.WorkerAuth.{Digests}
use eal_api.Contracts.{Contracts}
use eal_api.Store.Rows.{Time, AlertRuleRow, RuleRevisionRow, RuleEmbeddingRow, Space, Store}
use eal_api.Store.Action.{Action, pure, lift, or_raise, require, ◌>>=◌, ◌>>◌}
use eal_api.Store.Order.{join_on}
use eal_api.Store.Engine.{Numbers, Constraints}
use eal_api.Store.Encoders.{Encoders}
use eal_api.Store.Rules.{is_active}
use eal_api.Store.Identity.{embedding_sha256, vector_literal, space_of}
use eal_api.Store.Reverse.{
  AlertRuleEmbeddingUpsertRequest, AlertRuleEmbeddingReceipt, is_rule_embedding, validate_upsert,
}

-- `target`: the rule with its revision, if this is active, enabled and of the model.
module _ {Single : Type 0} where
  abbrev is_target : Uuid → Uuid → Uuid → Text → AlertRuleRow × RuleRevisionRow Single → Bool
  is_target tenant_id alert_rule_id revision_id model (rule, revision) =
      rule.tenant_id == tenant_id
      && (rule.id == alert_rule_id
          && (revision.id == revision_id
              && (revision.enabled && eqb revision.embedding_model model)))

  -- The JOIN of this module also binds the revision to its rule.
  abbrev is_active_revision : AlertRuleRow → RuleRevisionRow Single → Bool
  is_active_revision rule revision = is_active rule revision && revision.alert_rule_id == rule.id

abbrev is_target_embedding : Uuid → Uuid → Uuid → Space → RuleEmbeddingRow → Bool
is_target_embedding tenant_id alert_rule_id revision_id space row =
    is_rule_embedding tenant_id revision_id space row && row.alert_rule_id == alert_rule_id

abbrev was_there : Option RuleEmbeddingRow → Option (RuleEmbeddingRow × Bool)
was_there none = none
was_there (some row) = some (row, false)

module _ {Single Double : Type 0} (constraints : Constraints Single Double) where
  open constraints use {checks_rule_embedding, admits_rule_embedding}

  -- INSERT ... ON CONFLICT DO NOTHING RETURNING, with the row that was there otherwise.
  unfoldable pub upsert_rule_embedding :
      RuleEmbeddingRow → Action (Store Single Double) (Option (RuleEmbeddingRow × Bool))
  upsert_rule_embedding row s =
      if not (checks_rule_embedding s row)
      then (err HttpError.internal, s)
      else if any (is_rule_embedding row.tenant_id row.alert_rule_revision_id row.space)
          s.rule_embeddings
      then (
        ok (
            was_there (
              first (
                keep
                  (is_target_embedding row.tenant_id row.alert_rule_id row.alert_rule_revision_id
                    row.space)
                  s.rule_embeddings))),
        s,
      )
      else if admits_rule_embedding s row
      then (ok (some (row, true)), record s { rule_embeddings = s.rule_embeddings ++ (row ∷ []) })
      else (err HttpError.internal, s)

  abbrev upsert_for :
      Option (AlertRuleRow × RuleRevisionRow Single)
      → RuleEmbeddingRow
      → Action (Store Single Double) (Option (RuleEmbeddingRow × Bool))
  upsert_for none row = pure none
  upsert_for (some _) row = upsert_rule_embedding row

module _ (floats : Floats) (numbers : Numbers floats)
    (contracts : Contracts (Floats.Single floats) (Floats.Double floats))
    (constraints : Constraints (Floats.Single floats) (Floats.Double floats)) (digests : Digests)
    (encoders : Encoders) where
  open constraints use {gen_random_uuid}

  abbrev receipt_of : RuleEmbeddingRow × Bool → AlertRuleEmbeddingReceipt
  receipt_of (row, created) = record {
    id = row.id;
    alert_rule_id = row.alert_rule_id;
    alert_rule_revision_id = row.alert_rule_revision_id;
    embedding_sha256 = row.embedding_sha256;
    created = created;
  }

  abbrev vector_digest : AlertRuleEmbeddingUpsertRequest (Floats.Single floats) → Text
  vector_digest request = embedding_sha256 floats numbers digests encoders request.embedding.values

  abbrev rule_embedding_row :
      Time
      → Uuid
      → Uuid
      → Uuid
      → AlertRuleEmbeddingUpsertRequest (Floats.Single floats)
      → RuleEmbeddingRow
  rule_embedding_row now id tenant_id alert_rule_id request = record {
    id = id;
    tenant_id = tenant_id;
    alert_rule_id = alert_rule_id;
    alert_rule_revision_id = request.alert_rule_revision_id;
    space = space_of request.embedding;
    embedding = vector_literal floats numbers request.embedding.values;
    embedding_sha256 = vector_digest request;
    generated_at = now;
  }

  abbrev target_of :
      Uuid
      → Uuid
      → AlertRuleEmbeddingUpsertRequest (Floats.Single floats)
      → Store (Floats.Single floats) (Floats.Double floats)
      → Option (AlertRuleRow × RuleRevisionRow (Floats.Single floats))
  target_of tenant_id alert_rule_id request s = first (
      keep
        (is_target tenant_id alert_rule_id request.alert_rule_revision_id request.embedding.model)
        (join_on is_active_revision s.rules s.rule_revisions))

  -- `now` is `Utc::now()`.
  unfoldable pub upsert_alert_rule_embedding :
      Time
      → Uuid
      → Uuid
      → AlertRuleEmbeddingUpsertRequest (Floats.Single floats)
      → Action (Store (Floats.Single floats) (Floats.Double floats)) AlertRuleEmbeddingReceipt
  upsert_alert_rule_embedding now tenant_id alert_rule_id request s =
      (do
        lift (map_err HttpError.validation (validate_upsert contracts request))
        row ←
            upsert_for constraints (target_of tenant_id alert_rule_id request s)
              (rule_embedding_row now (gen_random_uuid s) tenant_id alert_rule_id request)
        wire ← or_raise row (
            HttpError.validation (
              text
                "alert embedding must target the enabled active rule revision and its configured model"))
        require (eqb wire.0.embedding_sha256 (vector_digest request)) (
            HttpError.conflict (
              text "an immutable embedding already exists for this alert revision and model space"))
        pure (receipt_of wire))
        s
