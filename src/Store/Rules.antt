-- ===== src/Store/Rules.antt =====
-- src/alert_store.rs: the alert rules, each with its immutable revisions, of which one is active.
pub mod Creation
pub mod Reads
pub mod RoundTrip
pub mod Invariant
use eal_api.Prelude.{
  ℕ, suc, Bool, true, false, ◌&&◌, ◌||◌, Option, none, some, List, [], ◌∷◌, ◌++◌, map, take, keep,
  all, length, ltb, leb, ◌==◌, if◌then◌else◌, Result, ok, err,
}
use eal_api.Prelude.Ordered.{text_ord}
use eal_api.Prelude.TreeSet.{eqb}
use eal_api.Text.{Text, text}
use eal_api.Uuids.{Uuid}
use eal_api.HttpError
use eal_api.Floats.{Floats}
use eal_api.Alerts.{CreateAlertRule}
use eal_api.Headers.{first}
use eal_api.Store.Rows.{Time, AlertRuleRow, RuleRevisionRow, Store}
use eal_api.Store.Action.{Action, pure, raise, gets, or_raise, require, transaction, ◌>>=◌, ◌>>◌}
use eal_api.Store.Order.{order_by, join_on}
use eal_api.Store.Engine.{Constraints}

pub record AlertRule (Single : Type 0) : Type 0 where
  pub id : Uuid
  pub tenant_id : Uuid
  pub owner_subject : Text
  pub revision_id : Uuid
  pub revision_number : ℕ
  pub created_at : Time
  pub updated_at : Time
  pub revision_created_at : Time
  pub name : Text
  pub query_text : Text
  pub embedding_model : Text
  pub similarity_threshold : Single
  pub source_filters : List Text
  pub delivery_channels : List Text
  pub enabled : Bool

-- `x = y` where y may be NULL
abbrev is_id : Uuid → Option Uuid → Bool
is_id id none = false
is_id id (some other) = id == other

abbrev pub activated : Time → Uuid → AlertRuleRow → AlertRuleRow
activated now revision_id row = record row {
  active_revision_id = some revision_id;
  updated_at = now;
}

abbrev pub is_rule : Uuid → Uuid → AlertRuleRow → Bool
is_rule rule_id tenant_id row = row.id == rule_id && row.tenant_id == tenant_id

abbrev pub rule_row : Time → Uuid → Uuid → Text → AlertRuleRow
rule_row now rule_id tenant_id subject = record {
  id = rule_id;
  tenant_id = tenant_id;
  owner_subject = subject;
  active_revision_id = none;
  created_at = now;
  updated_at = now;
}

module _ {Single : Type 0} where
  -- `alert_rule_json`, decoded again by `decode_json_row`.
  abbrev pub alert_rule_json : AlertRuleRow × RuleRevisionRow Single → AlertRule Single
  alert_rule_json (rule, revision) = record {
    id = rule.id;
    tenant_id = rule.tenant_id;
    owner_subject = rule.owner_subject;
    revision_id = revision.id;
    revision_number = revision.revision_number;
    created_at = rule.created_at;
    updated_at = rule.updated_at;
    revision_created_at = revision.created_at;
    name = revision.name;
    query_text = revision.query_text;
    embedding_model = revision.embedding_model;
    similarity_threshold = revision.similarity_threshold;
    source_filters = revision.source_filters;
    delivery_channels = revision.delivery_channels;
    enabled = revision.enabled;
  }

  -- The JOIN of the rules with their active revisions.
  abbrev pub is_active : AlertRuleRow → RuleRevisionRow Single → Bool
  is_active rule revision =
      is_id revision.id rule.active_revision_id && revision.tenant_id == rule.tenant_id

  -- `rule.tenant_id = $1 AND ($2 OR rule.owner_subject = $3)`
  abbrev pub is_readable : Uuid → Text → Bool → AlertRuleRow × RuleRevisionRow Single → Bool
  is_readable tenant_id subject tenant_admin (rule, revision) =
      rule.tenant_id == tenant_id && (tenant_admin || eqb rule.owner_subject subject)

  -- `ORDER BY rule.updated_at DESC, rule.id ASC`
  abbrev pub newest_first :
      AlertRuleRow × RuleRevisionRow Single → AlertRuleRow × RuleRevisionRow Single → Bool
  newest_first (a, _) (b, _) =
      ltb b.updated_at a.updated_at || (a.updated_at == b.updated_at && leb a.id b.id)

  abbrev pub revision_row :
      Time → Uuid → Uuid → Uuid → Text → CreateAlertRule Single → RuleRevisionRow Single
  revision_row now revision_id tenant_id rule_id subject input = record {
    id = revision_id;
    tenant_id = tenant_id;
    alert_rule_id = rule_id;
    revision_number = 1;
    created_by_subject = subject;
    name = input.name;
    query_text = input.query_text;
    embedding_model = input.embedding_model;
    similarity_threshold = input.similarity_threshold;
    source_filters = input.source_filters;
    delivery_channels = input.delivery_channels;
    enabled = input.enabled;
    created_at = now;
  }

abbrev pub max_rows : ℕ
max_rows = 500

module _ {Single Double : Type 0} where
  abbrev pub active_rules : Store Single Double → List (AlertRuleRow × RuleRevisionRow Single)
  active_rules s = join_on is_active s.rules s.rule_revisions

  unfoldable pub list_alert_rules :
      Uuid → Text → Bool → Action (Store Single Double) (List (AlertRule Single))
  list_alert_rules tenant_id subject tenant_admin = transaction (
      gets λ s. map alert_rule_json (
        take max_rows (
          order_by newest_first
            (keep (is_readable tenant_id subject tenant_admin) (active_rules s)))))

  unfoldable pub get_alert_rule :
      Uuid → Uuid → Text → Bool → Action (Store Single Double) (Option (AlertRule Single))
  get_alert_rule tenant_id rule_id subject tenant_admin = transaction (
      gets λ s. first (
        map alert_rule_json (
          keep (λ row. row.0.id == rule_id && is_readable tenant_id subject tenant_admin row)
            (active_rules s))))

  unfoldable pub require_alert_rule :
      Uuid → Uuid → Text → Bool → Action (Store Single Double) (AlertRule Single)
  require_alert_rule tenant_id rule_id subject tenant_admin =
      get_alert_rule tenant_id rule_id subject tenant_admin >>= λ found.
      or_raise found (HttpError.not_found (text "alert rule was not found"))

  -- The row as it stands in the transaction, whoever owns it.
  unfoldable pub read_back : Uuid → Uuid → Store Single Double → Option (AlertRule Single)
  read_back rule_id tenant_id s =
      first (map alert_rule_json (keep (λ row. is_rule rule_id tenant_id row.0) (active_rules s)))

  module _ (constraints : Constraints Single Double) where
    open constraints use {admits_rule, admits_rule_revision, admits_activation}

    -- The statements answer with the number of rows that they affected.
    unfoldable pub insert_rule : AlertRuleRow → Action (Store Single Double) ℕ
    insert_rule row s =
        if admits_rule s row
        then (ok 1, record s { rules = s.rules ++ (row ∷ []) })
        else (err HttpError.internal, s)

    unfoldable pub insert_rule_revision : RuleRevisionRow Single → Action (Store Single Double) ℕ
    insert_rule_revision row s =
        if admits_rule_revision s row
        then (ok 1, record s { rule_revisions = s.rule_revisions ++ (row ∷ []) })
        else (err HttpError.internal, s)

    unfoldable pub activate_rule : Time → Uuid → Uuid → Uuid → Action (Store Single Double) ℕ
    activate_rule now rule_id tenant_id revision_id s =
        let hit = keep (is_rule rule_id tenant_id) s.rules in
        let set =
          map (λ row. if is_rule rule_id tenant_id row then activated now revision_id row else row)
            s.rules in
        if all (λ row. admits_activation s (activated now revision_id row)) hit
        then (ok (length hit), record s { rules = set })
        else (err HttpError.internal, s)

    -- `if affected.rows_affected() != 1 { return Err(..) }`
    abbrev pub one_row : Action (Store Single Double) ℕ → Action (Store Single Double) (Unit {0})
    one_row statement = statement >>= λ affected. require (affected == 1) HttpError.internal

    -- `rule_id` and `revision_id` are the two `Uuid::new_v4()`, `now` the transaction's time. The
    -- transaction is committed before the missing row, if it is missing, is an error.
    unfoldable pub create_alert_rule :
        Time
        → Uuid
        → Uuid
        → Uuid
        → Text
        → CreateAlertRule Single
        → Action (Store Single Double) (AlertRule Single)
    create_alert_rule now rule_id revision_id tenant_id subject input =
        transaction (do
          one_row (insert_rule (rule_row now rule_id tenant_id subject))
          one_row
              (insert_rule_revision (revision_row now revision_id tenant_id rule_id subject input))
          one_row (activate_rule now rule_id tenant_id revision_id)
          gets (read_back rule_id tenant_id))
        >>= λ row. or_raise row HttpError.internal
