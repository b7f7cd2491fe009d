-- ===== src/Tests/Stores.antt =====
-- The tables after some calls, and what the reads then answer.
use eal_api.Prelude.{ℕ, ◌≡◌, refl, true, false, List, [], ◌∷◌, Result, ok, err, arith}
use eal_api.Prelude.Ordered.{nat_ord, text_ord}
use eal_api.Text.{Text, text}
use eal_api.HttpError
use eal_api.HttpError.{HttpError}
use eal_api.Store.Rows.{Store}
use eal_api.Store.Order.{join_on, pairs_with}
use eal_api.Store.Rules.{
  AlertRule, list_alert_rules, create_alert_rule, insert_rule, insert_rule_revision, activate_rule,
  read_back,
}
use eal_api.Store.Rules.Reads.{IsListing, list_alert_rules-IsListing}
use eal_api.Store.Rules.RoundTrip.{IsReadAgain, create_alert_rule-get_alert_rule}
use eal_api.Store.Rules.Invariant.{
  IsKept, no_more, one_more, Creations-IsKept, create_alert_rule-eq-err,
  create_alert_rule-list_alert_rules,
}
use eal_api.Tests.Tables.{constraints, no_rows}
use eal_api.Tests.Rules.{normal}

abbrev owner : Text
owner = b'u' ∷ []

-- Tenant 7 has one rule.
abbrev created : Result HttpError (AlertRule ℕ) × Store ℕ ℕ
created = create_alert_rule constraints 5 1 2 7 owner normal no_rows

abbrev pub one_rule : Store ℕ ℕ
one_rule = created.1

abbrev stored_rule : AlertRule ℕ
stored_rule = record {
  id = 1;
  tenant_id = 7;
  owner_subject = owner;
  revision_id = 2;
  revision_number = 1;
  created_at = 5;
  updated_at = 5;
  revision_created_at = 5;
  name = normal.name;
  query_text = normal.query_text;
  embedding_model = normal.embedding_model;
  similarity_threshold = normal.similarity_threshold;
  source_filters = normal.source_filters;
  delivery_channels = normal.delivery_channels;
  enabled = normal.enabled;
}

created_run :
    create_alert_rule constraints 5 1 2 7 owner normal no_rows ≡ (ok stored_rule, one_rule)
unfolding create_alert_rule insert_rule insert_rule_revision activate_rule read_back constraints
    no_rows join_on pairs_with normal text
created_run = refl

create_alert_rule-get_alert_rule_example :
    IsReadAgain constraints 5 1 2 7 owner normal (b'v' ∷ []) false stored_rule one_rule
create_alert_rule-get_alert_rule_example =
    create_alert_rule-get_alert_rule constraints 5 1 2 7 owner normal (b'v' ∷ []) false no_rows
      one_rule stored_rule created_run

list_alert_rules-IsListing_example :
    (rules : List (AlertRule ℕ)) × IsListing 7 owner false one_rule rules
list_alert_rules-IsListing_example = list_alert_rules-IsListing 7 owner false one_rule

-- The identifier of the rule is taken.
refused_run :
    create_alert_rule constraints 6 1 3 8 owner normal one_rule ≡ (err HttpError.internal, one_rule)
unfolding create_alert_rule insert_rule insert_rule_revision activate_rule read_back constraints
    no_rows join_on pairs_with normal text
refused_run = refl

create_alert_rule-eq-err_example : (HttpError.internal ≡ HttpError.internal) × (one_rule ≡ one_rule)
create_alert_rule-eq-err_example =
    create_alert_rule-eq-err constraints 6 1 3 8 owner normal one_rule one_rule HttpError.internal
      refused_run

Creations-IsKept_example : IsKept no_rows one_rule
Creations-IsKept_example = Creations-IsKept constraints no_rows one_rule (
    one_more 5 1 2 7 owner normal no_rows one_rule one_rule (ok stored_rule) created_run (
      one_more 6 1 3 8 owner normal one_rule one_rule one_rule (err HttpError.internal) refused_run
        (no_more one_rule)))

create_alert_rule-list_alert_rules_example :
    (list_alert_rules 8 owner true one_rule).0 ≡ (list_alert_rules 8 owner true no_rows).0
create_alert_rule-list_alert_rules_example =
    create_alert_rule-list_alert_rules constraints 5 1 2 7 owner normal 8 owner true no_rows
      one_rule (ok stored_rule) (ground arith) created_run
