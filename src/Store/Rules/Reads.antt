-- ===== src/Store/Rules/Reads.antt =====
-- What the reads of the alert rules show, and to whom.
use eal_api.Prelude.{
  suc, ◌≤◌, ◌≡◌, refl, ap, Bool, true, false, ◌&&◌, ◌||◌, some, List, [], ◌∷◌, map, keep, take,
  length, All, All-map, All-keep, ◌==◌, ok, arith, ltb, leb,
}
use eal_api.Prelude.Ordered.{text_ord}
use eal_api.Prelude.TreeSet.{eqb}
use eal_api.Text.{Text}
use eal_api.Uuids.{Uuid}
use eal_api.Alerts.{CreateAlertRule}
use eal_api.Store.Rows.{AlertRuleRow, RuleRevisionRow, Store}
use eal_api.Store.Order.{
  IsOrdered, order_by, order_by-All, order_by-IsOrdered, take-All, take-IsOrdered, length-take-le,
}
use eal_api.Store.Action.{first-All}
use eal_api.Store.Rules.{
  AlertRule, alert_rule_json, is_readable, newest_first, max_rows, active_rules, list_alert_rules,
  get_alert_rule,
}

module _ {Single : Type 0} where
  -- A rule of the tenant that the caller may see: every one as its administrator, else their own.
  abbrev pub IsVisible : Uuid → Text → Bool → AlertRule Single → Type 0
  IsVisible tenant_id subject tenant_admin rule =
      (rule.tenant_id ≡ tenant_id) × ((tenant_admin || eqb rule.owner_subject subject) ≡ true)

  abbrev rule_before : AlertRule Single → AlertRule Single → Bool
  rule_before a b = ltb b.updated_at a.updated_at || (a.updated_at == b.updated_at && leb a.id b.id)

  abbrev pub input_of : AlertRule Single → CreateAlertRule Single
  input_of rule = record {
    name = rule.name;
    query_text = rule.query_text;
    embedding_model = rule.embedding_model;
    similarity_threshold = rule.similarity_threshold;
    source_filters = rule.source_filters;
    delivery_channels = rule.delivery_channels;
    enabled = rule.enabled;
  }

  readable→IsVisible :
      (tenant_id : Uuid) (subject : Text) (tenant_admin : Bool)
      (row : AlertRuleRow × RuleRevisionRow Single)
      → is_readable tenant_id subject tenant_admin row ≡ true
      → IsVisible tenant_id subject tenant_admin (alert_rule_json row)
  readable→IsVisible tenant_id subject tenant_admin row h = (ground arith, ground arith)

  newest_first-IsTotal :
      (a b : AlertRuleRow × RuleRevisionRow Single)
      → newest_first a b ≡ false
      → newest_first b a ≡ true
  newest_first-IsTotal a b h = ground arith

  newest_first-IsTransitive :
      (a b c : AlertRuleRow × RuleRevisionRow Single)
      → newest_first a b ≡ true
      → newest_first b c ≡ true
      → newest_first a c ≡ true
  newest_first-IsTransitive a b c h k = ground arith

  map-All :
      (P : AlertRule Single → Type 0) (rows : List (AlertRuleRow × RuleRevisionRow Single))
      → All (λ row. P (alert_rule_json row)) rows
      → All P (map alert_rule_json rows)
  map-All P [] h = tt
  map-All P (row ∷ rows) h = (h.0, map-All P rows h.1)

  map-IsOrdered :
      (rows : List (AlertRuleRow × RuleRevisionRow Single))
      → IsOrdered newest_first rows
      → IsOrdered rule_before (map alert_rule_json rows)
  map-IsOrdered [] h = tt
  map-IsOrdered (row ∷ rows) h =
      (map-All (λ b. rule_before (alert_rule_json row) b ≡ true) rows h.0, map-IsOrdered rows h.1)

  length-map :
      (rows : List (AlertRuleRow × RuleRevisionRow Single))
      → length (map alert_rule_json rows) ≡ length rows
  length-map [] = refl
  length-map (row ∷ rows) = ap suc (length-map rows)

module _ {Single Double : Type 0} (tenant_id : Uuid) (subject : Text) (tenant_admin : Bool) where
  abbrev pub IsListing : Store Single Double → List (AlertRule Single) → Type 0
  IsListing s rules =
      (list_alert_rules tenant_id subject tenant_admin s ≡ (ok rules, s))
      × (length rules ≤ 500)
      × IsOrdered rule_before rules
      × All (IsVisible tenant_id subject tenant_admin) rules

  -- A listing always answers, changes nothing, and shows at most 500 rules, the last updated
  -- first and those of one time by their identifiers, all of them of the caller's tenant and,
  -- unless the caller is its administrator, owned by the caller.
  pub list_alert_rules-IsListing :
      (s : Store Single Double) → (rules : List (AlertRule Single)) × IsListing s rules
  unfolding list_alert_rules
  list_alert_rules-IsListing s =
      let readable = keep (is_readable tenant_id subject tenant_admin) (active_rules s) in
      let sorted = order_by newest_first readable in
      let shown = take max_rows sorted in
      let seen =
        order_by-All newest_first
          (λ row. IsVisible tenant_id subject tenant_admin (alert_rule_json row)) readable
          (All-map (readable→IsVisible tenant_id subject tenant_admin) readable
            (All-keep (is_readable tenant_id subject tenant_admin) (active_rules s))) in
      (
        map alert_rule_json shown,
        (
          refl,
          rw (length-map shown) (length-take-le max_rows sorted),
          map-IsOrdered shown (
              take-IsOrdered newest_first max_rows sorted (
                order_by-IsOrdered newest_first newest_first-IsTotal newest_first-IsTransitive
                  readable)),
          map-All (IsVisible tenant_id subject tenant_admin) shown
              (take-All _ max_rows sorted seen),
        ),
      )

  -- A rule that is found is the one asked for, of the caller's tenant, and the caller's own unless
  -- the caller is its administrator.
  pub get_alert_rule-IsVisible :
      (rule_id : Uuid) (s t : Store Single Double) (rule : AlertRule Single)
      → get_alert_rule tenant_id rule_id subject tenant_admin s ≡ (ok (some rule), t)
      → (rule.id ≡ rule_id) × IsVisible tenant_id subject tenant_admin rule × (t ≡ s)
  unfolding get_alert_rule
  get_alert_rule-IsVisible rule_id s t rule h =
      let asked : AlertRuleRow × RuleRevisionRow Single → Bool =
        λ row. row.0.id == rule_id && is_readable tenant_id subject tenant_admin row in
      let found =
        first-All alert_rule_json
          (λ rule. (rule.id ≡ rule_id) × IsVisible tenant_id subject tenant_admin rule)
          (keep asked (active_rules s))
          (All-map (λ row e. (ground arith, (ground arith, ground arith)))
            (keep asked (active_rules s)) (All-keep asked (active_rules s)))
          h in
      (found.0.0, found.0.1, found.1)
