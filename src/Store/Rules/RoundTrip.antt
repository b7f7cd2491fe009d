-- ===== src/Store/Rules/RoundTrip.antt =====
-- A created alert rule is read again, by those who may, and by others it is not.
use eal_api.Prelude.{
  ◌≡◌, refl, ap, subst, ◌∙◌, Bool, true, false, not, ◌&&◌, ◌||◌, none, some, List, [], ◌∷◌, ◌++◌,
  map, keep, all, inl, inr, ◌==◌, ok, arith, if◌then◌else◌,
}
use eal_api.Prelude.Ordered.{text_ord}
use eal_api.Prelude.TreeSet.{eqb}
use eal_api.Text.{Text}
use eal_api.Uuids.{Uuid}
use eal_api.Headers.{first}
use eal_api.Alerts.{CreateAlertRule}
use eal_api.Store.Rows.{Time, AlertRuleRow, Store}
use eal_api.Store.Order.{join_on}
use eal_api.Store.Order.Joins.{keep-append, keep-none, keep-join_on, join_on-one}
use eal_api.Store.Engine.{Constraints}
use eal_api.Store.Rules.{AlertRule, alert_rule_json, is_active, get_alert_rule, create_alert_rule}
use eal_api.Store.Rules.Creation.{
  IsNewRule, IsNewRevision, create_alert_rule-cases, new_rule, new_revision, after_creation,
  none_active,
}
use eal_api.Store.Rules.Reads.{input_of}

module _ {Single Double : Type 0} (constraints : Constraints Single Double) (now : Time)
    (rule_id revision_id tenant_id : Uuid) (subject : Text) (input : CreateAlertRule Single) where
  abbrev rule : AlertRuleRow
  rule = new_rule constraints now rule_id revision_id tenant_id subject input

  abbrev created_rule : AlertRule Single
  created_rule =
      alert_rule_json
        (rule, new_revision constraints now rule_id revision_id tenant_id subject input)

  abbrev after : Store Single Double → Store Single Double
  after = after_creation constraints now rule_id revision_id tenant_id subject input

  abbrev asks : Text → Bool → AlertRuleRow → Bool
  asks reader tenant_admin row =
      row.id == rule_id
      && (row.tenant_id == tenant_id && (tenant_admin || eqb row.owner_subject reader))

  nobody_asks :
      (reader : Text) (tenant_admin : Bool) (rows : List AlertRuleRow)
      → IsNewRule rule_id rows
      → all (λ row. not (asks reader tenant_admin row)) rows ≡ true
  nobody_asks reader tenant_admin [] h = refl
  nobody_asks reader tenant_admin (row ∷ rows) h =
      ground (arith, nobody_asks reader tenant_admin rows)

  asked :
      (reader : Text) (tenant_admin : Bool) (s : Store Single Double)
      → IsNewRule rule_id s.rules
      → keep (asks reader tenant_admin) (s.rules ++ (rule ∷ []))
        ≡ (if tenant_admin || eqb subject reader then rule ∷ [] else [])
  asked reader tenant_admin s fresh = ground (
    arith,
    keep-append (asks reader tenant_admin) s.rules (rule ∷ []),
    keep-none (asks reader tenant_admin) s.rules (nobody_asks reader tenant_admin s.rules fresh),
  )

  joined :
      (b : Bool) (s : Store Single Double)
      → IsNewRevision revision_id s.rule_revisions
      → first (
          map alert_rule_json
            (join_on is_active (if b then rule ∷ [] else []) (after s).rule_revisions))
        ≡ (if b then some created_rule else none)
  unfolding join_on
  joined false s fresh' = refl
  joined true s fresh' =
      ap (λ rows. first (map alert_rule_json rows))
        (join_on-one is_active rule s.rule_revisions
          (new_revision constraints now rule_id revision_id tenant_id subject input)
          (none_active constraints now rule_id revision_id tenant_id subject input s.rule_revisions
            fresh')
          (ground arith))

  reading :
      (reader : Text) (tenant_admin : Bool) (s : Store Single Double)
      → IsNewRule rule_id s.rules
      → IsNewRevision revision_id s.rule_revisions
      → get_alert_rule tenant_id rule_id reader tenant_admin (after s)
        ≡ (ok (if tenant_admin || eqb subject reader then some created_rule else none), after s)
  unfolding get_alert_rule
  reading reader tenant_admin s fresh fresh' =
      ap (λ found. (ok found, after s))
        (ap (λ rows. first (map alert_rule_json rows))
            (keep-join_on (asks reader tenant_admin) is_active (after s).rules
              (after s).rule_revisions)
          ∙ ap
              (λ rows.
                first (map alert_rule_json (join_on is_active rows (after s).rule_revisions)))
              (asked reader tenant_admin s fresh)
          ∙ joined (tenant_admin || eqb subject reader) s fresh')

  abbrev pub IsReadAgain : Text → Bool → AlertRule Single → Store Single Double → Type 0
  IsReadAgain reader tenant_admin answer t =
      (input_of answer ≡ input)
      × (answer.id ≡ rule_id)
      × (answer.tenant_id ≡ tenant_id)
      × (answer.owner_subject ≡ subject)
      × (answer.revision_number ≡ 1)
      × (get_alert_rule tenant_id rule_id reader tenant_admin t
          ≡ (ok (if tenant_admin || eqb subject reader then some answer else none), t))

  -- A creation that succeeds answers with the caller's input as revision 1 of a rule of the
  -- caller's, and leaves tables in which a read of this rule in its tenant finds it where the
  -- reader is its owner or an administrator, and for everyone else finds nothing.
  pub create_alert_rule-get_alert_rule :
      (reader : Text) (tenant_admin : Bool) (s t : Store Single Double) (answer : AlertRule Single)
      → create_alert_rule constraints now rule_id revision_id tenant_id subject input s
        ≡ (ok answer, t)
      → IsReadAgain reader tenant_admin answer t
  create_alert_rule-get_alert_rule reader tenant_admin s t answer h =
      elim (create_alert_rule-cases constraints now rule_id revision_id tenant_id subject input s) [
        | inl refused ↦ absurd (cc (h, refused))
        | inr (fresh, fresh', run) ↦
            let e : created_rule ≡ answer = cc (h, run) in
            let f : after s ≡ t = cc (h, run) in
            subst (λ a. IsReadAgain reader tenant_admin a t) e
              (subst (λ u. IsReadAgain reader tenant_admin created_rule u) f
                (refl, refl, refl, refl, refl, reading reader tenant_admin s fresh fresh'))
      ]
