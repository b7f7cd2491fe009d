-- ===== src/Store/Rules/Creation.antt =====
-- What a creation of an alert rule leaves, whether or not it succeeds.
use eal_api.Prelude.{
  ◌≡◌, refl, ap, ◌∙◌, true, not, Option, some, List, [], ◌∷◌, ◌++◌, map, keep, all, ◌⊎◌, inl, inr,
  Bool-cases, ◌==◌, ok, err, arith, if◌then◌else◌,
}
use eal_api.Text.{Text}
use eal_api.Uuids.{Uuid}
use eal_api.HttpError
use eal_api.HttpError.{HttpError}
use eal_api.Headers.{first}
use eal_api.Alerts.{CreateAlertRule}
use eal_api.Store.Rows.{Time, AlertRuleRow, RuleRevisionRow, Store}
use eal_api.Store.Action.{
  Action, gets, or_raise, ◌>>=◌, ◌>>◌, transaction, bind-ok, bind-err, transaction-ok,
  transaction-err,
}
use eal_api.Store.Engine.{Constraints}
use eal_api.Store.Rules.{
  AlertRule, alert_rule_json, is_active, is_rule, activated, rule_row, revision_row, insert_rule,
  insert_rule_revision, activate_rule, one_row, create_alert_rule, active_rules, read_back,
}
use eal_api.Store.Order.{join_on}
use eal_api.Store.Order.Joins.{keep-last, keep-join_on, join_on-one}

-- The identifier of a new row is none of the old ones.
abbrev pub IsNewRule : Uuid → List AlertRuleRow → Type 0
IsNewRule id rows = all (λ old. not (old.id == id)) rows ≡ true

abbrev pub IsNewRevision : {Single : Type 0} → Uuid → List (RuleRevisionRow Single) → Type 0
IsNewRevision id rows = all (λ old. not (old.id == id)) rows ≡ true

no_rule :
    (rule_id tenant_id : Uuid) (rows : List AlertRuleRow)
    → IsNewRule rule_id rows
    → all (λ old. not (is_rule rule_id tenant_id old)) rows ≡ true
no_rule rule_id tenant_id [] h = refl
no_rule rule_id tenant_id (row ∷ rows) h = ground (arith, no_rule rule_id tenant_id rows)

set_last :
    (rule_id tenant_id : Uuid) (f : AlertRuleRow → AlertRuleRow) (rows : List AlertRuleRow)
    (row : AlertRuleRow)
    → IsNewRule rule_id rows
    → is_rule rule_id tenant_id row ≡ true
    → map (λ r. if is_rule rule_id tenant_id r then f r else r) (rows ++ (row ∷ []))
      ≡ rows ++ (f row ∷ [])
set_last rule_id tenant_id f [] row h k = rw k refl
set_last rule_id tenant_id f (old ∷ rows) row h k =
    ground (arith, set_last rule_id tenant_id f rows row)

-- Three statements and a read in a transaction, whose missing row is an error after the commit.
module _ {S A : Type 0} (one two three : Action S (Unit {0})) (read : S → Option A)
    (error : HttpError) where
  abbrev in_transaction : Action S A
  in_transaction = transaction (one >> (two >> (three >> gets read))) >>= λ row. or_raise row error

  all_three :
      {s t u v : S} {a : A}
      → one s ≡ (ok tt, t)
      → two t ≡ (ok tt, u)
      → three u ≡ (ok tt, v)
      → read v ≡ some a
      → in_transaction s ≡ (ok a, v)
  all_three {s} {t} {u} {v} h k l r =
      let body =
        bind-ok one (λ _. two >> (three >> gets read)) h
        ∙ (bind-ok two (λ _. three >> gets read) k ∙ bind-ok three (λ _. gets read) l) in
      bind-ok (transaction (one >> (two >> (three >> gets read)))) (λ row. or_raise row error)
        (transaction-ok (one >> (two >> (three >> gets read))) body)
      ∙ rw r refl

  fails :
      {s t : S} {e : HttpError}
      → (one >> (two >> (three >> gets read))) s ≡ (err e, t)
      → in_transaction s ≡ (err e, s)
  fails h =
      bind-err (transaction (one >> (two >> (three >> gets read)))) (λ row. or_raise row error)
        (transaction-err (one >> (two >> (three >> gets read))) h)

  first_fails : {s t : S} {e : HttpError} → one s ≡ (err e, t) → in_transaction s ≡ (err e, s)
  first_fails h = fails (bind-err one (λ _. two >> (three >> gets read)) h)

  second_fails :
      {s t u : S} {e : HttpError}
      → one s ≡ (ok tt, t)
      → two t ≡ (err e, u)
      → in_transaction s ≡ (err e, s)
  second_fails h k =
      fails (
        bind-ok one (λ _. two >> (three >> gets read)) h ∙ bind-err two (λ _. three >> gets read) k)

  third_fails :
      {s t u v : S} {e : HttpError}
      → one s ≡ (ok tt, t)
      → two t ≡ (ok tt, u)
      → three u ≡ (err e, v)
      → in_transaction s ≡ (err e, s)
  third_fails h k l = fails (
      bind-ok one (λ _. two >> (three >> gets read)) h
      ∙ (bind-ok two (λ _. three >> gets read) k ∙ bind-err three (λ _. gets read) l))

module _ {Single Double : Type 0} (constraints : Constraints Single Double) (now : Time)
    (rule_id revision_id tenant_id : Uuid) (subject : Text) (input : CreateAlertRule Single) where
  open constraints use {
    admits_rule, admits_rule_revision, admits_activation, admits_rule-fresh,
    admits_rule_revision-fresh,
  }

  abbrev pub new_rule : AlertRuleRow
  new_rule = activated now revision_id (rule_row now rule_id tenant_id subject)

  abbrev pub new_revision : RuleRevisionRow Single
  new_revision = revision_row now revision_id tenant_id rule_id subject input

  abbrev pub after_creation : Store Single Double → Store Single Double
  after_creation s = record s {
    rules = s.rules ++ (new_rule ∷ []);
    rule_revisions = s.rule_revisions ++ (new_revision ∷ []);
  }

  abbrev Created : Store Single Double → Type 0
  Created s =
      IsNewRule rule_id s.rules
      × IsNewRevision revision_id s.rule_revisions
      × (create_alert_rule constraints now rule_id revision_id tenant_id subject input s
          ≡ (ok (alert_rule_json (new_rule, new_revision)), after_creation s))

  pub none_active :
      (revisions : List (RuleRevisionRow Single))
      → IsNewRevision revision_id revisions
      → all (λ old. not (is_active new_rule old)) revisions ≡ true
  none_active [] h = refl
  none_active (old ∷ revisions) h = ground (arith, none_active revisions)

  new_row-passes : is_rule rule_id tenant_id new_rule ≡ true
  new_row-passes = ground arith

  -- Of the rules with this identifier the join has the new one with its revision.
  new_rule-active :
      (s : Store Single Double)
      → IsNewRule rule_id s.rules
      → IsNewRevision revision_id s.rule_revisions
      → keep (λ row. is_rule rule_id tenant_id row.0) (active_rules (after_creation s))
        ≡ (new_rule, new_revision) ∷ []
  new_rule-active s fresh fresh' =
      keep-join_on (is_rule rule_id tenant_id) is_active (after_creation s).rules
        (after_creation s).rule_revisions
      ∙ ap (λ rows. join_on is_active rows (after_creation s).rule_revisions)
          (keep-last (is_rule rule_id tenant_id) s.rules new_rule
            (no_rule rule_id tenant_id s.rules fresh) new_row-passes)
      ∙ join_on-one is_active new_rule s.rule_revisions new_revision
          (none_active s.rule_revisions fresh') (ground arith)

  read_back-new :
      (s : Store Single Double)
      → IsNewRule rule_id s.rules
      → IsNewRevision revision_id s.rule_revisions
      → read_back rule_id tenant_id (after_creation s)
        ≡ some (alert_rule_json (new_rule, new_revision))
  unfolding read_back
  read_back-new s fresh fresh' =
      ap (λ rows. first (map alert_rule_json rows)) (new_rule-active s fresh fresh')

  abbrev before_activation : Store Single Double → Store Single Double
  before_activation s = record s {
    rules = s.rules ++ (rule_row now rule_id tenant_id subject ∷ []);
    rule_revisions = s.rule_revisions ++ (new_revision ∷ []);
  }

  activate_rule-new :
      (s : Store Single Double)
      → IsNewRule rule_id s.rules
      → activate_rule constraints now rule_id tenant_id revision_id (before_activation s) ≡ (
          if admits_activation (before_activation s) new_rule
          then (ok 1, after_creation s)
          else (err HttpError.internal, before_activation s))
  unfolding activate_rule
  activate_rule-new s fresh =
      let row = rule_row now rule_id tenant_id subject in
      let hit =
        keep-last (is_rule rule_id tenant_id) s.rules row (no_rule rule_id tenant_id s.rules fresh)
          (ground arith) in
      let set =
        set_last rule_id tenant_id (activated now revision_id) s.rules row fresh (ground arith) in
      rw (hit, set)
        (elim (Bool-cases (admits_activation (before_activation s) new_rule)) [
          | inl g ↦ rw g refl
          | inr g ↦ rw g refl
        ])

  abbrev after_rule : Store Single Double → Store Single Double
  after_rule s = record s { rules = s.rules ++ (rule_row now rule_id tenant_id subject ∷ []) }

  abbrev inserting_rule : Action (Store Single Double) (Unit {0})
  inserting_rule =
      one_row constraints (insert_rule constraints (rule_row now rule_id tenant_id subject))

  abbrev inserting_revision : Action (Store Single Double) (Unit {0})
  inserting_revision = one_row constraints (insert_rule_revision constraints new_revision)

  abbrev activating : Action (Store Single Double) (Unit {0})
  activating = one_row constraints (activate_rule constraints now rule_id tenant_id revision_id)

  inserting_rule-eq :
      (s : Store Single Double)
      → inserting_rule s ≡ (
          if admits_rule s (rule_row now rule_id tenant_id subject)
          then (ok tt, after_rule s)
          else (err HttpError.internal, s))
  unfolding insert_rule
  inserting_rule-eq s = ground arith

  inserting_revision-eq :
      (s : Store Single Double)
      → inserting_revision (after_rule s) ≡ (
          if admits_rule_revision (after_rule s) new_revision
          then (ok tt, before_activation s)
          else (err HttpError.internal, after_rule s))
  unfolding insert_rule_revision
  inserting_revision-eq s = ground arith

  activating-eq :
      (s : Store Single Double)
      → IsNewRule rule_id s.rules
      → activating (before_activation s) ≡ (
          if admits_activation (before_activation s) new_rule
          then (ok tt, after_creation s)
          else (err HttpError.internal, before_activation s))
  activating-eq s fresh = ground (arith, activate_rule-new s fresh)

  -- A creation fails and leaves the tables as they were, or it appends one rule and one revision.
  pub create_alert_rule-cases :
      (s : Store Single Double)
      → (create_alert_rule constraints now rule_id revision_id tenant_id subject input s
          ≡ (err HttpError.internal, s))
        ⊎ Created s
  unfolding create_alert_rule
  create_alert_rule-cases s =
      let row = rule_row now rule_id tenant_id subject in
      let read : Store Single Double → Option (AlertRule Single) = read_back rule_id tenant_id in
      elim (Bool-cases (admits_rule s row)) [
        | inr e ↦
            let first : inserting_rule s ≡ (err HttpError.internal, s) =
              inserting_rule-eq s ∙ rw e refl in
            inl (
              first_fails inserting_rule inserting_revision activating read HttpError.internal
                first)
        | inl e ↦
            let first : inserting_rule s ≡ (ok tt, after_rule s) =
              inserting_rule-eq s ∙ rw e refl in
            elim (Bool-cases (admits_rule_revision (after_rule s) new_revision)) [
              | inr f ↦
                  let second : inserting_revision (after_rule s)
                      ≡ (err HttpError.internal, after_rule s) =
                    inserting_revision-eq s ∙ rw f refl in
                  inl (
                    second_fails inserting_rule inserting_revision activating read
                      HttpError.internal first second)
              | inl f ↦
                  let fresh = admits_rule-fresh s row e in
                  let fresh' = admits_rule_revision-fresh (after_rule s) new_revision f in
                  let second : inserting_revision (after_rule s) ≡ (ok tt, before_activation s) =
                    inserting_revision-eq s ∙ rw f refl in
                  elim (Bool-cases (admits_activation (before_activation s) new_rule)) [
                    | inr g ↦
                        let third : activating (before_activation s)
                            ≡ (err HttpError.internal, before_activation s) =
                          activating-eq s fresh ∙ rw g refl in
                        inl (
                          third_fails inserting_rule inserting_revision activating read
                            HttpError.internal first second third)
                    | inl g ↦ inr (
                      fresh,
                      fresh',
                      all_three inserting_rule inserting_revision activating read HttpError.internal
                          first second (activating-eq s fresh ∙ rw g refl)
                          (read_back-new s fresh fresh'),
                    )
                  ]
            ]
      ]
