-- ===== src/Store/Rules/Invariant.antt =====
-- What every creation of an alert rule keeps: the tables' consistency, their history, and the
-- rules of the other tenants.
use eal_api.Prelude.{
  ◌≡◌, refl, sym, ap, subst, ◌∙◌, Bool, true, false, ◌&&◌, ◌||◌, Option, none, some, List, [], ◌∷◌,
  ◌++◌, map, keep, all, any, All, All-keep, all-append, append-nil, append_assoc, inl, inr, ◌==◌,
  Result, ok, err, arith, take, ◌≢◌,
}
use eal_api.Prelude.Ordered.{text_ord}
use eal_api.Prelude.TreeSet.{eqb}
use eal_api.Text.{Text}
use eal_api.Uuids.{Uuid}
use eal_api.HttpError
use eal_api.HttpError.{HttpError}
use eal_api.Alerts.{CreateAlertRule}
use eal_api.Store.Rows.{Time, AlertRuleRow, RuleRevisionRow, Store}
use eal_api.Store.Order.{order_by, join_on}
use eal_api.Store.Order.Joins.{keep-append, keep-join_on, join_on-unmatched}
use eal_api.Store.Engine.{Constraints}
use eal_api.Store.Rules.{
  AlertRule, alert_rule_json, is_active, is_readable, newest_first, max_rows, active_rules,
  list_alert_rules, create_alert_rule,
}
use eal_api.Store.Rules.Creation.{create_alert_rule-cases, new_rule, new_revision, after_creation}

module _ {Single : Type 0} where
  abbrev is_revision_of : AlertRuleRow → Uuid → RuleRevisionRow Single → Bool
  is_revision_of rule id revision =
      revision.id == id
      && (revision.tenant_id == rule.tenant_id && revision.alert_rule_id == rule.id)

  abbrev pub has_revision : List (RuleRevisionRow Single) → AlertRuleRow → Option Uuid → Bool
  has_revision revisions rule none = true
  has_revision revisions rule (some id) = any (is_revision_of rule id) revisions

  abbrev points_to_revision : List (RuleRevisionRow Single) → AlertRuleRow → Bool
  points_to_revision revisions rule = has_revision revisions rule rule.active_revision_id

  any-append-left :
      (p : RuleRevisionRow Single → Bool) (xs ys : List (RuleRevisionRow Single))
      → any p xs ≡ true
      → any p (xs ++ ys) ≡ true
  any-append-left p [] ys h = absurd (cc h)
  any-append-left p (x ∷ xs) ys h = ground (arith, any-append-left p xs ys)

  any-append-right :
      (p : RuleRevisionRow Single → Bool) (xs : List (RuleRevisionRow Single))
      (y : RuleRevisionRow Single)
      → p y ≡ true
      → any p (xs ++ (y ∷ [])) ≡ true
  any-append-right p [] y h = ground arith
  any-append-right p (x ∷ xs) y h = ground (arith, any-append-right p xs y h)

  has_revision-append :
      (revisions more : List (RuleRevisionRow Single)) (rule : AlertRuleRow) (id : Option Uuid)
      → has_revision revisions rule id ≡ true
      → has_revision (revisions ++ more) rule id ≡ true
  has_revision-append revisions more rule none h = refl
  has_revision-append revisions more rule (some id) h =
      any-append-left (is_revision_of rule id) revisions more h

  all-points_to :
      (revisions more : List (RuleRevisionRow Single)) (rules : List AlertRuleRow)
      → all (points_to_revision revisions) rules ≡ true
      → all (points_to_revision (revisions ++ more)) rules ≡ true
  all-points_to revisions more [] h = refl
  all-points_to revisions more (rule ∷ rules) h = ground (
    arith,
    has_revision-append revisions more rule rule.active_revision_id,
    all-points_to revisions more rules,
  )

-- The active revision of every rule is a revision of this rule, in its tenant.
abbrev IsConsistent : {Single Double : Type 0} → Store Single Double → Type 0
IsConsistent s = all (points_to_revision s.rule_revisions) s.rules ≡ true

-- The rows of one state stand at the head of those of a later one.
abbrev IsPrefix : {A : Type 0} → List A → List A → Type 0
IsPrefix {A = A} xs ys = (more : List A) × (ys ≡ xs ++ more)

prefix_trans : {A : Type 0} (xs ys zs : List A) → IsPrefix xs ys → IsPrefix ys zs → IsPrefix xs zs
prefix_trans xs ys zs (more, h) (rest, k) =
    (more ++ rest, k ∙ ap (λ l. l ++ rest) h ∙ append_assoc xs more rest)

prefix_refl : {A : Type 0} (xs : List A) → IsPrefix xs xs
prefix_refl xs = ([], sym (append-nil xs))

module _ {Single Double : Type 0} where
  -- The tables stay consistent, and no rule and no revision is changed or removed.
  abbrev pub IsKept : Store Single Double → Store Single Double → Type 0
  IsKept s t =
      (IsConsistent s → IsConsistent t)
      × IsPrefix s.rules t.rules
      × IsPrefix s.rule_revisions t.rule_revisions

  IsKept-refl : (s : Store Single Double) → IsKept s s
  IsKept-refl s = ((λ h. h), prefix_refl s.rules, prefix_refl s.rule_revisions)

  IsKept-trans : (s t u : Store Single Double) → IsKept s t → IsKept t u → IsKept s u
  IsKept-trans s t u (h, h', h'') (k, k', k'') = (
    (λ c. k (h c)),
    prefix_trans s.rules t.rules u.rules h' k',
    prefix_trans s.rule_revisions t.rule_revisions u.rule_revisions h'' k'',
  )

module _ {Single Double : Type 0} (constraints : Constraints Single Double) where
  module _ (now : Time) (rule_id revision_id tenant_id : Uuid) (subject : Text)
      (input : CreateAlertRule Single) where
    abbrev after : Store Single Double → Store Single Double
    after = after_creation constraints now rule_id revision_id tenant_id subject input

    after-IsKept : (s : Store Single Double) → IsKept s (after s)
    after-IsKept s =
        let rule = new_rule constraints now rule_id revision_id tenant_id subject input in
        let revision = new_revision constraints now rule_id revision_id tenant_id subject input in
        (
          (λ h.
              all-append (points_to_revision (after s).rule_revisions) s.rules (rule ∷ [])
              ∙ ground (
                arith,
                all-points_to s.rule_revisions (revision ∷ []) s.rules h,
                any-append-right (is_revision_of rule revision_id) s.rule_revisions revision
                    (ground arith),
              )),
          (rule ∷ [], refl),
          (revision ∷ [], refl),
        )

    create_alert_rule-IsKept :
        (s t : Store Single Double) (r : Result HttpError (AlertRule Single))
        → create_alert_rule constraints now rule_id revision_id tenant_id subject input s ≡ (r, t)
        → IsKept s t
    create_alert_rule-IsKept s t r h =
        elim (create_alert_rule-cases constraints now rule_id revision_id tenant_id subject input
          s) [
            | inl refused ↦ let e : s ≡ t = cc (h, refused) in subst (IsKept s) e (IsKept-refl s)
            | inr (_, _, run) ↦
                let e : after s ≡ t = cc (h, run) in subst (IsKept s) e (after-IsKept s)
          ]

    -- A creation that fails answers with an internal error and leaves the tables as they were, at
    -- whichever of its statements it failed.
    pub create_alert_rule-eq-err :
        (s t : Store Single Double) (e : HttpError)
        → create_alert_rule constraints now rule_id revision_id tenant_id subject input s
          ≡ (err e, t)
        → (e ≡ HttpError.internal) × (t ≡ s)
    create_alert_rule-eq-err s t e h =
        elim (create_alert_rule-cases constraints now rule_id revision_id tenant_id subject input
          s) [
            | inl refused ↦ (cc (h, refused), cc (h, refused))
            | inr (_, _, run) ↦ absurd (cc (h, run))
          ]

    abbrev is_row_of : Uuid → Text → Bool → AlertRuleRow → Bool
    is_row_of other reader tenant_admin row =
        row.tenant_id == other && (tenant_admin || eqb row.owner_subject reader)

    others_unmatched :
        (other : Uuid) (reader : Text) (tenant_admin : Bool) (rows : List AlertRuleRow)
        → (tenant_id == other) ≡ false
        → All (λ row. is_row_of other reader tenant_admin row ≡ true) rows
        → All
            (λ row.
              is_active row
                (new_revision constraints now rule_id revision_id tenant_id subject input)
              ≡ false)
            rows
    others_unmatched other reader tenant_admin [] d h = tt
    others_unmatched other reader tenant_admin (row ∷ rows) d h =
        (ground arith, others_unmatched other reader tenant_admin rows d h.1)

    readable-after :
        (other : Uuid) (reader : Text) (tenant_admin : Bool) (s : Store Single Double)
        → (tenant_id == other) ≡ false
        → keep (is_readable other reader tenant_admin) (active_rules (after s))
          ≡ keep (is_readable other reader tenant_admin) (active_rules s)
    readable-after other reader tenant_admin s d =
        let rule = new_rule constraints now rule_id revision_id tenant_id subject input in
        let revision = new_revision constraints now rule_id revision_id tenant_id subject input in
        let mine = is_row_of other reader tenant_admin in
        let old : keep mine (s.rules ++ (rule ∷ [])) ≡ keep mine s.rules =
          keep-append mine s.rules (rule ∷ [])
          ∙ ground (arith, d, append-nil (keep mine s.rules)) in
        keep-join_on mine is_active (after s).rules (after s).rule_revisions
        ∙ ap (λ rows. join_on is_active rows (after s).rule_revisions) old
        ∙ join_on-unmatched is_active (keep mine s.rules) s.rule_revisions revision (
            others_unmatched other reader tenant_admin (keep mine s.rules) d
              (All-keep mine s.rules))
        ∙ sym (keep-join_on mine is_active s.rules s.rule_revisions)

    -- A creation in one tenant, whether or not it succeeds, changes nothing of what a listing in
    -- another tenant answers.
    pub create_alert_rule-list_alert_rules :
        (other : Uuid) (reader : Text) (tenant_admin : Bool) (s t : Store Single Double)
        (r : Result HttpError (AlertRule Single))
        → tenant_id ≢ other
        → create_alert_rule constraints now rule_id revision_id tenant_id subject input s ≡ (r, t)
        → (list_alert_rules other reader tenant_admin t).0
          ≡ (list_alert_rules other reader tenant_admin s).0
    unfolding list_alert_rules
    create_alert_rule-list_alert_rules other reader tenant_admin s t r d h =
        let listed : Store Single Double → Result HttpError (List (AlertRule Single)) =
          λ u. (list_alert_rules other reader tenant_admin u).0 in
        elim (create_alert_rule-cases constraints now rule_id revision_id tenant_id subject input
          s) [
            | inl refused ↦ let e : t ≡ s = cc (h, refused) in ap listed e
            | inr (_, _, run) ↦
                let e : after s ≡ t = cc (h, run) in
                subst (λ u. listed u ≡ listed s) e
                  (ap
                    (λ rows. ok (map alert_rule_json (take max_rows (order_by newest_first rows))))
                    (readable-after other reader tenant_admin s (ground arith)))
          ]

  -- Any sequence of calls that create alert rules, failed ones included.
  pub data Creations : Store Single Double → Store Single Double → Type 0 where
    no_more : (s : Store Single Double) → Creations s s
    one_more :
        (now : Time) (rule_id revision_id tenant_id : Uuid) (subject : Text)
        (input : CreateAlertRule Single) (s t u : Store Single Double)
        (r : Result HttpError (AlertRule Single))
        → create_alert_rule constraints now rule_id revision_id tenant_id subject input s ≡ (r, t)
        → Creations t u
        → Creations s u

  -- Whatever sequence of creations is run, by any callers, each successful or not: if every rule's
  -- active revision was one of its own revisions, it still is, and the rules and revisions that
  -- there were still stand unchanged at the head of their tables.
  pub Creations-IsKept : (s u : Store Single Double) → Creations s u → IsKept s u
  Creations-IsKept s u (no_more _) = IsKept-refl s
  Creations-IsKept s u (one_more now rule_id revision_id tenant_id subject input _ t _ r h more) =
      IsKept-trans s t u
        (create_alert_rule-IsKept now rule_id revision_id tenant_id subject input s t r h)
        (Creations-IsKept t u more)
