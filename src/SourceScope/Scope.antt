-- ===== src/SourceScope/Scope.antt =====
-- The effective scope of a search: a nonempty rule scope is an upper bound on it.
use mathlib.Core.Bool.{false≢true}
use eal_api.Prelude.{
  ◌≡◌, ◌↔◌, refl, sym, ◌∙◌, Bool, true, false, inl, inr, List, [], ◌∷◌, arith, Bool-cases, is_empty,
  ok, err, if◌then◌else◌,
}
use eal_api.Prelude.TreeSet.{contains, from_list, is_subset, IsSorted, from_list-IsSorted}
use eal_api.Prelude.TreeSet.{contains-from_list}
use eal_api.Prelude.TreeSet.Laws.{
  any_outside, is_empty-from_list, is_subset_intro, outside_of_not_subset, not_subset_of_outside,
  is_subset-contains,
}
use eal_api.Prelude.Ordered.{nat_ord}
use eal_api.Text.{Text}
use eal_api.Uuids.{Uuid, Uuids}
use eal_api.SourceScope.{
  requested_source_outside_rule_scope, parse_source_filter_ids, constrain, constrain_search_sources,
}

-- The policy over finite sets, by membership alone.
abbrev pub in_scope : List Uuid → List Uuid → Uuid → Bool
in_scope scope requested a =
    if is_empty scope
    then contains a requested
    else if is_empty requested
    then contains a scope
    else contains a requested

pub record IsConstrained (scope requested out : List Uuid) : Type 0 where
  pub sorted : IsSorted out
  pub members : (a : Uuid) → contains a out ≡ in_scope scope requested a
  pub within_rule : is_empty scope ≡ false → is_subset out scope ≡ true
  pub within_request : is_empty requested ≡ false → is_subset out requested ≡ true

abbrev pub Escapes : List Uuid → List Uuid → Type 0
Escapes scope requested =
    (is_empty scope ≡ false)
    × ((a : Uuid) × (contains a requested ≡ true) × (contains a scope ≡ false))

constrain-members :
    (scope ids out : List Uuid)
    → constrain scope (from_list ids) ≡ ok out
    → (a : Uuid) → contains a out ≡ in_scope scope ids a
unfolding constrain
constrain-members scope ids out h a =
    ground (arith, is_empty-from_list ids, contains-from_list a ids, contains-from_list a scope)

constrain-IsSorted :
    (scope ids out : List Uuid) → constrain scope (from_list ids) ≡ ok out → IsSorted out
unfolding constrain
constrain-IsSorted scope ids out h =
    ground (arith, from_list-IsSorted ids, from_list-IsSorted scope)

-- A request inside the rule scope, if neither is empty.
constrain-subset :
    (scope ids out : List Uuid)
    → constrain scope (from_list ids) ≡ ok out
    → is_empty scope ≡ false
    → is_empty ids ≡ false
    → is_subset (from_list ids) (from_list scope) ≡ true
unfolding constrain
constrain-subset scope ids out h k l =
    ground (arith, is_empty-from_list ids, any_outside (from_list ids) (from_list scope))

constrain-within_rule :
    (scope ids out : List Uuid)
    → constrain scope (from_list ids) ≡ ok out
    → is_empty scope ≡ false
    → (a : Uuid) → contains a out ≡ true
    → contains a scope ≡ true
constrain-within_rule scope ids out h k a m = elim (Bool-cases (is_empty ids)) [
  | inl none_asked ↦ ground (arith, constrain-members scope ids out h a)
  | inr some_asked ↦
      sym (contains-from_list a scope)
      ∙ is_subset-contains (from_list ids) (from_list scope) a
          (constrain-subset scope ids out h k some_asked)
          (ground (arith, constrain-members scope ids out h a, contains-from_list a ids))
]

constrain-within_request :
    (scope ids out : List Uuid)
    → constrain scope (from_list ids) ≡ ok out
    → is_empty ids ≡ false
    → (a : Uuid) → contains a out ≡ true
    → contains a ids ≡ true
constrain-within_request scope ids out h k a m = ground (arith, constrain-members scope ids out h a)

constrain-err_nonempty :
    (scope ids : List Uuid)
    → constrain scope (from_list ids) ≡ err requested_source_outside_rule_scope
    → is_empty scope ≡ false
unfolding constrain
constrain-err_nonempty scope ids h = ground arith

constrain-err_not_subset :
    (scope ids : List Uuid)
    → constrain scope (from_list ids) ≡ err requested_source_outside_rule_scope
    → is_subset (from_list ids) (from_list scope) ≡ false
unfolding constrain
constrain-err_not_subset scope ids h = ground (arith, any_outside (from_list ids) (from_list scope))

constrain_escaping :
    (scope ids : List Uuid)
    → is_empty scope ≡ false
    → is_empty ids ≡ false
    → is_subset (from_list ids) (from_list scope) ≡ false
    → constrain scope (from_list ids) ≡ err requested_source_outside_rule_scope
unfolding constrain
constrain_escaping scope ids k l n =
    ground (arith, is_empty-from_list ids, any_outside (from_list ids) (from_list scope))

nonempty_of_contains : (a : Uuid) (xs : List Uuid) → contains a xs ≡ true → is_empty xs ≡ false
unfolding contains
nonempty_of_contains a [] h = absurd (false≢true h)
nonempty_of_contains a (x ∷ xs) h = refl

constrain-eq-err_iff :
    (scope ids : List Uuid)
    → (constrain scope (from_list ids) ≡ err requested_source_outside_rule_scope)
      ↔ Escapes scope ids
constrain-eq-err_iff scope ids = (to, from)
  where
    to :
        constrain scope (from_list ids) ≡ err requested_source_outside_rule_scope
        → Escapes scope ids
    to h =
        let (a, asked, outside) =
          outside_of_not_subset (from_list ids) (from_list scope)
            (constrain-err_not_subset scope ids h) in
        (
          constrain-err_nonempty scope ids h,
          (a, sym (contains-from_list a ids) ∙ asked, sym (contains-from_list a scope) ∙ outside),
        )

    from :
        Escapes scope ids
        → constrain scope (from_list ids) ≡ err requested_source_outside_rule_scope
    from (k, (a, asked, outside)) =
        constrain_escaping scope ids k (nonempty_of_contains a ids asked) (
          not_subset_of_outside (from_list ids) (from_list scope) a
            (contains-from_list a ids ∙ asked) (contains-from_list a scope ∙ outside))

module _ (uuids : Uuids) (filters : List Text) (ids : List Uuid) where
  constrain_search_sources_parsed :
      (scope : List Uuid)
      → parse_source_filter_ids uuids filters ≡ ok scope
      → constrain_search_sources uuids filters ids ≡ constrain scope (from_list ids)
  unfolding constrain_search_sources
  constrain_search_sources_parsed scope e = rw e

  -- Where the filters of the rule parse to a scope and the request is accepted, the effective
  -- scope is strictly increasing; its members are those of the request if the rule scope is empty,
  -- those of the rule scope if the request is empty, and those of the request otherwise; it lies
  -- within a nonempty rule scope, and within a nonempty request.
  pub constrain_search_sources-IsConstrained :
      (scope out : List Uuid)
      → parse_source_filter_ids uuids filters ≡ ok scope
      → constrain_search_sources uuids filters ids ≡ ok out
      → IsConstrained scope ids out
  constrain_search_sources-IsConstrained scope out e h =
      let c = sym (constrain_search_sources_parsed scope e) ∙ h in
      let members = constrain-members scope ids out c in
      record {
        sorted = constrain-IsSorted scope ids out c;
        members = members;
        within_rule =
            λ k. is_subset_intro out scope (λ a m. constrain-within_rule scope ids out c k a m);
        within_request =
            λ k. is_subset_intro out ids (λ a m. constrain-within_request scope ids out c k a m);
      }

  -- Where the filters parse, the request is rejected exactly when the rule scope is not empty and
  -- some requested source lies outside it.
  pub constrain_search_sources-eq-err_iff :
      (scope : List Uuid)
      → parse_source_filter_ids uuids filters ≡ ok scope
      → (constrain_search_sources uuids filters ids ≡ err requested_source_outside_rule_scope)
        ↔ Escapes scope ids
  constrain_search_sources-eq-err_iff scope e =
      rw (constrain_search_sources_parsed scope e) (constrain-eq-err_iff scope ids)
