-- ===== src/SourceScope.antt =====
-- src/source_scope.rs: the source filters of an alert rule, and the scope of a search under them.
pub mod Filters
pub mod Scope
use eal_api.Prelude.{
  ℕ, Bool, not, List, [], ◌∷◌, ◌++◌, map, ltb, if◌then◌else◌, length, is_empty, any, Result, ok,
  err, ◌>>=◌, ok_or, unwrap_or, collect,
}
use eal_api.Prelude.TreeSet.{contains, from_list}
use eal_api.Prelude.Ordered.{nat_ord}
use eal_api.Text.{Text, text, trim, strip_prefix}
use eal_api.Uuids.{Uuid, Uuids}

abbrev pub max_source_filters : ℕ
max_source_filters = 100

unfoldable pub source_prefix : Text
unfolding text
source_prefix = text "source:"

pub data SourceScopeError : Type 0 where
  too_many_rule_filters invalid_rule_filter : SourceScopeError
  requested_source_outside_rule_scope : SourceScopeError

-- `Display`
unfoldable pub display : SourceScopeError → Text
unfolding text
display too_many_rule_filters = text "source_filters must contain at most 100 source IDs"
display invalid_rule_filter = text "each source_filters value must be a UUID or source:<UUID>"
display requested_source_outside_rule_scope =
    text "requested source_ids must be a subset of the alert rule source_filters"

-- The part of `constrain_search_sources` behind the parsed rule scope.
unfoldable pub constrain : List Uuid → List Uuid → Result SourceScopeError (List Uuid)
constrain rule_scope requested =
    if is_empty rule_scope
    then ok requested
    else if is_empty requested
    then ok (from_list rule_scope)
    else if any (λ source_id. not (contains source_id (from_list rule_scope))) requested
    then err requested_source_outside_rule_scope
    else ok requested

module _ (uuids : Uuids) where
  open uuids use {parse_str, to_text}

  unfoldable pub parse_source_filter : Text → Result SourceScopeError Uuid
  parse_source_filter raw =
      let value = trim raw in
      if is_empty value
      then err invalid_rule_filter
      else ok_or (parse_str (unwrap_or (strip_prefix source_prefix value) value))
          invalid_rule_filter

  unfoldable pub parse_source_filter_ids : List Text → Result SourceScopeError (List Uuid)
  parse_source_filter_ids values =
      if ltb max_source_filters (length values)
      then err too_many_rule_filters
      else (collect parse_source_filter values >>= λ ids. ok (from_list ids))

  unfoldable pub canonical_filter : Uuid → Text
  canonical_filter source_id = source_prefix ++ to_text source_id

  -- The vector is replaced on success only.
  unfoldable pub normalize_source_filters : List Text → Result SourceScopeError (List Text)
  normalize_source_filters values = do
    ids ← parse_source_filter_ids values
    ok (map canonical_filter ids)

  unfoldable pub validate_source_filters : List Text → Result SourceScopeError (Unit {0})
  validate_source_filters values = parse_source_filter_ids values >>= λ _. ok tt

  unfoldable pub constrain_search_sources :
      List Text → List Uuid → Result SourceScopeError (List Uuid)
  constrain_search_sources rule_filters requested_source_ids = do
    rule_scope ← parse_source_filter_ids rule_filters
    constrain rule_scope (from_list requested_source_ids)
