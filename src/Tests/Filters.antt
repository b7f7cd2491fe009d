-- ===== src/Tests/Filters.antt =====
-- Source filters and search scopes of two sources.
use eal_api.Prelude.{◌≡◌, refl, List, [], ◌∷◌, ok, err}
use eal_api.Prelude.{◌↔◌, ◌≤◌, length}
use eal_api.Prelude.TreeSet.{contains, insert, from_list}
use eal_api.Text.{
  Text, text, trim, trim_matches, trim_start_matches, trim_end_matches, is_whitespace, strip_prefix,
}
use eal_api.SourceScope.{
  source_prefix, parse_source_filter, canonical_filter, constrain,
  requested_source_outside_rule_scope, max_source_filters, parse_source_filter_ids,
  normalize_source_filters, validate_source_filters, constrain_search_sources,
}
use eal_api.SourceScope.Filters.{normalize_source_filters-stable}
use eal_api.SourceScope.Scope.{
  IsConstrained, Escapes, constrain_search_sources-IsConstrained,
  constrain_search_sources-eq-err_iff,
}
use eal_api.Tests.Instances.{unary, parse_unary, is_zeros, zeros}

-- The sources 2, 1 and 2 again, in both forms.
abbrev filters : List Text
filters = text " source:000" ∷ text "00" ∷ text "000" ∷ []

abbrev canonical : List Text
canonical = text "source:00" ∷ text "source:000" ∷ []

parsed : parse_source_filter_ids unary filters ≡ ok (1 ∷ 2 ∷ [])
unfolding parse_source_filter_ids parse_source_filter source_prefix text trim trim_matches
    trim_start_matches trim_end_matches is_whitespace strip_prefix unary parse_unary is_zeros insert
    from_list
parsed = refl

normalized_run : normalize_source_filters unary filters ≡ ok canonical
unfolding normalize_source_filters canonical_filter source_prefix text unary zeros
normalized_run = rw parsed refl

normalize_source_filters-stable_example :
    (parse_source_filter_ids unary canonical ≡ parse_source_filter_ids unary filters)
    × (length canonical ≤ max_source_filters)
    × (validate_source_filters unary canonical ≡ ok tt)
    × (normalize_source_filters unary canonical ≡ ok canonical)
normalize_source_filters-stable_example =
    normalize_source_filters-stable unary filters canonical normalized_run

within_run : constrain_search_sources unary filters (2 ∷ []) ≡ ok (2 ∷ [])
unfolding constrain_search_sources constrain insert from_list contains
within_run = rw parsed refl

constrain_search_sources-IsConstrained_example : IsConstrained (1 ∷ 2 ∷ []) (2 ∷ []) (2 ∷ [])
constrain_search_sources-IsConstrained_example =
    constrain_search_sources-IsConstrained unary filters (2 ∷ []) (1 ∷ 2 ∷ []) (2 ∷ []) parsed
      within_run

constrain_search_sources-eq-err_iff_example :
    (constrain_search_sources unary filters (2 ∷ 3 ∷ []) ≡ err requested_source_outside_rule_scope)
    ↔ Escapes (1 ∷ 2 ∷ []) (2 ∷ 3 ∷ [])
constrain_search_sources-eq-err_iff_example =
    constrain_search_sources-eq-err_iff unary filters (2 ∷ 3 ∷ []) (1 ∷ 2 ∷ []) parsed
