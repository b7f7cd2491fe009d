-- ===== src/Tests/Rules.antt =====
-- An alert rule before and after normalisation.
use eal_api.Prelude.{ℕ, ◌≡◌, refl, true, [], ◌∷◌, ok}
use eal_api.Prelude.Ordered.{text_ord, text_cmp}
use eal_api.Prelude.TreeSet.{
  insert, from_list, sort, sort_insert, dedup, push_unless_same, IsSorted,
}
use eal_api.Text.{
  text, byte_length, utf8_width, trim, trim_matches, trim_start_matches, trim_end_matches,
  is_whitespace, strip_prefix, split, extend_head, split_whitespace, join, join_rest,
  collapse_whitespace,
}
use eal_api.SourceScope.{
  source_prefix, parse_source_filter, parse_source_filter_ids, canonical_filter,
  normalize_source_filters, validate_source_filters,
}
use eal_api.Alerts.{CreateAlertRule, validate_list, normalize_list, validate, normalized}
use eal_api.Alerts.Normal.{IsValid, validate-IsValid, normalized-stable}
use eal_api.Tests.Instances.{unary, parse_unary, is_zeros, zeros, hundredths}

unfoldable pub raw : CreateAlertRule ℕ
unfolding text
raw = record {
  name = text " news ";
  query_text = text "open  models";
  embedding_model = text "m1";
  similarity_threshold = 80;
  source_filters = text "00" ∷ text " source:00" ∷ [];
  delivery_channels = text "web" ∷ text "mail " ∷ text "web" ∷ [];
  enabled = true;
}

unfoldable pub normal : CreateAlertRule ℕ
unfolding text
normal = record {
  name = text "news";
  query_text = text "open models";
  embedding_model = text "m1";
  similarity_threshold = 80;
  source_filters = text "source:00" ∷ [];
  delivery_channels = text "mail" ∷ text "web" ∷ [];
  enabled = true;
}

pub normalized_run : normalized hundredths unary raw ≡ ok normal
unfolding raw normal text normalized validate normalize_source_filters validate_source_filters
    canonical_filter parse_source_filter_ids parse_source_filter source_prefix strip_prefix unary
    parse_unary is_zeros zeros insert from_list normalize_list validate_list sort sort_insert dedup
    push_unless_same text_cmp trim trim_matches trim_start_matches trim_end_matches is_whitespace
    byte_length utf8_width collapse_whitespace split_whitespace split extend_head join join_rest
normalized_run = refl

normalized-stable_example :
    IsValid hundredths unary normal
    × (normal.similarity_threshold ≡ raw.similarity_threshold)
    × (normal.enabled ≡ raw.enabled)
    × IsSorted normal.delivery_channels
    × (normalized hundredths unary normal ≡ ok normal)
normalized-stable_example = normalized-stable hundredths unary raw normal normalized_run

validate_run : validate hundredths unary normal ≡ ok tt
unfolding normal text validate validate_source_filters parse_source_filter_ids parse_source_filter
    source_prefix strip_prefix unary parse_unary is_zeros zeros insert from_list validate_list
    text_cmp trim trim_matches trim_start_matches trim_end_matches is_whitespace byte_length
    utf8_width
validate_run = refl

validate-IsValid_example : IsValid hundredths unary normal
validate-IsValid_example = validate-IsValid hundredths unary normal validate_run
