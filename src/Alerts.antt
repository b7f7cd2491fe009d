-- ===== src/Alerts.antt =====
-- src/alerts.rs: the input of an alert rule, its normal form and its validation.
pub mod Lists
pub mod Normal
use eal_api.Prelude.{
  ℕ, zero, suc, ◌+◌, ◌/◌, ◌%◌, Bool, not, ◌&&◌, ◌||◌, List, [], ◌∷◌, ◌++◌, map, ltb, ◌==◌, in_range,
  if◌then◌else◌, length, is_empty, any, Result, ok, err, ◌>>=◌, ◌>>◌, ensure, refuse, map_err,
}
use eal_api.Prelude.Ordered.{text_ord}
use eal_api.Prelude.TreeSet.{sort, dedup}
use eal_api.Text.{Text, text, byte_length, trim, collapse_whitespace}
use eal_api.Floats.{Floats, is_unit_single}
use eal_api.Uuids.{Uuids}
use eal_api.SourceScope.{display, normalize_source_filters, validate_source_filters}

abbrev pub max_name_bytes : ℕ
max_name_bytes = 256

abbrev pub max_query_chars : ℕ
max_query_chars = 700

abbrev pub max_model_bytes : ℕ
max_model_bytes = 160

abbrev pub max_delivery_channels : ℕ
max_delivery_channels = 32

abbrev pub max_delivery_channel_bytes : ℕ
max_delivery_channel_bytes = 120

-- A number in decimal, as `format!` writes it.
unfoldable pub decimal_from : ℕ → ℕ → Text → Text
decimal_from zero n digits = digits
decimal_from (suc fuel) n digits =
    let here = (b'0' + n % 10) ∷ digits in
    let rest = decimal_from fuel (n / 10) here in if n / 10 == 0 then here else rest

unfoldable pub decimal : ℕ → Text
unfolding decimal_from
decimal n = decimal_from (suc n) n []

unfoldable pub validate_list : List Text → ℕ → ℕ → Text → Result Text (Unit {0})
validate_list values max_items max_bytes name = do
  refuse (ltb max_items (length values))
      (name ++ (text " must contain at most " ++ (decimal max_items ++ text " values")))
  refuse (any (λ value. is_empty value || ltb max_bytes (byte_length value)) values) (
      text "every "
      ++ (name
          ++ (text " value must contain between 1 and " ++ (decimal max_bytes ++ text " bytes"))))
  ok tt

unfoldable pub normalize_list : List Text → ℕ → ℕ → Text → Result Text (List Text)
normalize_list values max_items max_bytes name =
    let sorted = dedup (sort (map trim values)) in
    validate_list sorted max_items max_bytes name >>= λ _. ok sorted

pub record CreateAlertRule (Single : Type 0) : Type 0 where
  pub name : Text
  pub query_text : Text
  pub embedding_model : Text
  pub similarity_threshold : Single
  pub source_filters : List Text
  pub delivery_channels : List Text
  pub enabled : Bool

module _ (floats : Floats) (uuids : Uuids) where
  open floats use {Single}

  unfoldable pub validate : CreateAlertRule Single → Result Text (Unit {0})
  validate rule = do
    refuse (is_empty rule.name || ltb max_name_bytes (byte_length rule.name))
        (text "name must contain between 1 and 256 bytes")
    ensure (in_range 3 max_query_chars (length rule.query_text))
        (text "query_text must contain between 3 and 700 characters")
    refuse (is_empty rule.embedding_model || ltb max_model_bytes (byte_length rule.embedding_model))
        (text "embedding_model must contain between 1 and 160 bytes")
    ensure (is_unit_single floats rule.similarity_threshold)
        (text "similarity_threshold must be finite and between 0 and 1")
    map_err display (validate_source_filters uuids rule.source_filters)
    validate_list rule.delivery_channels max_delivery_channels max_delivery_channel_bytes
        (text "delivery_channels")
    ok tt

  unfoldable pub normalized : CreateAlertRule Single → Result Text (CreateAlertRule Single)
  normalized rule = do
    source_filters ← map_err display (normalize_source_filters uuids rule.source_filters)
    delivery_channels ←
        normalize_list rule.delivery_channels max_delivery_channels max_delivery_channel_bytes
          (text "delivery_channels")
    let result = record rule {
      name = trim rule.name;
      query_text = collapse_whitespace rule.query_text;
      embedding_model = trim rule.embedding_model;
      source_filters = source_filters;
      delivery_channels = delivery_channels;
    }
    validate result
    ok result
