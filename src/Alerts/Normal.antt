-- ===== src/Alerts/Normal.antt =====
-- What validation guarantees of an alert rule, and that a normalised rule is in normal form.
use eal_api.Prelude.{
  ℕ, ◌≤◌, ◌≡◌, refl, true, false, arith, in_range, is_empty, length, ok, >>=-eq-ok, ensure-eq-ok,
  refuse-eq-ok, map_err-eq-ok,
}
use eal_api.Prelude.Ordered.{text_ord}
use eal_api.Prelude.TreeSet.{IsSorted}
use eal_api.Text.{text, byte_length, trim, collapse_whitespace}
use eal_api.Text.Trim.{trim_idem}
use eal_api.Text.Words.{collapse_whitespace_idem}
use eal_api.Floats.{Floats, is_unit_single}
use eal_api.Uuids.{Uuids}
use eal_api.SourceScope.{display, validate_source_filters}
use eal_api.SourceScope.Filters.{normalize_source_filters-stable}
use eal_api.Alerts.{
  max_name_bytes, max_query_chars, max_model_bytes, max_delivery_channels,
  max_delivery_channel_bytes, CreateAlertRule, validate, normalized,
}
use eal_api.Alerts.Lists.{
  IsBounded, nonempty_bounded, validate_list-IsBounded, normalize_list-stable,
}

in_range_bounds : (lo hi n : ℕ) → in_range lo hi n ≡ true → (lo ≤ n) × (n ≤ hi)
in_range_bounds lo hi n h = ground arith

module _ (floats : Floats) (uuids : Uuids) where
  open floats use {Single}

  pub record IsValid (rule : CreateAlertRule Single) : Type 0 where
    pub name_nonempty : is_empty rule.name ≡ false
    pub name_bytes : byte_length rule.name ≤ max_name_bytes
    pub query_least : 3 ≤ length rule.query_text
    pub query_most : length rule.query_text ≤ max_query_chars
    pub model_nonempty : is_empty rule.embedding_model ≡ false
    pub model_bytes : byte_length rule.embedding_model ≤ max_model_bytes
    pub threshold : is_unit_single floats rule.similarity_threshold ≡ true
    pub filters : validate_source_filters uuids rule.source_filters ≡ ok tt
    pub channels : IsBounded max_delivery_channels max_delivery_channel_bytes rule.delivery_channels

  -- Validation accepts a rule only within every bound: name, query and model sizes, a finite
  -- threshold between 0 and 1, source filters that parse, and bounded delivery channels.
  pub validate-IsValid :
      (rule : CreateAlertRule Single) → validate floats uuids rule ≡ ok tt → IsValid rule
  unfolding validate
  validate-IsValid rule h =
      let (_, name, h1) = >>=-eq-ok _ _ h in
      let (_, query, h2) = >>=-eq-ok _ _ h1 in
      let (_, model, h3) = >>=-eq-ok _ _ h2 in
      let (_, unit, h4) = >>=-eq-ok _ _ h3 in
      let (_, filters, h5) = >>=-eq-ok _ _ h4 in
      let (_, channels, _) = >>=-eq-ok _ _ h5 in
      let (named, name_fits) = nonempty_bounded rule.name max_name_bytes (refuse-eq-ok _ _ name) in
      let (modelled, model_fits) =
        nonempty_bounded rule.embedding_model max_model_bytes (refuse-eq-ok _ _ model) in
      let (least, most) = in_range_bounds 3 max_query_chars _ (ensure-eq-ok _ _ query) in
      record {
        name_nonempty = named;
        name_bytes = name_fits;
        query_least = least;
        query_most = most;
        model_nonempty = modelled;
        model_bytes = model_fits;
        threshold = ensure-eq-ok _ _ unit;
        filters = map_err-eq-ok display _ filters;
        channels = validate_list-IsBounded rule.delivery_channels _ _ _ channels;
      }

  -- Normalising a rule that is accepted gives a rule that passes validation, keeps threshold and
  -- enabled flag, has its channels strictly increasing, and is a fixed point of normalisation.
  pub normalized-stable :
      (rule result : CreateAlertRule Single)
      → normalized floats uuids rule ≡ ok result
      → IsValid result
        × (result.similarity_threshold ≡ rule.similarity_threshold)
        × (result.enabled ≡ rule.enabled)
        × IsSorted result.delivery_channels
        × (normalized floats uuids result ≡ ok result)
  unfolding normalized
  normalized-stable rule result h =
      let (filters, parsed, h1) = >>=-eq-ok _ _ h in
      let (channels, listed, h2) = >>=-eq-ok _ _ h1 in
      let (_, valid, last) = >>=-eq-ok _ _ h2 in
      let (_, _, _, filters_again) =
        normalize_source_filters-stable uuids rule.source_filters filters
          (map_err-eq-ok display _ parsed) in
      let (sorted, _, channels_again) =
        normalize_list-stable rule.delivery_channels channels max_delivery_channels
          max_delivery_channel_bytes (text "delivery_channels") listed in
      let same : record rule {
        name = trim rule.name;
        query_text = collapse_whitespace rule.query_text;
        embedding_model = trim rule.embedding_model;
        source_filters = filters;
        delivery_channels = channels;
      }
          ≡ result =
        cc last in
      rw (← same) (
        validate-IsValid _ valid,
        refl,
        refl,
        sorted,
        rw (
          filters_again,
          channels_again,
          trim_idem rule.name,
          trim_idem rule.embedding_model,
          collapse_whitespace_idem rule.query_text,
          valid,
        ),
      )
