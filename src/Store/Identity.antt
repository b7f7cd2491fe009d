-- ===== src/Store/Identity.antt =====
-- src/store.rs and src/reverse_match.rs: the names, literals and digests that both compute, each
-- with the same private functions.
pub mod Binding
use eal_api.Prelude.{
  ℕ, suc, Bool, true, false, List, [], ◌∷◌, ◌++◌, map, ◌/◌, ◌%◌, ◌^◌, if◌then◌else◌,
}
use eal_api.Text.{Text, text, collapse_whitespace}
use eal_api.Uuids.{Uuid, Uuids}
use eal_api.Floats.{Floats}
use eal_api.Headers.{Bytes, as_bytes}
use eal_api.WorkerAuth.{Digests}
use eal_api.Alerts.{decimal}
use eal_api.Embedding.{VectorNormalization}
use eal_api.Contracts.{EmbeddingPayload}
use eal_api.Store.Rows.{Space}
use eal_api.Store.Engine.{Numbers}
use eal_api.Store.Encoders.{Encoders}

unfoldable pub normalization_name : VectorNormalization → Text
normalization_name VectorNormalization.none = text "none"
normalization_name VectorNormalization.l2 = text "l2"
normalization_name VectorNormalization.unit_length = text "unit_length"

unfoldable pub normalize_content : Text → Text
normalize_content content = collapse_whitespace content

-- `x as i32` and `x as i16`, kept by their bits
abbrev pub as_i32 : ℕ → ℕ
as_i32 n = n % 2 ^ 32

abbrev pub as_i16 : ℕ → ℕ
as_i16 n = n % 2 ^ 16

-- The columns of a model space, as both queries bind them.
abbrev pub space_of : {Single : Type 0} → EmbeddingPayload Single → Space
space_of payload = record {
  model = payload.model;
  model_version = payload.model_version;
  dimensions = as_i32 payload.dimensions;
  normalization = normalization_name payload.normalization;
}

module _ (floats : Floats) (numbers : Numbers floats) where
  open numbers use {display_single, single_is_zero, single_bits}

  -- The values after the first, each behind a comma.
  unfoldable pub more_values : List (Floats.Single floats) → Text
  more_values [] = []
  more_values (value ∷ values) = b',' ∷ (display_single value ++ more_values values)

  unfoldable pub vector_literal : List (Floats.Single floats) → Text
  vector_literal [] = text "[]"
  vector_literal (value ∷ values) =
      b'[' ∷ (display_single value ++ (more_values values ++ (b']' ∷ [])))

  -- `x.to_be_bytes()` of a 32-bit number
  abbrev to_be_bytes : ℕ → Bytes
  to_be_bytes bits =
      (bits / 2 ^ 24) % 256 ∷ (bits / 2 ^ 16) % 256 ∷ (bits / 2 ^ 8) % 256 ∷ bits % 256 ∷ []

  -- `if *value == 0.0 { 0.0_f32 } else { *value }`
  abbrev pub canonical : Floats.Single floats → Floats.Single floats
  canonical value = if single_is_zero value then Floats.single_zero floats else value

  unfoldable pub vector_bytes : List (Floats.Single floats) → Bytes
  vector_bytes [] = []
  vector_bytes (value ∷ values) = to_be_bytes (single_bits (canonical value)) ++ vector_bytes values

  unfoldable pub embedding_sha256 : Digests → Encoders → List (Floats.Single floats) → Text
  embedding_sha256 digests encoders values =
      encoders.hex_encode (digests.sha256 (vector_bytes values))

pub record MatchIdentity : Type 0 where
  pub tenant_id : Uuid
  pub alert_rule_id : Uuid
  pub alert_rule_revision_id : Uuid
  pub page_revision_id : Uuid
  pub content_sha256 : Text
  pub model : Text
  pub model_version : Text
  pub dimensions : ℕ
  pub normalization : VectorNormalization

unfoldable pub sha256_hex : Digests → Encoders → Bytes → Text
sha256_hex digests encoders bytes = encoders.hex_encode (digests.sha256 bytes)

module _ (digests : Digests) (encoders : Encoders) (uuids : Uuids) where
  open encoders use {json_strings}
  open uuids use {to_text}

  abbrev pub canonical_fields : MatchIdentity → List Text
  canonical_fields identity =
      to_text identity.tenant_id
      ∷ to_text identity.alert_rule_id
      ∷ to_text identity.alert_rule_revision_id
      ∷ to_text identity.page_revision_id
      ∷ identity.content_sha256
      ∷ identity.model
      ∷ identity.model_version
      ∷ decimal identity.dimensions
      ∷ normalization_name identity.normalization
      ∷ []

  unfoldable pub match_key : MatchIdentity → Text
  match_key identity = sha256_hex digests encoders (json_strings (canonical_fields identity))
