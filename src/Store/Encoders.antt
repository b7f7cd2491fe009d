-- ===== src/Store/Encoders.antt =====
-- The encoders of the `hex` and `serde_json` crates, both of which their decoders invert.
use eal_api.Prelude.{◌≡◌, List}
use eal_api.Text.{Text}
use eal_api.Headers.{Bytes}

pub record Encoders : Type 0 where
  -- `hex::encode(bytes)`
  pub hex_encode : Bytes → Text
  -- `serde_json::to_vec(&fields)` of an array of strings
  pub json_strings : List Text → Bytes
  pub hex_encode-injective : (a b : Bytes) → hex_encode a ≡ hex_encode b → a ≡ b
  pub json_strings-injective : (a b : List Text) → json_strings a ≡ json_strings b → a ≡ b
