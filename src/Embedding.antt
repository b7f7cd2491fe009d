-- ===== src/Embedding.antt =====
-- src/query_embedding.rs and crates/interfaces-compat/src/lib.rs: the embedding space, the
-- provider's endpoint and the vector of a query. Floating-point numbers are the machine's:
-- `Doubles` names the operations that the code makes on them.
pub mod Service
pub mod Vectors
use eal_api.Prelude.{
  ℕ, Bool, not, ◌&&◌, ◌||◌, List, Result, ok, err, ◌>>=◌, ◌>>◌, ensure, refuse, ltb, in_range,
  is_empty,
}
use eal_api.Text.{Text, text, byte_length, trim}

-- `VectorNormalization`, of the contract crate.
pub data VectorNormalization : Type 0 where
  none l2 unit_length : VectorNormalization

abbrev pub is_normalized : VectorNormalization → Bool
is_normalized none = Bool.false
is_normalized l2 = Bool.true
is_normalized unit_length = Bool.true

pub record EmbeddingSpaceConfig : Type 0 where
  pub provider : Text
  pub model : Text
  pub model_version : Text
  pub dimensions : ℕ
  pub normalization : VectorNormalization

unfoldable pub validate_space : EmbeddingSpaceConfig → Result Text (Unit {0})
validate_space config = do
  refuse (is_empty (trim config.provider) || ltb 128 (byte_length config.provider))
      (text "embedding provider must contain between 1 and 128 bytes")
  refuse (is_empty (trim config.model) || ltb 256 (byte_length config.model))
      (text "embedding model must contain between 1 and 256 bytes")
  refuse (is_empty (trim config.model_version) || ltb 256 (byte_length config.model_version))
      (text "embedding model_version must contain between 1 and 256 bytes")
  ensure (in_range 1 32768 config.dimensions)
      (text "embedding dimensions must be between 1 and 32768")
  ensure (is_normalized config.normalization)
      (text "query embedding spaces must use l2 or unit_length normalization")

pub record QueryEmbeddingError : Type 0 where
  pub code : Text
  pub message : Text
  pub retryable : Bool

abbrev pub failure : Text → Text → Bool → QueryEmbeddingError
failure code message retryable = record { code = code; message = message; retryable = retryable }
