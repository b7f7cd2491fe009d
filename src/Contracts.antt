-- ===== src/Contracts.antt =====
-- The requests of the contract crate `eal-interfaces`, which is not part of this repository: the
-- fields that the API reads, and the crate's validations as parameters.
use eal_api.Prelude.{ℕ, Bool, Option, List, Result}
use eal_api.Text.{Text}
use eal_api.Uuids.{Uuid}
use eal_api.Embedding.{VectorNormalization}
use eal_api.Store.Rows.{Time}

pub record EmbeddingPayload (Single : Type 0) : Type 0 where
  pub model : Text
  pub model_version : Text
  pub dimensions : ℕ
  pub normalization : VectorNormalization
  pub values : List Single

pub record PageIngestRequest (Single : Type 0) : Type 0 where
  pub source_id : Uuid
  pub url : Text
  pub final_url : Text
  pub title : Option Text
  pub content_text : Text
  pub content_type : Text
  pub http_status : ℕ
  pub published_at : Option Time
  pub fetched_at : Time
  pub embedding : EmbeddingPayload Single

pub record SearchCursor (Double : Type 0) : Type 0 where
  pub distance : Double
  pub embedding_id : Uuid

pub record EmbeddingSearchRequest (Single Double : Type 0) : Type 0 where
  pub embedding : EmbeddingPayload Single
  pub min_similarity : Single
  pub source_ids : List Uuid
  pub cursor : Option (SearchCursor Double)
  pub limit : ℕ

pub record CreateSourcePolicy : Type 0 where
  pub name : Text
  pub root_url : Text
  pub allowed_hosts : List Text
  pub allowed_path_prefixes : List Text
  pub include_subdomains : Bool
  pub discovery_modes : List Text
  pub crawl_interval_seconds : ℕ
  pub max_depth : ℕ
  pub max_pages_per_run : ℕ
  pub obey_robots : Bool
  pub enabled : Bool

-- `validate` of each request, and serde's reading of a normalization.
pub record Contracts (Single Double : Type 0) : Type 0 where
  pub validate_embedding : EmbeddingPayload Single → Result Text (Unit {0})
  pub validate_page : PageIngestRequest Single → Result Text (Unit {0})
  pub validate_search : EmbeddingSearchRequest Single Double → Result Text (Unit {0})
  pub validate_source : CreateSourcePolicy → Result Text (Unit {0})
  pub read_normalization : Text → Option VectorNormalization
