-- ===== src/Embedding/Service.antt =====
-- The embedding service: its endpoint, and what it makes of the provider's reply. The HTTP client
-- is a library: `Reply` is what a request comes to.
pub mod Replies
use eal_api.Prelude.{
  ℕ, suc, Bool, true, false, not, ◌&&◌, ◌||◌, Option, none, some, List, [], ◌∷◌, ◌++◌, leb, ltb,
  in_range, ◌==◌, if◌then◌else◌, length, is_empty, take, any, map, Result, ok, err, ◌>>=◌, ◌>>◌,
  refuse, ensure, map_err,
}
use eal_api.Prelude.Ordered.{text_ord}
use eal_api.Prelude.TreeSet.{eqb}
use eal_api.Text.{Text, text, trim}
use eal_api.Urls.{Host, UrlView, Urls}
use eal_api.Alerts.{decimal}
use eal_api.Auth.Config.{Environment, trimmed_nonempty}
use eal_api.Query.Analysis.{EmbeddingInput, QueryAnalysisError}
use eal_api.Embedding.{EmbeddingSpaceConfig, QueryEmbeddingError, failure}
use eal_api.Embedding.Vectors.{Doubles, validate_vector, weighted_centroid}

abbrev pub max_provider_error_chars : ℕ
max_provider_error_chars = 500

-- `env::var(name)`, trimmed, if it is not blank.
unfoldable pub nonempty_env : Environment → Text → Option Text
nonempty_env env name = trimmed_nonempty (env name)

abbrev pub is_some {ℓ} : {A : Type ℓ} → Option A → Bool
is_some none = false
is_some (some a) = true

abbrev pub text_is : Option Text → Text → Bool
text_is none expected = false
text_is (some s) expected = eqb s expected

unfoldable pub is_loopback : Option Text → Bool
is_loopback host =
    text_is host (text "localhost")
    || (text_is host (text "127.0.0.1") || text_is host (text "::1"))

-- `validate_endpoint`, of the endpoint's view and host.
unfoldable pub check_endpoint : UrlView → Option Text → Text → Result QueryEmbeddingError (Unit {0})
check_endpoint endpoint host environment = do
  refuse
      (not (is_empty endpoint.username)
        || (is_some endpoint.password || (is_some endpoint.query || is_some endpoint.fragment)))
      (failure (text "invalid_embedding_endpoint")
        (text "embedding endpoint must not contain credentials, a query string, or a fragment")
        false)
  let secure = eqb endpoint.scheme (text "https")
  let development_loopback =
      not (eqb environment (text "production"))
      && (eqb endpoint.scheme (text "http") && is_loopback host)
  refuse (not secure && not development_loopback) (
      failure (text "insecure_embedding_endpoint")
        (text "embedding endpoint must use HTTPS; development may use HTTP loopback only") false)

unfoldable pub provider_error_code : ℕ → Text
provider_error_code status =
    if status == 401 || status == 403
    then text "embedding_provider_auth_failed"
    else if status == 429
    then text "embedding_provider_throttled"
    else if in_range 500 599 status
    then text "embedding_provider_unavailable"
    else text "embedding_provider_rejected_request"

unfoldable pub truncate : Text → ℕ → Text
truncate value max_characters =
    let output = take max_characters value in
    if ltb max_characters (length value) then output ++ (0x2026 ∷ []) else output

-- `debug` is Rust's quoted form of a string.
unfoldable pub validate_provider_model :
    (Text → Text) → Option Text → Text → Result QueryEmbeddingError (Unit {0})
validate_provider_model debug none configured_model = ok tt
validate_provider_model debug (some returned_model) configured_model =
    ensure (eqb returned_model configured_model) (
      failure (text "embedding_model_mismatch")
        (text "embedding provider returned model "
          ++ (debug returned_model ++ (text "; expected " ++ debug configured_model)))
        false)

pub record ProviderEmbedding (Single : Type 0) : Type 0 where
  pub index : ℕ
  pub embedding : List Single

pub record ProviderResponse (Single : Type 0) : Type 0 where
  pub data_items : List (ProviderEmbedding Single)
  pub model : Option Text

-- No reply, with the error and whether it was a timeout or a failed connection; or the status, the
-- body as text, and the body as JSON.
pub data Reply (Single : Type 0) : Type 0 where
  unreachable : Text → Bool → Reply Single
  replied : ℕ → Text → Result Text (ProviderResponse Single) → Reply Single

-- The request: the JSON payload, always with the encoding format float, and the bearer token.
pub record ProviderRequest : Type 0 where
  pub model : Text
  pub input : List Text
  pub dimensions : ℕ
  pub bearer_auth : Option Text

-- `data.sort_by_key(|item| item.index)`, which is stable.
unfoldable pub insert_item :
    {Single : Type 0}
    → ProviderEmbedding Single
    → List (ProviderEmbedding Single)
    → List (ProviderEmbedding Single)
insert_item item [] = item ∷ []
insert_item item (other ∷ items) =
    let later = insert_item item items in
    if leb item.index other.index then item ∷ other ∷ items else other ∷ later

unfoldable pub sort_items :
    {Single : Type 0} → List (ProviderEmbedding Single) → List (ProviderEmbedding Single)
sort_items [] = []
sort_items (item ∷ items) = insert_item item (sort_items items)

module _ (urls : Urls) where
  open urls use {Url, parse, view, host_str}

  unfoldable pub validate_endpoint : Url → Text → Result QueryEmbeddingError (Unit {0})
  validate_endpoint endpoint environment =
      check_endpoint (view endpoint) (host_str endpoint) environment

  -- `QueryEmbeddingService`, without the client.
  pub record QueryEmbeddingService : Type 0 where
    pub endpoint : Url
    pub api_key : Option Text
    pub model : Text
    pub dimensions : ℕ

  -- `client` is the result of the client's builder.
  unfoldable pub service_from_env :
      Environment
      → Result Text (Unit {0})
      → EmbeddingSpaceConfig
      → Text
      → Result QueryEmbeddingError (Option QueryEmbeddingService)
  service_from_env env client embedding_space environment =
      elim (nonempty_env env (text "EAL_EMBEDDING_ENDPOINT")) [
        | none ↦ ok none
        | some endpoint_value ↦ do
          endpoint ←
              map_err
                (λ error.
                  failure (text "invalid_embedding_endpoint")
                    (text "EAL_EMBEDDING_ENDPOINT is invalid: " ++ error) false)
                (parse endpoint_value)
          validate_endpoint endpoint environment
          map_err
              (λ error.
                failure (text "embedding_client_build_failed")
                  (text "could not build embedding HTTP client: " ++ error) false)
              client
          ok (
              some (record {
                endpoint = endpoint;
                api_key = nonempty_env env (text "EAL_EMBEDDING_API_KEY");
                model = embedding_space.model;
                dimensions = embedding_space.dimensions;
              }))
      ]

module _ (doubles : Doubles) (debug : Text → Text)
    (validate_input : EmbeddingInput → Result QueryAnalysisError (Unit {0})) (model : Text)
    (dimensions : ℕ) where
  open doubles use {Single}

  unfoldable pub validate_inputs : List EmbeddingInput → Result QueryEmbeddingError (Unit {0})
  validate_inputs [] = ok tt
  validate_inputs (input ∷ inputs) = do
    map_err (λ error. failure error.code error.message false) (validate_input input)
    validate_inputs inputs

  -- The vectors of the sorted items, whose indices count from `n`.
  unfoldable pub checked_vectors :
      ℕ → List (ProviderEmbedding Single) → Result QueryEmbeddingError (List (List Single))
  checked_vectors n [] = ok []
  checked_vectors n (item ∷ items) = do
    ensure (item.index == n) (
        failure (text "embedding_index_mismatch")
          (text "embedding provider returned non-contiguous indices") false)
    vector ← validate_vector doubles item.embedding dimensions
    vectors ← checked_vectors (suc n) items
    ok (vector ∷ vectors)

  -- `embed_inputs` behind the parsed response.
  unfoldable pub embed_response :
      List EmbeddingInput → ProviderResponse Single → Result QueryEmbeddingError (List Single)
  embed_response inputs response = do
    validate_provider_model debug response.model model
    let items = sort_items response.data_items
    ensure (length items == length inputs) (
        failure (text "embedding_count_mismatch")
          (text "embedding provider returned "
            ++ (decimal (length items)
                ++ (text " vectors for " ++ (decimal (length inputs) ++ text " inputs"))))
          false)
    vectors ← checked_vectors 0 items
    weighted_centroid doubles inputs vectors dimensions

  unfoldable pub read_reply : Reply Single → Result QueryEmbeddingError (ProviderResponse Single)
  read_reply (unreachable error transient) = err (
      failure (text "embedding_provider_unreachable")
        (text "embedding provider request failed: " ++ error) transient)
  read_reply (replied status body json) =
      if in_range 200 299 status
      then map_err
          (λ error.
            failure (text "invalid_embedding_provider_response")
              (text "embedding provider response was invalid JSON: " ++ error) false)
          json
      else err (
          failure (provider_error_code status)
            (text "embedding provider returned HTTP "
              ++ (decimal status ++ (text ": " ++ truncate body max_provider_error_chars)))
            (status == 429 || in_range 500 599 status))

  unfoldable pub payload : Option Text → List EmbeddingInput → ProviderRequest
  payload api_key inputs = record {
    model = model;
    input = map (λ (input : EmbeddingInput). input.text) inputs;
    dimensions = dimensions;
    bearer_auth = api_key;
  }

  unfoldable pub embed_inputs :
      Option Text
      → (ProviderRequest → Reply Single)
      → List EmbeddingInput
      → Result QueryEmbeddingError (List Single)
  embed_inputs api_key send inputs = do
    refuse (is_empty inputs) (
        failure (text "empty_embedding_inputs")
          (text "at least one query embedding input is required") false)
    validate_inputs inputs
    response ← read_reply (send (payload api_key inputs))
    embed_response inputs response
