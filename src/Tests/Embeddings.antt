-- ===== src/Tests/Embeddings.antt =====
-- An endpoint and a reply of the embedding provider, with whole numbers for floats, which
-- are not divided.
use eal_api.Prelude.{
  ℕ, ◌+◌, ◌*◌, ◌≡◌, refl, true, false, none, some, List, [], ◌∷◌, ◌==◌, if◌then◌else◌, ok,
}
use eal_api.Prelude.Ordered.{text_ord, text_cmp}
use eal_api.Prelude.TreeSet.{eqb}
use eal_api.Text.{text, trim, trim_matches, trim_start_matches, trim_end_matches, is_whitespace}
use eal_api.Auth.Config.{Environment}
use eal_api.Query.Analysis.{EmbeddingInput, query, keyword}
use eal_api.Embedding.{EmbeddingSpaceConfig, l2}
use eal_api.Embedding.Vectors.{
  Doubles, sum_from, norm, magnitude, validate_vector, add_scaled, zeroes, aggregate_loop,
  weighted_centroid,
}
use eal_api.Embedding.Service.{
  nonempty_env, check_endpoint, validate_endpoint, validate_provider_model, insert_item, sort_items,
  validate_inputs, checked_vectors, embed_response, read_reply, embed_inputs, payload, Reply,
  replied, QueryEmbeddingService, service_from_env,
}
use eal_api.Embedding.Service.Replies.{
  IsSecure, service_from_env-IsSecure, IsEmbedded, embed_inputs-IsEmbedded,
}
use eal_api.Tests.Sites.{places, place_view}

unfoldable whole : Doubles
whole = record {
  Single = ℕ;
  Double = ℕ;
  is_finite = λ n. true;
  widen = λ n. n;
  narrow = λ n. n;
  weight_of = λ n. n;
  zero_double = 0;
  empty_sum = 0;
  add = ◌+◌;
  multiply = ◌*◌;
  divide = λ m n. m;
  square = λ n. n * n;
  sqrt = λ n. n;
  is_tiny = λ n. n == 0;
}

abbrev inputs : List EmbeddingInput
inputs =
    record { kind = query; ordinal = 0; text = text "open models"; weight = 12 }
    ∷ record { kind = keyword; ordinal = 1; text = text "models"; weight = 6 }
    ∷ []

unfoldable reply : Reply whole.Single
unfolding whole text
reply = replied 200 [] (
    ok (record {
      data_items =
          record { index = 1; embedding = 0 ∷ 1 ∷ [] }
          ∷ record { index = 0; embedding = 3 ∷ 0 ∷ [] }
          ∷ [];
      model = some (text "m1");
    }))

unfoldable centroid : List whole.Single
unfolding whole
centroid = 36 ∷ 6 ∷ []

embed_run :
    embed_inputs whole (λ s. s) (λ input. ok tt) (text "m1") 2 none (λ request. reply) inputs
    ≡ ok centroid
unfolding embed_inputs embed_response read_reply validate_inputs validate_provider_model sort_items
    insert_item checked_vectors validate_vector weighted_centroid aggregate_loop add_scaled zeroes
    magnitude norm sum_from whole reply centroid text text_cmp
embed_run = refl

embed_inputs-IsEmbedded_example :
    IsEmbedded whole
      (λ s. s)
      (λ input. ok tt)
      (text "m1")
      2
      (payload whole (λ s. s) (λ input. ok tt) (text "m1") 2 none inputs)
      (λ request. reply)
      inputs
      centroid
embed_inputs-IsEmbedded_example =
    embed_inputs-IsEmbedded whole (λ s. s) (λ input. ok tt) (text "m1") 2 none (λ request. reply)
      inputs centroid embed_run

unfoldable env : Environment
unfolding text text_cmp
env name = if eqb name (text "EAL_EMBEDDING_ENDPOINT") then some (text " 10") else none

unfoldable space : EmbeddingSpaceConfig
unfolding text
space = record {
  provider = text "local";
  model = text "m1";
  model_version = text "1";
  dimensions = 2;
  normalization = l2;
}

unfoldable service : QueryEmbeddingService places
unfolding text places
service = record {
  endpoint = record { root = true; port = false; fragment = none };
  api_key = none;
  model = text "m1";
  dimensions = 2;
}

service_run : service_from_env places env (ok tt) space (text "production") ≡ ok (some service)
unfolding service_from_env nonempty_env validate_endpoint check_endpoint places place_view env space
    service text text_cmp trim trim_matches trim_start_matches trim_end_matches is_whitespace
service_run = refl

service_from_env-IsSecure_example :
    IsSecure (places.view service.endpoint) (places.host_str service.endpoint) (text "production")
    × (service.model ≡ space.model)
    × (service.dimensions ≡ space.dimensions)
service_from_env-IsSecure_example =
    service_from_env-IsSecure places env (ok tt) space (text "production") service service_run
