-- ===== src/Embedding/Vectors.antt =====
-- The vectors that the provider returns, and their weighted centroid.
pub mod Dimensions
use eal_api.Prelude.{
  ℕ, zero, suc, Bool, not, ◌||◌, List, [], ◌∷◌, ◌++◌, map, any, length, ◌==◌, Result, ok, err,
  ◌>>=◌, ◌>>◌, refuse, ensure, false, true,
}
use eal_api.Text.{Text, text}
use eal_api.Alerts.{decimal}
use eal_api.Query.Analysis.{EmbeddingInput}
use eal_api.Embedding.{QueryEmbeddingError, failure}

pub record Doubles : Type 1 where
  -- `f32` and `f64`
  pub Single : Type 0
  pub Double : Type 0
  pub is_finite : Single → Bool
  -- `f64::from(x)` and `x as f32`
  pub widen : Single → Double
  pub narrow : Double → Single
  -- `f64::from(input.weight)`, for a weight in tenths
  pub weight_of : ℕ → Double
  pub zero_double : Double
  -- the sum of no values
  pub empty_sum : Double
  pub add : Double → Double → Double
  pub multiply : Double → Double → Double
  pub divide : Double → Double → Double
  -- `x.powi(2)`
  pub square : Double → Double
  pub sqrt : Double → Double
  -- `x <= f64::EPSILON`
  pub is_tiny : Double → Bool

module _ (doubles : Doubles) where
  open doubles use {
    Single, Double, is_finite, widen, narrow, weight_of, zero_double, empty_sum, add, multiply,
    divide, square, sqrt, is_tiny,
  }

  unfoldable pub sum_from : Double → List Double → Double
  sum_from total [] = total
  sum_from total (x ∷ xs) = sum_from (add total x) xs

  unfoldable pub norm : List Double → Double
  norm xs = sqrt (sum_from empty_sum (map square xs))

  unfoldable pub magnitude : List Single → Double
  magnitude vector = norm (map widen vector)

  unfoldable pub validate_vector : List Single → ℕ → Result QueryEmbeddingError (List Single)
  validate_vector vector expected_dimensions = do
    ensure (length vector == expected_dimensions) (
        failure (text "embedding_dimension_mismatch")
          (text "embedding provider returned "
            ++ (decimal (length vector)
                ++ (text " dimensions; expected " ++ decimal expected_dimensions)))
          false)
    refuse (any (λ value. not (is_finite value)) vector) (
        failure (text "invalid_embedding_values")
          (text "embedding provider returned non-finite values") false)
    refuse (is_tiny (magnitude vector)) (
        failure (text "zero_embedding_vector") (text "embedding provider returned a zero vector")
          false)
    ok vector

  -- `aggregate[index] += f64::from(*value) / magnitude * weight` over the vector.
  unfoldable pub add_scaled : List Double → List Single → Double → Double → List Double
  add_scaled aggregate [] size weight = aggregate
  add_scaled [] (value ∷ vector) size weight = []
  add_scaled (a ∷ aggregate) (value ∷ vector) size weight =
      add a (multiply (divide (widen value) size) weight) ∷ add_scaled aggregate vector size weight

  -- `vec![0.0; dimensions]`
  unfoldable pub zeroes : ℕ → List Double
  zeroes zero = []
  zeroes (suc n) = zero_double ∷ zeroes n

  -- The loop over the inputs and their vectors.
  unfoldable pub aggregate_loop :
      ℕ
      → List Double
      → Double
      → List EmbeddingInput
      → List (List Single)
      → Result QueryEmbeddingError (List Double × Double)
  aggregate_loop dimensions aggregate total [] vectors = ok (aggregate, total)
  aggregate_loop dimensions aggregate total (input ∷ inputs) [] = ok (aggregate, total)
  aggregate_loop dimensions aggregate total (input ∷ inputs) (vector ∷ vectors) = do
    ensure (length vector == dimensions) (
        failure (text "embedding_dimension_mismatch")
          (text "embedding vectors did not share one dimension") false)
    refuse (is_tiny (magnitude vector)) (
        failure (text "zero_embedding_vector") (text "embedding provider returned a zero vector")
          false)
    let weight = weight_of input.weight
    aggregate_loop dimensions (add_scaled aggregate vector (magnitude vector) weight)
        (add total weight) inputs vectors

  unfoldable pub weighted_centroid :
      List EmbeddingInput → List (List Single) → ℕ → Result QueryEmbeddingError (List Single)
  weighted_centroid inputs vectors dimensions = do
    refuse (not (length inputs == length vectors) || dimensions == 0) (
        failure (text "invalid_embedding_aggregation")
          (text "embedding inputs and vectors must have matching non-zero dimensions") false)
    (aggregate, total) ← aggregate_loop dimensions (zeroes dimensions) zero_double inputs vectors
    refuse (is_tiny total) (
        failure (text "invalid_embedding_weight")
          (text "query embedding weights must have a positive sum") false)
    let mean = map (λ value. divide value total) aggregate
    refuse (is_tiny (norm mean)) (
        failure (text "zero_embedding_centroid")
          (text "weighted query embedding collapsed to a zero vector") false)
    ok (map (λ value. narrow (divide value (norm mean))) mean)
