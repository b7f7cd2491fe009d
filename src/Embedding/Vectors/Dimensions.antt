-- ===== src/Embedding/Vectors/Dimensions.antt =====
-- A centroid has the configured dimensions.
use eal_api.Prelude.{
  ℕ, zero, suc, ◌≡◌, refl, sym, ap, ◌∙◌, Bool, true, false, not, ◌||◌, List, [], ◌∷◌, map, arith,
  any, All, All-map, any-false→All, length, ◌==◌, ==_iff, ok, >>=-eq-ok, ensure-then, refuse-then,
}
use eal_api.Query.Analysis.{EmbeddingInput}
use eal_api.Embedding.Vectors.{
  Doubles, norm, magnitude, validate_vector, add_scaled, zeroes, aggregate_loop, weighted_centroid,
}

pub length-map {ℓ κ} :
    {A : Type ℓ} {B : Type κ} (f : A → B) (xs : List A) → length (map f xs) ≡ length xs
length-map f [] = refl
length-map f (x ∷ xs) = ap suc (length-map f xs)

not-false : (b : Bool) → not b ≡ false → b ≡ true
not-false b h = ground arith

module _ (doubles : Doubles) where
  open doubles use {Single, Double, is_finite, is_tiny}

  pub validate_vector-eq-ok :
      (vector out : List Single) (dimensions : ℕ)
      → validate_vector doubles vector dimensions ≡ ok out
      → (out ≡ vector) × (length vector ≡ dimensions) × All (λ value. is_finite value ≡ true) vector
  unfolding validate_vector
  validate_vector-eq-ok vector out dimensions h =
      let (size, h1) = ensure-then (length vector == dimensions) _ _ h in
      let (finite, h2) = refuse-then (any (λ value. not (is_finite value)) vector) _ _ h1 in
      let (_, last) = refuse-then (is_tiny (magnitude doubles vector)) _ (λ u. ok vector) h2 in
      (
        sym (cc last),
        (==_iff (length vector) dimensions).0 size,
        All-map (λ value. not-false (is_finite value)) vector (any-false→All _ vector finite),
      )

  length-add_scaled :
      (aggregate : List Double) (vector : List Single) (size weight : Double)
      → length (add_scaled doubles aggregate vector size weight) ≡ length aggregate
  unfolding add_scaled
  length-add_scaled aggregate [] size weight = refl
  length-add_scaled [] (value ∷ vector) size weight = refl
  length-add_scaled (a ∷ aggregate) (value ∷ vector) size weight =
      ap suc (length-add_scaled aggregate vector size weight)

  length-zeroes : (n : ℕ) → length (zeroes doubles n) ≡ n
  unfolding zeroes
  length-zeroes zero = refl
  length-zeroes (suc n) = ap suc (length-zeroes n)

  length-aggregate_loop :
      (dimensions : ℕ) (aggregate out : List Double) (total sum : Double)
      (inputs : List EmbeddingInput) (vectors : List (List Single))
      → aggregate_loop doubles dimensions aggregate total inputs vectors ≡ ok (out, sum)
      → length out ≡ length aggregate
  unfolding aggregate_loop
  length-aggregate_loop d aggregate out total sum [] vectors h = ap length (sym (cc h))
  length-aggregate_loop d aggregate out total sum (input ∷ inputs) [] h = ap length (sym (cc h))
  length-aggregate_loop d aggregate out total sum (input ∷ inputs) (vector ∷ vectors) h =
      let (_, h1) = ensure-then (length vector == d) _ _ h in
      let size = magnitude doubles vector in
      let weight = doubles.weight_of input.weight in
      let (_, h2) = refuse-then (is_tiny size) _ _ h1 in
      length-aggregate_loop d (add_scaled doubles aggregate vector size weight) out
        (doubles.add total weight) sum inputs vectors h2
      ∙ length-add_scaled aggregate vector size weight

  pub length-weighted_centroid :
      (inputs : List EmbeddingInput) (vectors : List (List Single)) (dimensions : ℕ)
      (out : List Single)
      → weighted_centroid doubles inputs vectors dimensions ≡ ok out
      → length out ≡ dimensions
  unfolding weighted_centroid
  length-weighted_centroid inputs vectors d out h =
      let (_, h1) = refuse-then (not (length inputs == length vectors) || d == 0) _ _ h in
      let ((aggregate, total), built, h2) =
        >>=-eq-ok (aggregate_loop doubles d (zeroes doubles d) doubles.zero_double inputs vectors) _
          h1 in
      let (_, h3) = refuse-then (is_tiny total) _ _ h2 in
      let mean = map (λ value. doubles.divide value total) aggregate in
      let narrowed =
        map (λ value. doubles.narrow (doubles.divide value (norm doubles mean))) mean in
      let (_, last) = refuse-then (is_tiny (norm doubles mean)) _ (λ u. ok narrowed) h3 in
      let same : narrowed ≡ out = cc last in
      ap length (sym same)
      ∙ length-map _ mean
      ∙ length-map _ aggregate
      ∙ length-aggregate_loop d (zeroes doubles d) aggregate _ total inputs vectors built
      ∙ length-zeroes d
