-- ===== src/Store/Identity/Binding.antt =====
-- What a match key binds, and what the digest of a vector does not see.
use eal_api.Prelude.{
  ℕ, zero, suc, ◌+◌, ◌*◌, ◌-◌, ◌/◌, ◌%◌, ◌<◌, ◌≡◌, refl, sym, ap, ◌∙◌, [], ◌∷◌, ◌⊎◌, ◌≢◌, inl, inr,
  ◌==◌, arith,
}
use eal_api.Text.{Text, text}
use eal_api.Uuids.{Uuid, Uuids, uuid_limit}
use eal_api.Headers.{Bytes}
use eal_api.WorkerAuth.{Digests}
use eal_api.Alerts.{decimal, decimal_from}
use eal_api.Embedding.{VectorNormalization}
use eal_api.Store.Encoders.{Encoders}
use eal_api.Prelude.{Bool-cases, some}
use eal_api.Prelude.Ordered.{text_ord}
use eal_api.Prelude.TreeSet.{eqb, eqb_iff_eq, eqb_of_eq}
use eal_api.Store.Identity.{
  MatchIdentity, canonical_fields, match_key, sha256_hex, normalization_name,
}

-- The number that decimal digits are read as, from the value of those before.
abbrev value_from : ℕ → Text → ℕ
value_from v [] = v
value_from v (d ∷ ds) = value_from (v * 10 + (d - b'0')) ds

decimal_from-value :
    (fuel n v : ℕ) (ds : Text) → n < fuel → value_from 0 (decimal_from fuel n ds) ≡ value_from n ds
unfolding decimal_from
decimal_from-value zero n v ds h = absurd (omega (arith, h))
decimal_from-value (suc fuel) n v ds h = elim (Bool-cases (n / 10 == 0)) [
  | inl e ↦
      rw e (ap (λ m. value_from m ds) (let q : n / 10 ≡ 0 = ground (arith, e) in omega (arith, q)))
  | inr e ↦
      let q : n / 10 ≢ 0 = ground (arith, e) in
      rw e (
        decimal_from-value fuel (n / 10) v ((b'0' + n % 10) ∷ ds) (omega (arith, h, q))
        ∙ ap (λ m. value_from m ds) (omega arith))
]

decimal-value : (n : ℕ) → value_from 0 (decimal n) ≡ n
unfolding decimal
decimal-value n = decimal_from-value (suc n) n 0 [] (omega arith)

decimal-injective : (m n : ℕ) → decimal m ≡ decimal n → m ≡ n
decimal-injective m n h = sym (decimal-value m) ∙ ap (value_from 0) h ∙ decimal-value n

normalization_name-injective :
    (a b : VectorNormalization) → normalization_name a ≡ normalization_name b → a ≡ b
unfolding normalization_name text
normalization_name-injective VectorNormalization.none VectorNormalization.none h = refl
normalization_name-injective VectorNormalization.none VectorNormalization.l2 h = absurd (cc h)
normalization_name-injective VectorNormalization.none VectorNormalization.unit_length h =
    absurd (cc h)
normalization_name-injective VectorNormalization.l2 VectorNormalization.none h = absurd (cc h)
normalization_name-injective VectorNormalization.l2 VectorNormalization.l2 h = refl
normalization_name-injective VectorNormalization.l2 VectorNormalization.unit_length h =
    absurd (cc h)
normalization_name-injective VectorNormalization.unit_length VectorNormalization.none h =
    absurd (cc h)
normalization_name-injective VectorNormalization.unit_length VectorNormalization.l2 h =
    absurd (cc h)
normalization_name-injective VectorNormalization.unit_length VectorNormalization.unit_length h =
    refl

module _ (digests : Digests) (encoders : Encoders) (uuids : Uuids) where
  open digests use {sha256}
  open encoders use {hex_encode-injective, json_strings, json_strings-injective}

  to_text-injective :
      (u v : Uuid) → u < uuid_limit → v < uuid_limit → uuids.to_text u ≡ uuids.to_text v → u ≡ v
  to_text-injective u v h k e =
      let parsed : some u ≡ some v =
        sym (uuids.parse_str-to_text u h) ∙ ap uuids.parse_str e ∙ uuids.parse_str-to_text v k in
      cc parsed

  abbrev HasUuids : MatchIdentity → Type 0
  HasUuids i =
      (i.tenant_id < uuid_limit)
      × (i.alert_rule_id < uuid_limit)
      × (i.alert_rule_revision_id < uuid_limit)
      × (i.page_revision_id < uuid_limit)

  canonical_fields-injective :
      (i j : MatchIdentity)
      → HasUuids i
      → HasUuids j
      → canonical_fields digests encoders uuids i ≡ canonical_fields digests encoders uuids j
      → i ≡ j
  canonical_fields-injective i j (h₁, h₂, h₃, h₄) (k₁, k₂, k₃, k₄) e =
      let e₁ = to_text-injective i.tenant_id j.tenant_id h₁ k₁ (cc e) in
      let e₂ = to_text-injective i.alert_rule_id j.alert_rule_id h₂ k₂ (cc e) in
      let e₃ = to_text-injective i.alert_rule_revision_id j.alert_rule_revision_id h₃ k₃ (cc e) in
      let e₄ = to_text-injective i.page_revision_id j.page_revision_id h₄ k₄ (cc e) in
      let e₅ : i.content_sha256 ≡ j.content_sha256 = cc e in
      let e₆ : i.model ≡ j.model = cc e in
      let e₇ : i.model_version ≡ j.model_version = cc e in
      let e₈ = decimal-injective i.dimensions j.dimensions (cc e) in
      let e₉ = normalization_name-injective i.normalization j.normalization (cc e) in
      cc (e₁, e₂, e₃, e₄, e₅, e₆, e₇, e₈, e₉)

  abbrev pub Collision : Type 0
  Collision = (a : Bytes) × (b : Bytes) × (a ≢ b) × (sha256 a ≡ sha256 b)

  -- Two matches with the same key are the same match: the same tenant, rule, rule revision, page
  -- revision, content and model space. Otherwise the two exhibit a collision of SHA-256.
  pub match_key-injective :
      (i j : MatchIdentity)
      → HasUuids i
      → HasUuids j
      → match_key digests encoders uuids i ≡ match_key digests encoders uuids j
      → (i ≡ j) ⊎ Collision
  unfolding match_key sha256_hex
  match_key-injective i j h k e =
      let a = json_strings (canonical_fields digests encoders uuids i) in
      let b = json_strings (canonical_fields digests encoders uuids j) in
      elim (Bool-cases (eqb a b)) [
        | inl same ↦ inl (
            canonical_fields-injective i j h k (
              json_strings-injective (canonical_fields digests encoders uuids i)
                (canonical_fields digests encoders uuids j) (eqb_iff_eq a b same)))
        | inr differ ↦ inr (
          a,
          b,
          (λ q. absurd (cc (eqb_of_eq a b q, differ))),
          hex_encode-injective (sha256 a) (sha256 b) e,
        )
      ]
