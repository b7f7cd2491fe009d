-- ===== src/WorkerAuth/Digest.antt =====
-- The comparison in constant time is equality, and who is let in by it.
use Prim.Native.Nat.{bit_xor, bit_or}
use eal_api.Prelude.{
  ℕ, ◌≡◌, ◌↔◌, refl, sym, ◌∙◌, true, not, ◌||◌, inl, inr, some, [], ◌∷◌, arith, Bool-cases, ◌==◌,
  ==_iff, in_range, length, ok, >>=-eq-ok, refuse, ok_or, all, ok_or-then, ok_or-eq-ok,
  map_err-then, map_err-eq-ok, ensure-eq-ok,
}
use eal_api.Prelude.Bits.{bit_xor_zero, bit_xor_self, bit_or_zero}
use eal_api.Text.{Text, text, trim, byte_length, is_ascii_hexdigit}
use eal_api.Headers
use eal_api.Headers.{Bytes, HeaderMap, HeaderValue, as_bytes}
use eal_api.Auth.Config.{Environment}
use eal_api.WorkerAuth.{
  min_token_bytes, max_token_bytes, Digests, difference_from, fixed_time_eq,
  parse_configured_digest, configured_digest, token_matches, authorize,
}

difference_from_zero :
    (d : ℕ) (left right : Bytes)
    → length left ≡ length right
    → difference_from d left right ≡ 0
    → (d ≡ 0) × (left ≡ right)
unfolding difference_from
difference_from_zero d [] [] same h = (h, refl)
difference_from_zero d [] (r ∷ right) same h = absurd (omega (arith, same))
difference_from_zero d (l ∷ left) [] same h = absurd (omega (arith, same))
difference_from_zero d (l ∷ left) (r ∷ right) same h =
    let (z, rest) =
      difference_from_zero (bit_or d (bit_xor l r)) left right (omega (arith, same)) h in
    let (none_before, none_here) = bit_or_zero d (bit_xor l r) z in
    (none_before, cc (bit_xor_zero l r none_here, rest))

difference_from_self : (left : Bytes) → difference_from 0 left left ≡ 0
unfolding difference_from
difference_from_self [] = refl
difference_from_self (l ∷ left) = rw (bit_xor_self l) (difference_from_self left)

-- The comparison that reads every byte accepts exactly equal digests of the same length.
pub fixed_time_eq_iff :
    (left right : Bytes)
    → length left ≡ length right
    → (fixed_time_eq left right ≡ true) ↔ (left ≡ right)
unfolding fixed_time_eq
fixed_time_eq_iff left right same = (
  λ h. (difference_from_zero 0 left right same ((==_iff _ 0).0 h)).1,
  λ e. rw (← e) ((==_iff _ 0).1 (difference_from_self left)),
)

module _ (digests : Digests) where
  open digests use {sha256, hex_decode}

  parse_configured_digest-length :
      (value : Text) (digest : Bytes)
      → parse_configured_digest digests value ≡ ok digest
      → length digest ≡ 32
  unfolding parse_configured_digest
  parse_configured_digest-length value digest h =
      let test =
        not (byte_length (trim value) == 64)
        || not (all is_ascii_hexdigit (as_bytes (trim value))) in
      let (_, _, h1) =
        >>=-eq-ok
          (refuse test (text "ingest token digest must contain exactly 64 hexadecimal characters"))
          (λ _.
            ok_or (hex_decode (trim value)) (text "ingest token digest must be valid hexadecimal"))
          h in
      digests.length-hex_decode (trim value) digest (ok_or-eq-ok (hex_decode (trim value)) _ h1)

  configured_digest-length :
      (env : Environment) (digest : Bytes)
      → configured_digest digests env ≡ ok digest
      → length digest ≡ 32
  unfolding configured_digest
  configured_digest-length env digest h =
      let (value, given, h1) = ok_or-then (env (text "EAL_INGEST_TOKEN_SHA256")) _ _ h in
      parse_configured_digest-length value digest
        (map_err-eq-ok _ (parse_configured_digest digests value) h1)

  token_matches_iff :
      (expected : Bytes) (token : HeaderValue)
      → length expected ≡ 32
      → (token_matches digests expected token ≡ true) ↔ (
          (in_range min_token_bytes max_token_bytes (length token) ≡ true)
          × (sha256 token ≡ expected))
  unfolding token_matches
  token_matches_iff expected token size =
      let (to, from) =
        fixed_time_eq_iff expected (sha256 token) (size ∙ sym (digests.length-sha256 token)) in
      elim (Bool-cases (in_range min_token_bytes max_token_bytes (length token))) [
        | inl fits ↦ rw fits (λ h. (refl, sym (to h)), λ h. from (sym h.1))
        | inr long ↦ rw long (λ h. absurd (cc h), λ h. absurd (cc (h.0)))
      ]

  -- A crawler is let in exactly if a digest is configured and the request's token has 32 to 512
  -- bytes and this SHA-256 digest.
  pub authorize-eq-ok_iff :
      (env : Environment) (headers : HeaderMap)
      → (authorize digests env headers ≡ ok tt) ↔ (
          (token : HeaderValue) × (Headers.get headers (text "x-eal-ingest-token") ≡ some token)
          × (in_range min_token_bytes max_token_bytes (length token) ≡ true)
          × (configured_digest digests env ≡ ok (sha256 token)))
  unfolding authorize
  authorize-eq-ok_iff env headers = (
    λ h.
        let (expected, configured, h1) = map_err-then _ (configured_digest digests env) _ h in
        let (token, given, h2) =
          ok_or-then (Headers.get headers (text "x-eal-ingest-token")) _ _ h1 in
        let (fits, same) =
          (token_matches_iff expected token (configured_digest-length env expected configured)).0
            (ensure-eq-ok (token_matches digests expected token) _ h2) in
        (token, given, fits, rw same configured),
    λ h.
        let (token, given, fits, configured) = h in
        let matches : token_matches digests (sha256 token) token ≡ true =
          (token_matches_iff (sha256 token) token (digests.length-sha256 token)).1 (fits, refl) in
        rw (configured, given, matches) refl,
  )
