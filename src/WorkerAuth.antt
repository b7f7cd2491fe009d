-- ===== src/WorkerAuth.antt =====
-- src/worker_auth.rs: a crawler is known by a token whose SHA-256 digest is configured. SHA-256
-- and the hexadecimal decoder are libraries: `Digests` names them.
pub mod Digest
use Prim.Native.Nat.{bit_xor, bit_or}
use eal_api.Prelude.{
  ℕ, ◌≡◌, Bool, true, false, not, ◌||◌, ◌&&◌, Option, none, some, List, [], ◌∷◌, ◌==◌, in_range,
  if◌then◌else◌, length, all, Result, ok, err, ◌>>=◌, ◌>>◌, refuse, ensure, ok_or, map_err,
}
use eal_api.Text.{Text, text, byte_length, trim, is_ascii_hexdigit}
use eal_api.Headers
use eal_api.Headers.{Bytes, HeaderMap, HeaderValue, as_bytes}
use eal_api.HttpError
use eal_api.HttpError.{HttpError}
use eal_api.Auth.Config.{Environment}

abbrev pub min_token_bytes : ℕ
min_token_bytes = 32

abbrev pub max_token_bytes : ℕ
max_token_bytes = 512

pub record Digests : Type 0 where
  pub sha256 : Bytes → Bytes
  pub length-sha256 : (bytes : Bytes) → length (sha256 bytes) ≡ 32
  -- `hex::decode_to_slice(s, &mut [0; 32])`, with the slice that it fills
  pub hex_decode : Text → Option Bytes
  pub length-hex_decode : (s : Text) (bytes : Bytes) → hex_decode s ≡ some bytes → length bytes ≡ 32

-- The fold over the zipped bytes, from the difference so far.
unfoldable pub difference_from : ℕ → Bytes → Bytes → ℕ
difference_from difference [] right = difference
difference_from difference (l ∷ left) [] = difference
difference_from difference (l ∷ left) (r ∷ right) =
    difference_from (bit_or difference (bit_xor l r)) left right

unfoldable pub fixed_time_eq : Bytes → Bytes → Bool
fixed_time_eq left right = difference_from 0 left right == 0

unfoldable pub invalid_credentials : HttpError
invalid_credentials = HttpError.unauthorized (text "invalid crawler credentials")

abbrev pub is_ok {ℓ κ} : {E : Type ℓ} {A : Type κ} → Result E A → Bool
is_ok (ok a) = true
is_ok (err e) = false

module _ (digests : Digests) where
  open digests use {sha256, hex_decode}

  unfoldable pub parse_configured_digest : Text → Result Text Bytes
  parse_configured_digest raw = do
    let value = trim raw
    refuse (not (byte_length value == 64) || not (all is_ascii_hexdigit (as_bytes value)))
        (text "ingest token digest must contain exactly 64 hexadecimal characters")
    ok_or (hex_decode value) (text "ingest token digest must be valid hexadecimal")

  unfoldable pub configured_digest : Environment → Result (Unit {0}) Bytes
  configured_digest env = do
    value ← ok_or (env (text "EAL_INGEST_TOKEN_SHA256")) tt
    map_err (λ _. tt) (parse_configured_digest value)

  unfoldable pub is_configured : Environment → Bool
  is_configured env = is_ok (configured_digest env)

  unfoldable pub token_matches : Bytes → HeaderValue → Bool
  token_matches expected token =
      if in_range min_token_bytes max_token_bytes (length token)
      then fixed_time_eq expected (sha256 token)
      else false

  unfoldable pub authorize : Environment → HeaderMap → Result HttpError (Unit {0})
  authorize env headers = do
    expected ← map_err (λ _. HttpError.ingest_auth_required) (configured_digest env)
    token ← ok_or (Headers.get headers (text "x-eal-ingest-token")) invalid_credentials
    ensure (token_matches expected token) invalid_credentials
