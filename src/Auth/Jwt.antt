-- ===== src/Auth/Jwt.antt =====
-- `JwtVerifier::verify`. Base64, JSON and HMAC-SHA256 are libraries: `Codecs` names what is called.
pub mod Parts
pub mod Soundness
use eal_api.Prelude.{
  ℕ, ◌*◌, ◌≡◌, Bool, true, false, not, ◌&&◌, ◌||◌, Option, none, some, List, [], ◌∷◌, ◌++◌, ltb,
  ◌==◌, if◌then◌else◌, is_empty, length, any, Result, ok, err, ◌>>=◌, ◌>>◌, ensure, refuse, ok_or,
}
use eal_api.Prelude.Int.{ℤ, pos, int_leb, int_gtb, fits_i64, saturating_add, saturating_sub}
use eal_api.Prelude.Ordered.{text_ord}
use eal_api.Prelude.TreeSet.{eqb, is_disjoint}
use eal_api.Text.{Text, text, byte_length, trim, split, to_ascii_lowercase, is_ascii_whitespace}
use eal_api.Headers.{Bytes, as_bytes}
use eal_api.Json
use eal_api.Json.{Json, str, arr, items, as_str, as_object, as_i64, as_u64}
use eal_api.Uuids.{Uuid, Uuids}
use eal_api.Auth.Context.{AuthContext}
use eal_api.Auth.Roles.{parse_roles}
use eal_api.Auth.Config.{JwtVerifier}

abbrev pub max_token_bytes : ℕ
max_token_bytes = 16 * 1024

abbrev pub max_header_bytes : ℕ
max_header_bytes = 4 * 1024

abbrev pub max_claims_bytes : ℕ
max_claims_bytes = 64 * 1024

pub record Codecs : Type 0 where
  -- `URL_SAFE_NO_PAD.decode(s).ok()`
  pub base64_decode : Text → Option Bytes
  -- `serde_json::from_slice(bytes).ok()`
  pub json_from_slice : Bytes → Option Json
  -- `HmacSha256::new_from_slice(key).is_ok()`
  pub hmac_accepts : Bytes → Bool
  -- `mac.verify_slice(tag).is_ok()` after `mac.update(message)`
  pub hmac_verifies : (key message tag : Bytes) → Bool

-- `Err(())`
abbrev pub Unchecked : Type 0 → Type 0
Unchecked A = Result (Unit {0}) A

unfoldable pub next_segment : List Text → Unchecked (Text × List Text)
next_segment [] = err tt
next_segment (segment ∷ rest) = if is_empty segment then err tt else ok (segment, rest)

pub record Segments : Type 0 where
  pub protected : Text
  pub claims : Text
  pub signature : Text

unfoldable pub split_token : Text → Unchecked Segments
split_token token = do
  refuse (ltb max_token_bytes (byte_length token) || any is_ascii_whitespace (as_bytes token)) tt
  (protected, rest) ← next_segment (split (λ c. c == b'.') token)
  (claims, rest') ← next_segment rest
  (signature, rest'') ← next_segment rest'
  ensure (is_empty rest'') tt
  ok (record { protected = protected; claims = claims; signature = signature })

abbrev pub str_is : Option Text → Text → Bool
str_is none expected = false
str_is (some s) expected = eqb s expected

abbrev pub str_at : Text → List (Text × Json) → Option Text
str_at key object = elim (Json.lookup key object) [ none ↦ none | some v ↦ as_str v ]

abbrev pub is_some {ℓ} : {A : Type ℓ} → Option A → Bool
is_some none = false
is_some (some a) = true

-- A `typ` that is a string other than JWT; another kind of value passes.
abbrev pub typ_is_other : Option Text → Bool
typ_is_other none = false
typ_is_other (some s) = not (eqb (to_ascii_lowercase s) (text "jwt"))

unfoldable pub check_protected : List (Text × Json) → Unchecked (Unit {0})
check_protected object = do
  ensure (str_is (str_at (text "alg") object) (text "HS256")) tt
  refuse (typ_is_other (str_at (text "typ") object)) tt
  refuse (is_some (Json.lookup (text "crit") object)) tt

unfoldable pub audience_matches : Json → Text → Bool
audience_matches (str value) expected = eqb value expected
audience_matches (arr values) expected =
    any (λ value. str_is (as_str value) expected) (items values)
audience_matches other expected = false

abbrev pub or_else {ℓ} : {A : Type ℓ} → Option A → Option A → Option A
or_else none other = other
or_else (some a) other = some a

-- `i64::try_from(value).ok()` on a `u64`.
abbrev pub i64_of_u64 : Option ℕ → Option ℤ
i64_of_u64 none = none
i64_of_u64 (some n) = if fits_i64 (pos n) then some (pos n) else none

unfoldable pub integer_claim : Json → Unchecked ℤ
integer_claim value = ok_or (or_else (as_i64 value) (i64_of_u64 (as_u64 value))) tt

unfoldable pub claim_at_path : Json → List Text → Option Json
claim_at_path value [] = some value
claim_at_path value (part ∷ path) = elim (Json.get part value) [
  | none ↦ none
  | some current ↦ claim_at_path current path
]

abbrev pub subject_of : Option Text → Option Text
subject_of none = none
subject_of (some raw) =
    let value = trim raw in
    if is_empty value || ltb 256 (byte_length value) then none else some value

-- `if let Some(claim) = claim && integer_claim(claim)? > limit { return Err(()) }`
unfoldable pub not_after : Option Json → ℤ → Unchecked (Unit {0})
not_after none limit = ok tt
not_after (some claim) limit = integer_claim claim >>= λ time. refuse (int_gtb time limit) tt

module _ (uuids : Uuids) (codecs : Codecs) (verifier : JwtVerifier) where
  open uuids use {parse_str}
  open codecs use {base64_decode, json_from_slice, hmac_accepts, hmac_verifies}

  unfoldable pub check_signature : Segments → Unchecked (Unit {0})
  check_signature s = do
    signature ← ok_or (base64_decode s.signature) tt
    ensure (length signature == 32) tt
    ensure (hmac_accepts verifier.secret) tt
    ensure (hmac_verifies verifier.secret (as_bytes (s.protected ++ (b'.' ∷ s.claims))) signature)
        tt

  -- The JSON object of a segment within its size.
  unfoldable pub decode_json : Text → ℕ → Unchecked Json
  decode_json segment limit = do
    bytes ← ok_or (base64_decode segment) tt
    refuse (ltb limit (length bytes)) tt
    ok_or (json_from_slice bytes) tt

  unfoldable pub check_times : List (Text × Json) → ℤ → Unchecked (Unit {0})
  check_times object now = do
    exp ← ok_or (Json.lookup (text "exp") object) tt
    expiration ← integer_claim exp
    refuse (int_leb expiration (saturating_sub now verifier.leeway_seconds)) tt
    not_after (Json.lookup (text "nbf") object) (saturating_add now verifier.leeway_seconds)
    not_after (Json.lookup (text "iat") object) (saturating_add now verifier.leeway_seconds)

  unfoldable pub check_identity : Json → Text → Unchecked AuthContext
  check_identity claims subject = do
    tenant_claim ← ok_or (claim_at_path claims verifier.tenant_claim_path) tt
    tenant ← ok_or (as_str tenant_claim) tt
    tenant_id ← ok_or (parse_str tenant) tt
    role_claim ← ok_or (claim_at_path claims verifier.role_claim_path) tt
    roles ← parse_roles role_claim
    refuse (is_disjoint roles verifier.allowed_roles) tt
    ok (record {
      tenant_id = tenant_id;
      subject = subject;
      roles = roles;
      tenant_admin = not (is_disjoint roles verifier.admin_roles);
    })

  unfoldable pub check_claims : Json → ℤ → Unchecked AuthContext
  check_claims claims now = do
    object ← ok_or (as_object claims) tt
    ensure (str_is (str_at (text "iss") object) verifier.issuer) tt
    aud ← ok_or (Json.lookup (text "aud") object) tt
    ensure (audience_matches aud verifier.audience) tt
    subject ← ok_or (subject_of (str_at (text "sub") object)) tt
    check_times object now
    check_identity claims subject

  unfoldable pub verify : Text → ℤ → Unchecked AuthContext
  verify token now = do
    segments ← split_token token
    header ← decode_json segments.protected max_header_bytes
    protected ← ok_or (as_object header) tt
    check_protected protected
    check_signature segments
    claims ← decode_json segments.claims max_claims_bytes
    check_claims claims now
