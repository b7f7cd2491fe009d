-- ===== src/Auth/Jwt/Soundness.antt =====
-- A token that verifies was signed with the secret, for this issuer and audience, and is current.
use eal_api.Prelude.{ℕ, ◌≤◌, ◌≡◌, true, false, not, some, List, ◌∷◌, ◌++◌, length, ok, and_then}
use eal_api.Prelude.Int.{ℤ}
use eal_api.Prelude.Ordered.{text_ord}
use eal_api.Prelude.TreeSet.{is_disjoint}
use eal_api.Text.{Text, text}
use eal_api.Headers.{Bytes, as_bytes}
use eal_api.Json
use eal_api.Json.{Json, as_str, as_object}
use eal_api.Uuids.{Uuids}
use eal_api.Auth.Context.{AuthContext}
use eal_api.Auth.Roles.{parse_roles}
use eal_api.Auth.Config.{JwtVerifier}
use eal_api.Auth.Jwt.Parts.{IsSplit, IsProtected, IsCurrent}
use eal_api.Auth.Jwt.{
  Codecs, Segments, max_header_bytes, max_claims_bytes, str_at, audience_matches, claim_at_path,
  subject_of,
}

module _ (uuids : Uuids) (codecs : Codecs) (v : JwtVerifier) where
  open uuids use {parse_str}
  open codecs use {base64_decode, json_from_slice, hmac_accepts, hmac_verifies}

  -- The signature part decodes to 32 bytes that authenticate the first two parts.
  pub record IsSigned (s : Segments) : Type 0 where
    pub tag : Bytes
    pub decoded : base64_decode s.signature ≡ some tag
    pub size : length tag ≡ 32
    pub accepted : hmac_accepts v.secret ≡ true
    pub verified : hmac_verifies v.secret (as_bytes (s.protected ++ (b'.' ∷ s.claims))) tag ≡ true

  -- The JSON value of a part, read from at most `limit` bytes.
  pub record IsDecoded (part : Text) (limit : ℕ) (value : Json) : Type 0 where
    pub bytes : Bytes
    pub decoded : base64_decode part ≡ some bytes
    pub size : length bytes ≤ limit
    pub parsed : json_from_slice bytes ≡ some value

  -- Tenant, subject and roles are those of the claims, some role is allowed, and the identity is
  -- an administrator exactly if one of its roles is an admin role.
  pub record IsIdentity (claims : Json) (subject : Text) (ctx : AuthContext) : Type 0 where
    pub tenant_text : Text
    pub tenant_claim : and_then (claim_at_path claims v.tenant_claim_path) as_str ≡ some tenant_text
    pub tenant : parse_str tenant_text ≡ some ctx.tenant_id
    pub subject_same : ctx.subject ≡ subject
    pub role_claim : Json
    pub role_given : claim_at_path claims v.role_claim_path ≡ some role_claim
    pub roles_parsed : parse_roles role_claim ≡ ok ctx.roles
    pub allowed : is_disjoint ctx.roles v.allowed_roles ≡ false
    pub admin : ctx.tenant_admin ≡ not (is_disjoint ctx.roles v.admin_roles)

  -- Everything that an accepted token has been checked for.
  pub record IsVerified (token : Text) (now : ℤ) (ctx : AuthContext) : Type 0 where
    pub segments : Segments
    pub split_parts : IsSplit token segments
    pub header : Json
    pub header_decoded : IsDecoded segments.protected max_header_bytes header
    pub header_fields : List (Text × Json)
    pub header_object : as_object header ≡ some header_fields
    pub header_protected : IsProtected header_fields
    pub signed : IsSigned segments
    pub claims : Json
    pub claims_decoded : IsDecoded segments.claims max_claims_bytes claims
    pub claim_fields : List (Text × Json)
    pub claims_object : as_object claims ≡ some claim_fields
    pub issuer : str_at (text "iss") claim_fields ≡ some v.issuer
    pub audience_claim : Json
    pub audience_given : Json.lookup (text "aud") claim_fields ≡ some audience_claim
    pub audience : audience_matches audience_claim v.audience ≡ true
    pub subject : subject_of (str_at (text "sub") claim_fields) ≡ some ctx.subject
    pub current : IsCurrent v.leeway_seconds now claim_fields
    pub identity : IsIdentity claims ctx.subject ctx
