-- ===== src/Auth/Credentials.antt =====
-- Where a token comes from: the Authorization header, the cookie, or (in development only) three
-- trusted headers; and `authenticate_at`, which chooses by the configured mode.
pub mod Agreement
pub mod Authenticated
use eal_api.Prelude.{
  ℕ, Bool, true, false, not, ◌&&◌, ◌||◌, Option, none, some, List, [], ◌∷◌, ltb, ◌==◌,
  if◌then◌else◌, is_empty, length, Result, ok, err, ◌>>=◌, ◌>>◌, refuse, ok_or, map_err,
}
use eal_api.Prelude.Int.{ℤ}
use eal_api.Prelude.Ordered.{text_ord}
use eal_api.Prelude.TreeSet.{eqb, contains}
use eal_api.Text.{
  Text, text, byte_length, trim, split, split_once, split_ascii_whitespace, to_ascii_lowercase,
}
use eal_api.Uuids.{Uuids}
use eal_api.Headers
use eal_api.Headers.{HeaderMap, HeaderText, HeaderValue}
use eal_api.HttpError
use eal_api.HttpError.{HttpError}
use eal_api.Tenant.{tenant_id_from_headers}
use eal_api.Auth.Context.{AuthContext}
use eal_api.Auth.Roles.{parse_role_set}
use eal_api.Auth.Config.{AuthMode, jwt_mode, insecure_headers_mode, AuthConfig}
use eal_api.Auth.Jwt.{Codecs, verify}

-- The pieces of an Authorization value: the scheme Bearer and one token.
unfoldable pub bearer_of : List Text → Result HttpError Text
bearer_of (scheme ∷ token ∷ []) =
    if eqb (to_ascii_lowercase scheme) (text "bearer")
    then ok token
    else err (HttpError.unauthorized (text "Authorization must use a single Bearer token"))
bearer_of other = err (HttpError.unauthorized (text "Authorization must use a single Bearer token"))

-- A second cookie of the configured name must repeat the first.
unfoldable pub agreeing : Option Text → Text → Result HttpError (Option Text)
agreeing none value = ok (some value)
agreeing (some existing) value =
    if eqb existing value
    then ok (some value)
    else err (HttpError.unauthorized (text "conflicting JWT cookies were supplied"))

-- One round of the loop over the pairs of a Cookie value.
unfoldable pub cookie_pair : Text → Option Text → Text → Result HttpError (Option Text)
cookie_pair cookie_name found pair = elim (split_once b'=' (trim pair)) [
  | none ↦ ok found
  | some (name, value) ↦
      if not (eqb name cookie_name)
      then ok found
      else if is_empty value
      then err (HttpError.unauthorized (text "JWT cookie must not be empty"))
      else agreeing found value
]

unfoldable pub cookie_pairs : Text → Option Text → List Text → Result HttpError (Option Text)
cookie_pairs cookie_name found [] = ok found
cookie_pairs cookie_name found (pair ∷ pairs) =
    cookie_pair cookie_name found pair >>= λ next. cookie_pairs cookie_name next pairs

-- `match (authorization, cookie)`
unfoldable pub choose_token : Option Text → Option Text → Result HttpError Text
choose_token (some authorization) (some cookie) =
    if eqb authorization cookie
    then ok authorization
    else err (HttpError.unauthorized (text "conflicting JWT credentials were supplied"))
choose_token (some token) none = ok token
choose_token none (some token) = ok token
choose_token none none = err (HttpError.unauthorized (text "missing bearer token"))

module _ (to_str : HeaderText) where
  unfoldable pub cookie_headers :
      Text → Option Text → List HeaderValue → Result HttpError (Option Text)
  cookie_headers cookie_name found [] = ok found
  cookie_headers cookie_name found (header ∷ headers) = do
    value ← ok_or (to_str header) (HttpError.unauthorized (text "invalid Cookie header"))
    next ← cookie_pairs cookie_name found (split (λ c. c == b';') value)
    cookie_headers cookie_name next headers

  unfoldable pub cookie_token : HeaderMap → Text → Result HttpError (Option Text)
  cookie_token headers cookie_name = cookie_headers cookie_name none (headers (text "cookie"))

  unfoldable pub authorization_token : Option HeaderValue → Result HttpError (Option Text)
  authorization_token none = ok none
  authorization_token (some raw) = do
    value ← ok_or (to_str raw) (HttpError.unauthorized (text "invalid Authorization header"))
    token ← bearer_of (split_ascii_whitespace value)
    ok (some token)

  unfoldable pub extract_token : HeaderMap → Text → Result HttpError Text
  extract_token headers cookie_name = do
    let values = headers (text "authorization")
    refuse (ltb 1 (length values))
        (HttpError.unauthorized (text "multiple Authorization headers are not allowed"))
    authorization ← authorization_token (Headers.first values)
    cookie ← cookie_token headers cookie_name
    choose_token authorization cookie

  -- `headers.get(name).ok_or(missing)?.to_str().map_err(invalid)?`
  unfoldable pub header_text : HeaderMap → Text → Text → Text → Result HttpError Text
  header_text headers name missing invalid = do
    raw ← ok_or (Headers.get headers name) (HttpError.unauthorized missing)
    ok_or (to_str raw) (HttpError.unauthorized invalid)

  module _ (uuids : Uuids) where
    unfoldable pub insecure_context : HeaderMap → Result HttpError AuthContext
    insecure_context headers = do
      tenant_id ← tenant_id_from_headers uuids to_str headers
      raw ←
          header_text headers (text "x-eal-subject-id") (text "missing X-Eal-Subject-Id header")
            (text "invalid X-Eal-Subject-Id header")
      let subject = trim raw
      refuse (is_empty subject || ltb 256 (byte_length subject))
          (HttpError.unauthorized (text "X-Eal-Subject-Id must contain between 1 and 256 bytes"))
      roles_value ←
          header_text headers (text "x-eal-roles") (text "missing X-Eal-Roles header")
            (text "invalid X-Eal-Roles header")
      roles ← map_err HttpError.unauthorized (parse_role_set roles_value)
      refuse (is_empty roles)
          (HttpError.unauthorized (text "X-Eal-Roles must contain at least one role"))
      ok (record {
        tenant_id = tenant_id;
        subject = subject;
        roles = roles;
        tenant_admin = contains (text "admin") roles || contains (text "owner") roles;
      })

    unfoldable pub authenticate_mode :
        Codecs → AuthMode → Text → HeaderMap → ℤ → Result HttpError AuthContext
    authenticate_mode codecs (jwt_mode verifier) cookie_name headers now = do
      token ← extract_token headers cookie_name
      map_err (λ _. HttpError.unauthorized (text "invalid bearer token"))
          (verify uuids codecs verifier token now)
    authenticate_mode codecs insecure_headers_mode cookie_name headers now =
        insecure_context headers

    unfoldable pub authenticate_at :
        Codecs → AuthConfig → HeaderMap → ℤ → Result HttpError AuthContext
    authenticate_at codecs config headers now =
        authenticate_mode codecs config.mode config.cookie_name headers now
