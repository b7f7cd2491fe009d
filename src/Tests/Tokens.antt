-- ===== src/Tests/Tokens.antt =====
-- A token that verifies under a toy signature, and a request that carries it twice.
use eal_api.Prelude.{
  ◌+◌, ◌≡◌, refl, true, Option, none, some, [], ◌∷◌, length, take, if◌then◌else◌, ok,
}
use eal_api.Prelude.Int.{pos}
use eal_api.Prelude.Ordered.{text_ord, text_cmp}
use eal_api.Prelude.TreeSet.{eqb}
use eal_api.Text.{
  Text, text, trim, trim_matches, trim_start_matches, trim_end_matches, is_whitespace, split,
  extend_head, split_once, split_ascii_whitespace, to_ascii_lowercase, ascii_lower,
  is_ascii_whitespace,
}
use eal_api.Headers.{Bytes, HeaderMap}
use eal_api.Json.{Json, str, int, obj, field, end}
use eal_api.Auth.Context.{AuthContext}
use eal_api.Auth.Jwt.{Codecs}
use eal_api.Auth.Credentials.{
  bearer_of, agreeing, cookie_pair, cookie_pairs, choose_token, cookie_headers, cookie_token,
  authorization_token, extract_token,
}
use eal_api.Prelude.{◌++◌}
use eal_api.Auth.Config.{AuthConfig, jwt_mode}
use eal_api.Auth.Credentials.Agreement.{IsAgreed, extract_token-IsAgreed}
use eal_api.Tests.Instances.{zeros, ascii_text}
use eal_api.Tests.Config.{verifier}

unfoldable protected_json : Json
unfolding text
protected_json = obj (field (text "alg") (str (text "HS256")) end)

unfoldable claims_json : Json
unfolding text
claims_json = obj (
    field (text "iss") (str (text "issuer")) (
      field (text "aud") (str (text "api")) (
        field (text "sub") (str (text " user ")) (
          field (text "exp") (int (pos 1000)) (
            field (text "app") (obj (field (text "tenant") (str (text "000")) end))
              (field (text "role") (str (text "Admin")) end))))))

-- The header is written h and the claims c.
abbrev parse : Bytes → Option Json
parse bytes =
    if eqb bytes (b'h' ∷ [])
    then some protected_json
    else if eqb bytes (b'c' ∷ [])
    then some claims_json
    else none

-- A tag holds the length of the message and 31 bytes of the key.
abbrev tag_of : Bytes → Bytes → Bytes
tag_of key message = (b'0' + length message) ∷ take 31 key

unfoldable codecs : Codecs
unfolding protected_json claims_json text_cmp
codecs = record {
  base64_decode = some;
  json_from_slice = parse;
  hmac_accepts = λ key. true;
  hmac_verifies = λ key message tag. eqb tag (tag_of key message);
}

unfoldable token : Text
unfolding text zeros
token = b'h' ∷ b'.' ∷ b'c' ∷ b'.' ∷ b'3' ∷ zeros 31

unfoldable context : AuthContext
unfolding text
context = record {
  tenant_id = 2;
  subject = text "user";
  roles = text "admin" ∷ [];
  tenant_admin = true;
}

-- The token in the Authorization header and in two cookies.
unfoldable headers : HeaderMap
unfolding text text_cmp
headers name =
    if eqb name (text "authorization")
    then text "Bearer h.c" ∷ []
    else if eqb name (text "cookie")
    then text "a=b; session=h.c" ∷ text "session=h.c" ∷ []
    else []

extract_run : extract_token ascii_text headers (text "session") ≡ ok (text "h.c")
unfolding headers extract_token authorization_token bearer_of split_ascii_whitespace
    is_ascii_whitespace to_ascii_lowercase ascii_lower cookie_token cookie_headers cookie_pairs
    cookie_pair split_once agreeing choose_token text text_cmp split extend_head trim trim_matches
    trim_start_matches trim_end_matches is_whitespace
extract_run = refl

extract_token-IsAgreed_example : IsAgreed ascii_text headers (text "session") (text "h.c")
extract_token-IsAgreed_example =
    extract_token-IsAgreed ascii_text headers (text "session") (text "h.c") extract_run

unfoldable carried : HeaderMap
unfolding text text_cmp token zeros
carried name = if eqb name (text "authorization") then (text "Bearer " ++ token) ∷ [] else []

unfoldable jwt_config : AuthConfig
unfolding text verifier
jwt_config = record { mode = jwt_mode verifier; cookie_name = text "session" }
