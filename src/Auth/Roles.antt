-- ===== src/Auth/Roles.antt =====
-- Role sets, claim paths and cookie names: what the configuration and the claims may contain.
pub mod WellFormed
use eal_api.Prelude.{
  ℕ, ◌≤◌, ◌≡◌, refl, Bool, true, false, not, ◌&&◌, ◌||◌, Option, none, some, List, [], ◌∷◌, map,
  arith, ltb, ◌==◌, if◌then◌else◌, length, is_empty, any, all, Result, ok, err, ◌>>=◌, ◌>>◌, ensure,
  refuse, ok_or, map_err,
}
use eal_api.Prelude.Ordered.{text_ord}
use eal_api.Prelude.TreeSet.{insert}
use eal_api.Text.{Text, text, byte_length, trim, to_ascii_lowercase, split, is_ascii_alphanumeric}
use eal_api.Headers.{as_bytes}
use eal_api.Json.{Json, str, arr, items, as_str}

unfoldable pub is_role_byte : ℕ → Bool
is_role_byte byte =
    is_ascii_alphanumeric byte || (byte == b'_' || byte == b'-' || byte == b':' || byte == b'.')

unfoldable pub is_identifier_byte : ℕ → Bool
is_identifier_byte byte = is_ascii_alphanumeric byte || (byte == b'_' || byte == b'-')

unfoldable pub insert_role : List Text → Text → Result Text (List Text)
insert_role roles raw =
    let role = to_ascii_lowercase (trim raw) in
    if is_empty role
    then ok roles
    else if ltb 80 (byte_length role) || not (all is_role_byte (as_bytes role))
    then err (text "roles must use 1 to 80 ASCII identifier characters")
    else ok (insert role roles)

-- The loop of `parse_role_set`.
unfoldable pub insert_roles : List Text → List Text → Result Text (List Text)
insert_roles roles [] = ok roles
insert_roles roles (role ∷ rest) = insert_role roles role >>= λ more. insert_roles more rest

unfoldable pub parse_role_set : Text → Result Text (List Text)
parse_role_set value = insert_roles [] (split (λ c. c == b',') value)

-- The loop of `parse_roles` over an array.
unfoldable pub insert_json_roles : List Text → List Json → Result (Unit {0}) (List Text)
insert_json_roles roles [] = ok roles
insert_json_roles roles (value ∷ rest) = do
  role ← ok_or (as_str value) tt
  more ← map_err (λ _. tt) (insert_role roles role)
  insert_json_roles more rest

unfoldable pub parsed_roles : Json → Result (Unit {0}) (List Text)
parsed_roles (str value) = map_err (λ _. tt) (insert_roles [] (split (λ c. c == b',') value))
parsed_roles (arr values) = insert_json_roles [] (items values)
parsed_roles other = err tt

unfoldable pub parse_roles : Json → Result (Unit {0}) (List Text)
parse_roles value = parsed_roles value >>= λ roles. if is_empty roles then err tt else ok roles

unfoldable pub is_claim_part : Text → Bool
is_claim_part part =
    not (is_empty part || ltb 80 (byte_length part) || not (all is_identifier_byte (as_bytes part)))

unfoldable pub parse_claim_path : Text → Result Text (List Text)
parse_claim_path value =
    let parts = map trim (split (λ c. c == b'.') value) in
    if is_empty parts || ltb 8 (length parts) || any (λ part. not (is_claim_part part)) parts
    then err (text "JWT claim paths must contain 1 to 8 identifier segments")
    else ok parts

unfoldable pub validate_cookie_name : Text → Result Text (Unit {0})
validate_cookie_name value =
    if is_empty value
      || ltb 120 (byte_length value)
      || not (all is_identifier_byte (as_bytes value))
    then err (text "EAL_JWT_COOKIE_NAME must be an ASCII cookie identifier")
    else ok tt
