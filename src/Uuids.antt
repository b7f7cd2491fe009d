-- ===== src/Uuids.antt =====
-- The `uuid` crate, which the API only calls: a UUID is its 128-bit value, and `Uuids` names the
-- two conversions with what their documentation says of them.
use eal_api.Prelude.{ℕ, ◌^◌, ◌<◌, ◌≡◌, Bool, true, ◌||◌, Option, some, is_empty, all, ◌==◌}
use eal_api.Prelude.{false}
use eal_api.Text.{Text, is_ascii_hexdigit}

abbrev pub Uuid : Type 0
Uuid = ℕ

abbrev pub uuid_limit : ℕ
uuid_limit = 2 ^ 128

-- The characters of the hyphenated form.
unfoldable pub is_uuid_char : ℕ → Bool
unfolding is_ascii_hexdigit
is_uuid_char c = is_ascii_hexdigit c || c == b'-'

pub record Uuids : Type 0 where
  -- `Uuid::parse_str(s).ok()`
  pub parse_str : Text → Option Uuid
  -- `u.to_string()`
  pub to_text : Uuid → Text
  pub parse_str-lt : (s : Text) (u : Uuid) → parse_str s ≡ some u → u < uuid_limit
  pub parse_str-to_text : (u : Uuid) → u < uuid_limit → parse_str (to_text u) ≡ some u
  pub to_text_chars : (u : Uuid) → all is_uuid_char (to_text u) ≡ true
  pub to_text_nonempty : (u : Uuid) → is_empty (to_text u) ≡ false
