-- ===== src/Text.antt =====
-- Rust's `str`: a text is its list of code points, and `len` counts the bytes of its UTF-8 form.
-- The functions are those of the standard library that the API calls.
pub mod Trim
pub mod Words
pub mod Affix
use Prim.Native.Char.{code}
use Prim.Native.String
use eal_api.Prelude.{
  ℕ, ◌+◌, ◌≡◌, refl, Bool, true, false, not, ◌&&◌, ◌||◌, Option, none, some, List, [], ◌∷◌, ◌++◌,
  map, String, arith, leb, ltb, in_range, ◌==◌, if◌then◌else◌, is_empty, all, any, keep,
}

abbrev pub Text : Type 0
Text = List ℕ

-- A literal of the source.
unfoldable pub text : String → Text
text String.[] = []
text (String.◌∷◌ c s) = code c ∷ text s

-- The bytes that UTF-8 takes for one code point.
unfoldable pub utf8_width : ℕ → ℕ
utf8_width c = if ltb c 0x80 then 1 else if ltb c 0x800 then 2 else if ltb c 0x10000 then 3 else 4

-- `s.len()`
unfoldable pub byte_length : Text → ℕ
unfolding utf8_width
byte_length [] = 0
byte_length (c ∷ s) = utf8_width c + byte_length s

-- `char::is_whitespace`: Unicode's White_Space.
unfoldable pub is_whitespace : ℕ → Bool
is_whitespace c =
    in_range 0x09 0x0d c
    || c == 0x20
    || c == 0x85
    || c == 0xa0
    || c == 0x1680
    || in_range 0x2000 0x200a c
    || c == 0x2028
    || c == 0x2029
    || c == 0x202f
    || c == 0x205f
    || c == 0x3000

-- `char::is_ascii_whitespace`: tab, line feed, form feed, carriage return and space.
unfoldable pub is_ascii_whitespace : ℕ → Bool
is_ascii_whitespace c = c == 0x09 || c == 0x0a || c == 0x0c || c == 0x0d || c == 0x20

unfoldable pub is_ascii_alphanumeric : ℕ → Bool
is_ascii_alphanumeric c = in_range b'0' b'9' c || in_range b'A' b'Z' c || in_range b'a' b'z' c

unfoldable pub is_ascii_hexdigit : ℕ → Bool
is_ascii_hexdigit c = in_range b'0' b'9' c || in_range b'A' b'F' c || in_range b'a' b'f' c

unfoldable pub ascii_lower : ℕ → ℕ
ascii_lower c = if in_range b'A' b'Z' c then c + 32 else c

unfoldable pub to_ascii_lowercase : Text → Text
unfolding ascii_lower
to_ascii_lowercase s = map ascii_lower s

unfoldable pub extend_head : ℕ → List Text → List Text
extend_head c [] = (c ∷ []) ∷ []
extend_head c (piece ∷ pieces) = (c ∷ piece) ∷ pieces

module _ (p : ℕ → Bool) where
  -- `s.trim_start_matches(p)`
  unfoldable pub trim_start_matches : Text → Text
  trim_start_matches [] = []
  trim_start_matches (c ∷ s) = let rest = trim_start_matches s in if p c then rest else c ∷ s

  -- `s.trim_end_matches(p)`
  unfoldable pub trim_end_matches : Text → Text
  trim_end_matches [] = []
  trim_end_matches (c ∷ s) =
      let rest = trim_end_matches s in if is_empty rest && p c then [] else c ∷ rest

  -- `s.trim_matches(p)`
  unfoldable pub trim_matches : Text → Text
  unfolding trim_start_matches trim_end_matches
  trim_matches s = trim_end_matches (trim_start_matches s)

  -- `s.split(p)`: the pieces between the separators, empty ones included.
  unfoldable pub split : Text → List Text
  unfolding extend_head
  split [] = [] ∷ []
  split (c ∷ s) = let rest = split s in if p c then [] ∷ rest else extend_head c rest

-- `s.trim()`
unfoldable pub trim : Text → Text
unfolding trim_matches is_whitespace
trim s = trim_matches is_whitespace s

abbrev pub is_nonempty : Text → Bool
is_nonempty s = not (is_empty s)

-- `s.split_whitespace()`
unfoldable pub split_whitespace : Text → List Text
unfolding split is_whitespace
split_whitespace s = keep is_nonempty (split is_whitespace s)

-- `s.split_ascii_whitespace()`
unfoldable pub split_ascii_whitespace : Text → List Text
unfolding split is_ascii_whitespace
split_ascii_whitespace s = keep is_nonempty (split is_ascii_whitespace s)

-- `pieces.join(sep)`
unfoldable pub join_rest : Text → List Text → Text
join_rest sep [] = []
join_rest sep (piece ∷ pieces) = sep ++ (piece ++ join_rest sep pieces)

unfoldable pub join : Text → List Text → Text
unfolding join_rest
join sep [] = []
join sep (piece ∷ pieces) = piece ++ join_rest sep pieces

-- `s.strip_prefix(prefix)`
unfoldable pub strip_prefix : Text → Text → Option Text
strip_prefix [] s = some s
strip_prefix (a ∷ prefix) [] = none
strip_prefix (a ∷ prefix) (c ∷ s) = if a == c then strip_prefix prefix s else none

-- `s.split_once(c)`
unfoldable pub split_once : ℕ → Text → Option (Text × Text)
split_once sep [] = none
split_once sep (c ∷ s) =
    let rest = split_once sep s in
    if c == sep
    then some ([], s)
    else elim rest [ none ↦ none | some (before, after) ↦ some (c ∷ before, after) ]

-- `s.split_whitespace().collect::<Vec<_>>().join(" ")`
unfoldable pub collapse_whitespace : Text → Text
unfolding split_whitespace join
collapse_whitespace s = join (0x20 ∷ []) (split_whitespace s)
