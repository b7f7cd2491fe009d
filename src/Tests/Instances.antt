-- ===== src/Tests/Instances.antt =====
-- Small stand-ins for the crates that the API calls, to evaluate the model with.
use eal_api.Prelude.{
  ℕ, zero, suc, ◌<◌, ◌≡◌, refl, Bool, true, not, ◌&&◌, Option, none, some, [], ◌∷◌, arith, ltb, leb,
  in_range, ◌==◌, if◌then◌else◌, length, all,
}
use eal_api.Prelude.Ordered.{nat_ord, text_ord}
use eal_api.Text.{Text, is_ascii_hexdigit}
use eal_api.Uuids.{Uuid, Uuids, uuid_limit, is_uuid_char}
use eal_api.Floats.{Floats}
use eal_api.Headers.{HeaderText}
use eal_api.Query.Words.{CharClasses}

-- A UUID in unary: its value and one more zeros.
unfoldable pub zeros : ℕ → Text
zeros zero = []
zeros (suc n) = b'0' ∷ zeros n

unfoldable pub is_zeros : Text → Bool
is_zeros s = all (λ c. c == b'0') s

length-zeros : (n : ℕ) → length (zeros n) ≡ n
unfolding zeros
length-zeros zero = refl
length-zeros (suc n) = omega (arith, length-zeros n)

zeros_only : (n : ℕ) → is_zeros (zeros n) ≡ true
unfolding zeros is_zeros
zeros_only zero = refl
zeros_only (suc n) = zeros_only n

unfoldable pub parse_unary : Text → Option Uuid
unfolding is_zeros
parse_unary [] = none
parse_unary (c ∷ s) =
    if is_zeros (c ∷ s) && ltb (length s) uuid_limit then some (length s) else none

pub parse_unary-lt : (s : Text) (u : Uuid) → parse_unary s ≡ some u → u < uuid_limit
unfolding parse_unary
parse_unary-lt [] u h = absurd (cc h)
parse_unary-lt (c ∷ s) u h = ground arith

pub parse_unary-zeros : (u : Uuid) → u < uuid_limit → parse_unary (zeros (suc u)) ≡ some u
unfolding parse_unary zeros
parse_unary-zeros u h = ground (arith, zeros_only u, length-zeros u)

pub zeros_chars : (n : ℕ) → all is_uuid_char (zeros n) ≡ true
unfolding zeros is_uuid_char is_ascii_hexdigit
zeros_chars zero = refl
zeros_chars (suc n) = zeros_chars n

unfoldable pub unary : Uuids
unfolding zeros
unary = record {
  parse_str = parse_unary;
  to_text = λ u. b'0' ∷ zeros u;
  parse_str-lt = parse_unary-lt;
  parse_str-to_text = parse_unary-zeros;
  to_text_chars = λ u. zeros_chars (suc u);
  to_text_nonempty = λ u. refl;
}

-- Hundredths.
abbrev pub hundredths : Floats
hundredths = record {
  Single = ℕ;
  Double = ℕ;
  single_is_finite = λ n. true;
  single_le = leb;
  single_zero = 0;
  single_one = 100;
}

abbrev pub ascii_text : HeaderText
ascii_text value = if all (in_range 0x20 0x7e) value then some value else none

abbrev pub ascii_classes : CharClasses
ascii_classes = record {
  is_alphanumeric = λ c.
      not
        (not (in_range b'0' b'9' c) && (not (in_range b'A' b'Z' c) && not (in_range b'a' b'z' c)));
  is_uppercase = in_range b'A' b'Z';
  is_lowercase = in_range b'a' b'z';
}
