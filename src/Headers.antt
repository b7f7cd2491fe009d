-- ===== src/Headers.antt =====
-- The request headers as the `http` crate hands them over: each name has its values in order.
-- `HeaderText` is the crate's conversion of a value to text, which fails on other bytes.
use eal_api.Prelude.{ℕ, Option, none, some, List, [], ◌∷◌, ◌++◌, ◌+◌, ◌/◌, ◌%◌, ltb, if◌then◌else◌}
use eal_api.Text.{Text}

abbrev pub Bytes : Type 0
Bytes = List ℕ

abbrev pub HeaderValue : Type 0
HeaderValue = Bytes

-- `headers.get_all(name)`; names are in lower case.
abbrev pub HeaderMap : Type 0
HeaderMap = Text → List HeaderValue

-- `value.to_str().ok()`
abbrev pub HeaderText : Type 0
HeaderText = HeaderValue → Option Text

abbrev pub first {ℓ} : {A : Type ℓ} → List A → Option A
first [] = none
first (x ∷ xs) = some x

-- `headers.get(name)`
abbrev pub get : HeaderMap → Text → Option HeaderValue
get headers name = first (headers name)

-- `s.as_bytes()`: UTF-8.
unfoldable pub utf8 : ℕ → Bytes
utf8 c =
    if ltb c 0x80
    then c ∷ []
    else if ltb c 0x800
    then (0xc0 + c / 64) ∷ (0x80 + c % 64) ∷ []
    else if ltb c 0x10000
    then (0xe0 + c / 4096) ∷ (0x80 + c / 64 % 64) ∷ (0x80 + c % 64) ∷ []
    else (0xf0 + c / 262144) ∷ (0x80 + c / 4096 % 64) ∷ (0x80 + c / 64 % 64) ∷ (0x80 + c % 64) ∷ []

unfoldable pub as_bytes : Text → Bytes
unfolding utf8
as_bytes [] = []
as_bytes (c ∷ s) = utf8 c ++ as_bytes s
