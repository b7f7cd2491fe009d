-- ===== src/Json.antt =====
-- `serde_json::Value`, a library's type, as far as the API inspects it: numbers are integers or
-- not, and an object is the list of its fields.
use eal_api.Prelude.{ℕ, ◌^◌, Bool, Option, none, some, List, [], ◌∷◌, if◌then◌else◌, ltb}
use eal_api.Prelude.Int.{ℤ, pos, fits_i64}
use eal_api.Prelude.Ordered.{text_ord}
use eal_api.Prelude.TreeSet.{eqb}
use eal_api.Text.{Text}

mutual
  pub data Json : Type 0 where
    null : Json
    bool : Bool → Json
    int : ℤ → Json
    -- a number that is no integer of 64 bits
    float : Json
    str : Text → Json
    arr : Items → Json
    obj : Fields → Json

  pub data Items : Type 0 where
    nil : Items
    cons : Json → Items → Items

  pub data Fields : Type 0 where
    end : Fields
    field : Text → Json → Fields → Fields

abbrev pub items : Items → List Json
items nil = []
items (cons v vs) = v ∷ items vs

abbrev pub fields : Fields → List (Text × Json)
fields end = []
fields (field k v fs) = (k, v) ∷ fields fs

-- `map.get(key)`
unfoldable pub lookup : Text → List (Text × Json) → Option Json
lookup key [] = none
lookup key ((k, v) ∷ rest) = if eqb k key then some v else lookup key rest

abbrev pub as_str : Json → Option Text
as_str (str s) = some s
as_str other = none

abbrev pub as_object : Json → Option (List (Text × Json))
as_object (obj fs) = some (fields fs)
as_object other = none

-- `value.get(key)`, which is `None` unless the value is an object.
abbrev pub get : Text → Json → Option Json
get key (obj fs) = lookup key (fields fs)
get key other = none

abbrev pub as_i64 : Json → Option ℤ
as_i64 (int a) = if fits_i64 a then some a else none
as_i64 other = none

abbrev pub as_u64 : Json → Option ℕ
as_u64 (int (pos n)) = if ltb n (2 ^ 64) then some n else none
as_u64 other = none
