-- ===== src/Json.antt =====
-- `serde_json::Value`, as far as the program reads it. An object is the list of its fields; a number
-- is known by what `as_u64` and `as_f64` make of it. Parsing and printing are the library's, and are
-- arguments where they are called.
use claude_dbus.Prelude.{
  String, ℕ, List, [], ◌∷◌, Option, none, some, Bool, true, false, ◌==◌, if◌then◌else◌, ◌>>=◌,
}

-- The 64 bits of an `f64`: the code stores it, copies it and compares it.
abbrev pub F64 : Type 0
F64 = ℕ

pub record Number : Type 0 where
  pub u64 : Option ℕ
  pub f64 : Option F64

mutual
  pub data Value : Type 0 where
    null : Value
    boolean : Bool → Value
    number : Number → Value
    string : String → Value
    array : Items → Value
    object : Fields → Value

  pub data Items : Type 0 where
    nil : Items
    cons : Value → Items → Items

  pub data Fields : Type 0 where
    end : Fields
    field : String → Value → Fields → Fields

unfoldable pub items : Items → List Value
items nil = []
items (cons v vs) = v ∷ items vs

unfoldable pub fields : Fields → List (String × Value)
fields end = []
fields (field k v fs) = (k, v) ∷ fields fs

unfoldable pub from_items : List Value → Items
from_items [] = nil
from_items (v ∷ vs) = cons v (from_items vs)

unfoldable pub find_field : Fields → String → Option Value
find_field end key = none
find_field (field k v fs) key = let rest = find_field fs key in if k == key then some v else rest

-- `value.get(key)`
unfoldable pub get : Value → String → Option Value
unfolding find_field
get (object fs) key = find_field fs key
get null key = none
get (boolean b) key = none
get (number n) key = none
get (string s) key = none
get (array vs) key = none

abbrev pub or_null : Option Value → Value
or_null none = null
or_null (some v) = v

-- `value[key]`
infixl 80 ◌at◌
unfoldable pub ◌at◌ : Value → String → Value
unfolding get
v at key = or_null (get v key)

unfoldable pub as_str : Value → Option String
as_str (string s) = some s
as_str null = none
as_str (boolean b) = none
as_str (number n) = none
as_str (array vs) = none
as_str (object fs) = none

unfoldable pub as_bool : Value → Option Bool
as_bool (boolean b) = some b
as_bool null = none
as_bool (number n) = none
as_bool (string s) = none
as_bool (array vs) = none
as_bool (object fs) = none

unfoldable pub as_u64 : Value → Option ℕ
as_u64 (number n) = n.u64
as_u64 null = none
as_u64 (boolean b) = none
as_u64 (string s) = none
as_u64 (array vs) = none
as_u64 (object fs) = none

unfoldable pub as_f64 : Value → Option F64
as_f64 (number n) = n.f64
as_f64 null = none
as_f64 (boolean b) = none
as_f64 (string s) = none
as_f64 (array vs) = none
as_f64 (object fs) = none

unfoldable pub as_array : Value → Option (List Value)
unfolding items
as_array (array vs) = some (items vs)
as_array null = none
as_array (boolean b) = none
as_array (number n) = none
as_array (string s) = none
as_array (object fs) = none

unfoldable pub is_object : Value → Bool
is_object (object fs) = true
is_object null = false
is_object (boolean b) = false
is_object (number n) = false
is_object (string s) = false
is_object (array vs) = false

unfoldable pub is_null : Value → Bool
is_null null = true
is_null (boolean b) = false
is_null (number n) = false
is_null (string s) = false
is_null (array vs) = false
is_null (object fs) = false

-- `value == "text"`
unfoldable pub equals_str : Value → String → Bool
equals_str (string s) t = s == t
equals_str null t = false
equals_str (boolean b) t = false
equals_str (number n) t = false
equals_str (array vs) t = false
equals_str (object fs) t = false

-- `value.pointer("/a/b")`, for keys that are no array positions
unfoldable pub pointer : Value → List String → Option Value
unfolding get
pointer v [] = some v
pointer v (k ∷ ks) = get v k >>= λ w. pointer w ks
