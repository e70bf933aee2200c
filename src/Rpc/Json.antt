-- ===== src/Rpc/Json.antt =====
-- `serde_json::Value`, as rust/facilitator/src/rpc.rs reads it.
use ic_facilitator.Prelude.{
  ℕ, Bool, true, false, not, ◌&&◌, ◌==◌, Option, none, some, List, [], ◌∷◌, if◌then◌else◌,
}
use ic_facilitator.Text.{Text, text_eq}

-- A number is an integer that fits a `u64`, or another one, by the literal it prints as. The fields
-- of an object are in the order of their keys.
mutual
  pub data Json : Type 0 where
    null : Json
    boolean : Bool → Json
    unsigned : ℕ → Json
    number : Text → Json
    string : Text → Json
    array : Items → Json
    object : Fields → Json

  pub data Items : Type 0 where
    empty : Items
    item : Json → Items → Items

  pub data Fields : Type 0 where
    bare : Fields
    field : Text → Json → Fields → Fields

-- The value of a key; the keys of an object are different.
unfoldable pub lookup : Text → Fields → Option Json
lookup key bare = none
lookup key (field name value fields) =
    let rest = lookup key fields in if text_eq name key then some value else rest

unfoldable pub get : Text → Json → Option Json
get key (object fields) = lookup key fields
get key _ = none

abbrev pub as_str : Json → Option Text
as_str (string s) = some s
as_str _ = none

abbrev pub as_bool : Json → Option Bool
as_bool (boolean b) = some b
as_bool _ = none

abbrev pub as_u64 : Json → Option ℕ
as_u64 (unsigned n) = some n
as_u64 _ = none

abbrev pub items_of : Items → List Json
items_of empty = []
items_of (item value items) = value ∷ items_of items

abbrev pub as_array : Json → Option (List Json)
as_array (array items) = some (items_of items)
as_array _ = none

-- `option.and_then(f)`
abbrev pub and_then {ℓ κ} : {A : Type ℓ} {B : Type κ} → Option A → (A → Option B) → Option B
and_then none f = none
and_then (some a) f = f a

-- `value.get(key).and_then(Value::as_str)` and the like
abbrev pub get_str : Text → Json → Option Text
get_str key value = and_then (get key value) as_str

abbrev pub get_array : Text → Json → Option (List Json)
get_array key value = and_then (get key value) as_array

-- `serde_json::from_str`, `none` where it fails, and the text of a value
pub record SerdeJson : Type 0 where
  pub from_str : Text → Option Json
  pub to_string : Json → Text

-- `==` on values
unfoldable mutual
  pub json_eq : Json → Json → Bool
  json_eq null null = true
  json_eq (boolean true) (boolean b) = b
  json_eq (boolean false) (boolean b) = not b
  json_eq (unsigned m) (unsigned n) = m == n
  json_eq (number s) (number t) = text_eq s t
  json_eq (string s) (string t) = text_eq s t
  json_eq (array xs) (array ys) = items_eq xs ys
  json_eq (object xs) (object ys) = fields_eq xs ys
  json_eq _ _ = false

  pub items_eq : Items → Items → Bool
  items_eq empty empty = true
  items_eq (item x xs) (item y ys) = json_eq x y && items_eq xs ys
  items_eq _ _ = false

  pub fields_eq : Fields → Fields → Bool
  fields_eq bare bare = true
  fields_eq (field k x xs) (field l y ys) = text_eq k l && (json_eq x y && fields_eq xs ys)
  fields_eq _ _ = false
