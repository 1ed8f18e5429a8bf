-- ===== src/Index/Value.antt =====
-- `serde_json::Value`, and `equality_key` of src/index.rs.
-- A number is serde_json's: a parameter, as is the text that it writes of a value.
use gengis_mimi.Shared.{
  ℕ, ◌^◌, Bool, true, false, not, ◌&&◌, ◌||◌, Option, none, some, ◌==◌, if◌then◌else◌,
}
use gengis_mimi.Shared.Bytes.{Bytes, bytes_eq}
use gengis_mimi.Error.{Error, Result, ok, ◌>>=◌, ok_or}
use gengis_mimi.Model.{Json}

-- What an index asks of a JSON value: an interface, which the values below fill.
pub record JsonOps (J : Type 0) : Type 0 where
  pub as_str : J → Option Bytes
  pub as_f64 : J → Option ℕ
  pub json_eq : J → J → Bool
  -- The text by which an equality filter finds a value.
  pub equality_key : J → Result Bytes

abbrev pub json_of : {J : Type 0} → JsonOps J → Json
json_of {J} ops = record { J = J; json_eq = ops.json_eq; as_f64 = ops.as_f64 }

pub record Numbers : Type 1 where
  pub Number : Type 0
  pub is_f64 : Number → Bool
  pub as_f64 : Number → Option ℕ
  pub number_eq : Number → Number → Bool
  -- `json!(0.0)`
  pub zero_f64 : Number

mutual
  pub data Value (N : Type 0) : Type 0 where
    null : Value N
    bool : Bool → Value N
    number : N → Value N
    string : Bytes → Value N
    array : Values N → Value N
    object : Members N → Value N

  pub data Values (N : Type 0) : Type 0 where
    no_values : Values N
    item : Value N → Values N → Values N

  pub data Members (N : Type 0) : Type 0 where
    no_members : Members N
    member : Bytes → Value N → Members N → Members N

abbrev pub as_str : {N : Type 0} → Value N → Option Bytes
as_str (Value.string text) = some text
as_str _ = none

module _ (numbers : Numbers) where
  open numbers use {Number, is_f64, as_f64, number_eq, zero_f64}

  abbrev pub value_as_f64 : Value Number → Option ℕ
  value_as_f64 (Value.number n) = as_f64 n
  value_as_f64 _ = none

  -- `as_f64() == Some(0.0)`, of either zero.
  abbrev pub is_zero : Option ℕ → Bool
  is_zero none = false
  is_zero (some v) = v == 0 || v == 2 ^ 63

  abbrev pub canonical_number : Number → Number
  canonical_number n = if is_f64 n && is_zero (as_f64 n) then zero_f64 else n

  unfoldable mutual
    pub canonicalize : Value Number → Value Number
    canonicalize Value.null = Value.null
    canonicalize (Value.bool b) = Value.bool b
    canonicalize (Value.number n) = Value.number (canonical_number n)
    canonicalize (Value.string text) = Value.string text
    canonicalize (Value.array values) = Value.array (canonicalize_values values)
    canonicalize (Value.object members) = Value.object (canonicalize_members members)

    pub canonicalize_values : Values Number → Values Number
    canonicalize_values Values.no_values = Values.no_values
    canonicalize_values (Values.item value values) =
        Values.item (canonicalize value) (canonicalize_values values)

    pub canonicalize_members : Members Number → Members Number
    canonicalize_members Members.no_members = Members.no_members
    canonicalize_members (Members.member name value members) =
        Members.member name (canonicalize value) (canonicalize_members members)

  -- `PartialEq` of the values.
  unfoldable mutual
    pub value_eq : Value Number → Value Number → Bool
    value_eq Value.null Value.null = true
    value_eq (Value.bool a) (Value.bool b) = if a then b else not b
    value_eq (Value.number a) (Value.number b) = number_eq a b
    value_eq (Value.string a) (Value.string b) = bytes_eq a b
    value_eq (Value.array a) (Value.array b) = values_eq a b
    value_eq (Value.object a) (Value.object b) = members_eq a b
    value_eq _ _ = false

    pub values_eq : Values Number → Values Number → Bool
    values_eq Values.no_values Values.no_values = true
    values_eq (Values.item a as') (Values.item b bs) = value_eq a b && values_eq as' bs
    values_eq _ _ = false

    pub members_eq : Members Number → Members Number → Bool
    members_eq Members.no_members Members.no_members = true
    members_eq (Members.member x a as') (Members.member y b bs) =
        bytes_eq x y && value_eq a b && members_eq as' bs
    members_eq _ _ = false

  -- `serde_json::to_vec` of a value, and the digest of a text.
  module _ (to_vec : Value Number → Option Bytes) (digest : Bytes → Bytes) where
    unfoldable pub equality_key : Value Number → Result Bytes
    equality_key value = do
      text ← ok_or (to_vec (canonicalize value)) Error.encoding
      ok (digest text)

    abbrev pub value_ops : JsonOps (Value Number)
    unfolding equality_key value_eq
    value_ops = record {
      as_str = as_str;
      as_f64 = value_as_f64;
      json_eq = value_eq;
      equality_key = equality_key;
    }
