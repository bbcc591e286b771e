-- ===== src/Value.antt =====
-- src/value/owned.rs and src/value.rs: the values of the DOM, and what the accessors answer.
pub mod Conversions
use simdjson_rs.Prelude.{ℕ, Bool, true, false, Option, none, some, List}
use simdjson_rs.NumberParse.{ℤ, pos, Number, f64, i64}

-- Strings are their bytes. A map is the sequence of the insertions into it.
mutual
  pub data Value (F : Type 0) : Type 0 where
    null : Value F
    bool : Bool → Value F
    int : ℤ → Value F
    float : F → Value F
    string : List ℕ → Value F
    array : Values F → Value F
    object : Map F → Value F

  pub data Values (F : Type 0) : Type 0 where
    nil : Values F
    cons : Value F → Values F → Values F

  pub data Map (F : Type 0) : Type 0 where
    new : Map F
    insert : List ℕ → Value F → Map F → Map F

pub data ValueType : Type 0 where
  null_type bool_type i64_type f64_type string_type array_type object_type : ValueType

-- `Value::from(n)` of a parsed number.
abbrev pub from_number : {F : Type 0} → Number F → Value F
from_number (f64 x) = float x
from_number (i64 i) = int i

module _ {F : Type 0} where
  abbrev pub kind : Value F → ValueType
  kind null = null_type
  kind (bool b) = bool_type
  kind (float x) = f64_type
  kind (int i) = i64_type
  kind (string s) = string_type
  kind (array a) = array_type
  kind (object m) = object_type

  abbrev pub is_null : Value F → Bool
  is_null null = true
  is_null _ = false

  abbrev pub as_bool : Value F → Option Bool
  as_bool (bool b) = some b
  as_bool _ = none

  abbrev pub as_i64 : Value F → Option ℤ
  as_i64 (int i) = some i
  as_i64 _ = none

  abbrev pub as_u64 : Value F → Option ℕ
  as_u64 (int (pos n)) = some n
  as_u64 _ = none

  abbrev pub as_f64 : Value F → Option F
  as_f64 (float x) = some x
  as_f64 _ = none

  -- `*i as f64` is a parameter.
  abbrev pub cast_f64 : (ℤ → F) → Value F → Option F
  cast_f64 as_float (float x) = some x
  cast_f64 as_float (int i) = some (as_float i)
  cast_f64 as_float _ = none

  abbrev pub as_string : Value F → Option (List ℕ)
  as_string (string s) = some s
  as_string _ = none

  abbrev pub as_array : Value F → Option (Values F)
  as_array (array a) = some a
  as_array _ = none

  abbrev pub as_object : Value F → Option (Map F)
  as_object (object m) = some m
  as_object _ = none

  -- The search in a HashMap is a parameter.
  abbrev pub get : (Map F → List ℕ → Option (Value F)) → Value F → List ℕ → Option (Value F)
  get find (object m) k = find m k
  get find _ k = none

  abbrev unwrap_or : Option (Value F) → Value F → Value F
  unwrap_or none d = d
  unwrap_or (some v) d = v

  abbrev pub index : (Map F → List ℕ → Option (Value F)) → Value F → List ℕ → Value F
  index find v k = unwrap_or (get find v k) null
