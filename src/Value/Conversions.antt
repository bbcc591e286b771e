-- ===== src/Value/Conversions.antt =====
-- src/value/owned/from.rs and src/value/owned/cmp.rs: values from those of Rust, and tests against
-- them. An `i8`, `i16`, `i32` or `i64` is an integer, a `u8`, `u16` or `u32` a number. The conversion of
-- an `f32` and the test of two floats are parameters.
use simdjson_rs.Prelude.{
  ℕ, ◌-◌, ◌^◌, Bool, true, false, ◌&&◌, List, [], ◌∷◌, ltb, ◌==◌, if◌then◌else◌,
}
use simdjson_rs.NumberParse.{ℤ, pos, negsuc}
use simdjson_rs.Value.{Value, null, bool, int, float, string, array, Values, nil, cons}

-- `i as i64` of a `u64`.
abbrev pub as_signed : ℕ → ℤ
as_signed n = if ltb n (2 ^ 63) then pos n else negsuc (2 ^ 64 - 1 - n)

abbrev same_integer : ℤ → ℤ → Bool
same_integer (pos m) (pos n) = m == n
same_integer (negsuc m) (negsuc n) = m == n
same_integer _ _ = false

abbrev same_bool : Bool → Bool → Bool
same_bool true b = b
same_bool false true = false
same_bool false false = true

abbrev same_bytes : List ℕ → List ℕ → Bool
same_bytes [] [] = true
same_bytes (a ∷ s) (b ∷ t) = a == b && same_bytes s t
same_bytes _ _ = false

module _ {F : Type 0} where
  abbrev pub from_unit : Value F
  from_unit = null

  abbrev pub from_bool : Bool → Value F
  from_bool b = bool b

  abbrev pub from_str : List ℕ → Value F
  from_str s = string s

  abbrev pub from_i64 : ℤ → Value F
  from_i64 i = int i

  abbrev pub from_u32 : ℕ → Value F
  from_u32 n = int (pos n)

  abbrev pub from_u64 : ℕ → Value F
  from_u64 n = int (as_signed n)

  abbrev pub from_f32 : {F32 : Type 0} → (F32 → F) → F32 → Value F
  from_f32 widen f = float (widen f)

  abbrev pub from_f64 : F → Value F
  from_f64 f = float f

  abbrev pub from_elements : {S : Type 0} → (S → Value F) → List S → Values F
  from_elements from [] = nil
  from_elements from (x ∷ v) = cons (from x) (from_elements from v)

  abbrev pub from_vec : {S : Type 0} → (S → Value F) → List S → Value F
  from_vec from v = array (from_elements from v)

  abbrev pub eq_unit : Value F → Bool
  eq_unit null = true
  eq_unit _ = false

  abbrev pub eq_bool : Value F → Bool → Bool
  eq_bool (bool v) other = same_bool v other
  eq_bool _ other = false

  abbrev pub eq_str : Value F → List ℕ → Bool
  eq_str (string s) other = same_bytes s other
  eq_str _ other = false

  abbrev pub eq_i64 : Value F → ℤ → Bool
  eq_i64 (int i) other = same_integer i other
  eq_i64 _ other = false

  abbrev pub eq_f64 : (F → F → Bool) → Value F → F → Bool
  eq_f64 same (float f) other = same f other
  eq_f64 same _ other = false

  abbrev pub eq_f32 : {F32 : Type 0} → (F32 → F) → (F → F → Bool) → Value F → F32 → Bool
  eq_f32 widen same v other = eq_f64 same v (widen other)
