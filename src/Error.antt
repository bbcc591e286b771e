-- ===== src/Error.antt =====
-- src/error.rs: the kinds of error, the error value, and the outcome of a run of the model.
pub mod Settles
use simdjson_rs.Prelude.{ℕ, List, Bool, true, false}

-- `Serde(String)` carries the bytes of its message.
pub data ErrorType : Type 0 where
  bad_key_type early_end expected_array expected_array_comma expected_boolean : ErrorType
  expected_enum expected_float expected_integer expected_map : ErrorType
  expected_object_colon expected_map_comma expected_map_end expected_null : ErrorType
  expected_number expected_signed expected_string expected_unsigned : ErrorType
  internal_error invalid_escape invalid_exponent invalid_number invalid_utf8 : ErrorType
  invalid_unicode_escape invlaid_unicode_codepoint key_must_be_a_string : ErrorType
  no_structure parser eof : ErrorType
  serde : List ℕ → ErrorType
  syntax trailing_characters unexpected_character unexpected_end : ErrorType
  unterminated_string expected_array_content expected_object_content : ErrorType
  expected_object_key overflow : ErrorType

-- `character` is the code point of a `char`.
pub record Error : Type 0 where
  pub structural : ℕ
  pub index : ℕ
  pub character : ℕ
  pub error : ErrorType

abbrev pub new : ℕ → ℕ → ℕ → ErrorType → Error
new structural index character error = record {
  structural = structural;
  index = index;
  character = character;
  error = error;
}

-- The character is U+1F4A9.
abbrev pub generic : ErrorType → Error
generic t = record { structural = 0; index = 0; character = 0x1f4a9; error = t }

-- What a run of the code comes to. `ok` and `err` are the values of a `Result`. `fault` is an
-- access outside of a slice by `get_unchecked` or a raw pointer, or a read of memory that was
-- never written: undefined behaviour. `out_of_fuel` has no counterpart in the program.
pub data Outcome {ℓ κ} (E : Type ℓ) (A : Type κ) : Type (ℓ ⊔ κ) where
  ok : A → Outcome E A
  err : E → Outcome E A
  fault out_of_fuel : Outcome E A

module _ {ℓ κ μ} {E : Type ℓ} {A : Type κ} {B : Type μ} where
  infixl 5 ◌>>=◌
  abbrev pub ◌>>=◌ : Outcome E A → (A → Outcome E B) → Outcome E B
  ok a >>= f = f a
  err e >>= f = err e
  fault >>= f = fault
  out_of_fuel >>= f = out_of_fuel

-- The run ends with a value or an error: no fault, and enough fuel.
abbrev pub Returns {ℓ κ} : {E : Type ℓ} {A : Type κ} → Outcome E A → Type 0
Returns (ok a) = Unit
Returns (err e) = Unit
Returns fault = ⊥
Returns out_of_fuel = ⊥

abbrev pub is_ok {ℓ κ} : {E : Type ℓ} {A : Type κ} → Outcome E A → Bool
is_ok (ok a) = true
is_ok _ = false
