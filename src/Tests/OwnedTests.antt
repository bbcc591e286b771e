-- ===== src/Tests/OwnedTests.antt =====
-- The values of src/value/owned.rs at a concrete input.
use simdjson_rs.Prelude.{
  ◌++◌, arith, List, ℕ, ◌≡◌, refl, true, false, none, some, [], ◌∷◌, codes, ◌+◌, ◌*◌,
}
use simdjson_rs.Error.{Error, Outcome, ok, fault, is_ok, ◌>>=◌}
use simdjson_rs.CharUtils.{is_structural_or_whitespace}
use simdjson_rs.NumberParse.{
  Floats, pos, is_integer, is_made_of_eight_digits_fast, eight_digits_test,
  is_not_structural_or_whitespace_or_exponent_or_decimal,
}
use simdjson_rs.NumberParse.Integer.{
  eight_decimals, decimals, scaled, integer_part, integer_digits, decimal_part, exponent_part,
  number_value, behind_integer, parse_number_int,
}
use simdjson_rs.ParseStr.{
  equal_mask, trailingzeroes, find_special, load_chunk, plain_loop, string_text, parse_str_,
}
use simdjson_rs.Value.{string, Value, int, bool, array, object, cons, nil, insert, new}
use simdjson_rs.Deserializer.{
  Deserializer, skip, next_, count_elements, parse_str, parse_number, parse_number_,
}
use simdjson_rs.Generator.{write_string}
use simdjson_rs.Deserializer.Quoted.{parse_value-write_string}
use simdjson_rs.Deserializer.Owned.{value_at, parse_array, parse_map, parse_value, parse}

-- Floats without fractions, for the tests.
abbrev pub naturals : Floats
naturals = record {
  F64 = ℕ;
  of_ℕ = λ n. n;
  ten_to = λ k. k;
  add = λ a b. a + b;
  mul = λ a b. a * b;
  div = λ a b. a;
  neg = λ a. a;
}

-- [1,{"a":true}] with the indexes and counts that the stages before give.
abbrev document : Deserializer
document = record {
  input = codes "[1,{\"a\":true}]";
  structural_indexes = 0 ∷ 0 ∷ 1 ∷ 2 ∷ 3 ∷ 4 ∷ 7 ∷ 8 ∷ 12 ∷ 13 ∷ [];
  idx = 0;
  counts = none ∷ some 2 ∷ none ∷ none ∷ some 1 ∷ none ∷ none ∷ none ∷ none ∷ none ∷ [];
  iidx = 0;
}

abbrev value_of : Outcome Error (Value ℕ × Deserializer) → Outcome Error (Value ℕ)
value_of o = o >>= λ (v, d). ok v

nested_value :
    value_of (parse naturals true 5 document)
    ≡ ok (array (cons (int (pos 1)) (cons (object (insert (codes "a") (bool true) new)) nil)))
unfolding parse parse_value value_at parse_array parse_map skip next_ count_elements parse_str
    parse_number parse_number_int integer_part is_integer integer_digits decimal_part exponent_part
    number_value behind_integer is_structural_or_whitespace parse_str_ plain_loop string_text
    load_chunk find_special equal_mask trailingzeroes
nested_value = refl

parse_value-write_string_example :
    (quoted : List ℕ) × (write_string (codes "a\"") ≡ ok quoted)
    × ((d : Deserializer) × (parse_value naturals true 1 (record {
      input = codes "[" ++ (quoted ++ codes "]");
      structural_indexes = 0 ∷ 0 ∷ 1 ∷ 6 ∷ [];
      idx = 1;
      counts = none ∷ some 1 ∷ none ∷ none ∷ [];
      iidx = 0;
    })
          ≡ ok (string (codes "a\""), d))
        × (d.idx ≡ 2))
parse_value-write_string_example =
    parse_value-write_string naturals true 0 (codes "[") (codes "a\"") (codes "]")
      (0 ∷ 0 ∷ 1 ∷ 6 ∷ []) 1 (none ∷ some 1 ∷ none ∷ none ∷ []) 0 (omega arith, (omega arith, tt))
      refl

-- [0.1] with the cursor on the number.
abbrev at_number : Deserializer
at_number = record {
  input = codes "[0.1]";
  structural_indexes = 0 ∷ 0 ∷ 1 ∷ 4 ∷ [];
  idx = 2;
  counts = none ∷ some 1 ∷ none ∷ none ∷ [];
  iidx = 1;
}

-- The test for eight digits reads behind the slice, unless that is copied to a padded buffer.
unpadded : parse_number_ naturals true at_number false ≡ fault
unfolding parse_number_ parse_number_int integer_part behind_integer decimal_part eight_decimals
    is_made_of_eight_digits_fast is_integer is_not_structural_or_whitespace_or_exponent_or_decimal
unpadded = refl

padded : is_ok (parse_number naturals true at_number false) ≡ true
unfolding parse_number parse_number_int integer_part behind_integer decimal_part eight_decimals
    is_made_of_eight_digits_fast eight_digits_test is_integer decimals exponent_part number_value
    scaled is_not_structural_or_whitespace_or_exponent_or_decimal is_structural_or_whitespace
padded = refl
