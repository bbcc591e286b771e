-- ===== src/Tests/NumberTests.antt =====
-- The number parsers of src/numberparse.rs at concrete inputs.
use simdjson_rs.Prelude.{
  arith, inl, ℕ, ◌≡◌, refl, true, false, [], ◌++◌, codes, replicate, ◌+◌, ◌*◌,
}
use simdjson_rs.Error.{ok, err, generic, invalid_number}
use simdjson_rs.CharUtils.Classes.{ends_token}
use simdjson_rs.CharUtils.{is_structural_or_whitespace}
use simdjson_rs.NumberParse.{parse_eight_digits_unrolled, Floats, pos, negsuc, i64, is_integer}
use simdjson_rs.NumberParse.Eight.{parse_eight_digits_unrolled_lem}
use simdjson_rs.NumberParse.Decimal.{parse_number_int_integer}
use simdjson_rs.NumberParse.Integer.{
  behind_integer, more_exponent, parse_large_integer, large_whole, large_digits, large_value,
  integer_part, integer_digits, decimal_part, exponent_part, number_value, parse_number_int,
}

-- Floats without fractions, for the tests.
abbrev naturals : Floats
naturals = record {
  F64 = ℕ;
  of_ℕ = λ n. n;
  ten_to = λ k. k;
  add = λ a b. a + b;
  mul = λ a b. a * b;
  div = λ a b. a;
  neg = λ a. a;
}

small :
    parse_number_int naturals true generic (codes "-120," ++ replicate 32 0) true
    ≡ ok (i64 (negsuc 119))
unfolding parse_number_int integer_part is_integer integer_digits decimal_part exponent_part
    number_value is_structural_or_whitespace behind_integer
small = refl

parse_number_int_integer_example :
    parse_number_int naturals true generic (codes "-120,") true ≡ ok (i64 (negsuc 119))
unfolding ends_token
parse_number_int_integer_example =
    parse_number_int_integer naturals true generic true b'1' (codes "20") b',' []
      (omega arith, omega arith, (omega arith, omega arith, (omega arith, omega arith, tt)))
      (inl (omega arith)) (omega arith) refl

-- 10000000000000000e0 is refused, although 1e0 is an integer.
large_e0 :
    parse_number_int naturals true generic (codes "10000000000000000e0," ++ replicate 32 0) false
    ≡ err (generic invalid_number)
unfolding parse_number_int integer_part is_integer integer_digits decimal_part exponent_part
    number_value is_structural_or_whitespace behind_integer more_exponent parse_large_integer
    large_whole large_digits large_value
large_e0 = refl

small_e0 :
    parse_number_int naturals true generic (codes "1e0," ++ replicate 32 0) false ≡ ok (i64 (pos 1))
unfolding parse_number_int integer_part is_integer integer_digits decimal_part exponent_part
    number_value is_structural_or_whitespace behind_integer more_exponent
small_e0 = refl

parse_eight_digits_unrolled_lem_example :
    parse_eight_digits_unrolled (codes "12345678,       ") ≡ ok 12345678
parse_eight_digits_unrolled_lem_example =
    parse_eight_digits_unrolled_lem b'1' b'2' b'3' b'4' b'5' b'6' b'7' b'8' b',' b' ' b' ' b' ' b' '
      b' ' b' ' b' ' []
      (
        omega arith,
        omega arith,
        (
          omega arith,
          omega arith,
          (
            omega arith,
            omega arith,
            (
              omega arith,
              omega arith,
              (
                omega arith,
                omega arith,
                (
                  omega arith,
                  omega arith,
                  (omega arith, omega arith, (omega arith, omega arith, tt)),
                ),
              ),
            ),
          ),
        ),
      )
