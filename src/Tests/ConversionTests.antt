-- ===== src/Tests/ConversionTests.antt =====
-- The conversions and tests of src/value/owned/from.rs and src/value/owned/cmp.rs at concrete values.
use simdjson_rs.Prelude.{◌-◌, ◌^◌, ℕ, ◌≡◌, refl, true, none, codes, [], ◌∷◌}
use simdjson_rs.NumberParse.{negsuc}
use simdjson_rs.Value.{int, array, cons, nil, string, as_u64}
use simdjson_rs.Value.Conversions.{from_u64, from_i64, from_vec, from_str, eq_i64, eq_str}

negative_of_u64 : as_u64 (from_u64 {F = ℕ} (2 ^ 64 - 1)) ≡ none
negative_of_u64 = refl

equal_integer : eq_i64 (from_i64 {F = ℕ} (negsuc 4)) (negsuc 4) ≡ true
equal_integer = refl

all_ones : from_u64 {F = ℕ} (2 ^ 64 - 1) ≡ int (negsuc 0)
all_ones = refl

texts : from_vec {F = ℕ} from_str (codes "a" ∷ []) ≡ array (cons (string (codes "a")) nil)
texts = refl

equal_text : eq_str {F = ℕ} (from_str (codes "ab")) (codes "ab") ≡ true
equal_text = refl
