-- ===== src/Tests/ValueTests.antt =====
-- `to_value` of src/value/owned.rs: both stages and the builder on one text.
use simdjson_rs.Prelude.{◌≡◌, refl, true, codes, replicate}
use simdjson_rs.Error.{ok}
use simdjson_rs.CharUtils.{is_structural_or_whitespace, is_not_structural_or_whitespace}
use simdjson_rs.NumberParse.{pos, is_integer}
use simdjson_rs.NumberParse.Integer.{
  integer_part, integer_digits, decimal_part, exponent_part, number_value, behind_integer,
  parse_number_int,
}
use simdjson_rs.ParseStr.{
  equal_mask, trailingzeroes, find_special, load_chunk, plain_loop, string_text, parse_str_,
}
use simdjson_rs.Value.{int, bool, array, object, cons, nil, insert, new}
use simdjson_rs.Atoms.{load, is_valid_true_atom}
use simdjson_rs.Validate.{Input, validate, step, update_char}
use simdjson_rs.Stage1.{
  find_structural_bits, scan_loop, scan_block, fill_input, check_utf8, find_odd_backslash_sequences,
  find_quote_mask_and_bits, clmul, find_whitespace_and_structurals, buckets, hamming,
  next_positions, flatten_loop, flatten_bits, finalize_structurals,
}
use simdjson_rs.Deserializer.{skip, next_, count_elements, parse_str, parse_number}
use simdjson_rs.Deserializer.Owned.{value_at, parse_array, parse_map, parse_value, parse}
use simdjson_rs.Deserializer.FromSlice.{from_slice, to_value}
use simdjson_rs.Tests.OwnedTests.{naturals}

abbrev slice : Input
slice = record { bytes = codes " [1, {\"a\":true}]"; behind = replicate 8 0 }

both_stages :
    to_value naturals true 3 4096 4000 slice
    ≡ ok (array (cons (int (pos 1)) (cons (object (insert (codes "a") (bool true) new)) nil)))
unfolding to_value from_slice validate step update_char is_valid_true_atom load
    is_not_structural_or_whitespace parse parse_value value_at parse_array parse_map skip next_
    count_elements parse_str parse_number parse_number_int integer_part is_integer integer_digits
    decimal_part exponent_part number_value behind_integer is_structural_or_whitespace parse_str_
    plain_loop string_text load_chunk find_special equal_mask trailingzeroes find_structural_bits
    scan_loop scan_block fill_input check_utf8 find_odd_backslash_sequences find_quote_mask_and_bits
    clmul find_whitespace_and_structurals buckets hamming next_positions flatten_loop flatten_bits
    finalize_structurals
both_stages = refl
