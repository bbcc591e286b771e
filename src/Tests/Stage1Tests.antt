-- ===== src/Tests/Stage1Tests.antt =====
-- Stage 1 of src/stage1.rs at concrete inputs.
use simdjson_rs.Prelude.{◌≡◌, refl, [], ◌∷◌, ◌++◌, codes, replicate}
use simdjson_rs.Error.{ok, err, syntax, invalid_utf8}
use simdjson_rs.ParseStr.{trailingzeroes}
use simdjson_rs.Utf8Check.{
  avxcheck_utf8_bytes, avxcheck_smaller_than_0xf4, avxcontinuation_lengths, avxcarry_continuations,
  avxcheck_continuations, avxcheck_first_continuation_max, avxcheck_overlong, avx_count_nibbles,
  push_last_byte_of_a_to_b,
}
use simdjson_rs.Stage1.{
  find_structural_bits, scan_loop, scan_block, fill_input, check_utf8, find_odd_backslash_sequences,
  find_quote_mask_and_bits, clmul, find_whitespace_and_structurals, buckets, hamming,
  next_positions, flatten_loop, flatten_bits, finalize_structurals,
}

two_blocks :
    find_structural_bits
      (codes "{\"a\\\"[b\" : [1, true]," ++ (replicate 60 b' ' ++ codes "\"k\":null}"))
    ≡ ok (0 ∷ 0 ∷ 1 ∷ 9 ∷ 11 ∷ 12 ∷ 13 ∷ 15 ∷ 19 ∷ 20 ∷ 81 ∷ 84 ∷ 85 ∷ 89 ∷ [])
unfolding find_structural_bits scan_loop scan_block fill_input check_utf8
    find_odd_backslash_sequences find_quote_mask_and_bits clmul find_whitespace_and_structurals
    buckets hamming next_positions flatten_loop flatten_bits finalize_structurals trailingzeroes
two_blocks = refl

unclosed_quote : find_structural_bits (codes "[\"a]") ≡ err syntax
unfolding find_structural_bits scan_loop scan_block fill_input check_utf8
    find_odd_backslash_sequences find_quote_mask_and_bits clmul find_whitespace_and_structurals
    buckets hamming next_positions flatten_loop flatten_bits finalize_structurals trailingzeroes
unclosed_quote = refl

overlong : find_structural_bits (codes "[\"" ++ (0xc0 ∷ 0x80 ∷ codes "\"]")) ≡ err invalid_utf8
unfolding find_structural_bits scan_loop scan_block fill_input check_utf8
    find_odd_backslash_sequences find_quote_mask_and_bits clmul find_whitespace_and_structurals
    buckets hamming next_positions flatten_loop flatten_bits finalize_structurals trailingzeroes
    avxcheck_utf8_bytes avxcheck_smaller_than_0xf4 avxcontinuation_lengths avxcarry_continuations
    avxcheck_continuations avxcheck_first_continuation_max avxcheck_overlong avx_count_nibbles
    push_last_byte_of_a_to_b
overlong = refl
