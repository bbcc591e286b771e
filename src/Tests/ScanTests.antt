-- ===== src/Tests/ScanTests.antt =====
-- The theorems on src/stage1.rs and on `from_slice` at a concrete input.
use simdjson_rs.Prelude.{
  ◌<◌, ℕ, ◌≡◌, ◌↔◌, refl, true, false, List, [], ◌∷◌, ◌++◌, codes, replicate, map, arith, bit_or,
}
use simdjson_rs.Error.{ok, is_ok}
use simdjson_rs.ParseStr.{trailingzeroes}
use simdjson_rs.Validate.{Input}
use simdjson_rs.Validate.Parses.{IsDocument}
use simdjson_rs.Error.Settles.{Settles}
use simdjson_rs.Deserializer.Borrowed
use simdjson_rs.Deserializer.Total.{to_value-Settles}
use simdjson_rs.Tests.OwnedTests.{naturals}
use simdjson_rs.Deserializer.FromSlice.{
  to_value, from_slice, from_slice_iff, is_scannable, token_places,
}
use simdjson_rs.Stage1.{
  Scan, start, scan_block, scan_loop, pack, find_structural_bits, scan_loop, scan_block, fill_input,
  check_utf8, find_odd_backslash_sequences, find_quote_mask_and_bits, clmul,
  find_whitespace_and_structurals, buckets, hamming, next_positions, flatten_loop, flatten_bits,
  finalize_structurals,
}
use simdjson_rs.Stage1.Words.{bit}
use simdjson_rs.Stage1.Scanner.{Context, is_structural, is_whitespace, tokens_at, context_behind}
use simdjson_rs.Stage1.Odd.{behind_odd, parity}
use simdjson_rs.Stage1.Escapes.{find_odd_backslash_sequences-behind_odd}
use simdjson_rs.Stage1.Classes.{block, cmp_mask_against_input-pack}
use simdjson_rs.Stage1.Buckets.{find_whitespace_and_structurals-pack}
use simdjson_rs.Stage1.Strings.{
  fill, backslashes, strings, quotes, forbidden_at, find_quote_mask_and_bits-pack,
}
use simdjson_rs.Stage1.Final.{finalize_structurals-pack}
use simdjson_rs.Stage1.Flatten.{positions}
use simdjson_rs.Stage1.Stores.{flatten_bits-positions}
use simdjson_rs.Stage1.Loop.{IsBehind, start-IsBehind, scan_block-IsBehind}
use simdjson_rs.Stage1.Rounds.{padded, scan_loop-Scans, utf8_run}
use simdjson_rs.Stage1.Whole.{
  structural_bits, AreBelow, find_structural_bits-structural_bits, find_structural_bits-AreBelow,
}

-- A block of 64 bytes, which ends inside of a string and behind a backslash.
abbrev text : List ℕ
text = codes "{\"a\\\"[b\" : [1, true],\"c\\\\\":-2.5e3, \"d\" : {} , \"last ended  here\\"

-- `{"a\"[b" : [1, true]}`.
abbrev small : List ℕ
small = codes "{\"a\\\"[b\" : [1, true]}"

abbrev within : Context
within = record { escaped = true; inside = true; boundary = false }

find_structural_bits-structural_bits_example : find_structural_bits small ≡ structural_bits small
find_structural_bits-structural_bits_example =
    find_structural_bits-structural_bits small (omega arith) (omega arith)

find_odd_backslash_sequences-behind_odd_example :
    find_odd_backslash_sequences (block text) 1
    ≡ (pack (behind_odd true (backslashes text)), bit (parity true (backslashes text)))
find_odd_backslash_sequences-behind_odd_example =
    find_odd_backslash_sequences-behind_odd (block text) true (backslashes text) refl
      (cmp_mask_against_input-pack text refl 0x5c)

find_whitespace_and_structurals-pack_example :
    find_whitespace_and_structurals (block text)
    ≡ (pack (map is_whitespace text), pack (map is_structural text))
find_whitespace_and_structurals-pack_example =
    find_whitespace_and_structurals-pack text (omega arith) refl

flatten_bits-positions_example :
    flatten_bits (0 ∷ []) 128 (pack (backslashes text)) ≡ ok (0 ∷ positions 64 (backslashes text))
flatten_bits-positions_example =
    flatten_bits-positions (0 ∷ []) 64 (backslashes text) (omega arith) refl

find_quote_mask_and_bits-pack_example :
    find_quote_mask_and_bits (block text) (pack (behind_odd true (backslashes text))) (fill true) 0
    ≡ record {
      quote_mask = pack (strings within text);
      quote_bits = pack (quotes within text);
      inside_quote = fill (context_behind within text).inside;
      error_mask = bit_or 0 (pack (forbidden_at within text));
    }
find_quote_mask_and_bits-pack_example = find_quote_mask_and_bits-pack within text 0 refl

finalize_structurals-pack_example :
    finalize_structurals
      (pack (map is_structural text))
      (pack (map is_whitespace text))
      (pack (strings within text))
      (pack (quotes within text))
      0
    ≡ (pack (tokens_at within text), bit (context_behind within text).boundary)
finalize_structurals-pack_example = finalize_structurals-pack within text refl

scan_block-IsBehind_example :
    (s' : Scan) × (scan_block (text ++ small) 0 start ≡ ok s') × IsBehind text s'
scan_block-IsBehind_example =
    scan_block-IsBehind [] text small start (omega arith) refl (omega arith) start-IsBehind

scan_loop-Scans_example :
    (s' : Scan) × (scan_loop 3 (text ++ small) 0 start ≡ ok (128, s'))
    × IsBehind (padded (text ++ small)) s'
    × (s'.utf8 ≡ utf8_run 2 start.utf8 (padded (text ++ small)))
scan_loop-Scans_example =
    scan_loop-Scans 3 [] start (text ++ small) (omega arith) (omega arith) (omega arith)
      start-IsBehind

small_found : find_structural_bits small ≡ ok (0 ∷ 0 ∷ 1 ∷ 9 ∷ 11 ∷ 12 ∷ 13 ∷ 15 ∷ 19 ∷ 20 ∷ [])
unfolding find_structural_bits scan_loop scan_block fill_input check_utf8
    find_odd_backslash_sequences find_quote_mask_and_bits clmul find_whitespace_and_structurals
    buckets hamming next_positions flatten_loop flatten_bits finalize_structurals trailingzeroes
small_found = refl

find_structural_bits-AreBelow_example :
    (1 < 10) × AreBelow 21 (0 ∷ 0 ∷ 1 ∷ 9 ∷ 11 ∷ 12 ∷ 13 ∷ 15 ∷ 19 ∷ 20 ∷ [])
find_structural_bits-AreBelow_example =
    find_structural_bits-AreBelow small (0 ∷ 0 ∷ 1 ∷ 9 ∷ 11 ∷ 12 ∷ 13 ∷ 15 ∷ 19 ∷ 20 ∷ [])
      (omega arith) (omega arith) small_found

abbrev slice : Input
slice = record { bytes = small; behind = replicate 8 0 }

from_slice_iff_example :
    (is_ok (from_slice 4096 4000 slice) ≡ true)
    ↔ ((is_scannable small ≡ true) × IsDocument slice (token_places slice))
from_slice_iff_example = from_slice_iff 4096 4000 slice (omega arith) (omega arith) (omega arith)

to_value-Settles_example :
    Settles (to_value naturals true 200 4096 4000 slice)
    × Settles (Borrowed.to_value naturals true 200 4096 4000 slice)
to_value-Settles_example =
    to_value-Settles 4096 4000 slice (omega arith) (omega arith) (omega arith) naturals true 200
      (omega arith)
