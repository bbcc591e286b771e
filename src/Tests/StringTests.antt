-- ===== src/Tests/StringTests.antt =====
-- Escapes of src/stringparse.rs and src/charutils.rs at concrete inputs.
use simdjson_rs.Prelude.{
  ℕ, ◌≤◌, ◌+◌, ◌-◌, ◌*◌, ◌≡◌, ◌↔◌, inl, inr, refl, arith, some, none, List, [], ◌∷◌, ◌++◌, codes,
  length,
}
use simdjson_rs.Error.{ok, err, invalid_utf8}
use simdjson_rs.CharUtils.Hex.{hex_to_u32_nocheck_value, hex_to_u32_nocheck_invalid}
use simdjson_rs.CharUtils.{hex_to_u32_nocheck, codepoint_to_utf8}
use simdjson_rs.CharUtils.Utf8.{decode_utf8, decode_utf8-codepoint_to_utf8, decode_utf8-surrogate}
use simdjson_rs.StringParse.Codepoint.{
  Spells, escape, handle_unicode_codepoint_pair, handle_unicode_codepoint_above,
  handle_unicode_codepoint_invalid,
}
use simdjson_rs.StringParse.Scalar.{two, handle_unicode_codepoint_scalar}
use simdjson_rs.StringParse.Refused.{Refused, handle_unicode_codepoint_err_iff}
use simdjson_rs.StringParse.{handle_unicode_codepoint}

-- U+1F600 as a pair.
pair_test :
    handle_unicode_codepoint (codes "\\ud83d\\ude00\"") ≡ ok (0xf0 ∷ 0x9f ∷ 0x98 ∷ 0x80 ∷ [], 12)
unfolding handle_unicode_codepoint hex_to_u32_nocheck codepoint_to_utf8
pair_test = refl

decode_utf8-codepoint_to_utf8_example :
    decode_utf8 (codepoint_to_utf8 0x20ac ++ b'!' ∷ []) ≡ some (0x20ac, b'!' ∷ [])
decode_utf8-codepoint_to_utf8_example =
    decode_utf8-codepoint_to_utf8 0x20ac (b'!' ∷ []) (inl (omega arith))

decode_utf8-surrogate_example : decode_utf8 (codepoint_to_utf8 0xdc00 ++ []) ≡ none
decode_utf8-surrogate_example = decode_utf8-surrogate 0xdc00 [] (omega arith) (omega arith)

abbrev e9 : Spells b'0' b'0' b'e' b'9' 0xe9
e9 = record {
  v = 0;
  w = 0;
  x = 14;
  y = 9;
  first = refl;
  second = refl;
  third = refl;
  fourth = refl;
  value = refl;
}

abbrev d83d : Spells b'd' b'8' b'3' b'd' 0xd83d
d83d = record {
  v = 13;
  w = 8;
  x = 3;
  y = 13;
  first = refl;
  second = refl;
  third = refl;
  fourth = refl;
  value = refl;
}

abbrev de00 : Spells b'D' b'E' b'0' b'0' 0xde00
de00 = record {
  v = 13;
  w = 14;
  x = 0;
  y = 0;
  first = refl;
  second = refl;
  third = refl;
  fourth = refl;
  value = refl;
}

abbrev ffff : Spells b'f' b'f' b'f' b'f' 0xffff
ffff = record {
  v = 15;
  w = 15;
  x = 15;
  y = 15;
  first = refl;
  second = refl;
  third = refl;
  fourth = refl;
  value = refl;
}

handle_unicode_codepoint_scalar_example :
    (bytes : List ℕ) × (handle_unicode_codepoint
        (escape b'd' b'8' b'3' b'd' (escape b'D' b'E' b'0' b'0' []))
      ≡ ok (bytes, 12))
    × ((rest : List ℕ) → decode_utf8 (bytes ++ rest) ≡ some (0x1f600, rest))
handle_unicode_codepoint_scalar_example =
    handle_unicode_codepoint_scalar (escape b'd' b'8' b'3' b'd' (escape b'D' b'E' b'0' b'0' []))
      0x1f600 12 (two [] d83d de00 (omega arith) (omega arith) (omega arith) (omega arith))

handle_unicode_codepoint_pair_example :
    handle_unicode_codepoint (escape b'd' b'8' b'3' b'd' (escape b'D' b'E' b'0' b'0' []))
    ≡ ok (codepoint_to_utf8 (0x10000 + (0xd83d - 0xd800) * 0x400 + (0xde00 - 0xdc00)), 12)
handle_unicode_codepoint_pair_example =
    handle_unicode_codepoint_pair [] d83d de00 (omega arith) (omega arith) (omega arith)
      (omega arith)

handle_unicode_codepoint_above_example :
    (bytes : List ℕ) × (handle_unicode_codepoint
        (escape b'd' b'8' b'3' b'd' (escape b'f' b'f' b'f' b'f' []))
      ≡ ok (bytes, 12))
    × (length bytes ≡ 4)
handle_unicode_codepoint_above_example =
    handle_unicode_codepoint_above [] d83d ffff (omega arith) (omega arith) (omega arith)

handle_unicode_codepoint_err_iff_example :
    (handle_unicode_codepoint (escape b'd' b'8' b'3' b'd' (escape b'0' b'0' b'e' b'9' []))
      ≡ err invalid_utf8)
    ↔ Refused b'd' b'8' b'3' b'd' 0x5c b'u' b'0' b'0' b'e' b'9'
handle_unicode_codepoint_err_iff_example =
    handle_unicode_codepoint_err_iff b'd' b'8' b'3' b'd' 0x5c b'u' b'0' b'0' b'e' b'9' []
      (omega arith, (omega arith, (omega arith, (omega arith, tt))))
      (omega arith, (omega arith, (omega arith, (omega arith, tt))))

handle_unicode_codepoint_invalid_example :
    handle_unicode_codepoint (escape b'0' b'0' b'g' b'9' []) ≡ ok ([], 6)
handle_unicode_codepoint_invalid_example =
    handle_unicode_codepoint_invalid b'0' b'0' b'g' b'9' [] (omega arith) (omega arith)
      (omega arith) (omega arith) (inr (inr (inl refl)))

hex_to_u32_nocheck_value_example : hex_to_u32_nocheck b'2' b'0' b'a' b'C' ≡ 0x20ac
hex_to_u32_nocheck_value_example =
    hex_to_u32_nocheck_value b'2' b'0' b'a' b'C' 2 0 10 12 refl refl refl refl

hex_to_u32_nocheck_invalid_example : 0xfffff000 ≤ hex_to_u32_nocheck b'2' b'g' b'a' b'C'
hex_to_u32_nocheck_invalid_example =
    hex_to_u32_nocheck_invalid b'2' b'g' b'a' b'C' (omega arith) (omega arith) (omega arith)
      (omega arith) (inr (inl refl))
