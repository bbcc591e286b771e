-- ===== src/Tests/TextTests.antt =====
-- `parse_str_` of src/lib.rs and `write_string` of src/value/generator.rs at concrete inputs.
use simdjson_rs.Prelude.{
  AreBytes, ◌<◌, ◌≤◌, length, ℕ, ◌≡◌, refl, arith, List, [], ◌∷◌, ◌++◌, codes,
}
use simdjson_rs.Error.{ok, generic}
use simdjson_rs.ParseStr.{
  equal_mask, trailingzeroes, find_special, load_chunk, plain_loop, escape_at, escaped_loop,
  string_text, parse_str_,
}
use simdjson_rs.CharUtils.{hex_to_u32_nocheck, codepoint_to_utf8}
use simdjson_rs.StringParse.{handle_unicode_codepoint}
use simdjson_rs.ParseStr.Escape.{escape_at-size}
use simdjson_rs.ParseStr.Chunk.{first_special, find_special_lem}
use simdjson_rs.ParseStr.Text.{Text, close, plain, escape}
use simdjson_rs.ParseStr.Whole.{text_of, parse_str_-Text}
use simdjson_rs.Generator.{write_string}
use simdjson_rs.Generator.Escaped.{escape_bytes}
use simdjson_rs.Generator.Writes.{write_string-escape_bytes}
use simdjson_rs.Generator.RoundTrip.{parse_str_-write_string}

-- The text is written over its escape.
rewritten :
    parse_str_ generic (codes "[\"a\\nb\"]") 1
    ≡ ok (b'a' ∷ 0x0a ∷ b'b' ∷ [], b'[' ∷ b'"' ∷ b'a' ∷ 0x0a ∷ b'b' ∷ codes "b\"]")
unfolding parse_str_ plain_loop escaped_loop string_text load_chunk find_special equal_mask
    trailingzeroes escape_at
rewritten = refl

a_newline : Text generic (codes "a\\n\"]") (ok (b'a' ∷ 0x0a ∷ []))
unfolding escape_at
a_newline =
    plain b'a' (omega arith) (omega arith)
      (escape {bytes = 0x0a ∷ []} {n = 2} refl (omega arith) (close (codes "]")))

parse_str_-Text_example :
    text_of generic (parse_str_ generic (codes "[\"a\\n\"]") 1) ≡ ok (b'a' ∷ 0x0a ∷ [])
parse_str_-Text_example =
    parse_str_-Text generic (codes "[\"a\\n\"]") 1 (ok (b'a' ∷ 0x0a ∷ [])) a_newline

abbrev quoted_text : List ℕ
quoted_text = b'"' ∷ b'a' ∷ 0x1f ∷ []

abbrev quoted_text-AreBytes : AreBytes quoted_text
quoted_text-AreBytes = (omega arith, (omega arith, (omega arith, tt)))

write_string-escape_bytes_example :
    write_string quoted_text ≡ ok (b'"' ∷ (escape_bytes quoted_text ++ b'"' ∷ []))
write_string-escape_bytes_example = write_string-escape_bytes quoted_text quoted_text-AreBytes

parse_str_-write_string_example :
    (quoted : List ℕ) × (write_string quoted_text ≡ ok quoted)
    × (text_of generic (parse_str_ generic (codes "[" ++ (quoted ++ codes "]")) 1) ≡ ok quoted_text)
parse_str_-write_string_example =
    parse_str_-write_string generic (codes "[") quoted_text (codes "]") quoted_text-AreBytes

find_special_lem_example : find_special (codes "ab\\n\"") ≡ first_special (codes "ab\\n\"")
find_special_lem_example = find_special_lem (codes "ab\\n\"") (omega arith)

abbrev e_acute : List ℕ
e_acute = 0xc3 ∷ 0xa9 ∷ []

escape_at-size_example : (0 < 6) × (length e_acute ≤ 6)
unfolding escape_at handle_unicode_codepoint hex_to_u32_nocheck codepoint_to_utf8
escape_at-size_example = escape_at-size generic (codes "\\u00e9") e_acute 6 refl
