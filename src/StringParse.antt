-- ===== src/StringParse.antt =====
-- src/stringparse.rs: the escapes of one character, and those of a code point.
pub mod Codepoint
pub mod Scalar
pub mod Refused
use simdjson_rs.Prelude.{
  ℕ, ◌+◌, ◌-◌, ◌*◌, ◌/◌, ◌^◌, Bool, true, false, ◌&&◌, ◌||◌, not, List, [], ◌∷◌, bit_or, get_elem?,
  get_or, leb, ltb, ◌==◌, if◌then◌else◌, Option, none, some, drop,
}
use simdjson_rs.Error.{ErrorType, invalid_utf8, Outcome, ok, err, fault, ◌>>=◌}
use simdjson_rs.CharUtils.{hex_to_u32_nocheck, codepoint_to_utf8}

abbrev pub escape_map : List ℕ
escape_map =
    0 ∷ 0 ∷ 0 ∷ 0 ∷ 0 ∷ 0 ∷ 0 ∷ 0 ∷ 0 ∷ 0 ∷ 0 ∷ 0 ∷ 0 ∷ 0 ∷ 0 ∷ 0 ∷ 0 ∷ 0 ∷ 0 ∷ 0 ∷ 0 ∷ 0 ∷ 0 ∷ 0
    ∷ 0 ∷ 0 ∷ 0 ∷ 0 ∷ 0 ∷ 0 ∷ 0 ∷ 0 ∷ 0 ∷ 0 ∷ 0x22 ∷ 0 ∷ 0 ∷ 0 ∷ 0 ∷ 0 ∷ 0 ∷ 0 ∷ 0 ∷ 0 ∷ 0 ∷ 0 ∷ 0
    ∷ 0x2f ∷ 0 ∷ 0 ∷ 0 ∷ 0 ∷ 0 ∷ 0 ∷ 0 ∷ 0 ∷ 0 ∷ 0 ∷ 0 ∷ 0 ∷ 0 ∷ 0 ∷ 0 ∷ 0 ∷ 0 ∷ 0 ∷ 0 ∷ 0 ∷ 0 ∷ 0
    ∷ 0 ∷ 0 ∷ 0 ∷ 0 ∷ 0 ∷ 0 ∷ 0 ∷ 0 ∷ 0 ∷ 0 ∷ 0 ∷ 0 ∷ 0 ∷ 0 ∷ 0 ∷ 0 ∷ 0 ∷ 0 ∷ 0 ∷ 0 ∷ 0 ∷ 0 ∷ 0x5c
    ∷ 0 ∷ 0 ∷ 0 ∷ 0 ∷ 0 ∷ 0x08 ∷ 0 ∷ 0 ∷ 0 ∷ 0x0c ∷ 0 ∷ 0 ∷ 0 ∷ 0 ∷ 0 ∷ 0 ∷ 0 ∷ 0x0a ∷ 0 ∷ 0 ∷ 0
    ∷ 0x0d ∷ 0 ∷ 0x09 ∷ 0 ∷ 0 ∷ 0 ∷ 0 ∷ 0 ∷ 0 ∷ 0 ∷ 0 ∷ 0 ∷ 0 ∷ 0 ∷ 0 ∷ 0 ∷ 0 ∷ 0 ∷ 0 ∷ 0 ∷ 0 ∷ 0
    ∷ 0 ∷ 0 ∷ 0 ∷ 0 ∷ 0 ∷ 0 ∷ 0 ∷ 0 ∷ 0 ∷ 0 ∷ 0 ∷ 0 ∷ 0 ∷ 0 ∷ 0 ∷ 0 ∷ 0 ∷ 0 ∷ 0 ∷ 0 ∷ 0 ∷ 0 ∷ 0 ∷ 0
    ∷ 0 ∷ 0 ∷ 0 ∷ 0 ∷ 0 ∷ 0 ∷ 0 ∷ 0 ∷ 0 ∷ 0 ∷ 0 ∷ 0 ∷ 0 ∷ 0 ∷ 0 ∷ 0 ∷ 0 ∷ 0 ∷ 0 ∷ 0 ∷ 0 ∷ 0 ∷ 0 ∷ 0
    ∷ 0 ∷ 0 ∷ 0 ∷ 0 ∷ 0 ∷ 0 ∷ 0 ∷ 0 ∷ 0 ∷ 0 ∷ 0 ∷ 0 ∷ 0 ∷ 0 ∷ 0 ∷ 0 ∷ 0 ∷ 0 ∷ 0 ∷ 0 ∷ 0 ∷ 0 ∷ 0 ∷ 0
    ∷ 0 ∷ 0 ∷ 0 ∷ 0 ∷ 0 ∷ 0 ∷ 0 ∷ 0 ∷ 0 ∷ 0 ∷ 0 ∷ 0 ∷ 0 ∷ 0 ∷ 0 ∷ 0 ∷ 0 ∷ 0 ∷ 0 ∷ 0 ∷ 0 ∷ 0 ∷ 0 ∷ 0
    ∷ 0 ∷ 0 ∷ 0 ∷ 0 ∷ 0 ∷ 0 ∷ 0 ∷ 0 ∷ 0 ∷ 0 ∷ 0 ∷ 0 ∷ 0 ∷ 0 ∷ 0 ∷ 0 ∷ 0 ∷ 0 ∷ 0 ∷ 0 ∷ 0 ∷ 0 ∷ 0 ∷ 0
    ∷ []

-- `*s.get_unchecked(i)`.
abbrev pub read : List ℕ → ℕ → Outcome ErrorType ℕ
read s i = elim (get_elem? s i) [ none ↦ fault | some b ↦ ok b ]

-- `hex_to_u32_nocheck(&s[i..])`.
unfoldable pub read_hex : List ℕ → ℕ → Outcome ErrorType ℕ
read_hex s i = do
  s0 ← read s i
  s1 ← read s (i + 1)
  s2 ← read s (i + 2)
  s3 ← read s (i + 3)
  ok (hex_to_u32_nocheck s0 s1 s2 s3)

-- The second `\u` escape of a pair, behind a first one with the value `code_point`: nothing is
-- written where no escape follows or one of the two has an invalid digit.
unfoldable pub low_surrogate : ℕ → List ℕ → Outcome ErrorType (List ℕ × ℕ)
low_surrogate code_point src = read_hex src 2 >>= λ code_point_2.
    if not (bit_or code_point code_point_2 / 2 ^ 16 == 0)
    then ok ([], 6)
    else if ltb code_point_2 0xdc00
    then err invalid_utf8
    else (let c1 = code_point - 0xd800 in
        let c2 = code_point_2 - 0xdc00 in
        ok (codepoint_to_utf8 (bit_or (c1 * 2 ^ 10) c2 + 0x10000), 12))

-- The test for a second escape, behind a code point in the range of high surrogates.
unfoldable pub high_surrogate : ℕ → List ℕ → Outcome ErrorType (List ℕ × ℕ)
high_surrogate code_point src = read src 0 >>= λ b0.
    if not (b0 == 0x5c)
    then ok ([], 6)
    else (read src 1 >>= λ b1.
        if not (b1 == b'u') then ok ([], 6) else low_surrogate code_point src)

-- The bytes written to `dst_ptr`, whose number is the first part of the result, and how far the
-- source advances. `src` begins at the backslash of a `\u` escape. The first `checked_sub` of the
-- code never fails, since it stands behind the test for `0xd800`.
unfoldable pub handle_unicode_codepoint : List ℕ → Outcome ErrorType (List ℕ × ℕ)
unfolding low_surrogate high_surrogate read_hex
handle_unicode_codepoint src = read_hex src 2 >>= λ code_point.
    if leb 0xd800 code_point && ltb code_point 0xdc00
    then high_surrogate code_point (drop 6 src)
    else ok (codepoint_to_utf8 code_point, 6)
