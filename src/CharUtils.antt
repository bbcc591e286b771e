-- ===== src/CharUtils.antt =====
-- src/charutils.rs: the tables of byte classes and hex digits, and the UTF-8 encoder.
pub mod Classes
pub mod Hex
pub mod Utf8
use simdjson_rs.Prelude.{
  ℕ, ◌+◌, ◌*◌, ◌/◌, ◌%◌, ◌^◌, List, [], ◌∷◌, bit_and, bit_or, get_or, leb, if◌then◌else◌,
}

abbrev pub structural_or_whitespace_negated : List ℕ
structural_or_whitespace_negated =
    0 ∷ 1 ∷ 1 ∷ 1 ∷ 1 ∷ 1 ∷ 1 ∷ 1 ∷ 1 ∷ 0 ∷ 0 ∷ 1 ∷ 1 ∷ 0 ∷ 1 ∷ 1 ∷ 1 ∷ 1 ∷ 1 ∷ 1 ∷ 1 ∷ 1 ∷ 1 ∷ 1
    ∷ 1 ∷ 1 ∷ 1 ∷ 1 ∷ 1 ∷ 1 ∷ 1 ∷ 1 ∷ 0 ∷ 1 ∷ 1 ∷ 1 ∷ 1 ∷ 1 ∷ 1 ∷ 1 ∷ 1 ∷ 1 ∷ 1 ∷ 1 ∷ 0 ∷ 1 ∷ 1 ∷ 1
    ∷ 1 ∷ 1 ∷ 1 ∷ 1 ∷ 1 ∷ 1 ∷ 1 ∷ 1 ∷ 1 ∷ 1 ∷ 0 ∷ 1 ∷ 1 ∷ 1 ∷ 1 ∷ 1 ∷ 1 ∷ 1 ∷ 1 ∷ 1 ∷ 1 ∷ 1 ∷ 1 ∷ 1
    ∷ 1 ∷ 1 ∷ 1 ∷ 1 ∷ 1 ∷ 1 ∷ 1 ∷ 1 ∷ 1 ∷ 1 ∷ 1 ∷ 1 ∷ 1 ∷ 1 ∷ 1 ∷ 1 ∷ 1 ∷ 1 ∷ 1 ∷ 0 ∷ 1 ∷ 0 ∷ 1 ∷ 1
    ∷ 1 ∷ 1 ∷ 1 ∷ 1 ∷ 1 ∷ 1 ∷ 1 ∷ 1 ∷ 1 ∷ 1 ∷ 1 ∷ 1 ∷ 1 ∷ 1 ∷ 1 ∷ 1 ∷ 1 ∷ 1 ∷ 1 ∷ 1 ∷ 1 ∷ 1 ∷ 1 ∷ 1
    ∷ 1 ∷ 1 ∷ 1 ∷ 0 ∷ 1 ∷ 0 ∷ 1 ∷ 1 ∷ 1 ∷ 1 ∷ 1 ∷ 1 ∷ 1 ∷ 1 ∷ 1 ∷ 1 ∷ 1 ∷ 1 ∷ 1 ∷ 1 ∷ 1 ∷ 1 ∷ 1 ∷ 1
    ∷ 1 ∷ 1 ∷ 1 ∷ 1 ∷ 1 ∷ 1 ∷ 1 ∷ 1 ∷ 1 ∷ 1 ∷ 1 ∷ 1 ∷ 1 ∷ 1 ∷ 1 ∷ 1 ∷ 1 ∷ 1 ∷ 1 ∷ 1 ∷ 1 ∷ 1 ∷ 1 ∷ 1
    ∷ 1 ∷ 1 ∷ 1 ∷ 1 ∷ 1 ∷ 1 ∷ 1 ∷ 1 ∷ 1 ∷ 1 ∷ 1 ∷ 1 ∷ 1 ∷ 1 ∷ 1 ∷ 1 ∷ 1 ∷ 1 ∷ 1 ∷ 1 ∷ 1 ∷ 1 ∷ 1 ∷ 1
    ∷ 1 ∷ 1 ∷ 1 ∷ 1 ∷ 1 ∷ 1 ∷ 1 ∷ 1 ∷ 1 ∷ 1 ∷ 1 ∷ 1 ∷ 1 ∷ 1 ∷ 1 ∷ 1 ∷ 1 ∷ 1 ∷ 1 ∷ 1 ∷ 1 ∷ 1 ∷ 1 ∷ 1
    ∷ 1 ∷ 1 ∷ 1 ∷ 1 ∷ 1 ∷ 1 ∷ 1 ∷ 1 ∷ 1 ∷ 1 ∷ 1 ∷ 1 ∷ 1 ∷ 1 ∷ 1 ∷ 1 ∷ 1 ∷ 1 ∷ 1 ∷ 1 ∷ 1 ∷ 1 ∷ 1 ∷ 1
    ∷ 1 ∷ 1 ∷ 1 ∷ 1 ∷ 1 ∷ 1 ∷ 1 ∷ 1 ∷ 1 ∷ 1 ∷ 1 ∷ 1 ∷ 1 ∷ 1 ∷ 1 ∷ 1 ∷ []

abbrev pub structural_or_whitespace : List ℕ
structural_or_whitespace =
    1 ∷ 0 ∷ 0 ∷ 0 ∷ 0 ∷ 0 ∷ 0 ∷ 0 ∷ 0 ∷ 1 ∷ 1 ∷ 0 ∷ 0 ∷ 1 ∷ 0 ∷ 0 ∷ 0 ∷ 0 ∷ 0 ∷ 0 ∷ 0 ∷ 0 ∷ 0 ∷ 0
    ∷ 0 ∷ 0 ∷ 0 ∷ 0 ∷ 0 ∷ 0 ∷ 0 ∷ 0 ∷ 1 ∷ 0 ∷ 0 ∷ 0 ∷ 0 ∷ 0 ∷ 0 ∷ 0 ∷ 0 ∷ 0 ∷ 0 ∷ 0 ∷ 1 ∷ 0 ∷ 0 ∷ 0
    ∷ 0 ∷ 0 ∷ 0 ∷ 0 ∷ 0 ∷ 0 ∷ 0 ∷ 0 ∷ 0 ∷ 0 ∷ 1 ∷ 0 ∷ 0 ∷ 0 ∷ 0 ∷ 0 ∷ 0 ∷ 0 ∷ 0 ∷ 0 ∷ 0 ∷ 0 ∷ 0 ∷ 0
    ∷ 0 ∷ 0 ∷ 0 ∷ 0 ∷ 0 ∷ 0 ∷ 0 ∷ 0 ∷ 0 ∷ 0 ∷ 0 ∷ 0 ∷ 0 ∷ 0 ∷ 0 ∷ 0 ∷ 0 ∷ 0 ∷ 0 ∷ 1 ∷ 0 ∷ 1 ∷ 0 ∷ 0
    ∷ 0 ∷ 0 ∷ 0 ∷ 0 ∷ 0 ∷ 0 ∷ 0 ∷ 0 ∷ 0 ∷ 0 ∷ 0 ∷ 0 ∷ 0 ∷ 0 ∷ 0 ∷ 0 ∷ 0 ∷ 0 ∷ 0 ∷ 0 ∷ 0 ∷ 0 ∷ 0 ∷ 0
    ∷ 0 ∷ 0 ∷ 0 ∷ 1 ∷ 0 ∷ 1 ∷ 0 ∷ 0 ∷ 0 ∷ 0 ∷ 0 ∷ 0 ∷ 0 ∷ 0 ∷ 0 ∷ 0 ∷ 0 ∷ 0 ∷ 0 ∷ 0 ∷ 0 ∷ 0 ∷ 0 ∷ 0
    ∷ 0 ∷ 0 ∷ 0 ∷ 0 ∷ 0 ∷ 0 ∷ 0 ∷ 0 ∷ 0 ∷ 0 ∷ 0 ∷ 0 ∷ 0 ∷ 0 ∷ 0 ∷ 0 ∷ 0 ∷ 0 ∷ 0 ∷ 0 ∷ 0 ∷ 0 ∷ 0 ∷ 0
    ∷ 0 ∷ 0 ∷ 0 ∷ 0 ∷ 0 ∷ 0 ∷ 0 ∷ 0 ∷ 0 ∷ 0 ∷ 0 ∷ 0 ∷ 0 ∷ 0 ∷ 0 ∷ 0 ∷ 0 ∷ 0 ∷ 0 ∷ 0 ∷ 0 ∷ 0 ∷ 0 ∷ 0
    ∷ 0 ∷ 0 ∷ 0 ∷ 0 ∷ 0 ∷ 0 ∷ 0 ∷ 0 ∷ 0 ∷ 0 ∷ 0 ∷ 0 ∷ 0 ∷ 0 ∷ 0 ∷ 0 ∷ 0 ∷ 0 ∷ 0 ∷ 0 ∷ 0 ∷ 0 ∷ 0 ∷ 0
    ∷ 0 ∷ 0 ∷ 0 ∷ 0 ∷ 0 ∷ 0 ∷ 0 ∷ 0 ∷ 0 ∷ 0 ∷ 0 ∷ 0 ∷ 0 ∷ 0 ∷ 0 ∷ 0 ∷ 0 ∷ 0 ∷ 0 ∷ 0 ∷ 0 ∷ 0 ∷ 0 ∷ 0
    ∷ 0 ∷ 0 ∷ 0 ∷ 0 ∷ 0 ∷ 0 ∷ 0 ∷ 0 ∷ 0 ∷ 0 ∷ 0 ∷ 0 ∷ 0 ∷ 0 ∷ 0 ∷ 0 ∷ []

-- A `u8` is below 256, so the default is never read.
unfoldable pub is_not_structural_or_whitespace : ℕ → ℕ
is_not_structural_or_whitespace c = get_or structural_or_whitespace_negated c 0

unfoldable pub is_structural_or_whitespace : ℕ → ℕ
is_structural_or_whitespace c = get_or structural_or_whitespace c 0

-- -1 as an `i8` that is cast to `i32`, read as a pattern of 32 bits.
abbrev m1 : ℕ
m1 = 0xffffffff

-- The entries after `i32::from`, as patterns of 32 bits.
abbrev digittoval : List ℕ
digittoval =
    m1 ∷ m1 ∷ m1 ∷ m1 ∷ m1 ∷ m1 ∷ m1 ∷ m1 ∷ m1 ∷ m1 ∷ m1 ∷ m1 ∷ m1 ∷ m1 ∷ m1 ∷ m1 ∷ m1 ∷ m1 ∷ m1
    ∷ m1 ∷ m1 ∷ m1 ∷ m1 ∷ m1 ∷ m1 ∷ m1 ∷ m1 ∷ m1 ∷ m1 ∷ m1 ∷ m1 ∷ m1 ∷ m1 ∷ m1 ∷ m1 ∷ m1 ∷ m1 ∷ m1
    ∷ m1 ∷ m1 ∷ m1 ∷ m1 ∷ m1 ∷ m1 ∷ m1 ∷ m1 ∷ m1 ∷ m1 ∷ 0 ∷ 1 ∷ 2 ∷ 3 ∷ 4 ∷ 5 ∷ 6 ∷ 7 ∷ 8 ∷ 9 ∷ m1
    ∷ m1 ∷ m1 ∷ m1 ∷ m1 ∷ m1 ∷ m1 ∷ 10 ∷ 11 ∷ 12 ∷ 13 ∷ 14 ∷ 15 ∷ m1 ∷ m1 ∷ m1 ∷ m1 ∷ m1 ∷ m1 ∷ m1
    ∷ m1 ∷ m1 ∷ m1 ∷ m1 ∷ m1 ∷ m1 ∷ m1 ∷ m1 ∷ m1 ∷ m1 ∷ m1 ∷ m1 ∷ m1 ∷ m1 ∷ m1 ∷ m1 ∷ m1 ∷ m1 ∷ m1
    ∷ 10 ∷ 11 ∷ 12 ∷ 13 ∷ 14 ∷ 15 ∷ m1 ∷ m1 ∷ m1 ∷ m1 ∷ m1 ∷ m1 ∷ m1 ∷ m1 ∷ m1 ∷ m1 ∷ m1 ∷ m1 ∷ m1
    ∷ m1 ∷ m1 ∷ m1 ∷ m1 ∷ m1 ∷ m1 ∷ m1 ∷ m1 ∷ m1 ∷ m1 ∷ m1 ∷ m1 ∷ m1 ∷ m1 ∷ m1 ∷ m1 ∷ m1 ∷ m1 ∷ m1
    ∷ m1 ∷ m1 ∷ m1 ∷ m1 ∷ m1 ∷ m1 ∷ m1 ∷ m1 ∷ m1 ∷ m1 ∷ m1 ∷ m1 ∷ m1 ∷ m1 ∷ m1 ∷ m1 ∷ m1 ∷ m1 ∷ m1
    ∷ m1 ∷ m1 ∷ m1 ∷ m1 ∷ m1 ∷ m1 ∷ m1 ∷ m1 ∷ m1 ∷ m1 ∷ m1 ∷ m1 ∷ m1 ∷ m1 ∷ m1 ∷ m1 ∷ m1 ∷ m1 ∷ m1
    ∷ m1 ∷ m1 ∷ m1 ∷ m1 ∷ m1 ∷ m1 ∷ m1 ∷ m1 ∷ m1 ∷ m1 ∷ m1 ∷ m1 ∷ m1 ∷ m1 ∷ m1 ∷ m1 ∷ m1 ∷ m1 ∷ m1
    ∷ m1 ∷ m1 ∷ m1 ∷ m1 ∷ m1 ∷ m1 ∷ m1 ∷ m1 ∷ m1 ∷ m1 ∷ m1 ∷ m1 ∷ m1 ∷ m1 ∷ m1 ∷ m1 ∷ m1 ∷ m1 ∷ m1
    ∷ m1 ∷ m1 ∷ m1 ∷ m1 ∷ m1 ∷ m1 ∷ m1 ∷ m1 ∷ m1 ∷ m1 ∷ m1 ∷ m1 ∷ m1 ∷ m1 ∷ m1 ∷ m1 ∷ m1 ∷ m1 ∷ m1
    ∷ m1 ∷ m1 ∷ m1 ∷ m1 ∷ m1 ∷ m1 ∷ m1 ∷ m1 ∷ m1 ∷ m1 ∷ m1 ∷ m1 ∷ m1 ∷ m1 ∷ m1 ∷ m1 ∷ m1 ∷ m1 ∷ m1
    ∷ m1 ∷ m1 ∷ m1 ∷ m1 ∷ m1 ∷ m1 ∷ m1 ∷ []

-- `v << k` in 32 bits.
abbrev shl32 : ℕ → ℕ → ℕ
shl32 v k = v * 2 ^ k % 2 ^ 32

-- The argument is `src[0]` to `src[3]`.
unfoldable pub hex_to_u32_nocheck : ℕ → ℕ → ℕ → ℕ → ℕ
hex_to_u32_nocheck s0 s1 s2 s3 =
    let v1 = get_or digittoval s0 0 in
    let v2 = get_or digittoval s1 0 in
    let v3 = get_or digittoval s2 0 in
    let v4 = get_or digittoval s3 0 in
    bit_or (bit_or (bit_or (shl32 v1 12) (shl32 v2 8)) (shl32 v3 4)) v4

-- The bytes written at the front of `c`; the returned length is their number.
unfoldable pub codepoint_to_utf8 : ℕ → List ℕ
codepoint_to_utf8 cp =
    if leb cp 0x7f
    then cp % 256 ∷ []
    else if leb cp 0x7ff
    then (cp / 2 ^ 6 + 192) % 256 ∷ (bit_and cp 63 + 128) % 256 ∷ []
    else if leb cp 0xffff
    then (cp / 2 ^ 12 + 224) % 256
      ∷ (bit_and (cp / 2 ^ 6) 63 + 128) % 256
      ∷ (bit_and cp 63 + 128) % 256
      ∷ []
    else if leb cp 0x10ffff
    then (cp / 2 ^ 18 + 240) % 256
      ∷ (bit_and (cp / 2 ^ 12) 63 + 128) % 256
      ∷ (bit_and (cp / 2 ^ 6) 63 + 128) % 256
      ∷ (bit_and cp 63 + 128) % 256
      ∷ []
    else []
