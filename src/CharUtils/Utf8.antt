-- ===== src/CharUtils/Utf8.antt =====
-- The encoder of src/charutils.rs against a strict UTF-8 decoder (RFC 3629).
use simdjson_rs.Prelude.{
  ℕ, ◌+◌, ◌-◌, ◌*◌, ◌/◌, ◌%◌, ◌^◌, ◌≤◌, ◌<◌, ◌≡◌, ◌⊎◌, Bool, ◌&&◌, not, Option, none, some, List,
  [], ◌∷◌, ◌++◌, arith, ltb, leb, if◌then◌else◌, length,
}
use simdjson_rs.Prelude.Bits.{bit_and_mask}
use native.Mathlib.Decide.{dec_lt}
use simdjson_rs.CharUtils.{codepoint_to_utf8}

-- A Unicode scalar value: a code point that is no surrogate.
abbrev pub IsScalar : ℕ → Type 0
IsScalar cp = (cp < 0xd800) ⊎ (0xdfff < cp) × (cp ≤ 0x10ffff)

abbrev between : ℕ → ℕ → ℕ → Bool
between lo hi b = leb lo b && leb b hi

abbrev is_continuation : ℕ → Bool
is_continuation b = between 0x80 0xbf b

four_bytes : ℕ → ℕ → ℕ → List ℕ → Option (ℕ × List ℕ)
four_bytes a b c [] = none
four_bytes a b c (d ∷ s) =
    let cp = (a - 0xf0) * 2 ^ 18 + (b - 0x80) * 2 ^ 12 + (c - 0x80) * 2 ^ 6 + (d - 0x80) in
    if between 0xf0 0xf4 a
      && is_continuation b
      && is_continuation c
      && is_continuation d
      && between 0x10000 0x10ffff cp
    then some (cp, s)
    else none

three_bytes : ℕ → ℕ → List ℕ → Option (ℕ × List ℕ)
unfolding four_bytes
three_bytes a b [] = none
three_bytes a b (c ∷ s) =
    let cp = (a - 0xe0) * 2 ^ 12 + (b - 0x80) * 2 ^ 6 + (c - 0x80) in
    if between 0xe0 0xef a && is_continuation b && is_continuation c
    then (if leb 0x800 cp && not (between 0xd800 0xdfff cp) then some (cp, s) else none)
    else four_bytes a b c s

two_bytes : ℕ → List ℕ → Option (ℕ × List ℕ)
unfolding three_bytes
two_bytes a [] = none
two_bytes a (b ∷ s) =
    if between 0xc2 0xdf a && is_continuation b
    then some ((a - 0xc0) * 2 ^ 6 + (b - 0x80), s)
    else three_bytes a b s

-- The first code point of a text with what follows it: no overlong form, no surrogate.
pub decode_utf8 : List ℕ → Option (ℕ × List ℕ)
unfolding two_bytes
decode_utf8 [] = none
decode_utf8 (a ∷ s) = if ltb a 0x80 then some (a, s) else two_bytes a s

-- What the encoder writes, range by range.
encode_two :
    (cp : ℕ)
    → 0x80 ≤ cp
    → cp < 0x800
    → codepoint_to_utf8 cp ≡ (192 + cp / 64) ∷ (128 + cp % 64) ∷ []
unfolding codepoint_to_utf8
encode_two cp h g = ground (arith, bit_and_mask 6 cp)

encode_three :
    (cp : ℕ)
    → 0x800 ≤ cp
    → cp < 0x10000
    → codepoint_to_utf8 cp ≡ (224 + cp / 4096) ∷ (128 + cp / 64 % 64) ∷ (128 + cp % 64) ∷ []
unfolding codepoint_to_utf8
encode_three cp h g = ground (arith, bit_and_mask 6 cp, bit_and_mask 6 (cp / 64))

encode_four :
    (cp : ℕ)
    → 0x10000 ≤ cp
    → cp < 0x110000
    → codepoint_to_utf8 cp
      ≡ (240 + cp / 262144) ∷ (128 + cp / 4096 % 64) ∷ (128 + cp / 64 % 64) ∷ (128 + cp % 64) ∷ []
unfolding codepoint_to_utf8
encode_four cp h g =
    ground (arith, bit_and_mask 6 cp, bit_and_mask 6 (cp / 64), bit_and_mask 6 (cp / 4096))

-- What the decoder makes of such bytes.
decode_one :
    (cp : ℕ) (rest : List ℕ)
    → cp < 0x80
    → decode_utf8 (codepoint_to_utf8 cp ++ rest) ≡ some (cp, rest)
unfolding decode_utf8 codepoint_to_utf8
decode_one cp rest h = ground arith

decode_two :
    (q r : ℕ) (rest : List ℕ)
    → 2 ≤ q
    → q < 32
    → r < 64
    → decode_utf8 ((192 + q) ∷ (128 + r) ∷ rest) ≡ some (q * 64 + r, rest)
unfolding decode_utf8
decode_two q r rest h g k = ground arith

decode_three :
    (p q r : ℕ) (rest : List ℕ)
    → p < 16
    → q < 64
    → r < 64
    → decode_utf8 ((224 + p) ∷ (128 + q) ∷ (128 + r) ∷ rest) ≡ (
        let cp = p * 4096 + q * 64 + r in
        if leb 0x800 cp && not (between 0xd800 0xdfff cp) then some (cp, rest) else none)
unfolding decode_utf8
decode_three p q r rest h g k = ground arith

decode_four :
    (o p q r : ℕ) (rest : List ℕ)
    → o < 5
    → p < 64
    → q < 64
    → r < 64
    → decode_utf8 ((240 + o) ∷ (128 + p) ∷ (128 + q) ∷ (128 + r) ∷ rest) ≡ (
        let cp = o * 262144 + p * 4096 + q * 64 + r in
        if between 0x10000 0x10ffff cp then some (cp, rest) else none)
unfolding decode_utf8
decode_four o p q r rest h g k l = ground arith

-- The encoding of a code point of three bytes is read back unless it is a surrogate.
decode-encode_three :
    (cp : ℕ) (rest : List ℕ)
    → 0x800 ≤ cp
    → cp < 0x10000
    → decode_utf8 (codepoint_to_utf8 cp ++ rest)
      ≡ (if between 0xd800 0xdfff cp then none else some (cp, rest))
decode-encode_three cp rest h g = rw (encode_three cp h g) (
    ground (
      arith,
      decode_three (cp / 4096) (cp / 64 % 64) (cp % 64) rest (omega arith) (omega arith)
          (omega arith),
    ))

decode-encode_four :
    (cp : ℕ) (rest : List ℕ)
    → 0x10000 ≤ cp
    → cp < 0x110000
    → decode_utf8 (codepoint_to_utf8 cp ++ rest) ≡ some (cp, rest)
decode-encode_four cp rest h g = rw (encode_four cp h g) (
    ground (
      arith,
      decode_four (cp / 262144) (cp / 4096 % 64) (cp / 64 % 64) (cp % 64) rest (omega arith)
          (omega arith) (omega arith) (omega arith),
    ))

decode-encode_two :
    (cp : ℕ) (rest : List ℕ)
    → 0x80 ≤ cp
    → cp < 0x800
    → decode_utf8 (codepoint_to_utf8 cp ++ rest) ≡ some (cp, rest)
decode-encode_two cp rest h g =
    rw (encode_two cp h g) (
      ground (arith, decode_two (cp / 64) (cp % 64) rest (omega arith) (omega arith) (omega arith)))

-- The bytes that `codepoint_to_utf8` writes for a Unicode scalar value decode as UTF-8 to that
-- value, and the decoder stops behind them.
pub decode_utf8-codepoint_to_utf8 :
    (cp : ℕ) (rest : List ℕ)
    → IsScalar cp
    → decode_utf8 (codepoint_to_utf8 cp ++ rest) ≡ some (cp, rest)
decode_utf8-codepoint_to_utf8 cp rest h = elim (dec_lt cp 0x80) [
  | yes p ↦ decode_one cp rest p
  | no p ↦ elim (dec_lt cp 0x800) [
    | yes q ↦ decode-encode_two cp rest (omega arith) q
    | no q ↦ elim (dec_lt cp 0x10000) [
      | yes r ↦ ground (arith, decode-encode_three cp rest (omega arith) r)
      | no r ↦ decode-encode_four cp rest (omega arith) (omega arith)
    ]
  ]
]

-- The bytes that `codepoint_to_utf8` writes for a surrogate are not UTF-8: the decoder refuses
-- them.
pub decode_utf8-surrogate :
    (cp : ℕ) (rest : List ℕ)
    → 0xd800 ≤ cp
    → cp ≤ 0xdfff
    → decode_utf8 (codepoint_to_utf8 cp ++ rest) ≡ none
decode_utf8-surrogate cp rest h g =
    ground (arith, decode-encode_three cp rest (omega arith) (omega arith))

-- How many bytes are written: none exactly for what is no code point.
pub length-codepoint_to_utf8 :
    (cp : ℕ)
    → length (codepoint_to_utf8 cp) ≡ (
        if ltb cp 0x80
        then 1
        else if ltb cp 0x800
        then 2
        else if ltb cp 0x10000
        then 3
        else if ltb cp 0x110000
        then 4
        else 0)
unfolding codepoint_to_utf8
length-codepoint_to_utf8 cp = ground arith
