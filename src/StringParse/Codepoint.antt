-- ===== src/StringParse/Codepoint.antt =====
-- What `handle_unicode_codepoint` of src/stringparse.rs makes of one escape and of a pair.
use simdjson_rs.Prelude.{
  ℕ, ◌+◌, ◌-◌, ◌*◌, ◌/◌, ◌^◌, ◌≤◌, ◌<◌, ◌≡◌, ◌⊎◌, refl, none, some, List, [], ◌∷◌, arith, ap, ◌∙◌,
  bit_or, length,
}
use simdjson_rs.Prelude.Bits.{bit_or_shifted, bit_or_lt}
use simdjson_rs.Error.{invalid_utf8, ok, err}
use simdjson_rs.CharUtils.{codepoint_to_utf8, hex_to_u32_nocheck}
use simdjson_rs.CharUtils.Hex.{
  hex_digit, hex_digit-lt, hex_to_u32_nocheck_value, hex_to_u32_nocheck_invalid,
}
use simdjson_rs.CharUtils.Utf8.{length-codepoint_to_utf8}
use simdjson_rs.StringParse.{handle_unicode_codepoint}

-- Four bytes that are hex digits, and the number that they spell.
pub record Spells (a b c d n : ℕ) : Type 0 where
  pub v : ℕ
  pub w : ℕ
  pub x : ℕ
  pub y : ℕ
  pub first : hex_digit a ≡ some v
  pub second : hex_digit b ≡ some w
  pub third : hex_digit c ≡ some x
  pub fourth : hex_digit d ≡ some y
  pub value : n ≡ v * 4096 + w * 256 + x * 16 + y

-- The bytes of `\u` and four more.
abbrev pub escape : ℕ → ℕ → ℕ → ℕ → List ℕ → List ℕ
escape a b c d rest = 0x5c ∷ b'u' ∷ a ∷ b ∷ c ∷ d ∷ rest

pub hex_to_u32_nocheck-Spells : {a b c d n : ℕ} → Spells a b c d n → hex_to_u32_nocheck a b c d ≡ n
hex_to_u32_nocheck-Spells {a} {b} {c} {d} s = omega (
  arith,
  hex_to_u32_nocheck_value a b c d s.v s.w s.x s.y s.first s.second s.third s.fourth,
  s.value,
)

-- An escape outside of the range of high surrogates writes the encoding of its value, and the
-- source goes on behind it.
pub handle_unicode_codepoint_plain :
    {a b c d n : ℕ} (rest : List ℕ)
    → Spells a b c d n
    → (n < 0xd800) ⊎ (0xdbff < n)
    → handle_unicode_codepoint (escape a b c d rest) ≡ ok (codepoint_to_utf8 n, 6)
unfolding handle_unicode_codepoint
handle_unicode_codepoint_plain {a} {b} {c} {d} {n} rest s h =
    rw (hex_to_u32_nocheck-Spells s) (ground arith)

-- Both numbers of a pair fit in 16 bits, so the test for an invalid digit passes.
pair_fits : (h l : ℕ) → h < 0x10000 → l < 0x10000 → bit_or h l / 2 ^ 16 ≡ 0
pair_fits h l p q = omega (arith, bit_or_lt 16 h l p q)

pub Spells-lt : {a b c d n : ℕ} → Spells a b c d n → n < 0x10000
Spells-lt {a} {b} {c} {d} s = ground (
  arith,
  hex_digit-lt a s.v s.first,
  hex_digit-lt b s.w s.second,
  hex_digit-lt c s.x s.third,
  hex_digit-lt d s.y s.fourth,
  s.value,
)

length_four : (n : ℕ) → 0x10000 ≤ n → n < 0x110000 → length (codepoint_to_utf8 n) ≡ 4
length_four n p q = ground (arith, length-codepoint_to_utf8 n)

module _ {a b c d h a' b' c' d' l : ℕ} (rest : List ℕ) (high : Spells a b c d h)
    (low : Spells a' b' c' d' l) where
  -- Any second escape from 0xdc00 up is taken for the low half.
  pub pair_accepted :
      0xd800 ≤ h
      → h < 0xdc00
      → 0xdc00 ≤ l
      → handle_unicode_codepoint (escape a b c d (escape a' b' c' d' rest))
        ≡ ok (codepoint_to_utf8 (bit_or ((h - 0xd800) * 2 ^ 10) (l - 0xdc00) + 0x10000), 12)
  unfolding handle_unicode_codepoint
  pair_accepted p q r =
      rw (hex_to_u32_nocheck-Spells high, hex_to_u32_nocheck-Spells low)
        (ground (arith, pair_fits h l (Spells-lt high) (Spells-lt low)))

  -- Two escapes, of a high and of a low surrogate, write the encoding of the code point of the
  -- pair, and the source goes on behind both.
  pub handle_unicode_codepoint_pair :
      0xd800 ≤ h
      → h < 0xdc00
      → 0xdc00 ≤ l
      → l < 0xe000
      → handle_unicode_codepoint (escape a b c d (escape a' b' c' d' rest))
        ≡ ok (codepoint_to_utf8 (0x10000 + (h - 0xd800) * 0x400 + (l - 0xdc00)), 12)
  handle_unicode_codepoint_pair p q r t =
      pair_accepted p q r
      ∙ ap (λ n. ok (codepoint_to_utf8 n, 12))
          (omega (arith, bit_or_shifted 10 (h - 0xd800) (l - 0xdc00) (omega arith)))

  -- A high surrogate and an escape below the low surrogates are refused.
  pub handle_unicode_codepoint_below :
      0xd800 ≤ h
      → h < 0xdc00
      → l < 0xdc00
      → handle_unicode_codepoint (escape a b c d (escape a' b' c' d' rest)) ≡ err invalid_utf8
  unfolding handle_unicode_codepoint
  handle_unicode_codepoint_below p q r =
      rw (hex_to_u32_nocheck-Spells high, hex_to_u32_nocheck-Spells low)
        (ground (arith, pair_fits h l (Spells-lt high) (Spells-lt low)))

  -- A high surrogate and an escape above the low surrogates are accepted, and four bytes are
  -- written for both.
  pub handle_unicode_codepoint_above :
      0xd800 ≤ h
      → h < 0xdc00
      → 0xe000 ≤ l
      → (bytes : List ℕ) × (handle_unicode_codepoint (escape a b c d (escape a' b' c' d' rest))
          ≡ ok (bytes, 12))
        × (length bytes ≡ 4)
  handle_unicode_codepoint_above p q r = (
    _,
    pair_accepted p q (omega arith),
    length_four (bit_or ((h - 0xd800) * 2 ^ 10) (l - 0xdc00) + 0x10000) (omega arith) (
        omega (
          arith,
          bit_or_lt 20 ((h - 0xd800) * 2 ^ 10) (l - 0xdc00) (omega arith)
              (omega (arith, Spells-lt low)),
        )),
  )

length-eq-zero : (s : List ℕ) → length s ≡ 0 → s ≡ []
length-eq-zero [] h = refl
length-eq-zero (x ∷ s) h = absurd (omega arith)

-- An escape with a byte that is no hex digit among its four writes nothing.
pub handle_unicode_codepoint_invalid :
    (a b c d : ℕ) (rest : List ℕ)
    → a < 256
    → b < 256
    → c < 256
    → d < 256
    → (hex_digit a ≡ none) ⊎ (hex_digit b ≡ none) ⊎ (hex_digit c ≡ none) ⊎ (hex_digit d ≡ none)
    → handle_unicode_codepoint (escape a b c d rest) ≡ ok ([], 6)
unfolding handle_unicode_codepoint
handle_unicode_codepoint_invalid a b c d rest ha hb hc hd h = ground (
  arith,
  hex_to_u32_nocheck_invalid a b c d ha hb hc hd h,
  length-codepoint_to_utf8 (hex_to_u32_nocheck a b c d),
  length-eq-zero (codepoint_to_utf8 (hex_to_u32_nocheck a b c d)),
)
