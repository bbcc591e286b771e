-- ===== src/StringParse/Scalar.antt =====
-- `handle_unicode_codepoint` of src/stringparse.rs on the escapes of a Unicode scalar value, against a
-- UTF-8 decoder.
use simdjson_rs.Prelude.{ℕ, ◌+◌, ◌-◌, ◌*◌, ◌≤◌, ◌<◌, ◌≡◌, ◌⊎◌, inr, some, List, ◌++◌, arith}
use simdjson_rs.Error.{ok}
use simdjson_rs.CharUtils.{codepoint_to_utf8}
use simdjson_rs.CharUtils.Utf8.{decode_utf8, decode_utf8-codepoint_to_utf8}
use simdjson_rs.StringParse.{handle_unicode_codepoint}
use simdjson_rs.StringParse.Codepoint.{
  Spells, Spells-lt, escape, handle_unicode_codepoint_plain, handle_unicode_codepoint_pair,
}

-- How JSON spells a scalar value with escapes: one for the basic plane, which has no surrogates, and
-- those of a high and a low surrogate for the others. The last number is that of the bytes.
pub data Escapes : List ℕ → ℕ → ℕ → Type 0 where
  one :
      {a b c d cp : ℕ} (rest : List ℕ)
      → Spells a b c d cp
      → (cp < 0xd800) ⊎ (0xdfff < cp)
      → Escapes (escape a b c d rest) cp 6
  two :
      {a b c d h a' b' c' d' l : ℕ} (rest : List ℕ)
      → Spells a b c d h
      → Spells a' b' c' d' l
      → 0xd800 ≤ h
      → h < 0xdc00
      → 0xdc00 ≤ l
      → l < 0xe000
      → Escapes
          (escape a b c d (escape a' b' c' d' rest))
          (0x10000 + (h - 0xd800) * 0x400 + (l - 0xdc00))
          12

-- For a Unicode scalar value that is spelled in JSON, by one escape of four hex digits or by those
-- of a high and of a low surrogate, the bytes that are written decode as UTF-8 to that value, and
-- the source goes on behind the escapes.
pub handle_unicode_codepoint_scalar :
    (src : List ℕ) (cp size : ℕ)
    → Escapes src cp size
    → (bytes : List ℕ) × (handle_unicode_codepoint src ≡ ok (bytes, size))
      × ((rest : List ℕ) → decode_utf8 (bytes ++ rest) ≡ some (cp, rest))
handle_unicode_codepoint_scalar src cp size (one rest s h) = (
  codepoint_to_utf8 cp,
  handle_unicode_codepoint_plain rest s (ground arith),
  λ tail. decode_utf8-codepoint_to_utf8 cp tail (ground (arith, Spells-lt s)),
)
handle_unicode_codepoint_scalar src cp size (two rest high low p q r t) = (
  codepoint_to_utf8 cp,
  handle_unicode_codepoint_pair rest high low p q r t,
  λ tail. decode_utf8-codepoint_to_utf8 cp tail (inr (omega arith)),
)
