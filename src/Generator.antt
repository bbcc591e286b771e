-- ===== src/Generator.antt =====
-- src/value/generator.rs, `BaseGenerator::write_string` over a `Vec<u8>`, whose writes never fail:
-- the bytes that are written are the result.
pub mod Escaped
pub mod Writes
pub mod RoundTrip
pub mod Generators
pub mod DumpGenerator
pub mod PrettyGenerator
pub mod WriterGenerator
pub mod PrettyWriterGenerator
pub mod Strings
use simdjson_rs.Prelude.{
  ℕ, zero, suc, ◌+◌, ◌-◌, ◌*◌, ◌/◌, ◌%◌, Bool, true, false, not, ◌||◌, List, [], ◌∷◌, ◌++◌, bit_and,
  bit_xor, take, drop, get_or, length, replicate, ltb, leb, ◌==◌, if◌then◌else◌,
}
use simdjson_rs.Error.{ErrorType, Outcome, ok, out_of_fuel, ◌>>=◌}
use simdjson_rs.ParseStr.{trailingzeroes}

abbrev pub escaped_table : List ℕ
escaped_table =
    replicate 8 b'u'
    ++ (b'b' ∷ b't' ∷ b'n' ∷ b'u' ∷ b'f' ∷ b'r' ∷ b'u' ∷ b'u' ∷ [])
    ++ (replicate 16 b'u'
        ++ (0 ∷ 0 ∷ b'"' ∷ replicate 13 0)
        ++ (replicate 44 0 ++ (b'\\' ∷ replicate 163 0)))

-- `ESCAPED[ch]`, where `ch` is a byte.
abbrev pub escaped : ℕ → ℕ
escaped ch = get_or escaped_table ch 0

abbrev pub hex_character : ℕ → ℕ
hex_character x = if ltb x 10 then b'0' + x else b'a' + (x - 10)

-- `{:04x}` of a byte.
abbrev pub hex4 : ℕ → List ℕ
hex4 ch = b'0' ∷ b'0' ∷ hex_character (ch / 16) ∷ hex_character (ch % 16) ∷ []

-- The escape of a byte of which the table says how it is escaped.
abbrev pub escape : ℕ → List ℕ
escape ch = if escaped ch == b'u' then b'\\' ∷ b'u' ∷ hex4 ch else b'\\' ∷ escaped ch ∷ []

-- A byte in the mask of a block: a backslash, a quote, or one that the mask 0x1f leaves as it is.
abbrev pub in_block : ℕ → Bool
in_block ch = ch == b'\\' || ch == b'"' || bit_xor ch (bit_and ch 0x1f) == 0

unfoldable pub quote_bits : List ℕ → ℕ
quote_bits [] = 0
quote_bits (ch ∷ v) = (if in_block ch then 1 else 0) + 2 * quote_bits v

-- The loop over blocks of `width` bytes, while `least` bytes are behind `idx`: 32 and 32, then 16
-- and 17. The result is `string`, `idx` and the bytes that are written.
unfoldable pub blocks : ℕ → ℕ → ℕ → List ℕ → ℕ → List ℕ → Outcome ErrorType (List ℕ × ℕ × List ℕ)
blocks width least zero string idx out = out_of_fuel
blocks width least (suc fuel) string idx out =
    let bits = quote_bits (take width (drop idx string)) in
    let at = idx + trailingzeroes width bits in
    elim (leb least (length string - idx)) [
      | true ↦ elim (bits == 0) [
        | true ↦ blocks width least fuel string (idx + width) out
        | false ↦
            blocks width least fuel (drop (at + 1) string) 0
              (out ++ (take at string ++ escape (get_or string at 0)))
      ]
      | false ↦ ok (string, idx, out)
    ]

-- `write_string_complex` behind its first write: `pending` is `string[start..index]`.
abbrev pub complex_loop : List ℕ → List ℕ → List ℕ → List ℕ
complex_loop [] pending out = out ++ pending
complex_loop (ch ∷ string) pending out = elim (ltb 0 (escaped ch)) [
  | true ↦ complex_loop string [] (out ++ (pending ++ escape ch))
  | false ↦ complex_loop string (pending ++ ch ∷ []) out
]

unfoldable pub write_string_complex : List ℕ → ℕ → List ℕ → List ℕ
write_string_complex string start out =
    complex_loop (drop start string) [] (out ++ take start string)

-- The search for the first byte that the remainder has to escape.
unfoldable pub remainder_loop : List ℕ → ℕ → List ℕ → List ℕ → List ℕ
remainder_loop string index [] out = out ++ string
remainder_loop string index (ch ∷ rest) out =
    let next = remainder_loop string (index + 1) rest out in
    if ltb 0 (escaped ch) then write_string_complex string index out else next

unfoldable pub write_string : List ℕ → Outcome ErrorType (List ℕ)
write_string string = do
  let fuel = suc (length string)
  (string₁, idx₁, out₁) ← blocks 32 32 fuel string 0 (b'"' ∷ [])
  (string₂, idx₂, out₂) ← blocks 16 17 fuel string₁ idx₁ out₁
  let rest = drop idx₂ string₂
  ok (remainder_loop rest 0 rest (out₂ ++ take idx₂ string₂) ++ b'"' ∷ [])
