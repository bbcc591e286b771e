-- ===== src/Generator/Strings.antt =====
-- src/value/generator.rs, `BaseGenerator::write_string` and `write_string_complex` over any generator:
-- every call that writes, in its order, up to the first that fails.
use simdjson_rs.Prelude.{
  ℕ, zero, suc, ◌+◌, ◌-◌, true, false, List, [], ◌∷◌, ◌++◌, take, drop, get_or, length, ltb, leb,
  ◌==◌, if◌then◌else◌,
}
use simdjson_rs.ParseStr.{trailingzeroes}
use simdjson_rs.Generator.{escaped, hex4, quote_bits}
use simdjson_rs.Generator.Generators.{Io, done, stuck, ◌>>=◌, BaseGenerator}

module _ {E : Type 0} (g : BaseGenerator E) where
  open g use {G}

  -- The escape of a byte in a block.
  abbrev pub write_escape : ℕ → G → Io E G
  write_escape ch x =
      if escaped ch == b'u'
      then g.write_fmt (b'\\' ∷ b'u' ∷ hex4 ch) x
      else g.write (b'\\' ∷ escaped ch ∷ []) x

  -- The loop over blocks of `width` bytes, while `least` bytes are behind `idx`: 32 and 32, then 16
  -- and 17. What follows the loop is `next`, of `string` and `idx`.
  unfoldable pub blocks : ℕ → ℕ → (List ℕ → ℕ → G → Io E G) → ℕ → List ℕ → ℕ → G → Io E G
  blocks width least next zero string idx x = stuck
  blocks width least next (suc fuel) string idx x =
      let bits = quote_bits (take width (drop idx string)) in
      let at = idx + trailingzeroes width bits in
      elim (leb least (length string - idx)) [
        | true ↦ elim (bits == 0) [
          | true ↦ blocks width least next fuel string (idx + width) x
          | false ↦
              g.write_text (take at string) x
              >>= write_escape (get_or string at 0)
              >>= blocks width least next fuel (drop (at + 1) string) 0
        ]
        | false ↦ next string idx x
      ]

  -- The escape of a byte in `write_string_complex`.
  abbrev pub complex_escape : ℕ → G → Io E G
  complex_escape ch x = g.write (b'\\' ∷ escaped ch ∷ []) x >>= λ y.
      if escaped ch == b'u' then g.write_fmt (hex4 ch) y else done y

  -- `write_string_complex` behind its first write: `pending` is `string[start..index]`.
  abbrev pub complex_loop : List ℕ → List ℕ → G → Io E G
  complex_loop [] pending x = g.write pending x
  complex_loop (ch ∷ string) pending x = elim (ltb 0 (escaped ch)) [
    | true ↦ g.write pending x >>= complex_escape ch >>= complex_loop string []
    | false ↦ complex_loop string (pending ++ ch ∷ []) x
  ]

  unfoldable pub write_string_complex : List ℕ → ℕ → G → Io E G
  write_string_complex string start x =
      g.write (take start string) x >>= complex_loop (drop start string) []

  -- The search for the first byte that the remainder has to escape.
  unfoldable pub remainder_loop : List ℕ → ℕ → List ℕ → G → Io E G
  remainder_loop string index [] x = g.write string x
  remainder_loop string index (ch ∷ rest) x =
      let next = remainder_loop string (index + 1) rest x in
      if ltb 0 (escaped ch) then write_string_complex string index x else next

  -- What is behind the blocks.
  abbrev pub write_remainder : List ℕ → ℕ → G → Io E G
  write_remainder string idx x =
      let rest = drop idx string in g.write_text (take idx string) x >>= remainder_loop rest 0 rest

  unfoldable pub write_string : List ℕ → G → Io E G
  write_string string x =
      let fuel = suc (length string) in
      g.write_char b'"' x
      >>= blocks 32 32 (blocks 16 17 write_remainder fuel) fuel string 0
      >>= g.write_char b'"'
