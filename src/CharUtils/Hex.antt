-- ===== src/CharUtils/Hex.antt =====
-- Four hex digits and their value.
use simdjson_rs.Prelude.{
  ℕ, ◌+◌, ◌-◌, ◌*◌, ◌^◌, ◌≤◌, ◌<◌, ◌≡◌, ◌⊎◌, inl, inr, refl, Bool, true, ◌&&◌, Option, none, some,
  arith, leb, ltb, ◌==◌, if◌then◌else◌, ==_iff, ap, ◌∙◌, ◌≡⟨◌⟩◌, ◌∎, get_or, bit_or,
}
use mathlib.Core.Path.{ap₂}
use simdjson_rs.Prelude.Table.{all_below, all_below_sound}
use simdjson_rs.Prelude.Bits.{bit_or_shifted, le-bit_or}
use simdjson_rs.CharUtils.{hex_to_u32_nocheck, digittoval, shl32}

-- The value of a hex digit, in either case.
abbrev pub hex_digit : ℕ → Option ℕ
hex_digit c =
    if leb b'0' c && leb c b'9'
    then some (c - b'0')
    else if leb b'A' c && leb c b'F'
    then some (c - b'A' + 10)
    else if leb b'a' c && leb c b'f'
    then some (c - b'a' + 10)
    else none

abbrev checked : Option ℕ → ℕ
checked (some v) = v
checked none = 0xffffffff

abbrev small : Option ℕ → Bool
small (some v) = ltb v 16
small none = true

digittoval_table : all_below 256 (λ c. get_or digittoval c 0 == checked (hex_digit c)) ≡ true
unfolding all_below
digittoval_table = refl

small_table : all_below 256 (λ c. small (hex_digit c)) ≡ true
unfolding all_below
small_table = refl

digittoval_lem : (c : ℕ) → c < 256 → get_or digittoval c 0 ≡ checked (hex_digit c)
digittoval_lem c h = (==_iff _ _).0 (all_below_sound 256 _ digittoval_table c h)

pub hex_digit-lt : (c v : ℕ) → hex_digit c ≡ some v → v < 16
hex_digit-lt c v e = ground arith

hex_digit-byte : (c v : ℕ) → hex_digit c ≡ some v → c < 256
hex_digit-byte c v e = ground arith

-- The entry of the table for a byte, from the digit's value.
entry : (c v : ℕ) → hex_digit c ≡ some v → get_or digittoval c 0 ≡ v
entry c v e = digittoval_lem c (hex_digit-byte c v e) ∙ ap checked e

no_entry : (c : ℕ) → c < 256 → hex_digit c ≡ none → get_or digittoval c 0 ≡ 0xffffffff
no_entry c h e = digittoval_lem c h ∙ ap checked e

or_digits :
    (v w x y : ℕ)
    → v < 16
    → w < 16
    → x < 16
    → y < 16
    → bit_or (bit_or (bit_or (shl32 v 12) (shl32 w 8)) (shl32 x 4)) y
      ≡ v * 4096 + w * 256 + x * 16 + y
or_digits v w x y hv hw hx hy =
    bit_or (bit_or (bit_or (shl32 v 12) (shl32 w 8)) (shl32 x 4)) y
    ≡⟨ ap₂ (λ s t. bit_or (bit_or s t) y) first (omega arith) ⟩
      bit_or (bit_or ((v * 16 + w) * 2 ^ 8) (x * 16)) y
    ≡⟨ ap (λ s. bit_or s y) second ⟩ bit_or ((v * 256 + w * 16 + x) * 2 ^ 4) y
    ≡⟨ bit_or_shifted 4 _ y (omega arith) ⟩ (v * 256 + w * 16 + x) * 2 ^ 4 + y
    ≡⟨ omega arith ⟩ v * 4096 + w * 256 + x * 16 + y ∎
  where
    first : bit_or (shl32 v 12) (shl32 w 8) ≡ (v * 16 + w) * 2 ^ 8
    first =
        ap₂ bit_or (let e : shl32 v 12 ≡ v * 2 ^ 12 = omega arith in e)
          (let e : shl32 w 8 ≡ w * 256 = omega arith in e)
        ∙ bit_or_shifted 12 v (w * 256) (omega arith)
        ∙ omega arith

    second : bit_or ((v * 16 + w) * 2 ^ 8) (x * 16) ≡ (v * 256 + w * 16 + x) * 2 ^ 4
    second = bit_or_shifted 8 (v * 16 + w) (x * 16) (omega arith) ∙ omega arith

-- `hex_to_u32_nocheck` of four hex digits of either case is the number that they spell.
pub hex_to_u32_nocheck_value :
    (a b c d : ℕ) (v w x y : ℕ)
    → hex_digit a ≡ some v
    → hex_digit b ≡ some w
    → hex_digit c ≡ some x
    → hex_digit d ≡ some y
    → hex_to_u32_nocheck a b c d ≡ v * 4096 + w * 256 + x * 16 + y
unfolding hex_to_u32_nocheck
hex_to_u32_nocheck_value a b c d v w x y p q r s =
    simp (entry a v p, entry b w q, entry c x r, entry d y s)
      (or_digits v w x y (hex_digit-lt a v p) (hex_digit-lt b w q) (hex_digit-lt c x r)
        (hex_digit-lt d y s))

or_invalid :
    (v w x y : ℕ)
    → (v ≡ 0xffffffff) ⊎ (w ≡ 0xffffffff) ⊎ (x ≡ 0xffffffff) ⊎ (y ≡ 0xffffffff)
    → 0xfffff000 ≤ bit_or (bit_or (bit_or (shl32 v 12) (shl32 w 8)) (shl32 x 4)) y
or_invalid v w x y h = ground (
  arith,
  le-bit_or (shl32 v 12) (shl32 w 8),
  le-bit_or (bit_or (shl32 v 12) (shl32 w 8)) (shl32 x 4),
  le-bit_or (bit_or (bit_or (shl32 v 12) (shl32 w 8)) (shl32 x 4)) y,
)

-- With a byte among the four that is no hex digit, the result of `hex_to_u32_nocheck` is at least
-- 0xfffff000.
pub hex_to_u32_nocheck_invalid :
    (a b c d : ℕ)
    → a < 256
    → b < 256
    → c < 256
    → d < 256
    → (hex_digit a ≡ none) ⊎ (hex_digit b ≡ none) ⊎ (hex_digit c ≡ none) ⊎ (hex_digit d ≡ none)
    → 0xfffff000 ≤ hex_to_u32_nocheck a b c d
unfolding hex_to_u32_nocheck
hex_to_u32_nocheck_invalid a b c d ha hb hc hd h = or_invalid _ _ _ _ (elim h [
  | inl e ↦ inl (no_entry a ha e)
  | inr (inl e) ↦ inr (inl (no_entry b hb e))
  | inr (inr (inl e)) ↦ inr (inr (inl (no_entry c hc e)))
  | inr (inr (inr e)) ↦ inr (inr (inr (no_entry d hd e)))
])
