-- ===== src/NumberParse/Eight.antt =====
-- src/numberparse.rs, `parse_eight_digits_unrolled`: the vector arithmetic against the number that
-- the digits spell.
use simdjson_rs.Prelude.{ℕ, ◌+◌, ◌-◌, ◌*◌, ◌≤◌, ◌<◌, ◌≡◌, ap, ◌∙◌, arith, List, [], ◌∷◌}
use simdjson_rs.Error.{ok}
use simdjson_rs.NumberParse.{
  digit_of, maddubs, madd, packus, parse_sixteen, parse_eight_digits_unrolled,
}
use simdjson_rs.NumberParse.Digits.{AreDigits, spelled}

-- Two digits, as a byte each, in one lane.
two_digits :
    (a b : ℕ)
    → b'0' ≤ a
    → a ≤ b'9'
    → b'0' ≤ b
    → b ≤ b'9'
    → maddubs (digit_of a) (digit_of b) ≡ (a - b'0') * 10 + (b - b'0')
two_digits a b h i j k = omega arith

madd_100 : (a b : ℕ) → a < 100 → b < 100 → madd 100 a b ≡ a * 100 + b
madd_100 a b h i = ground arith

packus_small : (a : ℕ) → a < 10000 → packus a ≡ a
packus_small a h = ground arith

madd_10000 : (a b : ℕ) → a < 10000 → b < 10000 → madd 10000 a b ≡ a * 10000 + b
madd_10000 a b h i = ground arith

-- Four digits, in one lane.
abbrev lane : ℕ → ℕ → ℕ → ℕ → ℕ
lane a b c d =
    packus (madd 100 (maddubs (digit_of a) (digit_of b)) (maddubs (digit_of c) (digit_of d)))

four_digits :
    (a b c d : ℕ)
    → AreDigits (a ∷ b ∷ c ∷ d ∷ [])
    → (lane a b c d ≡ spelled 0 (a ∷ b ∷ c ∷ d ∷ [])) × (lane a b c d < 10000)
four_digits a b c d (a₁, a₂, (b₁, b₂, (c₁, c₂, (d₁, d₂, t)))) =
    let ab = two_digits a b a₁ a₂ b₁ b₂ in
    let cd = two_digits c d c₁ c₂ d₁ d₂ in
    let sum =
      madd_100 (maddubs (digit_of a) (digit_of b)) (maddubs (digit_of c) (digit_of d))
        (omega (arith, ab)) (omega (arith, cd)) in
    let v = madd 100 (maddubs (digit_of a) (digit_of b)) (maddubs (digit_of c) (digit_of d)) in
    let fits : v < 10000 = omega (arith, sum, ab, cd) in
    let same = packus_small v fits in (omega (arith, same, sum, ab, cd), omega (arith, same, fits))

-- Of sixteen readable bytes that begin with eight digits, the vector arithmetic of
-- `parse_eight_digits_unrolled` gives the number that the eight digits spell, whatever the other
-- bytes are.
pub parse_eight_digits_unrolled_lem :
    (a b c d e f g h i j k l m n o p : ℕ) (s : List ℕ)
    → AreDigits (a ∷ b ∷ c ∷ d ∷ e ∷ f ∷ g ∷ h ∷ [])
    → parse_eight_digits_unrolled
        (a ∷ b ∷ c ∷ d ∷ e ∷ f ∷ g ∷ h ∷ i ∷ j ∷ k ∷ l ∷ m ∷ n ∷ o ∷ p ∷ s)
      ≡ ok (spelled 0 (a ∷ b ∷ c ∷ d ∷ e ∷ f ∷ g ∷ h ∷ []))
unfolding parse_eight_digits_unrolled parse_sixteen
parse_eight_digits_unrolled_lem a b c d e f g h i j k l m n o p s
      (a₁, a₂, (b₁, b₂, (c₁, c₂, (d₁, d₂, (e₁, e₂, (f₁, f₂, (g₁, g₂, (h₁, h₂, t)))))))) =
    let (high, high_small) = four_digits a b c d (a₁, a₂, (b₁, b₂, (c₁, c₂, (d₁, d₂, tt)))) in
    let (low, low_small) = four_digits e f g h (e₁, e₂, (f₁, f₂, (g₁, g₂, (h₁, h₂, tt)))) in
    let sum = madd_10000 (lane a b c d) (lane e f g h) high_small low_small in
    let spells : lane a b c d * 10000 + lane e f g h
        ≡ spelled 0 (a ∷ b ∷ c ∷ d ∷ e ∷ f ∷ g ∷ h ∷ []) =
      omega (arith, high, low) in
    ap ok (sum ∙ spells)
