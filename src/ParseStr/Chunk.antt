-- ===== src/ParseStr/Chunk.antt =====
-- src/lib.rs, `Deserializer::parse_str_`: what the two masks of 32 bytes say.
use simdjson_rs.Prelude.{
  ℕ, zero, suc, ◌+◌, ◌-◌, ◌*◌, ◌/◌, ◌%◌, ◌^◌, ◌≤◌, ◌<◌, false, not, List, [], ◌∷◌, bit_and, length,
  ◌==◌, if◌then◌else◌, ◌≡◌, ◌≢◌, ap, ◌∙◌, arith, Bool-cases, inl, inr,
}
use simdjson_rs.Prelude.Bits.{bit_and_step, bit_and-zero}
use native.Mathlib.Nat.{mod-eq_of_lt, add-mod_right, pow-suc, one-le-pow}
use simdjson_rs.ParseStr.{
  equal_mask, trailingzeroes, minus_one, Special, at_quote, at_backslash, nothing, find_special,
}

abbrev pub later : Special → Special
later (at_quote k) = at_quote (suc k)
later (at_backslash k) = at_backslash (suc k)
later nothing = nothing

-- One byte at a time.
abbrev pub first_special : List ℕ → Special
first_special [] = nothing
first_special (c ∷ v) =
    let rest = first_special v in
    if c == b'"' then at_quote 0 else if c == 0x5c then at_backslash 0 else later rest

-- `x - 1` in `w` bits.
abbrev minus_one_of : ℕ → ℕ → ℕ
minus_one_of w x = (x + 2 ^ w - 1) % 2 ^ w

equal_mask_lt : (b w : ℕ) (v : List ℕ) → length v ≤ w → equal_mask b v < 2 ^ w
unfolding equal_mask
equal_mask_lt b w [] h = ground (arith, one-le-pow w 2)
equal_mask_lt b zero (c ∷ v) h = absurd (omega arith)
equal_mask_lt b (suc w) (c ∷ v) h = ground (arith, equal_mask_lt b w v (omega arith), pow-suc 2 w)

-- No byte is both.
disjoint : (a b : ℕ) (v : List ℕ) → a ≢ b → bit_and (equal_mask a v) (equal_mask b v) ≡ 0
unfolding equal_mask
disjoint a b [] h = bit_and-zero 0
disjoint a b (c ∷ v) h =
    ground (arith, disjoint a b v h, bit_and_step (equal_mask a (c ∷ v)) (equal_mask b (c ∷ v)))

-- What the tests of `find_special` give in `w` bits: `b` marks the backslashes, `q` the quotes.
Masks : ℕ → ℕ → ℕ → Special → Type 0
Masks w b q (at_quote k) = (bit_and (minus_one_of w b) q ≢ 0) × (trailingzeroes w q ≡ k)
Masks w b q (at_backslash k) =
    (bit_and (minus_one_of w b) q ≡ 0)
    × (bit_and (minus_one_of w q) b ≢ 0)
    × (trailingzeroes w b ≡ k)
Masks w b q nothing = (bit_and (minus_one_of w b) q ≡ 0) × (bit_and (minus_one_of w q) b ≡ 0)

minus_one_of-zero : (w : ℕ) → minus_one_of w 0 ≡ 2 ^ w - 1
minus_one_of-zero w =
    let below : 0 + 2 ^ w - 1 < 2 ^ w = omega (arith, one-le-pow w 2) in
    omega (arith, mod-eq_of_lt below)

minus_one_of-positive : (w x : ℕ) → 0 < x → x < 2 ^ w → minus_one_of w x ≡ x - 1
minus_one_of-positive w x p h =
    let moved : x + 2 ^ w - 1 ≡ x - 1 + 2 ^ w = omega arith in
    let below : x - 1 < 2 ^ w = omega arith in
    ap (λ t. t % 2 ^ w) moved ∙ (add-mod_right (x - 1) (2 ^ w) ∙ mod-eq_of_lt below)

-- A byte that is neither moves both masks on by a digit.
minus_one-even : (w x : ℕ) → x < 2 ^ w → minus_one_of (suc w) (2 * x) ≡ 1 + 2 * minus_one_of w x
minus_one-even w zero h =
    omega (arith, minus_one_of-zero w, minus_one_of-zero (suc w), pow-suc 2 w, one-le-pow w 2)
minus_one-even w (suc x) h = omega (
  arith,
  minus_one_of-positive w (suc x) (omega arith) h,
  minus_one_of-positive (suc w) (2 * suc x) (omega arith) (omega (arith, pow-suc 2 w)),
)

bit_and-even :
    (w x y : ℕ)
    → x < 2 ^ w
    → bit_and (minus_one_of (suc w) (2 * x)) (2 * y) ≡ 2 * bit_and (minus_one_of w x) y
bit_and-even w x y h = ground (
  arith,
  minus_one-even w x h,
  bit_and_step (minus_one_of (suc w) (2 * x)) (2 * y),
  ap (λ (t : ℕ). bit_and (t / 2) y) (minus_one-even w x h),
)

half : (x : ℕ) → 2 * x / 2 ≡ x
half x = omega arith

pub trailingzeroes-even : (w x : ℕ) → trailingzeroes (suc w) (2 * x) ≡ suc (trailingzeroes w x)
unfolding trailingzeroes
trailingzeroes-even w x = grind (arith, ap (trailingzeroes w) (half x))

Masks-later :
    (w b q : ℕ)
    → b < 2 ^ w
    → q < 2 ^ w
    → (sp : Special) → Masks w b q sp
    → Masks (suc w) (2 * b) (2 * q) (later sp)
unfolding Masks trailingzeroes
Masks-later w b q hb hq (at_quote k) (m, e) =
    (omega (arith, m, bit_and-even w b q hb), trailingzeroes-even w q ∙ ap suc e)
Masks-later w b q hb hq (at_backslash k) (m, n, e) = (
  omega (arith, m, bit_and-even w b q hb),
  omega (arith, n, bit_and-even w q b hq),
  trailingzeroes-even w b ∙ ap suc e,
)
Masks-later w b q hb hq nothing (m, n) =
    (omega (arith, m, bit_and-even w b q hb), omega (arith, n, bit_and-even w q b hq))

-- A quote, or a backslash, in front.
Masks-quote : (w b q : ℕ) → b < 2 ^ w → Masks (suc w) (2 * b) (1 + 2 * q) (at_quote 0)
unfolding Masks trailingzeroes
Masks-quote w b q h = (
  omega (arith, minus_one-even w b h, bit_and_step (minus_one_of (suc w) (2 * b)) (1 + 2 * q)),
  grind arith,
)

Masks-backslash :
    (w b q : ℕ)
    → q < 2 ^ w
    → b < 2 ^ w
    → bit_and b q ≡ 0
    → Masks (suc w) (1 + 2 * b) (2 * q) (at_backslash 0)
unfolding Masks trailingzeroes
Masks-backslash w b q h g d = (
  (let behind : minus_one_of (suc w) (1 + 2 * b) ≡ 2 * b = omega (
    arith,
    minus_one_of-positive (suc w) (1 + 2 * b) (omega arith) (omega (arith, pow-suc 2 w)),
  ) in
      rw behind (
        omega (
          arith,
          d,
          bit_and_step (2 * b) (2 * q),
          ap (λ (t : ℕ). bit_and t (2 * q / 2)) (half b),
          ap (λ (t : ℕ). bit_and b t) (half q),
        ))),
  omega (arith, minus_one-even w q h, bit_and_step (minus_one_of (suc w) (2 * q)) (1 + 2 * b)),
  grind arith,
)

plain : (x : ℕ) → 0 + 2 * x ≡ 2 * x
plain x = omega arith

first_special-Masks :
    (w : ℕ) (v : List ℕ)
    → length v ≤ w
    → Masks w (equal_mask 0x5c v) (equal_mask b'"' v) (first_special v)
unfolding Masks equal_mask
first_special-Masks w [] h = (bit_and-zero (minus_one_of w 0), bit_and-zero (minus_one_of w 0))
first_special-Masks zero (c ∷ v) h = absurd (omega arith)
first_special-Masks (suc w) (c ∷ v) h =
    let rest = first_special-Masks w v (omega arith) in
    let hb = equal_mask_lt 0x5c w v (omega arith) in
    let hq = equal_mask_lt b'"' w v (omega arith) in
    let d = disjoint 0x5c b'"' v (omega arith) in
    elim (Bool-cases (c == b'"')) [
      | inl e ↦
          let no : (c == 0x5c) ≡ false = ground arith in
          rw (e, no, plain (equal_mask 0x5c v))
            (Masks-quote w (equal_mask 0x5c v) (equal_mask b'"' v) hb)
      | inr n ↦ elim (Bool-cases (c == 0x5c)) [
        | inl e ↦
            rw (e, n, plain (equal_mask b'"' v))
              (Masks-backslash w (equal_mask 0x5c v) (equal_mask b'"' v) hq hb d)
        | inr m ↦
            let moved : Masks (suc w) (0 + 2 * equal_mask 0x5c v) (0 + 2 * equal_mask b'"' v)
                (later (first_special v)) =
              rw (plain (equal_mask 0x5c v), plain (equal_mask b'"' v))
                (Masks-later w (equal_mask 0x5c v) (equal_mask b'"' v) hb hq (first_special v)
                  rest) in
            rw (m, n) moved
      ]
    ]

Masks-verdict :
    (b q : ℕ) (sp : Special)
    → Masks 32 b q sp
    → (if not (bit_and (minus_one b) q == 0)
        then at_quote (trailingzeroes 32 q)
        else if not (bit_and (minus_one q) b == 0)
        then at_backslash (trailingzeroes 32 b)
        else nothing)
      ≡ sp
unfolding Masks
Masks-verdict b q (at_quote k) (m, e) = ground arith
Masks-verdict b q (at_backslash k) (m, n, e) = ground arith
Masks-verdict b q nothing (m, n) = ground arith

-- The two masks of up to 32 bytes and their counts of trailing zeros find the first quote or
-- backslash, as a search of one byte after another does.
pub find_special_lem : (v : List ℕ) → length v ≤ 32 → find_special v ≡ first_special v
unfolding find_special Masks
find_special_lem v h =
    Masks-verdict (equal_mask 0x5c v) (equal_mask b'"' v) (first_special v)
      (first_special-Masks 32 v h)
