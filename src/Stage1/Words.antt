-- ===== src/Stage1/Words.antt =====
-- The words of src/stage1.rs by their bits: what each operation does to the list of the bits, the
-- lowest first.
use simdjson_rs.Prelude.{
  ℕ, suc, ◌+◌, ◌*◌, ◌/◌, ◌%◌, ◌^◌, ◌≤◌, ◌<◌, Bool, true, false, not, ◌&&◌, ◌||◌, List, [], ◌∷◌, map,
  bit_and, bit_or, bit_xor, length, leb, if◌then◌else◌, ◌≡◌, refl, sym, ap, subst, Bool-cases, inl,
  inr, ◌∙◌, arith,
}
use Prim.Native.Nat.{max, min, differ}
use native.Mathlib.Nat.{mod-eq_of_lt, mul-add-mod_self_left, pow-suc}
use simdjson_rs.Prelude.Bits.{
  bit_and_step, bit_or_step, bit_xor_step, bit_and-zero, zero-bit_or, zero-bit_xor,
}
use simdjson_rs.Stage1.Scanner.{xor}
use simdjson_rs.Stage1.{pack, u64_mod, complement, shl1}

abbrev pub bit : Bool → ℕ
bit b = if b then 1 else 0

abbrev pub zip : (Bool → Bool → Bool) → List Bool → List Bool → List Bool
zip f [] b = []
zip f (x ∷ a) [] = []
zip f (x ∷ a) (y ∷ b) = f x y ∷ zip f a b

pub length-zip :
    (f : Bool → Bool → Bool) (a b : List Bool) → length a ≡ length b → length (zip f a b) ≡ length a
length-zip f [] b h = refl
length-zip f (x ∷ a) [] h = absurd (omega arith)
length-zip f (x ∷ a) (y ∷ b) h = ap suc (length-zip f a b (omega arith))

pub length-map {ℓ} : {A : Type ℓ} (f : A → Bool) (v : List A) → length (map f v) ≡ length v
length-map f [] = refl
length-map f (x ∷ v) = ap suc (length-map f v)

pub pack-lt : (a : List Bool) → pack a < 2 ^ length a
pack-lt [] = omega arith
pack-lt (true ∷ a) = omega (arith, pack-lt a, pow-suc 2 (length a))
pack-lt (false ∷ a) = omega (arith, pack-lt a, pow-suc 2 (length a))

pub low_bit : (b : Bool) (n : ℕ) → ((bit b + 2 * n) % 2 ≡ bit b) × ((bit b + 2 * n) / 2 ≡ n)
low_bit true n = (omega arith, omega arith)
low_bit false n = (omega arith, omega arith)

-- An operation on words by its step on the lowest bits.
module _ (op : ℕ → ℕ → ℕ) (f : Bool → Bool → Bool) (g : ℕ → ℕ → ℕ) (at_zero : op 0 0 ≡ 0)
    (on_bits : (a b : Bool) → g (bit a) (bit b) ≡ bit (f a b))
    (step : (x y : ℕ) → op x y ≡ g (x % 2) (y % 2) + 2 * op (x / 2) (y / 2)) where
  op-pack : (a b : List Bool) → length a ≡ length b → op (pack a) (pack b) ≡ pack (zip f a b)
  op-pack [] [] h = at_zero
  op-pack [] (y ∷ b) h = absurd (omega arith)
  op-pack (x ∷ a) [] h = absurd (omega arith)
  op-pack (x ∷ a) (y ∷ b) h =
      let (l, m) = low_bit x (pack a) in
      let (l', m') = low_bit y (pack b) in
      step (pack (x ∷ a)) (pack (y ∷ b))
      ∙ rw (l, m, l', m', on_bits x y, op-pack a b (omega arith)) refl

pub bit_and-pack :
    (a b : List Bool) → length a ≡ length b → bit_and (pack a) (pack b) ≡ pack (zip ◌&&◌ a b)
bit_and-pack = op-pack bit_and ◌&&◌ min (bit_and-zero 0) (λ a b. ground arith) bit_and_step

pub bit_or-pack :
    (a b : List Bool) → length a ≡ length b → bit_or (pack a) (pack b) ≡ pack (zip ◌||◌ a b)
bit_or-pack = op-pack bit_or ◌||◌ max (zero-bit_or 0) (λ a b. ground arith) bit_or_step

pub bit_xor-pack :
    (a b : List Bool) → length a ≡ length b → bit_xor (pack a) (pack b) ≡ pack (zip xor a b)
bit_xor-pack = op-pack bit_xor xor differ (zero-bit_xor 0) (λ a b. ground arith) bit_xor_step

-- `!x`.
pack-not : (a : List Bool) → pack (map not a) + pack a + 1 ≡ 2 ^ length a
pack-not [] = omega arith
pack-not (true ∷ a) = omega (arith, pack-not a, pow-suc 2 (length a))
pack-not (false ∷ a) = omega (arith, pack-not a, pow-suc 2 (length a))

pub complement-pack : (a : List Bool) → length a ≡ 64 → complement (pack a) ≡ pack (map not a)
complement-pack a h = omega (arith, pack-not a, ap (λ (n : ℕ). 2 ^ n) h)

-- `x << 1`, with a digit that comes in.
abbrev pub shift : Bool → List Bool → List Bool
shift c [] = []
shift c (x ∷ a) = c ∷ shift x a

abbrev pub top : Bool → List Bool → Bool
top c [] = c
top c (x ∷ a) = top x a

pub length-shift : (c : Bool) (a : List Bool) → length (shift c a) ≡ length a
length-shift c [] = refl
length-shift c (x ∷ a) = ap suc (length-shift x a)

pub double : (n t : ℕ) → 2 ^ suc n * t ≡ 2 * (2 ^ n * t)
double n t = omega (arith, ap (λ (p : ℕ). p * t) (pow-suc 2 n))

pack-shift :
    (c : Bool) (a : List Bool)
    → pack (shift c a) + 2 ^ length a * bit (top c a) ≡ bit c + 2 * pack a
pack-shift c [] = omega arith
pack-shift c (x ∷ a) = omega (arith, pack-shift x a, double (length a) (bit (top x a)))

-- The remainder of a number that stands over a word.
the_sum : (p h r : ℕ) → r + p * h ≡ p * h + r
the_sum p h r = omega arith

wrapped : (p h r : ℕ) → r < p → (r + p * h) % p ≡ r
wrapped p h r l = ap (λ n. n % p) (the_sum p h r) ∙ (mul-add-mod_self_left p h r ∙ mod-eq_of_lt l)

pub shl1-pack : (a : List Bool) → length a ≡ 64 → shl1 (pack a) ≡ pack (shift false a)
shl1-pack a h =
    let e : pack (shift false a) + 2 ^ 64 * bit (top false a) ≡ 0 + 2 * pack a =
      subst (λ n. pack (shift false a) + 2 ^ n * bit (top false a) ≡ 0 + 2 * pack a) h
        (pack-shift false a) in
    let l : pack (shift false a) < 2 ^ 64 =
      subst (λ n. pack (shift false a) < 2 ^ n) (length-shift false a ∙ h)
        (pack-lt (shift false a)) in
    omega arith

-- The sum of two words and a carry, and the carry out of it.
abbrev pub majority : Bool → Bool → Bool → Bool
majority c x y = if c then x || y else x && y

abbrev pub sum : Bool → List Bool → List Bool → List Bool
sum c [] b = []
sum c (x ∷ a) [] = []
sum c (x ∷ a) (y ∷ b) = xor c (xor x y) ∷ sum (majority c x y) a b

abbrev pub carry : Bool → List Bool → List Bool → Bool
carry c [] b = c
carry c (x ∷ a) [] = c
carry c (x ∷ a) (y ∷ b) = carry (majority c x y) a b

pub length-sum : (c : Bool) (a b : List Bool) → length a ≡ length b → length (sum c a b) ≡ length a
length-sum c [] b h = refl
length-sum c (x ∷ a) [] h = absurd (omega arith)
length-sum c (x ∷ a) (y ∷ b) h = ap suc (length-sum (majority c x y) a b (omega arith))

full_adder :
    (c x y : Bool) → bit c + bit x + bit y ≡ bit (xor c (xor x y)) + 2 * bit (majority c x y)
full_adder c x y = ground arith

pack-sum :
    (c : Bool) (a b : List Bool)
    → length a ≡ length b
    → pack (sum c a b) + 2 ^ length a * bit (carry c a b) ≡ bit c + pack a + pack b
pack-sum c [] [] h = omega arith
pack-sum c [] (y ∷ b) h = absurd (omega arith)
pack-sum c (x ∷ a) [] h = absurd (omega arith)
pack-sum c (x ∷ a) (y ∷ b) h = omega (
  arith,
  pack-sum (majority c x y) a b (omega arith),
  full_adder c x y,
  double (length a) (bit (carry (majority c x y) a b)),
)

sum_word :
    (a b : List Bool)
    → length a ≡ 64
    → length b ≡ 64
    → (pack (sum false a b) + 2 ^ 64 * bit (carry false a b) ≡ 0 + pack a + pack b)
      × (pack (sum false a b) < 2 ^ 64)
sum_word a b h g = (
  subst (λ n. pack (sum false a b) + 2 ^ n * bit (carry false a b) ≡ 0 + pack a + pack b) h
      (pack-sum false a b (h ∙ sym g)),
  subst (λ n. pack (sum false a b) < 2 ^ n) (length-sum false a b (h ∙ sym g) ∙ h)
      (pack-lt (sum false a b)),
)

pub sum-pack :
    (a b : List Bool)
    → length a ≡ 64
    → length b ≡ 64
    → (pack a + pack b) % u64_mod ≡ pack (sum false a b)
sum-pack a b h g = omega (arith, sum_word a b h g)

leb_word : (n : ℕ) → u64_mod ≤ n → leb u64_mod n ≡ true
leb_word n h = ground arith

not_leb : (n : ℕ) → n < u64_mod → leb u64_mod n ≡ false
not_leb n h = ground arith

pub carry-pack :
    (a b : List Bool)
    → length a ≡ 64
    → length b ≡ 64
    → leb u64_mod (pack a + pack b) ≡ carry false a b
carry-pack a b h g = elim (Bool-cases (carry false a b)) [
  | inl e ↦
      let n : bit (carry false a b) ≡ 1 = rw e refl in
      rw e (leb_word _ (omega (arith, sum_word a b h g)))
  | inr e ↦
      let n : bit (carry false a b) ≡ 0 = rw e refl in
      rw e (not_leb _ (omega (arith, sum_word a b h g)))
]
