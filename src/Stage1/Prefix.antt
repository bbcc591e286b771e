-- ===== src/Stage1/Prefix.antt =====
-- The product by ones in src/stage1.rs: the sums of the digits up to each place.
use simdjson_rs.Prelude.{
  ℕ, zero, suc, ◌+◌, ◌-◌, ◌*◌, ◌/◌, ◌%◌, ◌^◌, ◌≤◌, ◌<◌, Bool, true, false, List, [], ◌∷◌, bit_xor,
  take, length, length-replicate, replicate, ◌==◌, if◌then◌else◌, ◌≡◌, refl, sym, ap, subst, ◌∙◌,
  arith,
}
use Prim.Native.Nat.{differ}
use native.Mathlib.Nat.{
  mod-eq_of_lt, mod-lt, mul-add-mod_self_left, div-add-mod, pow-suc, one-le-pow,
}
use simdjson_rs.Prelude.Bits.{bit_xor_step, zero-bit_xor}
use simdjson_rs.Stage1.Scanner.{xor}
use simdjson_rs.Stage1.{pack, clmul, u64_mod}
use simdjson_rs.Stage1.Words.{bit, zip, low_bit, bit_xor-pack, double}

-- The low digits of a number.
mod-suc : (w x : ℕ) → x % 2 ^ suc w ≡ x % 2 + 2 * (x / 2 % 2 ^ w)
mod-suc w x =
    let q = x / 2 / 2 ^ w in
    let whole : x ≡ 2 ^ suc w * q + (x % 2 + 2 * (x / 2 % 2 ^ w)) =
      omega (arith, double w q, div-add-mod (x / 2) (2 ^ w)) in
    let small : x % 2 + 2 * (x / 2 % 2 ^ w) < 2 ^ suc w =
      omega (arith, pow-suc 2 w, mod-lt (x / 2) (one-le-pow w 2 (omega arith))) in
    ap (λ n. n % 2 ^ suc w) whole
    ∙ (mul-add-mod_self_left (2 ^ suc w) q (x % 2 + 2 * (x / 2 % 2 ^ w)) ∙ mod-eq_of_lt small)

pub mod-pack : (w : ℕ) (a : List Bool) → w ≤ length a → pack a % 2 ^ w ≡ pack (take w a)
mod-pack zero a h = omega arith
mod-pack (suc w) [] h = absurd (omega arith)
mod-pack (suc w) (x ∷ a) h =
    let (l, m) = low_bit x (pack a) in
    rw (mod-suc w (pack (x ∷ a)), l, m, mod-pack w a (omega arith)) refl

one : (x : ℕ) → x % 1 ≡ 0
one x = omega arith

low_part : (w x : ℕ) → (x % 2 ^ suc w % 2 ≡ x % 2) × (x % 2 ^ suc w / 2 ≡ x / 2 % 2 ^ w)
low_part w x = omega (arith, mod-suc w x)

differ_low :
    (x y n : ℕ)
    → x < 2
    → y < 2
    → ((differ x y + 2 * n) % 2 ≡ differ x y) × ((differ x y + 2 * n) / 2 ≡ n)
differ_low zero zero n h g = omega arith
differ_low zero (suc y) n h g = omega arith
differ_low (suc x) zero n h g = omega arith
differ_low (suc zero) (suc zero) n h g = omega arith
differ_low (suc zero) (suc (suc y)) n h g = absurd (omega arith)
differ_low (suc (suc x)) (suc y) n h g = absurd (omega arith)

bit_xor-mod : (w x y : ℕ) → bit_xor x y % 2 ^ w ≡ bit_xor (x % 2 ^ w) (y % 2 ^ w)
bit_xor-mod zero x y = one (bit_xor x y) ∙ sym (rw (one x, one y) (zero-bit_xor 0))
bit_xor-mod (suc w) x y =
    let halves = differ_low (x % 2) (y % 2) (bit_xor (x / 2) (y / 2)) (omega arith) (omega arith) in
    let (lx, mx) = low_part w x in
    let (ly, my) = low_part w y in
    let middle = differ (x % 2) (y % 2) + 2 * bit_xor (x / 2 % 2 ^ w) (y / 2 % 2 ^ w) in
    let left : bit_xor x y % 2 ^ suc w ≡ middle =
      mod-suc w (bit_xor x y)
      ∙ rw (bit_xor_step x y, halves.0, halves.1, bit_xor-mod w (x / 2) (y / 2)) refl in
    let right : bit_xor (x % 2 ^ suc w) (y % 2 ^ suc w) ≡ middle =
      bit_xor_step (x % 2 ^ suc w) (y % 2 ^ suc w) ∙ rw (lx, mx, ly, my) refl in
    left ∙ sym right

-- The sums of the digits up to each place.
abbrev pub prefix : Bool → List Bool → List Bool
prefix c [] = []
prefix c (x ∷ a) = xor c x ∷ prefix (xor c x) a

pub length-prefix : (c : Bool) (a : List Bool) → length (prefix c a) ≡ length a
length-prefix c [] = refl
length-prefix c (x ∷ a) = ap suc (length-prefix (xor c x) a)

pub xor_assoc : (a b c : Bool) → xor a (xor b c) ≡ xor (xor a b) c
xor_assoc false b c = refl
xor_assoc true false c = refl
xor_assoc true true false = refl
xor_assoc true true true = refl

pub xor_comm : (a b : Bool) → xor a b ≡ xor b a
xor_comm false false = refl
xor_comm false true = refl
xor_comm true false = refl
xor_comm true true = refl

pub zip-xor_comm : (a b : List Bool) → length a ≡ length b → zip xor a b ≡ zip xor b a
zip-xor_comm [] [] h = refl
zip-xor_comm [] (y ∷ b) h = absurd (omega arith)
zip-xor_comm (x ∷ a) [] h = absurd (omega arith)
zip-xor_comm (x ∷ a) (y ∷ b) h =
    ap (λ t. t ∷ zip xor a b) (xor_comm x y)
    ∙ ap (λ r. xor y x ∷ r) (zip-xor_comm a b (omega arith))

xor-false : (a : Bool) → xor a false ≡ a
xor-false false = refl
xor-false true = refl

pub zip-prefix :
    (c d : Bool) (a : List Bool)
    → zip xor (replicate (length a) c) (prefix d a) ≡ prefix (xor c d) a
zip-prefix c d [] = refl
zip-prefix c d (x ∷ a) =
    ap (λ r. xor c (xor d x) ∷ r) (zip-prefix c (xor d x) a)
    ∙ ap (λ b. b ∷ prefix b a) (xor_assoc c d x)

pub ones : (n : ℕ) → 2 ^ n - 1 ≡ pack (replicate n true)
ones zero = omega arith
ones (suc n) = omega (arith, ones n, pow-suc 2 n, one-le-pow n 2)

take-replicate : (w n : ℕ) → w ≤ n → take w (replicate n true) ≡ replicate w true
take-replicate zero n h = refl
take-replicate (suc w) zero h = absurd (omega arith)
take-replicate (suc w) (suc n) h = ap (λ r. true ∷ r) (take-replicate w n (omega arith))

pub zeros : (w : ℕ) → pack (replicate w false) ≡ 0
zeros zero = refl
zeros (suc w) = omega (arith, zeros w)

pack-ones : (w n : ℕ) → w ≤ n → (2 ^ n - 1) % 2 ^ w ≡ pack (replicate w true)
pack-ones w n h =
    ap (λ x. x % 2 ^ w) (ones n)
    ∙ (mod-pack w (replicate n true) (omega (arith, length-replicate n true))
        ∙ ap pack (take-replicate w n h))

-- The product by ones.
zero-mod : (w : ℕ) → 0 % 2 ^ w ≡ 0
zero-mod w = mod-eq_of_lt (omega (arith, one-le-pow w 2))

first_row :
    (x : Bool) (m w n : ℕ)
    → w ≤ n
    → (if (bit x + 2 * m) % 2 == 1 then 2 ^ n - 1 else 0) % 2 ^ w ≡ pack (replicate w x)
first_row true m w n h = rw (low_bit true m).0 (pack-ones w n h)
first_row false m w n h = rw (low_bit false m).0 (zero-mod w ∙ sym (zeros w))

other_rows : (w c : ℕ) → 2 * c % 2 ^ suc w ≡ 0 + 2 * (c % 2 ^ w)
other_rows w c =
    let e : 2 * c / 2 ≡ c = omega arith in
    omega (arith, mod-suc w (2 * c), ap (λ (t : ℕ). t % 2 ^ w) e)

clmul-ones :
    (n : ℕ) (a : List Bool)
    → length a ≤ n
    → clmul (length a) (pack a) (2 ^ n - 1) % 2 ^ length a ≡ pack (prefix false a)
unfolding clmul
clmul-ones n [] h = omega arith
clmul-ones n (x ∷ a) h =
    let w = length a in
    let c = clmul w (pack a) (2 ^ n - 1) in
    let rest : clmul w ((bit x + 2 * pack a) / 2) (2 ^ n - 1) ≡ c =
      ap (λ t. clmul w t (2 ^ n - 1)) (low_bit x (pack a)).1 in
    let row = if (bit x + 2 * pack a) % 2 == 1 then 2 ^ n - 1 else 0 in
    let rows : bit_xor row (2 * c) % 2 ^ suc w
        ≡ bit_xor (pack (replicate (suc w) x)) (pack (false ∷ prefix false a)) =
      bit_xor-mod (suc w) row (2 * c)
      ∙ rw (first_row x (pack a) (suc w) n h, other_rows w c, clmul-ones n a (omega arith)) refl in
    let bits : zip xor (replicate (suc w) x) (false ∷ prefix false a) ≡ prefix false (x ∷ a) =
      ap (λ r. xor x false ∷ r) (zip-prefix x false a) ∙ ap (λ b. b ∷ prefix b a) (xor-false x) in
    rw rest (
      rows
      ∙ (bit_xor-pack (replicate (suc w) x) (false ∷ prefix false a)
            (omega (arith, length-replicate w x, length-prefix false a))
          ∙ ap pack bits))

pub clmul-pack :
    (a : List Bool)
    → length a ≡ 64
    → clmul 64 (pack a) (u64_mod - 1) % u64_mod ≡ pack (prefix false a)
clmul-pack a h =
    subst (λ n. clmul n (pack a) (2 ^ 64 - 1) % 2 ^ n ≡ pack (prefix false a)) h
      (clmul-ones 64 a (omega arith))
