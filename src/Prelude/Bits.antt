-- ===== src/Prelude/Bits.antt =====
-- `&`, `|` and `^` at variables: one digit at a time, low masks, and tests for zero.
use Prim.Native.Nat.{
  ℕ, zero, suc, ◌+◌, ◌-◌, ◌*◌, ◌/◌, ◌%◌, ◌^◌, ◌≤◌, ◌<◌, min, max, differ, bit_and, bit_or, bit_xor,
  digits, bitwise, bit_and-bitwise, bit_or-bitwise, bit_xor-bitwise,
}
use mathlib.Core.Path.{◌≡◌, refl, ap, subst}
use mathlib.Core.Logic.{◌↔◌}
use mathlib.Core.WellFounded
use native.Mathlib.Nat.{pow-suc, one-le-pow}
use native.Mathlib.Omega.{arith}
use mathlib.Core.Bool.{◌&&◌}
use simdjson_rs.Prelude.Tests.{◌==◌}
use simdjson_rs.Prelude.Order.{lt_wf}

module _ (rest : ℕ → ℕ) (combine : ℕ → ℕ → ℕ) where
  -- A count of digits above the first number changes nothing.
  spare_digits :
      (k x j y : ℕ) → x ≤ k → x ≤ j → digits rest combine j x y ≡ digits rest combine k x y
  spare_digits zero zero zero y p q = refl
  spare_digits zero zero (suc j) y p q = refl
  spare_digits (suc k) zero zero y p q = refl
  spare_digits (suc k) zero (suc j) y p q = refl
  spare_digits zero (suc x) j y p q = elim p [ ]
  spare_digits (suc k) (suc x) zero y p q = elim q [ ]
  spare_digits (suc k) (suc x) (suc j) y p q =
      let higher = spare_digits k (suc x / 2) j (y / 2) (omega arith) (omega arith) in
      ap (λ d. d * 2 + combine (suc x % 2) (y % 2)) higher

  lowest_digit :
      (x y : ℕ)
      → bitwise rest combine (suc x) y
        ≡ combine (suc x % 2) (y % 2) + 2 * bitwise rest combine (suc x / 2) (y / 2)
  lowest_digit x y =
      omega (arith, spare_digits (suc x / 2) (suc x / 2) x (y / 2) (omega arith) (omega arith))

-- Each operation, as its lowest digit and the operation on the other digits.
pub bit_and_step : (x y : ℕ) → bit_and x y ≡ min (x % 2) (y % 2) + 2 * bit_and (x / 2) (y / 2)
bit_and_step zero y = omega (arith, bit_and-bitwise 0 y, bit_and-bitwise 0 (y / 2))
bit_and_step (suc x) y = omega (
  arith,
  bit_and-bitwise (suc x) y,
  bit_and-bitwise (suc x / 2) (y / 2),
  lowest_digit (λ _. 0) min x y,
)

pub bit_or_step : (x y : ℕ) → bit_or x y ≡ max (x % 2) (y % 2) + 2 * bit_or (x / 2) (y / 2)
bit_or_step zero y = omega (arith, bit_or-bitwise 0 y, bit_or-bitwise 0 (y / 2))
bit_or_step (suc x) y = omega (
  arith,
  bit_or-bitwise (suc x) y,
  bit_or-bitwise (suc x / 2) (y / 2),
  lowest_digit (λ d. d) max x y,
)

pub bit_xor_step : (x y : ℕ) → bit_xor x y ≡ differ (x % 2) (y % 2) + 2 * bit_xor (x / 2) (y / 2)
bit_xor_step zero y = omega (arith, bit_xor-bitwise 0 y, bit_xor-bitwise 0 (y / 2))
bit_xor_step (suc x) y = omega (
  arith,
  bit_xor-bitwise (suc x) y,
  bit_xor-bitwise (suc x / 2) (y / 2),
  lowest_digit (λ d. d) differ x y,
)

-- Induction on the number of digits.
by_digits {ℓ} : (P : ℕ → Type ℓ) → P 0 → ((a : ℕ) → P (suc a / 2) → P (suc a)) → (a : ℕ) → P a
by_digits P base step a =
    WellFounded.induction lt_wf {C = P} a
      (elim [ zero ↦ λ ih. base | suc n ↦ λ ih. step n (ih (suc n / 2) (omega arith)) ])

pub zero-bit_and : (b : ℕ) → bit_and 0 b ≡ 0
zero-bit_and b = bit_and-bitwise 0 b

pub bit_and-zero : (a : ℕ) → bit_and a 0 ≡ 0
bit_and-zero = by_digits (λ a. bit_and a 0 ≡ 0) refl (λ a ih. omega (arith, bit_and_step (suc a) 0))

pub bit_or-zero : (a : ℕ) → bit_or a 0 ≡ a
bit_or-zero = by_digits (λ a. bit_or a 0 ≡ a) refl (λ a ih. omega (arith, bit_or_step (suc a) 0))

pub zero-bit_or : (b : ℕ) → bit_or 0 b ≡ b
zero-bit_or b = bit_or-bitwise 0 b

pub zero-bit_xor : (b : ℕ) → bit_xor 0 b ≡ b
zero-bit_xor b = bit_xor-bitwise 0 b

double_shift : (k n : ℕ) → n * 2 ^ suc k ≡ n * 2 ^ k + n * 2 ^ k
double_shift k n = omega (arith, ap (λ (t : ℕ). n * t) (pow-suc 2 k))

-- The low field of a number, by a mask.
low_field : (k low high : ℕ) → low < 2 ^ k → bit_and (low + high * 2 ^ k) (2 ^ k - 1) ≡ low
low_field zero low high h = omega (arith, bit_and-zero (low + high * 1))
low_field (suc k) low high h =
    let fits : low / 2 < 2 ^ k = omega (arith, pow-suc 2 k) in
    ground (
      arith,
      low_field k (low / 2) high fits,
      double_shift k high,
      one-le-pow k 2,
      pow-suc 2 k,
      bit_and_step (low + high * 2 ^ suc k) (2 ^ suc k - 1),
    )

-- A mask of `k` low ones is the remainder by `2 ^ k`.
pub bit_and_mask : (k n : ℕ) → bit_and n (2 ^ k - 1) ≡ n % 2 ^ k
bit_and_mask k n = ground (arith, low_field k (n % 2 ^ k) (n / 2 ^ k), one-le-pow k 2)

-- `(high << k) | low` is a sum when `low` fits in `k` bits.
pub bit_or_shifted : (k high low : ℕ) → low < 2 ^ k → bit_or (high * 2 ^ k) low ≡ high * 2 ^ k + low
bit_or_shifted zero high low h = ground (arith, bit_or-zero high)
bit_or_shifted (suc k) high low h =
    let fits : low / 2 < 2 ^ k = omega (arith, pow-suc 2 k) in
    ground (
      arith,
      bit_or_shifted k high (low / 2) fits,
      double_shift k high,
      bit_or_step (high * 2 ^ suc k) low,
    )

-- An `|` is zero only of zeros, and is no smaller than its parts.
pub le-bit_or : (a b : ℕ) → (a ≤ bit_or a b) × (b ≤ bit_or a b)
le-bit_or =
    by_digits (λ a. (b : ℕ) → (a ≤ bit_or a b) × (b ≤ bit_or a b))
      (λ b. omega (arith, zero-bit_or b))
      (λ a ih b. omega (arith, bit_or_step (suc a) b, ih (b / 2)))

pub bit_or-eq-zero_iff : (a b : ℕ) → (bit_or a b ≡ 0) ↔ ((a ≡ 0) × (b ≡ 0))
bit_or-eq-zero_iff a b = (λ h. omega (arith, le-bit_or a b), λ h. ground (arith, zero-bit_or 0))

pub bit_or_lt : (k a b : ℕ) → a < 2 ^ k → b < 2 ^ k → bit_or a b < 2 ^ k
bit_or_lt zero a b h g = ground (arith, zero-bit_or 0)
bit_or_lt (suc k) a b h g = omega (
  arith,
  pow-suc 2 k,
  bit_or_step a b,
  bit_or_lt k (a / 2) (b / 2) (omega (arith, pow-suc 2 k)) (omega (arith, pow-suc 2 k)),
)

differ_digits : (x y : ℕ) → x < 2 → y < 2 → (differ x y ≡ 0) ↔ (x ≡ y)
differ_digits zero y h g = ground arith
differ_digits (suc zero) zero h g = ground arith
differ_digits (suc zero) (suc zero) h g = ground arith
differ_digits (suc zero) (suc (suc y)) h g = absurd (omega arith)
differ_digits (suc (suc x)) y h g = absurd (omega arith)

bit_xor-eq-zero : (a b : ℕ) → bit_xor a b ≡ 0 → a ≡ b
bit_xor-eq-zero =
    by_digits (λ a. (b : ℕ) → bit_xor a b ≡ 0 → a ≡ b) (λ b h. omega (arith, zero-bit_xor b))
      (λ a ih b h. omega (
        arith,
        bit_xor_step (suc a) b,
        ih (b / 2) (omega (arith, bit_xor_step (suc a) b)),
        (differ_digits (suc a % 2) (b % 2) (omega arith) (omega arith)).0
            (omega (arith, bit_xor_step (suc a) b)),
      ))

bit_xor_self : (a : ℕ) → bit_xor a a ≡ 0
bit_xor_self =
    by_digits (λ a. bit_xor a a ≡ 0) refl
      (λ a ih. omega (
        arith,
        bit_xor_step (suc a) (suc a),
        (differ_digits (suc a % 2) (suc a % 2) (omega arith) (omega arith)).1 refl,
      ))

-- An `^` is zero exactly of equal numbers.
pub bit_xor-eq-zero_iff : (a b : ℕ) → (bit_xor a b ≡ 0) ↔ (a ≡ b)
bit_xor-eq-zero_iff a b =
    (bit_xor-eq-zero a b, λ e. subst (λ c. bit_xor a c ≡ 0) e (bit_xor_self a))

pub bit_or_comm : (a b : ℕ) → bit_or a b ≡ bit_or b a
bit_or_comm =
    by_digits (λ a. (b : ℕ) → bit_or a b ≡ bit_or b a)
      (λ b. omega (arith, zero-bit_or b, bit_or-zero b))
      (λ a ih b. omega (arith, bit_or_step (suc a) b, bit_or_step b (suc a), ih (b / 2)))

pub either_zero : (a b : ℕ) → (bit_or a b == 0) ≡ (a == 0 && b == 0)
either_zero a b = ground (arith, bit_or-eq-zero_iff a b)
