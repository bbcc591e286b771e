-- ===== src/NumberParse.antt =====
-- src/numberparse.rs: what the number parsers share. A buffer is read from a position on, so it is
-- the list of the bytes from there, and a read at its end is a fault.
pub mod Ends
pub mod Float
pub mod Integer
pub mod Digits
pub mod Decimal
pub mod Eight
use simdjson_rs.Prelude.{
  ℕ, zero, suc, ◌+◌, ◌-◌, ◌*◌, ◌/◌, ◌%◌, ◌^◌, Bool, true, false, ◌&&◌, ◌||◌, Option, none, some,
  List, [], ◌∷◌, ◌++◌, map, bit_and, bit_or, get_or, leb, ltb, ◌==◌, if◌then◌else◌,
}
use simdjson_rs.Error.{Error, ErrorType, Outcome, ok, err, fault, ◌>>=◌}

-- An `i64`: `negsuc n` is -(n + 1).
pub data ℤ : Type 0 where
  pos : ℕ → ℤ
  negsuc : ℕ → ℤ

-- `x as i64` and `-x` on the patterns of 64 bits.
abbrev pub as_i64 : ℕ → ℤ
as_i64 x = if ltb x (2 ^ 63) then pos x else negsuc (2 ^ 64 - 1 - x)

abbrev pub wrapping_neg : ℕ → ℕ
wrapping_neg x = (2 ^ 64 - x) % 2 ^ 64

-- The operations of `f64` that the parsers use. `ten_to k` is the literal `1e(k - 308)`, the entry
-- `k` of POWER_OF_TEN; `of_ℕ` is the conversion from a `u8` or a `u64`.
pub record Floats : Type 1 where
  pub F64 : Type 0
  pub of_ℕ : ℕ → F64
  pub ten_to : ℕ → F64
  pub add : F64 → F64 → F64
  pub mul : F64 → F64 → F64
  pub div : F64 → F64 → F64
  pub neg : F64 → F64

pub data Number (F : Type 0) : Type 0 where
  f64 : F → Number F
  i64 : ℤ → Number F

unfoldable pub is_integer : ℕ → Bool
is_integer c = leb b'0' c && leb c b'9'

abbrev pub structural_or_whitespace_or_exponent_or_decimal_negated : List Bool
structural_or_whitespace_or_exponent_or_decimal_negated =
    false ∷ true ∷ true ∷ true ∷ true ∷ true ∷ true ∷ true ∷ true ∷ false ∷ false ∷ true ∷ true
    ∷ false ∷ true ∷ true ∷ true ∷ true ∷ true ∷ true ∷ true ∷ true ∷ true ∷ true ∷ true ∷ true
    ∷ true ∷ true ∷ true ∷ true ∷ true ∷ true ∷ false ∷ true ∷ true ∷ true ∷ true ∷ true ∷ true
    ∷ true ∷ true ∷ true ∷ true ∷ true ∷ false ∷ true ∷ false ∷ true ∷ true ∷ true ∷ true ∷ true
    ∷ true ∷ true ∷ true ∷ true ∷ true ∷ true ∷ false ∷ true ∷ true ∷ true ∷ true ∷ true ∷ true
    ∷ true ∷ true ∷ true ∷ true ∷ false ∷ true ∷ true ∷ true ∷ true ∷ true ∷ true ∷ true ∷ true
    ∷ true ∷ true ∷ true ∷ true ∷ true ∷ true ∷ true ∷ true ∷ true ∷ true ∷ true ∷ true ∷ true
    ∷ false ∷ true ∷ false ∷ true ∷ true ∷ true ∷ true ∷ true ∷ true ∷ true ∷ false ∷ true ∷ true
    ∷ true ∷ true ∷ true ∷ true ∷ true ∷ true ∷ true ∷ true ∷ true ∷ true ∷ true ∷ true ∷ true
    ∷ true ∷ true ∷ true ∷ true ∷ true ∷ true ∷ false ∷ true ∷ false ∷ true ∷ true ∷ true ∷ true
    ∷ true ∷ true ∷ true ∷ true ∷ true ∷ true ∷ true ∷ true ∷ true ∷ true ∷ true ∷ true ∷ true
    ∷ true ∷ true ∷ true ∷ true ∷ true ∷ true ∷ true ∷ true ∷ true ∷ true ∷ true ∷ true ∷ true
    ∷ true ∷ true ∷ true ∷ true ∷ true ∷ true ∷ true ∷ true ∷ true ∷ true ∷ true ∷ true ∷ true
    ∷ true ∷ true ∷ true ∷ true ∷ true ∷ true ∷ true ∷ true ∷ true ∷ true ∷ true ∷ true ∷ true
    ∷ true ∷ true ∷ true ∷ true ∷ true ∷ true ∷ true ∷ true ∷ true ∷ true ∷ true ∷ true ∷ true
    ∷ true ∷ true ∷ true ∷ true ∷ true ∷ true ∷ true ∷ true ∷ true ∷ true ∷ true ∷ true ∷ true
    ∷ true ∷ true ∷ true ∷ true ∷ true ∷ true ∷ true ∷ true ∷ true ∷ true ∷ true ∷ true ∷ true
    ∷ true ∷ true ∷ true ∷ true ∷ true ∷ true ∷ true ∷ true ∷ true ∷ true ∷ true ∷ true ∷ true
    ∷ true ∷ true ∷ true ∷ true ∷ true ∷ true ∷ true ∷ true ∷ true ∷ true ∷ true ∷ true ∷ true
    ∷ true ∷ true ∷ true ∷ true ∷ true ∷ true ∷ true ∷ true ∷ true ∷ []

-- A `u8` is below 256, so the default is never read.
unfoldable pub is_not_structural_or_whitespace_or_exponent_or_decimal : ℕ → Bool
is_not_structural_or_whitespace_or_exponent_or_decimal c =
    get_or structural_or_whitespace_or_exponent_or_decimal_negated c false

-- `d - b'0'` in a `u8`.
abbrev pub digit_of : ℕ → ℕ
digit_of d = (d + 208) % 256

-- `*p.get_unchecked(…)` at the position where the list begins.
abbrev pub peek : List ℕ → Outcome Error ℕ
peek [] = fault
peek (d ∷ s) = ok d

abbrev pub tail : List ℕ → List ℕ
tail [] = []
tail (d ∷ s) = s

-- `*(chars.as_ptr() as *const u64)`, then the test of the eight bytes. The sum is a plain `+` on `u64`,
-- which wraps around in a release build and panics where overflow checks are on.
unfoldable pub eight_digits_test : ℕ → Bool
eight_digits_test val =
    bit_or (bit_and val 0xf0f0f0f0f0f0f0f0)
      (bit_and ((val + 0x0606060606060606) % 2 ^ 64) 0xf0f0f0f0f0f0f0f0 / 2 ^ 4)
    == 0x3333333333333333

unfoldable pub is_made_of_eight_digits_fast : List ℕ → Outcome Error Bool
unfolding eight_digits_test
is_made_of_eight_digits_fast (a ∷ b ∷ c ∷ d ∷ e ∷ f ∷ g ∷ h ∷ s) = ok (
    eight_digits_test
      (a + 256 * (b + 256 * (c + 256 * (d + 256 * (e + 256 * (f + 256 * (g + 256 * h))))))))
is_made_of_eight_digits_fast _ = fault

-- The vector operations, lane by lane: `_mm_sub_epi8` of b'0', `_mm_maddubs_epi16`,
-- `_mm_madd_epi16` on signed lanes and `_mm_packus_epi32`.
abbrev pub pairs : (ℕ → ℕ → ℕ) → List ℕ → List ℕ
pairs f (a ∷ b ∷ r) = f a b ∷ pairs f r
pairs f _ = []

abbrev pub maddubs : ℕ → ℕ → ℕ
maddubs a b = a * 10 + b

abbrev pub signed16 : ℕ → ℕ
signed16 v = if ltb v (2 ^ 15) then v else v + 2 ^ 32 - 2 ^ 16

abbrev pub madd : ℕ → ℕ → ℕ → ℕ
madd weight a b = (signed16 a * weight + signed16 b) % 2 ^ 32

abbrev pub packus : ℕ → ℕ
packus v = if leb v 0xffff then v else if ltb v (2 ^ 31) then 0xffff else 0

-- The low 32 bits of the last vector.
abbrev pub low_lane : List ℕ → ℕ
low_lane [] = 0
low_lane (v ∷ r) = v

unfoldable pub parse_sixteen : List ℕ → ℕ
parse_sixteen chars =
    let t1 = pairs maddubs (map digit_of chars) in
    let t2 = pairs (madd 100) t1 in
    let t3 = map packus t2 ++ map packus t2 in low_lane (pairs (madd 10000) t3)

unfoldable pub parse_eight_digits_unrolled : List ℕ → Outcome Error ℕ
unfolding parse_sixteen
parse_eight_digits_unrolled (a ∷ b ∷ c ∷ d ∷ e ∷ f ∷ g ∷ h ∷ i ∷ j ∷ k ∷ l ∷ m ∷ n ∷ o ∷ p ∷ s) =
    ok (parse_sixteen (a ∷ b ∷ c ∷ d ∷ e ∷ f ∷ g ∷ h ∷ i ∷ j ∷ k ∷ l ∷ m ∷ n ∷ o ∷ p ∷ []))
parse_eight_digits_unrolled _ = fault
