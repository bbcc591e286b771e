-- ===== src/NumberParse/Digits.antt =====
-- src/numberparse.rs: texts of digits, and the loops over them.
use simdjson_rs.Prelude.{
  ℕ, zero, suc, ◌+◌, ◌-◌, ◌*◌, ◌%◌, ◌^◌, ◌≤◌, ◌<◌, ◌≡◌, ◌⊎◌, inl, inr, refl, ◌∙◌, ap, arith, true,
  false, not, List, [], ◌∷◌, ◌++◌, length, ltb, ◌==◌, if◌then◌else◌, Bool-cases,
}
use native.Mathlib.Nat.{pow-suc, one-le-pow}
use simdjson_rs.Prelude.Table.{all_below, all_below_sound}
use simdjson_rs.Error.{Error, ErrorType, overflow, Outcome, ok, err}
use simdjson_rs.CharUtils.{is_structural_or_whitespace}
use simdjson_rs.CharUtils.Classes.{ends_token, is_structural_or_whitespace_lem}
use simdjson_rs.NumberParse.{
  is_integer, is_not_structural_or_whitespace_or_exponent_or_decimal, digit_of,
}
use simdjson_rs.NumberParse.Integer.{large_digits, integer_digits}

abbrev pub AreDigits : List ℕ → Type 0
AreDigits [] = Unit
AreDigits (d ∷ ds) = (b'0' ≤ d) × (d ≤ b'9') × AreDigits ds

-- The number that digits spell behind `n`.
abbrev pub spelled : ℕ → List ℕ → ℕ
spelled n [] = n
spelled n (d ∷ ds) = spelled (n * 10 + (d - b'0')) ds

module _ (d : ℕ) (lo : b'0' ≤ d) (hi : d ≤ b'9') where
  pub is_integer_digit : is_integer d ≡ true
  unfolding is_integer
  is_integer_digit = ground arith

  pub digit_of_digit : digit_of d ≡ d - b'0'
  digit_of_digit = omega arith

-- A byte that ends a token belongs to no number.
pub record EndsNumber (e : ℕ) : Type 0 where
  pub is_class : (is_structural_or_whitespace e == 0) ≡ false
  pub no_digit : is_integer e ≡ false
  pub no_point : (e == b'.') ≡ false
  pub no_e : (e == b'e') ≡ false
  pub no_capital_e : (e == b'E') ≡ false
  pub behind_zero : is_not_structural_or_whitespace_or_exponent_or_decimal e ≡ false

behind_zero_table :
    all_below 256 (λ e.
      if ends_token e then not (is_not_structural_or_whitespace_or_exponent_or_decimal e) else true)
    ≡ true
unfolding all_below ends_token is_not_structural_or_whitespace_or_exponent_or_decimal
behind_zero_table = refl

pub ends_number : (e : ℕ) → e < 256 → ends_token e ≡ true → EndsNumber e
unfolding is_integer
ends_number e h t = record {
  is_class = rw (is_structural_or_whitespace_lem e h, t);
  no_digit = unfold ends_token in ground arith;
  no_point = unfold ends_token in ground arith;
  no_e = unfold ends_token in ground arith;
  no_capital_e = unfold ends_token in ground arith;
  behind_zero = ground (arith, all_below_sound 256 _ behind_zero_table e h);
}

-- More digits only make a number larger, and few digits do not make it large.
pub le-spelled : (ds : List ℕ) (n : ℕ) → n ≤ spelled n ds
le-spelled [] n = omega arith
le-spelled (d ∷ ds) n = omega (arith, le-spelled ds (n * 10 + (d - b'0')))

power_step : (k n : ℕ) → (n * 10 + 10) * 10 ^ k ≡ (n + 1) * 10 ^ suc k
power_step k n = omega (arith, ap (λ (t : ℕ). (n + 1) * t) (pow-suc 10 k))

pub spelled-lt :
    (ds : List ℕ) (k n bound : ℕ)
    → AreDigits ds
    → length ds ≤ k
    → (n + 1) * 10 ^ k ≤ bound
    → spelled n ds < bound
spelled-lt [] k n bound digits short h = grind (arith, one-le-pow k 10)
spelled-lt (d ∷ ds) zero n bound digits short h = absurd (omega arith)
spelled-lt (d ∷ ds) (suc k) n bound digits short h =
    spelled-lt ds k (n * 10 + (d - b'0')) bound digits.2 (omega arith) (next (digits.0) (digits.1))
  where
    next : b'0' ≤ d → d ≤ b'9' → (n * 10 + (d - b'0') + 1) * 10 ^ k ≤ bound
    next lo hi = grind (arith, power_step k n)

module _ (error : ErrorType → Error) where
  -- The checked loop: the value, or an overflow exactly where it does not fit in 64 bits.
  pub large_digits_lem :
      (ds : List ℕ) (e : ℕ) (rest : List ℕ) (n : ℕ)
      → AreDigits ds
      → is_integer e ≡ false
      → n < 2 ^ 64
      → large_digits error (ds ++ e ∷ rest) n ≡ (
          if ltb (spelled n ds) (2 ^ 64) then ok (e ∷ rest, spelled n ds) else err (error overflow))
  unfolding large_digits
  large_digits_lem [] e rest n digits stop h = ground arith
  large_digits_lem (d ∷ ds) e rest n digits stop h =
      let m = n * 10 + (d - b'0') in
      rw (is_integer_digit d digits.0 digits.1, digit_of_digit d digits.0 digits.1)
        (elim (Bool-cases (ltb m (2 ^ 64))) [
          | inl fits ↦ rw fits (large_digits_lem ds e rest m digits.2 stop (ground arith))
          | inr wide ↦ rw wide (ground (arith, le-spelled ds m))
        ])

  -- The loop that wraps: exact below 2 ^ 64; above that it may end with an overflow.
  pub integer_digits_exact :
      (ds : List ℕ) (e : ℕ) (rest : List ℕ) (n k : ℕ)
      → AreDigits ds
      → is_integer e ≡ false
      → spelled n ds < 2 ^ 64
      → integer_digits error (ds ++ e ∷ rest) n k ≡ ok (e ∷ rest, spelled n ds, k + length ds)
  unfolding integer_digits
  integer_digits_exact [] e rest n k digits stop h = ground arith
  integer_digits_exact (d ∷ ds) e rest n k digits stop h =
      let m = n * 10 + (d - b'0') in
      let small : m < 2 ^ 64 = omega (arith, le-spelled ds m) in
      let same : n * 10 % 2 ^ 64 + digit_of d ≡ m =
        omega (arith, digit_of_digit d digits.0 digits.1) in
      rw (is_integer_digit d digits.0 digits.1, same)
        (ground (arith, integer_digits_exact ds e rest m (k + 1) digits.2 stop h))

  abbrev pub Ends : List ℕ → ℕ → List ℕ → ℕ → Outcome Error (List ℕ × ℕ × ℕ) → Type 0
  Ends ds e rest k o =
      (o ≡ err (error overflow)) ⊎ ((i : ℕ) × (o ≡ ok (e ∷ rest, i, k + length ds)))

  pub one_more :
      {o : Outcome Error (List ℕ × ℕ × ℕ)} (d : ℕ) (ds : List ℕ) (e : ℕ) (rest : List ℕ) (k : ℕ)
      → Ends ds e rest (k + 1) o
      → Ends (d ∷ ds) e rest k o
  one_more d ds e rest k (inl x) = inl x
  one_more d ds e rest k (inr (i, p)) = inr (i, p ∙ ap (λ t. ok (e ∷ rest, i, t)) (omega arith))

  pub integer_digits_wide :
      (ds : List ℕ) (e : ℕ) (rest : List ℕ) (n k : ℕ)
      → AreDigits ds
      → is_integer e ≡ false
      → Ends ds e rest k (integer_digits error (ds ++ e ∷ rest) n k)
  unfolding integer_digits
  integer_digits_wide [] e rest n k digits stop = inr (n, ground arith)
  integer_digits_wide (d ∷ ds) e rest n k digits stop =
      let m = n * 10 % 2 ^ 64 + digit_of d in
      let further = integer_digits_wide ds e rest m (k + 1) digits.2 stop in
      rw (is_integer_digit d digits.0 digits.1) (elim (Bool-cases (ltb m (2 ^ 64))) [
        | inl fits ↦ rw fits (one_more d ds e rest k further)
        | inr wide ↦ rw wide (inl refl)
      ])
