-- ===== src/NumberParse/Decimal.antt =====
-- Integers through `parse_number_int` of src/numberparse.rs: every text of digits gives its value,
-- or an overflow.
use simdjson_rs.Prelude.{
  ℕ, zero, suc, ◌+◌, ◌-◌, ◌^◌, ◌≤◌, ◌<◌, ◌≡◌, ◌≢◌, ◌⊎◌, inl, inr, refl, arith, Bool, true, false,
  List, [], ◌∷◌, ◌++◌, drop, length, leb, ltb, ltb→lt, ◌==◌, if◌then◌else◌, ==_iff, Bool-cases,
}
use simdjson_rs.Error.{Error, ErrorType, overflow, Outcome, ok, err, ◌>>=◌}
use simdjson_rs.CharUtils.Classes.{ends_token}
use simdjson_rs.NumberParse.{ℤ, pos, negsuc, peek, as_i64, wrapping_neg, Floats, Number, i64}
use simdjson_rs.NumberParse.Integer.{
  large_whole, large_value, parse_large_integer, integer_part, decimal_part, Exponent,
  exponent_part, number_value, behind_integer, parse_number_int,
}
use simdjson_rs.NumberParse.Digits.{
  Ends, AreDigits, spelled, EndsNumber, is_integer_digit, digit_of_digit, ends_number, spelled-lt,
  large_digits_lem, integer_digits_exact, integer_digits_wide,
}

-- What an integer text stands for, and whether it fits in an `i64`.
abbrev pub signed : Bool → ℕ → ℤ
signed false v = pos v
signed true zero = pos 0
signed true (suc n) = negsuc n

abbrev pub in_range : Bool → ℕ → Bool
in_range negative v = if negative then leb v (2 ^ 63) else ltb v (2 ^ 63)

abbrev pub integer_result : {F : Type 0} → (ErrorType → Error) → Bool → ℕ → Outcome Error (Number F)
integer_result error negative v =
    if in_range negative v then ok (i64 (signed negative v)) else err (error overflow)

-- The sign and the text behind it.
abbrev pub with_sign : Bool → List ℕ → List ℕ
with_sign negative s = if negative then b'-' ∷ s else s

as_i64-signed :
    (negative : Bool) (v : ℕ)
    → in_range negative v ≡ true
    → as_i64 (if negative then wrapping_neg v else v) ≡ signed negative v
as_i64-signed false v h = ground arith
as_i64-signed true zero h = ground arith
as_i64-signed true (suc n) h = ground arith

-- What does not fit in 64 bits is out of range.
out_of_range : (negative : Bool) (v : ℕ) → ltb v (2 ^ 64) ≡ false → in_range negative v ≡ false
out_of_range true v h = ground arith
out_of_range false v h = ground arith

module _ (fl : Floats) (error : ErrorType → Error) (e : ℕ) (rest : List ℕ)
    (stop : EndsNumber e) where
  open fl use {F64}

  no_decimals : (swar : Bool) (i : ℕ) → decimal_part error swar (e ∷ rest) i ≡ ok (e ∷ rest, i, 0)
  unfolding decimal_part
  no_decimals swar i = rw stop.no_point

  abbrev no_exponent : Exponent
  no_exponent = record { rest = e ∷ rest; negexp = false; expnumber = 0; bytes = 0 }

  no_exponent_lem : exponent_part error (e ∷ rest) ≡ ok no_exponent
  unfolding exponent_part
  no_exponent_lem = rw (stop.no_e, stop.no_capital_e)

  drop_sign :
      (negative : Bool) (s : List ℕ)
      → (if negative then drop 1 (with_sign negative s) else with_sign negative s) ≡ s
  drop_sign true s = refl
  drop_sign false s = refl

  -- The slow way checks every step.
  large_value_lem :
      (negative : Bool) (v : ℕ)
      → large_value error {F = F64} negative v e ≡ integer_result error negative v
  unfolding large_value
  large_value_lem true v = rw stop.is_class (ground (arith, as_i64-signed true v))
  large_value_lem false v = rw stop.is_class (ground (arith, as_i64-signed false v))

  large_end :
      (negative : Bool) (v : ℕ)
      → ((if ltb v (2 ^ 64) then ok (e ∷ rest, v) else err (error overflow)) >>= λ (s, i).
          peek s >>= large_value error {F = F64} negative i)
        ≡ integer_result error negative v
  large_end negative v = elim (Bool-cases (ltb v (2 ^ 64))) [
    | inl fits ↦ rw fits (large_value_lem negative v)
    | inr wide ↦ rw (wide, out_of_range negative v wide) refl
  ]

  parse_large_integer_lem :
      (negative : Bool) (d : ℕ) (ds : List ℕ)
      → AreDigits (d ∷ ds)
      → (d == b'0') ≡ false
      → parse_large_integer error {F = F64} (with_sign negative (d ∷ (ds ++ e ∷ rest))) negative
        ≡ integer_result error negative (spelled (d - b'0') ds)
  unfolding parse_large_integer large_whole
  parse_large_integer_lem negative d ds digits h =
      rw
        (
          drop_sign negative (d ∷ (ds ++ e ∷ rest)),
          h,
          digit_of_digit d digits.0 digits.1,
          large_digits_lem error ds e rest (d - b'0') digits.2 stop.no_digit (omega arith),
        )
        (large_end negative (spelled (d - b'0') ds))

  -- A short number is read exactly, a long one goes the slow way.
  value_end :
      (swar : Bool) (negative : Bool) (d : ℕ) (ds : List ℕ)
      → AreDigits (d ∷ ds)
      → (d == b'0') ≡ false
      → let v = spelled (d - b'0') ds in
        (i : ℕ)
        → (v < 2 ^ 64 → i ≡ v)
        → number_value fl swar error
            (with_sign negative (d ∷ (ds ++ e ∷ rest)))
            negative
            i
            0
            ((if negative then 1 else 0) + (1 + length ds) + 0 + 0 + 0)
            (0 + 0)
            no_exponent
          ≡ integer_result error negative v
  unfolding number_value
  value_end swar negative d ds digits h i exact =
      let v = spelled (d - b'0') ds in
      let count = (if negative then 1 else 0) + (1 + length ds) + 0 + 0 + 0 in
      elim (Bool-cases (leb 18 count)) [
        | inl long ↦ rw long (parse_large_integer_lem negative d ds digits h)
        | inr short ↦
            let few : length ds ≤ 16 = ground arith in
            let low : v < 10 ^ 17 =
              spelled-lt ds 16 (d - b'0') (10 ^ 17) digits.2 few
                (omega (arith, digits.0, digits.1)) in
            rw (short, stop.is_class, exact (omega arith))
              (ground (arith, as_i64-signed negative v))
      ]

  abbrev Reads : Bool → Bool → ℕ → List ℕ → Type 0
  Reads swar negative d ds =
      parse_number_int fl swar error (with_sign negative (d ∷ (ds ++ e ∷ rest))) negative
      ≡ integer_result error negative (spelled (d - b'0') ds)

  behind_integer_lem :
      (swar negative : Bool) (buf : List ℕ) (i n : ℕ)
      → behind_integer fl swar error buf negative (e ∷ rest, i, n)
        ≡ number_value fl swar error buf negative i 0
            ((if negative then 1 else 0) + n + 0 + 0 + 0)
            (0 + 0)
            no_exponent
  unfolding behind_integer
  behind_integer_lem swar negative buf i n = rw (no_decimals swar i, no_exponent_lem)

  -- A zero alone.
  zero_value :
      (swar negative : Bool) (buf : List ℕ)
      → number_value fl swar error buf negative 0 0
          ((if negative then 1 else 0) + 1 + 0 + 0 + 0)
          (0 + 0)
          no_exponent
        ≡ integer_result error negative 0
  unfolding number_value
  zero_value swar true buf = rw stop.is_class
  zero_value swar false buf = rw stop.is_class

  zero_read : (swar negative : Bool) (d : ℕ) → (d == b'0') ≡ true → Reads swar negative d []
  unfolding parse_number_int integer_part
  zero_read swar negative d h =
      let buf = with_sign negative (d ∷ e ∷ rest) in
      let none : d - b'0' ≡ 0 = ground arith in
      rw
        (
          drop_sign negative (d ∷ e ∷ rest),
          h,
          stop.behind_zero,
          behind_integer_lem swar negative buf 0 1,
          none,
        )
        (zero_value swar negative buf)

  zero_case :
      (swar negative : Bool) (d : ℕ) (ds : List ℕ)
      → (d == b'0') ≡ true
      → (d ≢ b'0') ⊎ (ds ≡ [])
      → Reads swar negative d ds
  zero_case swar negative d [] h leading = zero_read swar negative d h
  zero_case swar negative d (x ∷ xs) h (inl nonzero) = absurd (nonzero ((==_iff d b'0').0 h))
  zero_case swar negative d (x ∷ xs) h (inr alone) = cc

  -- A number that does not fit in 64 bits, whether or not the fast loop notices.
  wide_end :
      (swar negative : Bool) (d : ℕ) (ds : List ℕ)
      → AreDigits (d ∷ ds)
      → (d == b'0') ≡ false
      → ltb (spelled (d - b'0') ds) (2 ^ 64) ≡ false
      → {o : Outcome Error (List ℕ × ℕ × ℕ)} → Ends error ds e rest 1 o
      → (o >>= behind_integer fl swar error (with_sign negative (d ∷ (ds ++ e ∷ rest))) negative)
        ≡ integer_result error negative (spelled (d - b'0') ds)
  wide_end swar negative d ds digits h wide (inl refused) =
      rw (refused, out_of_range negative (spelled (d - b'0') ds) wide) refl
  wide_end swar negative d ds digits h wide (inr (i, p)) =
      rw
        (
          p,
          behind_integer_lem swar negative (with_sign negative (d ∷ (ds ++ e ∷ rest))) i
              (1 + length ds),
        )
        (value_end swar negative d ds digits h i (λ fits. absurd (ground arith)))

  digits_read :
      (swar negative : Bool) (d : ℕ) (ds : List ℕ)
      → AreDigits (d ∷ ds)
      → (d == b'0') ≡ false
      → Reads swar negative d ds
  unfolding parse_number_int integer_part
  digits_read swar negative d ds digits h =
      let v = spelled (d - b'0') ds in
      let buf = with_sign negative (d ∷ (ds ++ e ∷ rest)) in
      rw
        (
          drop_sign negative (d ∷ (ds ++ e ∷ rest)),
          h,
          is_integer_digit d digits.0 digits.1,
          digit_of_digit d digits.0 digits.1,
        )
        (elim (Bool-cases (ltb v (2 ^ 64))) [
          | inl fits ↦
              rw
                (
                  integer_digits_exact error ds e rest (d - b'0') 1 digits.2 stop.no_digit
                      (ltb→lt v _ fits),
                  behind_integer_lem swar negative buf v (1 + length ds),
                )
                (value_end swar negative d ds digits h v (λ _. refl))
          | inr wide ↦
              wide_end swar negative d ds digits h wide
                (integer_digits_wide error ds e rest (d - b'0') 1 digits.2 stop.no_digit)
        ])

-- A text of digits with no leading zero, behind a minus sign or none and before a byte that ends a
-- token, gives its value as an `i64`, or an overflow exactly if the value is out of the range of
-- an `i64`; the rest of the buffer does not matter.
pub parse_number_int_integer :
    (fl : Floats) (swar : Bool) (error : ErrorType → Error) (negative : Bool) (d : ℕ) (ds : List ℕ)
    (e : ℕ) (rest : List ℕ)
    → AreDigits (d ∷ ds)
    → (d ≢ b'0') ⊎ (ds ≡ [])
    → e < 256
    → ends_token e ≡ true
    → parse_number_int fl swar error (with_sign negative (d ∷ (ds ++ e ∷ rest))) negative
      ≡ integer_result error negative (spelled (d - b'0') ds)
parse_number_int_integer fl swar error negative d ds e rest digits leading small ends =
    let stop = ends_number e small ends in
    elim (Bool-cases (d == b'0')) [
      | inl zero_first ↦ zero_case fl error e rest stop swar negative d ds zero_first leading
      | inr other ↦ digits_read fl error e rest stop swar negative d ds digits other
    ]
