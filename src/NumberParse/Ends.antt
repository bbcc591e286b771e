-- ===== src/NumberParse/Ends.antt =====
-- src/numberparse.rs: the parsers of numbers end.
use simdjson_rs.Prelude.{
  ℕ, zero, suc, ◌+◌, ◌*◌, ◌%◌, ◌^◌, ◌==◌, not, ltb, ◌||◌, Bool, true, false, List, [], ◌∷◌, drop,
  if◌then◌else◌,
}
use simdjson_rs.Error.{Error, ErrorType, parser, Outcome, ok, err, ◌>>=◌}
use simdjson_rs.Error.Settles.{Settles, has_value, has_error, has_fault, Settles-bind, Settles-if}
use simdjson_rs.NumberParse.{
  Floats, Number, f64, is_integer, digit_of, tail, peek, is_made_of_eight_digits_fast,
  parse_eight_digits_unrolled,
}
use simdjson_rs.CharUtils.{is_structural_or_whitespace, is_not_structural_or_whitespace}
use simdjson_rs.NumberParse.Float.{
  exponent_digits, whole_digits, fraction_digits, small_digits, float_whole, float_fraction,
  exponent_sign, float_exponent, parse_float,
}
use simdjson_rs.NumberParse.Integer.{
  wrapping_digit, sign_bytes, decimals, more_exponent, Exponent, large_digits, large_whole,
  large_value, parse_large_integer, integer_digits, integer_part, eight_decimals, decimal_part,
  exponent_part, scaled, finish_number, number_value, behind_integer, parse_number_int,
}

peek-Settles : (s : List ℕ) → Settles (peek s)
peek-Settles [] = has_fault
peek-Settles (d ∷ s) = has_value

eight_digits-Settles : (s : List ℕ) → Settles (is_made_of_eight_digits_fast s)
unfolding is_made_of_eight_digits_fast
eight_digits-Settles (a ∷ b ∷ c ∷ d ∷ e ∷ f ∷ g ∷ h ∷ s) = has_value
eight_digits-Settles _ = has_fault

unrolled-Settles : (s : List ℕ) → Settles (parse_eight_digits_unrolled s)
unfolding parse_eight_digits_unrolled
unrolled-Settles (a ∷ b ∷ c ∷ d ∷ e ∷ f ∷ g ∷ h ∷ i ∷ j ∷ k ∷ l ∷ m ∷ n ∷ o ∷ p ∷ s) = has_value
unrolled-Settles _ = has_fault

decimals-Settles : (s : List ℕ) (i n : ℕ) → Settles (decimals s i n)
unfolding decimals
decimals-Settles [] i n = has_fault
decimals-Settles (d ∷ s) i n = Settles-if _ (decimals-Settles s _ _) has_value

more_exponent-Settles : (k : ℕ) (s : List ℕ) (e n : ℕ) → Settles (more_exponent k s e n)
unfolding more_exponent
more_exponent-Settles zero s e n = has_value
more_exponent-Settles (suc k) [] e n = has_fault
more_exponent-Settles (suc k) (d ∷ s) e n = Settles-if _ (more_exponent-Settles k s _ _) has_value

exponent_digits-Settles : (k : ℕ) (s : List ℕ) (e : ℕ) → Settles (exponent_digits k s e)
unfolding exponent_digits
exponent_digits-Settles zero s e = has_value
exponent_digits-Settles (suc k) [] e = has_fault
exponent_digits-Settles (suc k) (d ∷ s) e =
    Settles-if _ (exponent_digits-Settles k s _) (exponent_digits-Settles k (d ∷ s) e)

module _ (error : ErrorType → Error) where
  large_digits-Settles : (s : List ℕ) (i : ℕ) → Settles (large_digits error s i)
  unfolding large_digits
  large_digits-Settles [] i = has_fault
  large_digits-Settles (d ∷ s) i =
      Settles-if _ (Settles-if _ (large_digits-Settles s _) has_error) has_value

  large_whole-Settles : (s : List ℕ) → Settles (large_whole error s)
  unfolding large_whole
  large_whole-Settles [] = has_fault
  large_whole-Settles (d ∷ s) = Settles-if _ has_value (large_digits-Settles s _)

  large_value-Settles :
      {F : Type 0} (negative : Bool) (s : List ℕ) (i : ℕ)
      → Settles (peek s >>= large_value error {F = F} negative i)
  unfolding large_value
  large_value-Settles negative [] i = has_fault
  large_value-Settles negative (d ∷ s) i = Settles-if _ has_error (Settles-if _ has_value has_error)

  large-Settles :
      {F : Type 0} (buf : List ℕ) (negative : Bool)
      → Settles (parse_large_integer error {F = F} buf negative)
  unfolding parse_large_integer
  large-Settles buf negative =
      Settles-bind {f = λ (s, i). peek s >>= large_value error negative i}
        (large_whole-Settles (if negative then drop 1 buf else buf))
        λ (s, i). large_value-Settles negative s i

  integer_digits-Settles : (s : List ℕ) (i n : ℕ) → Settles (integer_digits error s i n)
  unfolding integer_digits
  integer_digits-Settles [] i n = has_fault
  integer_digits-Settles (d ∷ s) i n =
      Settles-if _ (Settles-if _ (integer_digits-Settles s _ _) has_error) has_value

  integer_part-Settles : (s : List ℕ) → Settles (integer_part error s)
  unfolding integer_part
  integer_part-Settles [] = has_fault
  integer_part-Settles (d ∷ s) =
      Settles-if _ (Settles-bind (peek-Settles s) λ _. Settles-if _ has_error has_value)
        (Settles-if _ has_error (integer_digits-Settles s _ _))

  eight_decimals-Settles :
      (swar : Bool) (s : List ℕ) (i : ℕ) → Settles (eight_decimals error swar s i)
  unfolding eight_decimals
  eight_decimals-Settles false s i = has_value
  eight_decimals-Settles true s i =
      Settles-bind
        {f = λ all_digits.
          if all_digits
          then (parse_eight_digits_unrolled s >>= λ v.
              ok (drop 8 s, (i * 100000000 % 2 ^ 64 + v) % 2 ^ 64, 9))
          else ok (s, i, 1)}
        (eight_digits-Settles s)
        λ _. Settles-if _ (Settles-bind (unrolled-Settles s) λ _. has_value) has_value

  decimal_part-Settles : (swar : Bool) (s : List ℕ) (i : ℕ) → Settles (decimal_part error swar s i)
  unfolding decimal_part
  decimal_part-Settles swar [] i = has_fault
  decimal_part-Settles swar (point ∷ s) i = Settles-if (not (point == b'.')) has_value (
      Settles-bind (peek-Settles s) λ d. Settles-if (not (is_integer d)) has_error (
        Settles-bind (eight_decimals-Settles swar (tail s) (wrapping_digit i d))
          λ (s₁, i₁, n). decimals-Settles s₁ i₁ n))

  exponent_part-Settles : (s : List ℕ) → Settles (exponent_part error s)
  unfolding exponent_part
  exponent_part-Settles [] = has_fault
  exponent_part-Settles (e ∷ s) = Settles-if (not (e == b'e' || e == b'E')) has_value (
      Settles-bind (peek-Settles s) λ sign.
        Settles-bind (peek-Settles (drop (sign_bytes sign) s)) λ d.
          Settles-if (not (is_integer d)) has_error (
            Settles-bind (more_exponent-Settles 2 (tail (drop (sign_bytes sign) s)) (digit_of d) 1)
              λ (s₂, n, k).
                Settles-bind (peek-Settles s₂)
                  λ d'. Settles-if (is_integer d') has_error has_value))

module _ (fl : Floats) (error : ErrorType → Error) where
  open fl use {F64}

  whole_digits-Settles : (s : List ℕ) (i : F64) → Settles (whole_digits fl error s i)
  unfolding whole_digits
  whole_digits-Settles [] i = has_fault
  whole_digits-Settles (d ∷ s) i = Settles-if _ (whole_digits-Settles s _) has_value

  fraction_digits-Settles : (s : List ℕ) (f w : ℕ) → Settles (fraction_digits fl error s f w)
  unfolding fraction_digits
  fraction_digits-Settles [] f w = has_fault
  fraction_digits-Settles (d ∷ s) f w = Settles-if _ (fraction_digits-Settles s _ _) has_value

  small_digits-Settles : (s : List ℕ) (f w : F64) → Settles (small_digits fl error s f w)
  unfolding small_digits
  small_digits-Settles [] f w = has_fault
  small_digits-Settles (d ∷ s) f w = Settles-if _ (small_digits-Settles s _ _) has_value

  whole-Settles : (s : List ℕ) → Settles (float_whole fl error s)
  unfolding float_whole
  whole-Settles [] = has_fault
  whole-Settles (d ∷ s) = Settles-if _ has_value (whole_digits-Settles s _)

  fraction-Settles : (s : List ℕ) (i : F64) → Settles (float_fraction fl error s i)
  unfolding float_fraction
  fraction-Settles [] i = has_fault
  fraction-Settles (point ∷ s) i = Settles-if (not (point == b'.')) has_value (
      Settles-bind (peek-Settles s) λ d. Settles-if (not (is_integer d)) has_error (
        Settles-bind (fraction_digits-Settles (tail s) (digit_of d) 10) λ (s₁, f, w).
          Settles-bind (small_digits-Settles s₁ (fl.div (fl.of_ℕ f) (fl.of_ℕ w)) (fl.of_ℕ w))
            λ _. has_value))

  sign-Settles : (s : List ℕ) → Settles (exponent_sign fl error s)
  sign-Settles [] = has_fault
  sign-Settles (d ∷ s) =
      Settles-if (d == b'-') has_value (Settles-if (d == b'+') has_value has_value)

  exponent-Settles : (s : List ℕ) (i : F64) → Settles (float_exponent fl error s i)
  unfolding float_exponent
  exponent-Settles [] i = has_fault
  exponent-Settles (e ∷ s) i = Settles-if (not (e == b'e' || e == b'E')) has_value (
      Settles-bind (sign-Settles s) λ (s₁, negexp). Settles-bind (peek-Settles s₁) λ d.
        Settles-if (not (is_integer d)) has_error (
          Settles-bind (exponent_digits-Settles 3 (tail s₁) (digit_of d)) λ (s₂, n).
            Settles-bind (peek-Settles s₂)
              λ d'. Settles-if (is_integer d' || ltb 308 n) has_error has_value))

  -- What `parse_float` does behind the exponent.
  abbrev float_end : Bool → List ℕ → F64 → Outcome Error (Number F64)
  float_end negative s i = peek s >>= λ d.
      if not (is_not_structural_or_whitespace d == 0)
      then err (error parser)
      else if not (is_structural_or_whitespace d == 0)
      then ok (f64 (if negative then fl.neg i else i))
      else err (error parser)

  end-Settles : (negative : Bool) (s : List ℕ) (i : F64) → Settles (float_end negative s i)
  end-Settles negative [] i = has_fault
  end-Settles negative (d ∷ s) i = Settles-if _ has_error (Settles-if _ has_value has_error)

  parse_float-Settles : (p : List ℕ) (negative : Bool) → Settles (parse_float fl error p negative)
  unfolding parse_float
  parse_float-Settles p negative =
      Settles-bind
        {f = λ (s₁, whole). float_fraction fl error s₁ whole >>= λ (s₂, i).
          float_exponent fl error s₂ i >>= λ (s₃, i). float_end negative s₃ i}
        (whole-Settles (if negative then drop 1 p else p))
        λ (s₁, whole).
          Settles-bind (fraction-Settles s₁ whole)
            λ (s₂, i). Settles-bind (exponent-Settles s₂ i) λ (s₃, j). end-Settles negative s₃ j

module _ (fl : Floats) (swar : Bool) (error : ErrorType → Error) where
  finish-Settles : (s : List ℕ) (v : Number fl.F64) → Settles (finish_number fl swar error s v)
  finish-Settles [] v = has_fault
  finish-Settles (d ∷ s) v = Settles-if _ has_value has_error

  number_value-Settles :
      (buf : List ℕ) (negative : Bool) (i fraction n ignored : ℕ) (x : Exponent)
      → Settles (number_value fl swar error buf negative i fraction n ignored x)
  unfolding number_value scaled
  number_value-Settles buf negative i fraction n ignored x =
      Settles-if _
        (Settles-if _ (parse_float-Settles fl error buf negative) (
          Settles-bind (Settles-if _ has_value (Settles-if _ has_error has_value))
            λ v. finish-Settles x.rest v))
        (Settles-if _ (large-Settles error buf negative) (finish-Settles x.rest _))

  behind_integer-Settles :
      (buf : List ℕ) (negative : Bool) (part : List ℕ × ℕ × ℕ)
      → Settles (behind_integer fl swar error buf negative part)
  unfolding behind_integer
  behind_integer-Settles buf negative (s₁, i, n) =
      Settles-bind
        {f = λ (s₂, i₂, fraction). exponent_part error s₂ >>= λ x.
          let point = if fraction == 0 then 0 else 1 in
          number_value fl swar error buf negative i₂ fraction
            ((if negative then 1 else 0) + n + point + fraction + x.bytes) (point + x.bytes) x}
        (decimal_part-Settles error swar s₁ i)
        λ (s₂, i₂, fraction).
          Settles-bind (exponent_part-Settles error s₂)
            λ x. number_value-Settles buf negative i₂ fraction _ _ x

  pub parse_number_int-Settles :
      (buf : List ℕ) (negative : Bool) → Settles (parse_number_int fl swar error buf negative)
  unfolding parse_number_int
  parse_number_int-Settles buf negative =
      Settles-bind {f = behind_integer fl swar error buf negative}
        (integer_part-Settles error (if negative then drop 1 buf else buf))
        (behind_integer-Settles buf negative)
