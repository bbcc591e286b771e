-- ===== src/NumberParse/Float.antt =====
-- src/numberparse.rs, `Deserializer::parse_float`: a number as a float from the start.
use simdjson_rs.Prelude.{
  ℕ, zero, suc, ◌+◌, ◌-◌, ◌*◌, ◌^◌, Bool, true, false, ◌&&◌, ◌||◌, not, List, [], ◌∷◌, drop, leb,
  ltb, ◌==◌, if◌then◌else◌,
}
use simdjson_rs.Error.{Error, ErrorType, parser, Outcome, ok, err, fault, ◌>>=◌}
use simdjson_rs.CharUtils.{is_not_structural_or_whitespace, is_structural_or_whitespace}
use simdjson_rs.NumberParse.{Floats, Number, f64, is_integer, digit_of, peek, tail}

-- `10 * expnumber + digit` for up to `k` more digits.
unfoldable pub exponent_digits : ℕ → List ℕ → ℕ → Outcome Error (List ℕ × ℕ)
exponent_digits zero s expnumber = ok (s, expnumber)
exponent_digits (suc k) [] expnumber = fault
exponent_digits (suc k) (d ∷ s) expnumber =
    let rest = exponent_digits k s (10 * expnumber + digit_of d) in
    if is_integer d then rest else exponent_digits k (d ∷ s) expnumber

module _ (fl : Floats) (error : ErrorType → Error) where
  open fl use {F64, of_ℕ, ten_to, add, mul, div, neg}

  -- while is_integer(…) { i = 10.0 * i + digit }
  unfoldable pub whole_digits : List ℕ → F64 → Outcome Error (List ℕ × F64)
  whole_digits [] i = fault
  whole_digits (d ∷ s) i =
      let rest = whole_digits s (add (mul (of_ℕ 10) i) (of_ℕ (digit_of d))) in
      if is_integer d then rest else ok (d ∷ s, i)

  -- while is_integer(…) && fraction_weight <= 10^16
  unfoldable pub fraction_digits : List ℕ → ℕ → ℕ → Outcome Error (List ℕ × ℕ × ℕ)
  fraction_digits [] fraction weight = fault
  fraction_digits (d ∷ s) fraction weight =
      let rest = fraction_digits s (fraction * 10 + digit_of d) (weight * 10) in
      if is_integer d && leb weight (10 ^ 16) then rest else ok (d ∷ s, fraction, weight)

  -- while is_integer(…) { fraction_weight *= 10.0; fraction += digit / fraction_weight }
  unfoldable pub small_digits : List ℕ → F64 → F64 → Outcome Error (List ℕ × F64)
  small_digits [] fraction weight = fault
  small_digits (d ∷ s) fraction weight =
      let weight' = mul weight (of_ℕ 10) in
      let rest = small_digits s (add fraction (div (of_ℕ (digit_of d)) weight')) weight' in
      if is_integer d then rest else ok (d ∷ s, fraction)

  -- The part before the point.
  unfoldable pub float_whole : List ℕ → Outcome Error (List ℕ × F64)
  unfolding whole_digits
  float_whole [] = fault
  float_whole (d ∷ s) = if d == b'0' then ok (s, of_ℕ 0) else whole_digits s (of_ℕ (digit_of d))

  -- The part behind a point, if there is one.
  unfoldable pub float_fraction : List ℕ → F64 → Outcome Error (List ℕ × F64)
  unfolding fraction_digits small_digits
  float_fraction s i = peek s >>= λ point.
      if not (point == b'.')
      then ok (s, i)
      else (peek (tail s) >>= λ d.
          if not (is_integer d)
          then err (error parser)
          else (fraction_digits (tail (tail s)) (digit_of d) 10 >>= λ (s₁, fraction, weight).
              small_digits s₁ (div (of_ℕ fraction) (of_ℕ weight)) (of_ℕ weight) >>= λ (s₂, part).
              ok (s₂, add i part)))

  -- The sign of an exponent, and the bytes behind it.
  abbrev pub exponent_sign : List ℕ → Outcome Error (List ℕ × Bool)
  exponent_sign s = peek s >>= λ d.
      if d == b'-'
      then ok (tail s, true)
      else if d == b'+'
      then ok (tail s, false)
      else ok (s, false)

  -- An exponent of up to four digits, within 308.
  unfoldable pub float_exponent : List ℕ → F64 → Outcome Error (List ℕ × F64)
  unfolding exponent_digits
  float_exponent s i = peek s >>= λ e.
      if not (e == b'e' || e == b'E')
      then ok (s, i)
      else (exponent_sign (tail s) >>= λ (s₁, negexp). peek s₁ >>= λ d.
          if not (is_integer d)
          then err (error parser)
          else (exponent_digits 3 (tail s₁) (digit_of d) >>= λ (s₂, expnumber). peek s₂ >>= λ d'.
              if is_integer d' || ltb 308 expnumber
              then err (error parser)
              else ok (s₂, mul i (ten_to (if negexp then 308 - expnumber else 308 + expnumber)))))

  unfoldable pub parse_float : List ℕ → Bool → Outcome Error (Number F64)
  unfolding float_whole float_fraction float_exponent
  parse_float p negative = float_whole (if negative then drop 1 p else p) >>= λ (s₁, whole).
      float_fraction s₁ whole >>= λ (s₂, i). float_exponent s₂ i >>= λ (s₃, i). peek s₃ >>= λ d.
      if not (is_not_structural_or_whitespace d == 0)
      then err (error parser)
      else if not (is_structural_or_whitespace d == 0)
      then ok (f64 (if negative then neg i else i))
      else err (error parser)
