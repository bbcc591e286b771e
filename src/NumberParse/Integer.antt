-- ===== src/NumberParse/Integer.antt =====
-- src/numberparse.rs, `Deserializer::parse_large_integer` and `Deserializer::parse_number_int`.
use simdjson_rs.Prelude.{
  ℕ, zero, suc, ◌+◌, ◌-◌, ◌*◌, ◌%◌, ◌^◌, Bool, true, false, ◌||◌, not, List, [], ◌∷◌, drop, leb,
  ltb, ◌==◌, if◌then◌else◌,
}
use simdjson_rs.Error.{
  Error, ErrorType, overflow, invalid_number, invalid_exponent, Outcome, ok, err, fault, ◌>>=◌,
}
use simdjson_rs.CharUtils.{is_structural_or_whitespace}
use simdjson_rs.NumberParse.{
  as_i64, wrapping_neg, Floats, Number, f64, i64, is_integer,
  is_not_structural_or_whitespace_or_exponent_or_decimal, digit_of, peek, tail,
  is_made_of_eight_digits_fast, parse_eight_digits_unrolled,
}
use simdjson_rs.NumberParse.Float.{parse_float}

-- `i.wrapping_mul(10).wrapping_add(digit)`.
abbrev pub wrapping_digit : ℕ → ℕ → ℕ
wrapping_digit i d = (i * 10 + digit_of d) % 2 ^ 64

-- while is_integer(d) { i = i.wrapping_mul(10).wrapping_add(digit) }, with the digits counted
unfoldable pub decimals : List ℕ → ℕ → ℕ → Outcome Error (List ℕ × ℕ × ℕ)
decimals [] i n = fault
decimals (d ∷ s) i n =
    let rest = decimals s (wrapping_digit i d) (n + 1) in
    if is_integer d then rest else ok (d ∷ s, i, n)

-- Up to `k` more digits of an exponent, counted.
unfoldable pub more_exponent : ℕ → List ℕ → ℕ → ℕ → Outcome Error (List ℕ × ℕ × ℕ)
more_exponent zero s expnumber n = ok (s, expnumber, n)
more_exponent (suc k) [] expnumber n = fault
more_exponent (suc k) (d ∷ s) expnumber n =
    if is_integer d
    then more_exponent k s (10 * expnumber + digit_of d) (n + 1)
    else ok (d ∷ s, expnumber, n)

-- What an exponent adds: its sign, its value, and how many bytes it has.
pub record Exponent : Type 0 where
  pub rest : List ℕ
  pub negexp : Bool
  pub expnumber : ℕ
  pub bytes : ℕ

abbrev pub sign_bytes : ℕ → ℕ
sign_bytes d = if d == b'-' || d == b'+' then 1 else 0

module _ (error : ErrorType → Error) where
  -- while is_integer(d) { i.checked_mul(10).and_then(… checked_add …) }
  unfoldable pub large_digits : List ℕ → ℕ → Outcome Error (List ℕ × ℕ)
  large_digits [] i = fault
  large_digits (d ∷ s) i =
      let rest = large_digits s (i * 10 + digit_of d) in
      if is_integer d
      then (if ltb (i * 10 + digit_of d) (2 ^ 64) then rest else err (error overflow))
      else ok (d ∷ s, i)

  unfoldable pub large_whole : List ℕ → Outcome Error (List ℕ × ℕ)
  large_whole [] = fault
  large_whole (d ∷ s) = if d == b'0' then ok (s, 0) else large_digits s (digit_of d)

  -- The test of the range, and of the byte `d` behind the digits. `-(i as i64)` is taken to wrap,
  -- as it does without overflow checks.
  unfoldable pub large_value : {F : Type 0} → Bool → ℕ → ℕ → Outcome Error (Number F)
  large_value negative i d =
      if (if negative then ltb (2 ^ 63) i else leb (2 ^ 63) i)
      then err (error overflow)
      else if not (is_structural_or_whitespace d == 0)
      then ok (i64 (as_i64 (if negative then wrapping_neg i else i)))
      else err (error invalid_number)

  unfoldable pub parse_large_integer : {F : Type 0} → List ℕ → Bool → Outcome Error (Number F)
  parse_large_integer buf negative =
      large_whole (if negative then drop 1 buf else buf) >>= λ (s, i).
      peek s >>= large_value negative i

  -- while is_integer(d) { i = i.wrapping_mul(10); i.checked_add(digit) }, with the digits counted
  unfoldable pub integer_digits : List ℕ → ℕ → ℕ → Outcome Error (List ℕ × ℕ × ℕ)
  integer_digits [] i n = fault
  integer_digits (d ∷ s) i n =
      let i' = i * 10 % 2 ^ 64 + digit_of d in
      let rest = integer_digits s i' (n + 1) in
      if is_integer d
      then (if ltb i' (2 ^ 64) then rest else err (error overflow))
      else ok (d ∷ s, i, n)

  -- The part before the point, and how many bytes it has.
  unfoldable pub integer_part : List ℕ → Outcome Error (List ℕ × ℕ × ℕ)
  integer_part [] = fault
  integer_part (d ∷ s) =
      if d == b'0'
      then (peek s >>= λ d'.
          if is_not_structural_or_whitespace_or_exponent_or_decimal d'
          then err (error invalid_number)
          else ok (s, 0, 1))
      else if not (is_integer d)
      then err (error invalid_number)
      else integer_digits s (digit_of d) 1

  -- Eight digits at once, if the feature `swar-number-parsing` is on.
  unfoldable pub eight_decimals : Bool → List ℕ → ℕ → Outcome Error (List ℕ × ℕ × ℕ)
  eight_decimals false s i = ok (s, i, 1)
  eight_decimals true s i = is_made_of_eight_digits_fast s >>= λ all_digits.
      if all_digits
      then (parse_eight_digits_unrolled s >>= λ v.
          ok (drop 8 s, (i * 100000000 % 2 ^ 64 + v) % 2 ^ 64, 9))
      else ok (s, i, 1)

  -- The part behind a point: the bytes left, the digits so far and how many of them it has.
  unfoldable pub decimal_part : Bool → List ℕ → ℕ → Outcome Error (List ℕ × ℕ × ℕ)
  decimal_part swar s i = peek s >>= λ point.
      if not (point == b'.')
      then ok (s, i, 0)
      else (peek (tail s) >>= λ d.
          if not (is_integer d)
          then err (error invalid_number)
          else (eight_decimals swar (tail (tail s)) (wrapping_digit i d) >>= λ (s₁, i₁, n).
              decimals s₁ i₁ n))

  unfoldable pub exponent_part : List ℕ → Outcome Error Exponent
  exponent_part s = peek s >>= λ e.
      if not (e == b'e' || e == b'E')
      then ok (record { rest = s; negexp = false; expnumber = 0; bytes = 0 })
      else (peek (tail s) >>= λ sign.
          let s₁ = drop (sign_bytes sign) (tail s) in
          peek s₁ >>= λ d.
          if not (is_integer d)
          then err (error invalid_number)
          else (more_exponent 2 (tail s₁) (digit_of d) 1 >>= λ (s₂, expnumber, n). peek s₂ >>= λ d'.
              if is_integer d'
              then err (error invalid_number)
              else ok (record {
                rest = s₂;
                negexp = sign == b'-';
                expnumber = expnumber;
                bytes = 1 + sign_bytes sign + n;
              })))

module _ (fl : Floats) (swar : Bool) (error : ErrorType → Error) where
  open fl use {F64, of_ℕ, ten_to, mul, neg}

  -- The exponent of ten is `plus - minus`.
  unfoldable pub scaled : ℕ → ℕ → ℕ → Bool → Outcome Error (Number F64)
  scaled i plus minus negative =
      if i == 0
      then ok (f64 (of_ℕ 0))
      else if ltb (minus + 308) plus || ltb (plus + 308) minus
      then err (error invalid_exponent)
      else (let d = mul (of_ℕ i) (ten_to (308 + plus - minus)) in
          ok (f64 (if negative then mul d (neg (of_ℕ 1)) else d)))

  -- The end of the number: `v` is the result if the byte there ends a token.
  abbrev pub finish_number : List ℕ → Number F64 → Outcome Error (Number F64)
  finish_number s v = peek s >>= λ d.
      if not (is_structural_or_whitespace d == 0) then ok v else err (error invalid_number)

  -- `buf` is read again from its start where a number is too long for the fast way. Behind the
  -- point stand `fraction` digits; `length` is `byte_count`, and `ignored` is `ignore_count`.
  unfoldable pub number_value :
      List ℕ → Bool → ℕ → ℕ → ℕ → ℕ → Exponent → Outcome Error (Number F64)
  unfolding scaled
  number_value buf negative i fraction length ignored x =
      let plus = if x.negexp then 0 else x.expnumber in
      let minus = if x.negexp then fraction + x.expnumber else fraction in
      if not (plus == minus) || not (x.expnumber == 0)
      then (if leb 19 (length - ignored)
          then parse_float fl error buf negative
          else (scaled i plus minus negative >>= finish_number x.rest))
      else if leb 18 length
      then parse_large_integer error buf negative
      else finish_number x.rest (i64 (as_i64 (if negative then wrapping_neg i else i)))

  -- What follows the part before the point, of `n` bytes.
  unfoldable pub behind_integer : List ℕ → Bool → List ℕ × ℕ × ℕ → Outcome Error (Number F64)
  behind_integer buf negative (s₁, i, n) = decimal_part error swar s₁ i >>= λ (s₂, i₂, fraction).
      exponent_part error s₂ >>= λ x.
      let point = if fraction == 0 then 0 else 1 in
      number_value buf negative i₂ fraction
        ((if negative then 1 else 0) + n + point + fraction + x.bytes) (point + x.bytes) x

  unfoldable pub parse_number_int : List ℕ → Bool → Outcome Error (Number F64)
  parse_number_int buf negative =
      integer_part error (if negative then drop 1 buf else buf) >>= behind_integer buf negative
