-- ===== src/ParseStr/Escape.antt =====
-- src/lib.rs and src/stringparse.rs: how far an escape goes on, and how much it writes.
use simdjson_rs.Prelude.{
  subst, ◌/◌, ◌^◌, bit_or, ltb, ◌&&◌, get_or, get_elem?, Option, none, some, ℕ, ◌+◌, ◌-◌, ◌*◌, ◌≤◌,
  ◌<◌, List, [], ◌∷◌, drop, length, leb, ◌==◌, ◌≡◌, arith, Bool-cases, inl, inr,
}
use simdjson_rs.Error.{Error, ErrorType, Outcome, ok, err, fault, out_of_fuel, ◌>>=◌}
use simdjson_rs.ParseStr.{codepoint_result, escape_result, escape_at}
use simdjson_rs.CharUtils.{codepoint_to_utf8}
use simdjson_rs.CharUtils.Utf8.{length-codepoint_to_utf8}
use simdjson_rs.StringParse.{
  escape_map, read, read_hex, low_surrogate, high_surrogate, handle_unicode_codepoint,
}

-- How far an escape goes on, and how much it writes.
Sized : {E : Type 0} → Outcome E (List ℕ × ℕ) → Type 0
Sized (ok (bytes, n)) = (0 < n) × (length bytes ≤ n)
Sized (err e) = Unit
Sized fault = Unit
Sized out_of_fuel = Unit

Sized-bind :
    {E A : Type 0} (o : Outcome E A) (f : A → Outcome E (List ℕ × ℕ))
    → ((a : A) → Sized (f a))
    → Sized (o >>= f)
unfolding Sized
Sized-bind (ok a) f h = h a
Sized-bind (err e) f h = tt
Sized-bind fault f h = tt
Sized-bind out_of_fuel f h = tt

codepoint-Sized : (cp n : ℕ) → 4 ≤ n → Sized {E = ErrorType} (ok (codepoint_to_utf8 cp, n))
unfolding Sized
codepoint-Sized cp n h = (omega arith, grind (arith, length-codepoint_to_utf8 cp))

low_surrogate-Sized : (cp : ℕ) (s : List ℕ) → Sized (low_surrogate cp s)
unfolding low_surrogate Sized
low_surrogate-Sized cp s = Sized-bind (read_hex s 2) _ λ cp2.
    elim (Bool-cases (bit_or cp cp2 / 2 ^ 16 == 0)) [
      | inr n ↦ rw n (omega arith, omega arith)
      | inl e ↦ elim (Bool-cases (ltb cp2 0xdc00)) [
        | inl l ↦ rw (e, l) tt
        | inr l ↦
            rw (e, l)
              (codepoint-Sized (bit_or ((cp - 0xd800) * 2 ^ 10) (cp2 - 0xdc00) + 0x10000) 12
                (omega arith))
      ]
    ]

high_surrogate-Sized : (cp : ℕ) (s : List ℕ) → Sized (high_surrogate cp s)
unfolding high_surrogate Sized
high_surrogate-Sized cp s = Sized-bind (read s 0) _ λ b0. elim (Bool-cases (b0 == 0x5c)) [
  | inr n ↦ rw n (omega arith, omega arith)
  | inl e ↦ rw e (
      Sized-bind (read s 1) _ λ b1. elim (Bool-cases (b1 == b'u')) [
        | inl l ↦ rw l (low_surrogate-Sized cp s)
        | inr l ↦ rw l (omega arith, omega arith)
      ])
]

handle_unicode_codepoint-Sized : (s : List ℕ) → Sized (handle_unicode_codepoint s)
unfolding handle_unicode_codepoint
handle_unicode_codepoint-Sized s = Sized-bind (read_hex s 2) _ λ cp.
    elim (Bool-cases (leb 0xd800 cp && ltb cp 0xdc00)) [
      | inl e ↦ rw e (high_surrogate-Sized cp (drop 6 s))
      | inr n ↦ rw n (codepoint-Sized cp 6 (omega arith))
    ]

module _ (error : ErrorType → Error) where
  codepoint_result-Sized :
      (o : Outcome ErrorType (List ℕ × ℕ)) → Sized o → Sized (codepoint_result error o)
  unfolding Sized
  codepoint_result-Sized (ok ([], n)) h = tt
  codepoint_result-Sized (ok (b ∷ bytes, n)) h = h
  codepoint_result-Sized (err e) h = tt
  codepoint_result-Sized fault h = tt
  codepoint_result-Sized out_of_fuel h = tt

  escape_result-Sized : (s : List ℕ) (o : Option ℕ) → Sized (escape_result error s o)
  unfolding Sized
  escape_result-Sized s none = tt
  escape_result-Sized s (some c) = elim (Bool-cases (c == b'u')) [
    | inl e ↦
        rw e
          (codepoint_result-Sized (handle_unicode_codepoint s) (handle_unicode_codepoint-Sized s))
    | inr n ↦ elim (Bool-cases (get_or escape_map c 0 == 0)) [
      | inl e ↦ rw (n, e) tt
      | inr m ↦ rw (n, m) (omega arith, omega arith)
    ]
  ]

  -- An escape that is accepted moves the source on by at least one byte and writes no more bytes
  -- than it moves on, so that the text of a string fits over the string and the loop ends.
  pub escape_at-size :
      (s bytes : List ℕ) (n : ℕ) → escape_at error s ≡ ok (bytes, n) → (0 < n) × (length bytes ≤ n)
  unfolding escape_at Sized
  escape_at-size s bytes n h = subst Sized h (escape_result-Sized s (get_elem? s 1))
