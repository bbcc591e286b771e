-- ===== src/ParseStr/Ends.antt =====
-- src/lib.rs, `Deserializer::parse_str_`: its loops end on every source.
use simdjson_rs.Prelude.{
  ℕ, zero, suc, ◌+◌, ◌<◌, ◌≤◌, ◌/◌, ◌^◌, bit_or, not, ◌&&◌, Option, none, some, List, [], ◌∷◌, ◌++◌,
  take, drop, get_elem?, get_or, length, length-drop, replicate, leb, ltb, ◌==◌, ◌≡◌, arith, inl,
  inr, refl, Bool-cases,
}
use simdjson_rs.Error.{Error, ErrorType, Outcome, ok, err, fault, out_of_fuel, ◌>>=◌}
use simdjson_rs.Error.Settles.{Settles, has_value, has_error, has_fault, Settles-then, Settles-if}
use simdjson_rs.StringParse.{
  escape_map, read, read_hex, low_surrogate, high_surrogate, handle_unicode_codepoint,
}
use simdjson_rs.ParseStr.{
  Special, at_quote, at_backslash, nothing, find_special, load_chunk, Plain, closed, escaped,
  plain_loop, codepoint_result, escape_result, escape_at, escaped_loop, string_text, parse_str_,
}
use simdjson_rs.ParseStr.Escape.{escape_at-size}

read-Settles : (s : List ℕ) (i : ℕ) → Settles (read s i)
read-Settles s i = byte (get_elem? s i)
  where
    byte : (o : Option ℕ) → Settles {E = ErrorType} (elim o [ none ↦ fault | some b ↦ ok b ])
    byte none = has_fault
    byte (some b) = has_value

read_hex-Settles : (s : List ℕ) (i : ℕ) → Settles (read_hex s i)
unfolding read_hex
read_hex-Settles s i = Settles-then (read s i) (read-Settles s i) λ a _.
    Settles-then (read s (i + 1)) (read-Settles s (i + 1)) λ b _.
      Settles-then (read s (i + 2)) (read-Settles s (i + 2))
        λ c _. Settles-then (read s (i + 3)) (read-Settles s (i + 3)) λ d _. has_value

low_surrogate-Settles : (cp : ℕ) (s : List ℕ) → Settles (low_surrogate cp s)
unfolding low_surrogate
low_surrogate-Settles cp s = Settles-then (read_hex s 2) (read_hex-Settles s 2) λ cp2 _.
    Settles-if (not (bit_or cp cp2 / 2 ^ 16 == 0)) has_value
      (Settles-if (ltb cp2 0xdc00) has_error has_value)

high_surrogate-Settles : (cp : ℕ) (s : List ℕ) → Settles (high_surrogate cp s)
unfolding high_surrogate
high_surrogate-Settles cp s = Settles-then (read s 0) (read-Settles s 0) λ b0 _.
    Settles-if (not (b0 == 0x5c)) has_value (
      Settles-then (read s 1) (read-Settles s 1)
        λ b1 _. Settles-if (not (b1 == b'u')) has_value (low_surrogate-Settles cp s))

codepoint-Settles : (s : List ℕ) → Settles (handle_unicode_codepoint s)
unfolding handle_unicode_codepoint
codepoint-Settles s = Settles-then (read_hex s 2) (read_hex-Settles s 2) λ cp _.
    Settles-if (leb 0xd800 cp && ltb cp 0xdc00) (high_surrogate-Settles cp (drop 6 s)) has_value

module _ (error : ErrorType → Error) where
  result-Settles :
      (o : Outcome ErrorType (List ℕ × ℕ)) → Settles o → Settles (codepoint_result error o)
  result-Settles (ok ([], n)) h = has_error
  result-Settles (ok (b ∷ bytes, n)) h = has_value
  result-Settles (err e) h = has_error
  result-Settles fault h = has_fault
  result-Settles out_of_fuel h = elim h [ ]

  escape_result-Settles : (s : List ℕ) (o : Option ℕ) → Settles (escape_result error s o)
  escape_result-Settles s none = has_fault
  escape_result-Settles s (some c) =
      Settles-if (c == b'u') (result-Settles (handle_unicode_codepoint s) (codepoint-Settles s))
        (Settles-if (get_or escape_map c 0 == 0) has_error has_value)

  escape_at-Settles : (s : List ℕ) → Settles (escape_at error s)
  unfolding escape_at
  escape_at-Settles s = escape_result-Settles s (get_elem? s 1)

  escaped_loop-Settles :
      (fuel : ℕ) (padding s dst : List ℕ)
      → length s < fuel
      → Settles (escaped_loop error fuel padding s dst)
  unfolding escaped_loop
  escaped_loop-Settles zero padding s dst h = absurd (omega arith)
  escaped_loop-Settles (suc fuel) padding s dst h =
      let v = (load_chunk padding s).0 in
      let padding' = (load_chunk padding s).1 in
      let step : (sp : Special)
          → find_special v ≡ sp
          → Settles (escaped_loop error (suc fuel) padding s dst) =
        elim [
          | at_quote k ↦ λ e. elim (Bool-cases (leb k (length s))) [
            | inl t ↦ rw (escaped_loop, e, t) has_value
            | inr n ↦ rw (escaped_loop, e, n) has_fault
          ]
          | at_backslash k ↦ λ e. elim (Bool-cases (leb k (length s))) [
            | inr n ↦ rw (escaped_loop, e, n) has_fault
            | inl t ↦
                let s' = drop k s in
                rw (escaped_loop, e, t)
                  (Settles-then (escape_at error s') (escape_at-Settles s') λ (bytes, n) same.
                    elim (Bool-cases (leb n (length s'))) [
                      | inr l ↦ rw l has_fault
                      | inl l ↦
                          let (more, _) = escape_at-size error s' bytes n same in
                          rw l (
                            escaped_loop-Settles fuel padding' (drop n s')
                              (dst ++ (take k v ++ bytes))
                              (ground (arith, length-drop k s, length-drop n s')))
                    ])
          ]
          | nothing ↦ λ e. elim (Bool-cases (leb 32 (length s))) [
            | inr n ↦ rw (escaped_loop, e, n) has_fault
            | inl t ↦
                rw (escaped_loop, e, t)
                  (escaped_loop-Settles fuel padding' (drop 32 s) (dst ++ take 32 v)
                    (ground (arith, length-drop 32 s)))
          ]
        ] in
      step (find_special v) refl

-- The first loop ends, and leaves no more than `n` bytes to the second.
Shrinks : ℕ → Outcome Error Plain → Type 0
Shrinks n (ok (closed len)) = Unit
Shrinks n (ok (escaped len s padding)) = length s ≤ n
Shrinks n (err e) = Unit
Shrinks n fault = Unit
Shrinks n out_of_fuel = ⊥

Shrinks-more : (n m : ℕ) → n ≤ m → (o : Outcome Error Plain) → Shrinks n o → Shrinks m o
unfolding Shrinks
Shrinks-more n m h (ok (closed len)) k = tt
Shrinks-more n m h (ok (escaped len s padding)) k = omega arith
Shrinks-more n m h (err e) k = tt
Shrinks-more n m h fault k = tt
Shrinks-more n m h out_of_fuel k = k

plain_loop-Shrinks :
    (fuel : ℕ) (padding s : List ℕ) (len : ℕ)
    → length s < fuel
    → Shrinks (length s) (plain_loop fuel padding s len)
unfolding plain_loop Shrinks
plain_loop-Shrinks zero padding s len h = absurd (omega arith)
plain_loop-Shrinks (suc fuel) padding s len h =
    let v = (load_chunk padding s).0 in
    let padding' = (load_chunk padding s).1 in
    let step : (sp : Special)
        → find_special v ≡ sp
        → Shrinks (length s) (plain_loop (suc fuel) padding s len) =
      elim [
        | at_quote k ↦ λ e. elim (Bool-cases (leb k (length s))) [
          | inl t ↦ rw (plain_loop, e, t) tt
          | inr n ↦ rw (plain_loop, e, n) tt
        ]
        | at_backslash k ↦ λ e. elim (Bool-cases (leb k (length s))) [
          | inl t ↦ rw (plain_loop, e, t) (omega (arith, length-drop k s))
          | inr n ↦ rw (plain_loop, e, n) tt
        ]
        | nothing ↦ λ e. elim (Bool-cases (leb 32 (length s))) [
          | inr n ↦ rw (plain_loop, e, n) tt
          | inl t ↦
              rw (plain_loop, e, t)
                (Shrinks-more (length (drop 32 s)) (length s) (omega (arith, length-drop 32 s)) _ (
                  plain_loop-Shrinks fuel padding' (drop 32 s) (len + 32)
                    (ground (arith, length-drop 32 s))))
        ]
      ] in
    step (find_special v) refl

module _ (error : ErrorType → Error) (fuel : ℕ) (input : List ℕ) (idx n : ℕ)
    (enough : n < fuel) where
  -- What is left to the second loop is within its fuel.
  string_text-Settles :
      (o : Outcome Error Plain) → Shrinks n o → Settles (o >>= string_text error fuel input idx)
  unfolding string_text Shrinks
  string_text-Settles (ok (closed len)) h = has_value
  string_text-Settles (ok (escaped len s padding)) h =
      Settles-then (escaped_loop error fuel padding s [])
        (escaped_loop-Settles error fuel padding s [] (omega arith)) λ dst _. has_value
  string_text-Settles (err e) h = has_error
  string_text-Settles fault h = has_fault
  string_text-Settles out_of_fuel h = absurd h

pub parse_str_-Settles :
    (error : ErrorType → Error) (input : List ℕ) (iidx : ℕ) → Settles (parse_str_ error input iidx)
unfolding parse_str_
parse_str_-Settles error input iidx =
    let src = drop (iidx + 1) input in
    string_text-Settles error (suc (length src)) input (iidx + 1) (length src) (omega arith)
      (plain_loop (suc (length src)) (replicate 32 0) src 0)
      (plain_loop-Shrinks (suc (length src)) (replicate 32 0) src 0 (omega arith))
