-- ===== src/Deserializer/Values.antt =====
-- src/value/owned.rs and src/value/borrowed.rs: with as much fuel as structural indexes, a value is built,
-- or an error or a fault ends the run.
use simdjson_rs.Prelude.{
  ℕ, zero, suc, ◌<◌, ◌≤◌, ◌&&◌, Bool, true, false, drop, length, leb, ltb, ◌==◌, arith,
}
use simdjson_rs.Error.{Error, Outcome}
use simdjson_rs.NumberParse.{Floats, Number}
use simdjson_rs.NumberParse.Ends.{parse_number_int-Settles}
use simdjson_rs.Value.{Map, insert, new}
use simdjson_rs.Deserializer.{
  Deserializer, parse_number_, skip, next_, count_elements, parse_str, error, parse_number,
  parse_number_root, padding_size,
}
use simdjson_rs.Deserializer.Borrowed
use simdjson_rs.Deserializer.Owned.{
  Nested, elements, parse_array, members, parse_map, value_at, parse_value, parse,
}
use simdjson_rs.Deserializer.Ends.{
  Keeps, with_value, with_error, Keeps-bind, Keeps-if, Keeps-Settles, left, weaken, skip-Keeps,
  next_-Keeps, count_elements-Keeps, parse_str-Keeps,
}

module _ (fl : Floats) (swar : Bool) where
  open fl use {F64}

  number-Keeps :
      (d : Deserializer) (minus : Bool) → Keeps (λ _. Unit) (parse_number fl swar d minus)
  unfolding parse_number
  number-Keeps d minus =
      Keeps-if (ltb (length (drop d.iidx d.input)) padding_size)
        (Keeps-Settles _ (parse_number_int-Settles fl swar (error d) _ minus))
        (Keeps-Settles _ (parse_number_int-Settles fl swar (error d) _ minus))

  root-Keeps :
      (d : Deserializer) (minus : Bool) → Keeps (λ _. Unit) (parse_number_root fl swar d minus)
  unfolding parse_number_root
  root-Keeps d minus = Keeps-Settles _ (parse_number_int-Settles fl swar (error d) _ minus)

  -- A parser for the cursors with less than `k` structural indexes left.
  abbrev Parses : ℕ → Nested fl swar → Type 0
  Parses k parser = (d : Deserializer) → left d < k → Keeps (λ p. left p.1 ≤ left d) (parser d)

  module _ (k : ℕ) (parser : Nested fl swar) (parses : Parses k parser) where
    elements-Keeps :
        (n : ℕ) (d : Deserializer)
        → left d < k
        → Keeps (λ p. left p.1 ≤ left d) (elements fl swar parser n d)
    elements-Keeps zero d h = with_value (omega arith)
    elements-Keeps (suc n) d h = Keeps-bind (parser d) (parses d h) λ (v, d₁) h₁.
        Keeps-bind (skip d₁) (skip-Keeps d₁) λ d₂ h₂.
          Keeps-bind (elements fl swar parser n d₂) (elements-Keeps n d₂ (omega arith))
            λ (vs, d₃) h₃. with_value (omega arith)

    parse_array-Keeps :
        (d : Deserializer)
        → left d < k
        → Keeps (λ p. left p.1 ≤ left d) (parse_array fl swar parser d)
    unfolding parse_array
    parse_array-Keeps d h = Keeps-bind (count_elements d) (count_elements-Keeps d) λ es _.
        Keeps-if (es == 0) (Keeps-bind (skip d) (skip-Keeps d) λ d' h'. with_value (omega arith)) (
          Keeps-bind (elements fl swar parser es d) (elements-Keeps es d h)
            λ (vs, d') h'. with_value h')

    members-Keeps :
        (n : ℕ) (d : Deserializer) (m : Map F64)
        → left d < k
        → Keeps (λ p. left p.1 ≤ left d) (members fl swar parser n d m)
    members-Keeps zero d m h = with_value (omega arith)
    members-Keeps (suc n) d m h = Keeps-bind (skip d) (skip-Keeps d) λ d₁ h₁.
        Keeps-bind (parse_str d₁) (parse_str-Keeps d₁) λ (key, d₂) h₂.
          Keeps-bind (skip d₂) (skip-Keeps d₂) λ d₃ h₃.
            Keeps-bind (parser d₃) (parses d₃ (omega arith)) λ (v, d₄) h₄.
              Keeps-bind (skip d₄) (skip-Keeps d₄) λ d₅ h₅.
                weaken (left d₅) (left d) (omega arith)
                  (members-Keeps n d₅ (insert key v m) (omega arith))

    parse_map-Keeps :
        (d : Deserializer)
        → left d < k
        → Keeps (λ p. left p.1 ≤ left d) (parse_map fl swar parser d)
    unfolding parse_map
    parse_map-Keeps d h = Keeps-bind (count_elements d) (count_elements-Keeps d) λ es _.
        Keeps-if (es == 0) (Keeps-bind (skip d) (skip-Keeps d) λ d' h'. with_value (omega arith)) (
          Keeps-bind (members fl swar parser es d new) (members-Keeps es d new h)
            λ (m, d') h'. with_value h')

    value_at-Keeps :
        (number : Deserializer → Bool → Outcome Error (Number F64))
        → ((d : Deserializer) (minus : Bool) → Keeps (λ _. Unit) (number d minus))
        → (c : ℕ) (d : Deserializer) → left d < k
        → Keeps (λ p. left p.1 ≤ left d) (value_at fl swar number parser c d)
    unfolding value_at
    value_at-Keeps number keeps c d h =
        Keeps-if (c == b'"')
          (Keeps-bind (parse_str d) (parse_str-Keeps d) λ (s, d') h'. with_value h')
          (Keeps-if (c == b'n') (with_value (omega arith)) (
            Keeps-if (c == b't') (with_value (omega arith)) (
              Keeps-if (c == b'f') (with_value (omega arith)) (
                Keeps-if (c == b'-')
                  (Keeps-bind (number d true) (keeps d true) λ _ _. with_value (omega arith))
                  (Keeps-if (leb b'0' c && leb c b'9')
                    (Keeps-bind (number d false) (keeps d false) λ _ _. with_value (omega arith))
                    (Keeps-if (c == b'[') (parse_array-Keeps d h)
                      (Keeps-if (c == b'{') (parse_map-Keeps d h) with_error)))))))

  parse_value-Keeps : (fuel : ℕ) → Parses fuel (parse_value fl swar fuel)
  unfolding parse_value
  parse_value-Keeps zero d h = absurd (omega arith)
  parse_value-Keeps (suc fuel) d h = Keeps-bind (next_ d) (next_-Keeps d) λ (c, d') h'.
      weaken (left d') (left d) (omega arith) (
        value_at-Keeps fuel (parse_value fl swar fuel) (parse_value-Keeps fuel)
          (parse_number fl swar) number-Keeps c d' (omega arith))

  pub parse-Keeps :
      (fuel : ℕ) (d : Deserializer)
      → left d ≤ fuel
      → Keeps (λ p. left p.1 ≤ left d) (parse fl swar fuel d)
  unfolding parse
  parse-Keeps fuel d h = Keeps-bind (next_ d) (next_-Keeps d) λ (c, d') h'.
      weaken (left d') (left d) (omega arith) (
        value_at-Keeps fuel (parse_value fl swar fuel) (parse_value-Keeps fuel)
          (parse_number_root fl swar) root-Keeps c d' (omega arith))

  unpadded-Keeps :
      (d : Deserializer) (minus : Bool) → Keeps (λ _. Unit) (parse_number_ fl swar d minus)
  unfolding parse_number_
  unpadded-Keeps d minus = Keeps-Settles _ (parse_number_int-Settles fl swar (error d) _ minus)

  borrowed_value-Keeps : (fuel : ℕ) → Parses fuel (Borrowed.parse_value fl swar fuel)
  unfolding Borrowed.parse_value
  borrowed_value-Keeps zero d h = absurd (omega arith)
  borrowed_value-Keeps (suc fuel) d h = Keeps-bind (next_ d) (next_-Keeps d) λ (c, d') h'.
      weaken (left d') (left d) (omega arith) (
        value_at-Keeps fuel (Borrowed.parse_value fl swar fuel) (borrowed_value-Keeps fuel)
          (parse_number_ fl swar) unpadded-Keeps c d' (omega arith))

  pub borrowed-Keeps :
      (fuel : ℕ) (d : Deserializer)
      → left d ≤ fuel
      → Keeps (λ p. left p.1 ≤ left d) (Borrowed.parse fl swar fuel d)
  unfolding Borrowed.parse
  borrowed-Keeps fuel d h = Keeps-bind (next_ d) (next_-Keeps d) λ (c, d') h'.
      weaken (left d') (left d) (omega arith) (
        value_at-Keeps fuel (Borrowed.parse_value fl swar fuel) (borrowed_value-Keeps fuel)
          (parse_number_root fl swar) root-Keeps c d' (omega arith))
