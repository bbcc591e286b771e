-- ===== src/Deserializer/Owned.antt =====
-- src/value/owned.rs, `OwnedDeserializer`: a value from the structural indexes and the counts. The
-- fuel is the depth of the nesting.
use simdjson_rs.Prelude.{ℕ, zero, suc, ◌&&◌, Bool, true, false, leb, ◌==◌, if◌then◌else◌}
use simdjson_rs.Error.{Error, unexpected_character, Outcome, ok, err, out_of_fuel, ◌>>=◌}
use simdjson_rs.NumberParse.{Floats, Number}
use simdjson_rs.Value.{
  Value, null, bool, string, array, object, Values, nil, cons, Map, new, insert, from_number,
}
use simdjson_rs.Deserializer.{
  Deserializer, skip, next_, count_elements, parse_str, error, parse_number, parse_number_root,
}

module _ (fl : Floats) (swar : Bool) where
  open fl use {F64}

  -- A parser of the value at the next structural index.
  abbrev pub Nested : Type 0
  Nested = Deserializer → Outcome Error (Value F64 × Deserializer)

  abbrev pub elements : Nested → ℕ → Deserializer → Outcome Error (Values F64 × Deserializer)
  elements parse zero d = ok (nil, d)
  elements parse (suc n) d = do
    (v, d₁) ← parse d
    d₂ ← skip d₁
    (vs, d₃) ← elements parse n d₂
    ok (cons v vs, d₃)

  unfoldable pub parse_array : Nested → Deserializer → Outcome Error (Value F64 × Deserializer)
  parse_array parse d = count_elements d >>= λ es.
      if es == 0
      then (skip d >>= λ d'. ok (array nil, d'))
      else (elements parse es d >>= λ (vs, d'). ok (array vs, d'))

  -- The insertions stand in reverse.
  abbrev pub members : Nested → ℕ → Deserializer → Map F64 → Outcome Error (Map F64 × Deserializer)
  members parse zero d m = ok (m, d)
  members parse (suc n) d m = do
    d₁ ← skip d
    (key, d₂) ← parse_str d₁
    d₃ ← skip d₂
    (v, d₄) ← parse d₃
    d₅ ← skip d₄
    members parse n d₅ (insert key v m)

  unfoldable pub parse_map : Nested → Deserializer → Outcome Error (Value F64 × Deserializer)
  parse_map parse d = count_elements d >>= λ es.
      if es == 0
      then (skip d >>= λ d'. ok (object new, d'))
      else (members parse es d new >>= λ (m, d'). ok (object m, d'))

  -- The match on the byte at the cursor, which `parse` and `parse_value` share.
  unfoldable pub value_at : (Deserializer → Bool → Outcome Error (Number F64)) → Nested → ℕ → Nested
  value_at number parse c d =
      if c == b'"'
      then (parse_str d >>= λ (s, d'). ok (string s, d'))
      else if c == b'n'
      then ok (null, d)
      else if c == b't'
      then ok (bool true, d)
      else if c == b'f'
      then ok (bool false, d)
      else if c == b'-'
      then (number d true >>= λ n. ok (from_number n, d))
      else if leb b'0' c && leb c b'9'
      then (number d false >>= λ n. ok (from_number n, d))
      else if c == b'['
      then parse_array parse d
      else if c == b'{'
      then parse_map parse d
      else err (error d unexpected_character)

  unfoldable pub parse_value : ℕ → Nested
  parse_value zero d = out_of_fuel
  parse_value (suc fuel) d =
      next_ d >>= λ (c, d'). value_at (parse_number fl swar) (parse_value fuel) c d'

  unfoldable pub parse : ℕ → Nested
  parse fuel d = next_ d >>= λ (c, d'). value_at (parse_number_root fl swar) (parse_value fuel) c d'
