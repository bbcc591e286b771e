-- ===== src/Deserializer/Quoted.antt =====
-- src/value/owned.rs and src/value/generator.rs: a string that was written is built again.
use simdjson_rs.Prelude.{
  AreBytes, ℕ, suc, ◌+◌, Bool, Option, some, List, [], ◌∷◌, ◌++◌, get_elem?, length, ◌≡◌, refl, ap,
  arith,
}
use simdjson_rs.Error.{Error, ErrorType, Outcome, ok, err, fault, out_of_fuel}
use simdjson_rs.NumberParse.{Floats}
use simdjson_rs.ParseStr.{parse_str_}
use simdjson_rs.ParseStr.Whole.{text_of}
use simdjson_rs.Value.{string}
use simdjson_rs.Deserializer.{Deserializer, skip, next_, parse_str, error}
use simdjson_rs.Deserializer.Owned.{value_at, parse_value}
use simdjson_rs.Generator.{write_string}
use simdjson_rs.Generator.Escaped.{escape_bytes}
use simdjson_rs.Generator.Writes.{write_string-escape_bytes}
use simdjson_rs.Generator.RoundTrip.{read_back}

get_elem?-front : (a : List ℕ) (c : ℕ) (b : List ℕ) → get_elem? (a ++ c ∷ b) (length a) ≡ some c
get_elem?-front [] c b = refl
get_elem?-front (x ∷ a) c b = get_elem?-front a c b

ok_text :
    (o : Outcome Error (List ℕ × List ℕ)) (error : ErrorType → Error) (s : List ℕ)
    → text_of error o ≡ ok s
    → (input : List ℕ) × (o ≡ ok (s, input))
ok_text (ok (t, input)) e s h =
    (input, ap (λ r. elim r [ ok u ↦ ok (u, input) | _ ↦ ok (t, input) ]) h)
ok_text (err x) e s h = absurd (ground arith)
ok_text fault e s h = absurd (ground arith)
ok_text out_of_fuel e s h = absurd (ground arith)

-- The cursor in front of the structural index that follows `idx`.
abbrev cursor : List ℕ → List ℕ → ℕ → List (Option ℕ) → ℕ → Deserializer
cursor input structural_indexes idx counts iidx = record {
  input = input;
  structural_indexes = structural_indexes;
  idx = idx;
  counts = counts;
  iidx = iidx;
}

-- For every text of bytes, `write_string` returns a quoted text; where the next structural index
-- is the place of that quoted text in the input, `parse_value` returns the string, and moves on by
-- one structural index.
pub parse_value-write_string :
    (fl : Floats) (swar : Bool) (fuel : ℕ) (front s rest indexes : List ℕ) (idx : ℕ)
    (counts : List (Option ℕ)) (iidx : ℕ)
    → AreBytes s
    → get_elem? indexes (idx + 1) ≡ some (length front)
    → (quoted : List ℕ) × (write_string s ≡ ok quoted)
      × ((d : Deserializer) × (parse_value fl swar
              (suc fuel)
              (cursor (front ++ (quoted ++ rest)) indexes idx counts iidx)
            ≡ ok (string s, d))
          × (d.idx ≡ idx + 1))
unfolding parse_value value_at next_ skip parse_str
parse_value-write_string fl swar fuel front s rest indexes idx counts iidx b at =
    let body = (escape_bytes s ++ b'"' ∷ []) ++ rest in
    let input = front ++ (b'"' ∷ body) in
    let here = cursor input indexes (idx + 1) counts (length front) in
    let (input', reads) =
      ok_text (parse_str_ (error here) input (length front)) (error here) s
        (read_back (error here) front s rest b) in
    (
      b'"' ∷ (escape_bytes s ++ b'"' ∷ []),
      write_string-escape_bytes s b,
      (
        cursor input' indexes (idx + 1) counts (length front),
        rw (at, get_elem?-front front b'"' body, reads) refl,
        refl,
      ),
    )
