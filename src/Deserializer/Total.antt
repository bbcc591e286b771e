-- ===== src/Deserializer/Total.antt =====
-- src/value/owned.rs, `to_value`: both stages and the builder end.
use simdjson_rs.Prelude.{
  AreBytes, ℕ, suc, ◌+◌, ◌≤◌, ◌^◌, Bool, true, false, Option, List, length, ◌==◌, sym, subst, arith,
}
use simdjson_rs.Error.{Error, Outcome, ok, err, fault, out_of_fuel, ◌>>=◌, Returns}
use simdjson_rs.Error.Settles.{Settles}
use simdjson_rs.NumberParse.{Floats}
use simdjson_rs.Validate.{Input, validate}
use simdjson_rs.Validate.Refinement.{validate-Returns}
use simdjson_rs.Stage1.Scanner.{context_behind, tokens_at, has_forbidden, outset}
use simdjson_rs.Stage1.Flatten.{positions-at_most}
use simdjson_rs.Stage1.Loop.{indexes, length-tokens_at}
use simdjson_rs.Stage1.Utf8.{accepts_utf8}
use simdjson_rs.Deserializer.{Deserializer}
use simdjson_rs.Deserializer.Owned.{parse}
use simdjson_rs.Deserializer.Borrowed
use simdjson_rs.Deserializer.FromSlice.{
  from_slice, chosen, validated, built, from_slice-chosen, token_places-Inside, to_value,
}
use simdjson_rs.Deserializer.Ends.{Keeps, with_value, with_error, Keeps-bind, Settles-Keeps, left}
use simdjson_rs.Deserializer.Values.{parse-Keeps, borrowed-Keeps}

module _ (page_size buf_start : ℕ) (input : Input) (bytes : AreBytes input.bytes)
    (l : length input.bytes + 64 ≤ 2 ^ 32) (behind : 8 ≤ length input.behind) where
  -- As many structural indexes as bytes, and the extra one.
  abbrev IsShort : Deserializer → Type 0
  IsShort d = left d ≤ suc (length input.bytes)

  built_lem :
      (o : Outcome Error (List (Option ℕ)))
      → Returns o
      → Keeps IsShort (o >>= λ counts. ok (built input (indexes input.bytes) counts))
  unfolding left
  built_lem (ok counts) r = with_value (
      omega (
        arith,
        positions-at_most 0 (tokens_at outset input.bytes),
        length-tokens_at outset input.bytes,
      ))
  built_lem (err e) r = with_error
  built_lem fault r = absurd r
  built_lem out_of_fuel r = absurd r

  chosen-Keeps :
      (s : List ℕ) (a b c d : Bool)
      → Keeps IsShort (validated page_size buf_start input bytes l behind s)
      → Keeps IsShort (chosen s (validated page_size buf_start input bytes l behind) a b c d)
  chosen-Keeps s true b c d h = with_error
  chosen-Keeps s false true c d h = with_error
  chosen-Keeps s false false true d h = with_error
  chosen-Keeps s false false false true h = h
  chosen-Keeps s false false false false h = with_error

  from_slice-Keeps : Keeps IsShort (from_slice page_size buf_start input)
  from_slice-Keeps =
      subst (Keeps IsShort) (sym (from_slice-chosen page_size buf_start input bytes l behind)) (
        chosen-Keeps (indexes input.bytes) (context_behind outset input.bytes).inside
          (length (indexes input.bytes) == 1) (has_forbidden outset input.bytes)
          (accepts_utf8 input.bytes)
          (built_lem (validate input (indexes input.bytes))
            (validate-Returns input (indexes input.bytes) behind (token_places-Inside input))))

  run-Settles :
      {A : Type 0} (run : Deserializer → Outcome Error (A × Deserializer))
      → ((d : Deserializer) → IsShort d → Keeps (λ p. left p.1 ≤ left d) (run d))
      → Settles (from_slice page_size buf_start input >>= λ d. run d >>= λ (v, _). ok v)
  run-Settles run keeps = Settles-Keeps (
      Keeps-bind {Q = IsShort} {R = λ _. Unit} (from_slice page_size buf_start input)
        from_slice-Keeps λ d short. Keeps-bind (run d) (keeps d short) λ (v, _) _. with_value tt)

  -- For an input of at most 2^32 - 64 bytes with eight readable bytes behind it, and as much fuel
  -- as one more than its bytes, `to_value` of the owned values and that of the borrowed ones end
  -- with a value, an error or a fault, whatever the operations on floats: both stages, the loops
  -- over strings and numbers, and the builders, which take a structural index for each depth.
  pub to_value-Settles :
      (fl : Floats) (swar : Bool) (fuel : ℕ)
      → length input.bytes + 1 ≤ fuel
      → Settles (to_value fl swar fuel page_size buf_start input)
        × Settles (Borrowed.to_value fl swar fuel page_size buf_start input)
  unfolding to_value Borrowed.to_value
  to_value-Settles fl swar fuel h = (
    run-Settles (parse fl swar fuel) λ d short. parse-Keeps fl swar fuel d (omega arith),
    run-Settles (Borrowed.parse fl swar fuel)
        λ d short. borrowed-Keeps fl swar fuel d (omega arith),
  )
