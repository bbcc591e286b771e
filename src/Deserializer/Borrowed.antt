-- ===== src/Deserializer/Borrowed.antt =====
-- src/value/borrowed.rs, `BorrowDeserializer`. A borrowed value has the constructors of an owned one,
-- and its strings and keys are slices of the input: here it is the same type, of which the strings
-- are bytes. `parse_array` and `parse_map` are those of the owned values, over this `parse_value`.
use simdjson_rs.Prelude.{ℕ, zero, suc, Bool}
use simdjson_rs.Error.{Error, Outcome, ok, out_of_fuel, ◌>>=◌}
use simdjson_rs.NumberParse.{Floats}
use simdjson_rs.Value.{Value}
use simdjson_rs.Validate.{Input}
use simdjson_rs.Deserializer.{next_, parse_number_, parse_number_root}
use simdjson_rs.Deserializer.Owned.{Nested, value_at}
use simdjson_rs.Deserializer.FromSlice.{from_slice}

module _ (fl : Floats) (swar : Bool) where
  -- A number inside of an array or an object is read from the slice as it is.
  unfoldable pub parse_value : ℕ → Nested fl swar
  parse_value zero d = out_of_fuel
  parse_value (suc fuel) d =
      next_ d >>= λ (c, d'). value_at fl swar (parse_number_ fl swar) (parse_value fuel) c d'

  unfoldable pub parse : ℕ → Nested fl swar
  parse fuel d =
      next_ d >>= λ (c, d'). value_at fl swar (parse_number_root fl swar) (parse_value fuel) c d'

unfoldable pub to_value : (fl : Floats) → Bool → ℕ → ℕ → ℕ → Input → Outcome Error (Value fl.F64)
to_value fl swar fuel page_size buf_start input =
    from_slice page_size buf_start input >>= λ de. parse fl swar fuel de >>= λ (v, _). ok v
