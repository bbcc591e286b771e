-- ===== src/Deserializer/FromSlice.antt =====
-- src/lib.rs, `Deserializer::from_slice`: stage 1, then `validate`. `page_size` is what
-- `page_size::get()` returns, and `buf_start` the address of the input.
use simdjson_rs.Prelude.{
  ℕ, ◌+◌, ◌%◌, ◌≤◌, ◌^◌, Bool, true, false, ◌&&◌, not, List, [], ◌∷◌, ◌++◌, take, length, ltb, ◌==◌,
  if◌then◌else◌, ◌≡◌, ◌↔◌, Option, refl, sym, ap, ◌∙◌, arith, AreBytes,
}
use simdjson_rs.Error.{
  Error, syntax, eof, invalid_utf8, ErrorType, generic, Outcome, ok, err, fault, out_of_fuel, ◌>>=◌,
  is_ok,
}
use simdjson_rs.Validate.{Input, validate}
use simdjson_rs.Validate.Simulation.{Inside}
use simdjson_rs.Validate.Parses.{IsDocument, validate_iff}
use simdjson_rs.Stage1.{find_structural_bits}
use simdjson_rs.Stage1.Scanner.{context_behind, tokens_at, has_forbidden, outset}
use simdjson_rs.Stage1.Flatten.{positions}
use simdjson_rs.Stage1.Loop.{indexes, length-tokens_at}
use simdjson_rs.Stage1.Whole.{
  structural_bits, AreBelow, positions-AreBelow, find_structural_bits-structural_bits,
}
use simdjson_rs.NumberParse.{Floats}
use simdjson_rs.Value.{Value}
use simdjson_rs.Stage1.Utf8.{accepts_utf8}
use simdjson_rs.Deserializer.{Deserializer, padding_size}
use simdjson_rs.Deserializer.Owned.{parse}

-- The error of stage 1 as that of a call of `from_slice`.
abbrev pub generic_error {ℓ} : {A : Type ℓ} → Outcome ErrorType A → Outcome Error A
generic_error (ok a) = ok a
generic_error (err t) = err (generic t)
generic_error fault = fault
generic_error out_of_fuel = out_of_fuel

-- The copy with a 0 behind it, which is cut off again.
abbrev pub relocated : List ℕ → List ℕ
relocated bytes = take (length bytes) (bytes ++ 0 ∷ [])

unfoldable pub from_slice : ℕ → ℕ → Input → Outcome Error Deserializer
from_slice page_size buf_start input =
    let needs_relocation = ltb ((buf_start + length input.bytes) % page_size) padding_size in
    let «data» = if needs_relocation then relocated input.bytes else input.bytes in
    generic_error (find_structural_bits «data») >>= λ structural_indexes.
    validate input structural_indexes >>= λ counts. ok (record {
      input = input.bytes;
      structural_indexes = structural_indexes;
      idx = 0;
      counts = counts;
      iidx = 0;
    })

take-front : (a b : List ℕ) → take (length a) (a ++ b) ≡ a
take-front [] b = refl
take-front (c ∷ a) b = ap (λ r. c ∷ r) (take-front a b)

choose : (b : Bool) (bytes : List ℕ) → (if b then relocated bytes else bytes) ≡ bytes
choose true bytes = take-front bytes (0 ∷ [])
choose false bytes = refl

-- The places where the tokens of the input begin.
abbrev pub token_places : Input → List ℕ
token_places input = positions 0 (tokens_at outset input.bytes)

-- What stage 1 asks of the input: no open string at the end, no control character in a string, and
-- UTF-8.
abbrev pub is_scannable : List ℕ → Bool
is_scannable bytes =
    not (context_behind outset bytes).inside
    && not (has_forbidden outset bytes)
    && accepts_utf8 bytes

below-Inside : (input : Input) (s : List ℕ) → AreBelow (length input.bytes) s → Inside input s
below-Inside input [] b = tt
below-Inside input (p ∷ s) (h, b) = (h, below-Inside input s b)

pub token_places-Inside : (input : Input) → Inside input (token_places input)
token_places-Inside input = below-Inside input (token_places input) (
    positions-AreBelow _ 0 (tokens_at outset input.bytes)
      (omega (arith, length-tokens_at outset input.bytes)))

abbrev pub built : Input → List ℕ → List (Option ℕ) → Deserializer
built input structural_indexes counts = record {
  input = input.bytes;
  structural_indexes = structural_indexes;
  idx = 0;
  counts = counts;
  iidx = 0;
}

-- The verdict of stage 1 in front of what follows it.
module _ {ℓ} {A : Type ℓ} (s : List ℕ) (rest : List ℕ → Outcome Error A) where
  abbrev pub chosen : Bool → Bool → Bool → Bool → Outcome Error A
  chosen inside none_found forbidden valid =
      generic_error (
        if inside
        then err syntax
        else if none_found
        then err eof
        else if forbidden
        then err syntax
        else if valid
        then ok s
        else err invalid_utf8)
      >>= rest

  is_ok-chosen :
      (inside none_found forbidden valid : Bool)
      → is_ok (chosen inside none_found forbidden valid)
        ≡ (not none_found && ((not inside && not forbidden && valid) && is_ok (rest s)))
  is_ok-chosen true true _ _ = refl
  is_ok-chosen true false _ _ = refl
  is_ok-chosen false true _ _ = refl
  is_ok-chosen false false true _ = refl
  is_ok-chosen false false false true = refl
  is_ok-chosen false false false false = refl

module _ {ℓ κ} {A : Type ℓ} {B : Type κ} (f : A → B) where
  is_ok-map : (o : Outcome Error A) → is_ok (o >>= λ a. ok (f a)) ≡ is_ok o
  is_ok-map (ok a) = refl
  is_ok-map (err e) = refl
  is_ok-map fault = refl
  is_ok-map out_of_fuel = refl

both : (a b : Bool) → (a && b) ≡ true → (a ≡ true) × (b ≡ true)
both true b h = (refl, h)
both false b h = cc

found : (input : Input) (s : List ℕ) → IsDocument input s → (length (0 ∷ s) == 1) ≡ false
found input [] d = absurd d
found input (p ∷ r) d = ground arith

module _ (page_size buf_start : ℕ) (input : Input) (bytes : AreBytes input.bytes)
    (l : length input.bytes + 64 ≤ 2 ^ 32) (behind : 8 ≤ length input.behind) where
  abbrev pub validated : List ℕ → Outcome Error Deserializer
  validated s = validate input s >>= λ counts. ok (built input s counts)

  pub from_slice-chosen :
      from_slice page_size buf_start input
      ≡ chosen
          (indexes input.bytes)
          validated
          (context_behind outset input.bytes).inside
          (length (indexes input.bytes) == 1)
          (has_forbidden outset input.bytes)
          (accepts_utf8 input.bytes)
  unfolding from_slice structural_bits
  from_slice-chosen =
      rw
        (
          choose (ltb ((buf_start + length input.bytes) % page_size) padding_size) input.bytes,
          find_structural_bits-structural_bits input.bytes bytes l,
        )
        refl

  is_ok-from_slice : is_ok (from_slice page_size buf_start input) ≡ (
      not (length (indexes input.bytes) == 1)
      && (is_scannable input.bytes && is_ok (validate input (indexes input.bytes))))
  is_ok-from_slice =
      ap is_ok from_slice-chosen
      ∙ (is_ok-chosen (indexes input.bytes) validated (context_behind outset input.bytes).inside
            (length (indexes input.bytes) == 1) (has_forbidden outset input.bytes)
            (accepts_utf8 input.bytes)
          ∙ ap (λ b. not (length (indexes input.bytes) == 1) && (is_scannable input.bytes && b))
              (is_ok-map (built input (indexes input.bytes))
                (validate input (indexes input.bytes))))

  -- For an input of at most 2^32 - 64 bytes with eight readable bytes behind it, whatever its
  -- address and the size of a page, `from_slice` succeeds exactly if no string is open at the end,
  -- no control character is in a string, the input is UTF-8 up to a character that is cut off at
  -- the end of a whole block, and the tokens of the input are one JSON value and nothing else; a
  -- number is judged by its first byte here.
  pub from_slice_iff :
      (is_ok (from_slice page_size buf_start input) ≡ true)
      ↔ ((is_scannable input.bytes ≡ true) × IsDocument input (token_places input))
  from_slice_iff =
      let document = validate_iff input (indexes input.bytes) behind (token_places-Inside input) in
      (
        λ h.
            let (_, b) = both _ _ (sym is_ok-from_slice ∙ h) in
            let (scans, valid) = both _ _ b in (scans, document.0 valid),
        λ (scans, d).
            is_ok-from_slice ∙ rw (found input (token_places input) d, scans, document.1 d) refl,
      )

-- `to_value` of src/value/owned.rs, of which the fuel is the depth of the nesting.
unfoldable pub to_value : (fl : Floats) → Bool → ℕ → ℕ → ℕ → Input → Outcome Error (Value fl.F64)
to_value fl swar fuel page_size buf_start input =
    from_slice page_size buf_start input >>= λ de. parse fl swar fuel de >>= λ (v, _). ok v
