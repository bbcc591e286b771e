-- ===== src/Tests/SerializeTests.antt =====
-- The printers of src/value/owned/serialize.rs at a concrete value, and into a buffer that is full at
-- some time.
use simdjson_rs.Prelude.{
  ℕ, zero, suc, ◌+◌, ◌%◌, ◌==◌, Bool, true, false, List, [], ◌∷◌, ◌++◌, codes, ◌≡◌, refl, arith,
  sym, ap, ◌∙◌, append_assoc, append-nil,
}
use simdjson_rs.Error.{ok}
use simdjson_rs.NumberParse.{ℤ, pos, negsuc}
use simdjson_rs.Value.{Value, int, float, string, array, object, cons, nil, insert, new}
use simdjson_rs.Generator.Generators.{Io, done, failed, stuck, Write, Takes}
use simdjson_rs.Generator.{quote_bits}
use simdjson_rs.Generator.Strings.{write_string, blocks, remainder_loop}
use simdjson_rs.Generator.WriterGenerator
use simdjson_rs.Serialize.{
  Texts, to_string, to_string_pp, write, write_pp, write_json, write_array, write_object,
}
use simdjson_rs.Serialize.Layout.{
  compact, indented, text, Fits, behind, bracketed, item_texts, entry_texts,
}
use simdjson_rs.Serialize.Printers.{Delivers, write_json-text}
use simdjson_rs.Serialize.Minify.{is_space, outside, minify}
use simdjson_rs.Serialize.Minified.{PlainNumbers, IsPlain, minify-to_string_pp}
use simdjson_rs.Generator.Escaped.{escape_bytes}

-- One digit of a number, and a map that is listed as it was filled.
abbrev last_digit : ℤ → List ℕ
last_digit (pos n) = (b'0' + n % 10) ∷ []
last_digit (negsuc n) = b'-' ∷ (b'0' + (n + 1) % 10) ∷ []

abbrev texts : Texts ℕ
texts = record { iter = λ m. m; itoa = last_digit; ryu = λ x. last_digit (pos x) ++ codes ".5" }

digit_plain : (n : ℕ) → (is_space (b'0' + n % 10) ≡ false) × (((b'0' + n % 10) == b'"') ≡ false)
digit_plain n = (ground arith, ground arith)

last_digit-IsPlain : (i : ℤ) → IsPlain (last_digit i)
last_digit-IsPlain (pos n) = ((digit_plain n).0, (digit_plain n).1, tt)
last_digit-IsPlain (negsuc n) = (refl, refl, ((digit_plain (n + 1)).0, (digit_plain (n + 1)).1, tt))

texts-PlainNumbers : PlainNumbers texts
texts-PlainNumbers = record {
  itoa_plain = last_digit-IsPlain;
  ryu_plain = λ x. ((digit_plain x).0, (digit_plain x).1, (refl, refl, (refl, refl, tt)));
}

-- [1,{"a b":"c"},2.5]
abbrev printed_value : Value ℕ
printed_value = array (
    cons (int (pos 1))
      (cons (object (insert (codes "a b") (string (codes "c")) new)) (cons (float 2) nil)))

printed_value-Fits : Fits 3 printed_value
unfolding Fits
printed_value-Fits =
    (tt, ((((omega arith, (omega arith, (omega arith, tt))), (omega arith, tt)), tt), (tt, tt)))

dumped : text texts compact 3 0 printed_value ≡ codes "[1,{\"a b\":\"c\"},2.5]"
unfolding text behind bracketed item_texts entry_texts escape_bytes
dumped = refl

prettified :
    text texts (indented 2) 3 0 printed_value
    ≡ codes "[\n  1,\n  {\n    \"a b\": \"c\"\n  },\n  2.5\n]"
unfolding text behind bracketed item_texts entry_texts escape_bytes
prettified = refl

-- A buffer with room for some bytes: a write fails at the first byte that finds it full.
abbrev fill : List ℕ → List ℕ × ℕ → Io Bool (List ℕ × ℕ)
fill [] w = done w
fill (ch ∷ s) (out, zero) = failed true (out, zero)
fill (ch ∷ s) (out, suc room) = fill s (out ++ ch ∷ [], room)

abbrev taken : List ℕ × ℕ → List ℕ
taken w = w.0

Takes-behind :
    (ch : ℕ) (s : List ℕ) (room : ℕ) (out : List ℕ) (r : Io Bool (List ℕ × ℕ))
    → Takes taken s (out ++ ch ∷ [], room) r
    → Takes taken (ch ∷ s) (out, suc room) r
Takes-behind ch s room out (done y) h = h ∙ append_assoc out (ch ∷ []) s
Takes-behind ch s room out (failed e y) h = record {
  taken = ch ∷ h.taken;
  rest = h.rest;
  split = ap (λ r. ch ∷ r) h.split;
  is_taken = h.is_taken ∙ append_assoc out (ch ∷ []) h.taken;
}
Takes-behind ch s room out stuck h = absurd h

fill-Takes : (s : List ℕ) (w : List ℕ × ℕ) → Takes taken s w (fill s w)
fill-Takes [] (out, room) = sym (append-nil out)
fill-Takes (ch ∷ s) (out, zero) = record {
  taken = [];
  rest = ch ∷ s;
  split = refl;
  is_taken = sym (append-nil out);
}
fill-Takes (ch ∷ s) (out, suc room) =
    Takes-behind ch s room out (fill s (out ++ ch ∷ [], room)) (fill-Takes s (out ++ ch ∷ [], room))

abbrev buffer : Write
buffer = record {
  W = List ℕ × ℕ;
  E = Bool;
  accepted = taken;
  write_all = fill;
  write_fmt = fill;
  write_all-Takes = fill-Takes;
  write_fmt-Takes = fill-Takes;
}

write_json-text_example :
    (to_string texts 3 printed_value ≡ ok (text texts compact 3 0 printed_value))
    × Delivers buffer
        (text texts compact 3 0 printed_value)
        ([], 7)
        (write texts 3 printed_value buffer ([], 7))
    × (to_string_pp texts 3 printed_value ≡ ok (text texts (indented 2) 3 0 printed_value))
    × Delivers buffer
        (text texts (indented 2) 3 0 printed_value)
        ([], 7)
        (write_pp texts 3 printed_value buffer ([], 7))
write_json-text_example =
    write_json-text texts (λ P m h. h) 3 printed_value printed_value-Fits buffer ([], 7)

-- The run that fills the buffer: its error is returned.
filled : write texts 3 printed_value buffer ([], 7) ≡ failed true (codes "[1,{\"a ", 0)
unfolding write write_json write_array write_object write_string blocks remainder_loop
    WriterGenerator.new WriterGenerator.generator quote_bits
filled = refl

minify-to_string_pp_example :
    (code pretty : List ℕ) × (to_string texts 3 printed_value ≡ ok code)
    × (to_string_pp texts 3 printed_value ≡ ok pretty)
    × (minify outside pretty ≡ code)
minify-to_string_pp_example =
    minify-to_string_pp texts texts-PlainNumbers (λ P m h. h) 3 printed_value printed_value-Fits
