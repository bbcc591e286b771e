-- ===== src/Serialize.antt =====
-- src/value/owned/serialize.rs: an owned value as text. The fuel is the depth of the nesting. `iter`
-- gives the entries of a map in the order in which its iteration yields them, `itoa` and `ryu` the
-- texts of the numbers.
pub mod Layout
pub mod Emits
pub mod Puts
pub mod Strings
pub mod Writes
pub mod Writers
pub mod Printers
pub mod Minify
pub mod Minified
use simdjson_rs.Prelude.{ℕ, zero, suc, true, false, List, [], ◌∷◌, codes}
use simdjson_rs.Error.{ErrorType, Outcome, ok, err, fault, out_of_fuel}
use simdjson_rs.NumberParse.{ℤ}
use simdjson_rs.Value.{
  Value, null, bool, int, float, string, array, object, Values, nil, cons, Map, new, insert,
}
use simdjson_rs.Generator.Strings.{write_string}
use simdjson_rs.Generator.Generators.{Io, done, failed, stuck, ◌>>=◌, through, Write, BaseGenerator}
use simdjson_rs.Generator.DumpGenerator
use simdjson_rs.Generator.PrettyGenerator
use simdjson_rs.Generator.WriterGenerator
use simdjson_rs.Generator.PrettyWriterGenerator

-- What the printer calls outside of the repository.
pub record Texts (F : Type 0) : Type 0 where
  pub iter : Map F → Map F
  pub itoa : ℤ → List ℕ
  pub ryu : F → List ℕ

module _ {F : Type 0} (t : Texts F) {E : Type 0} (g : BaseGenerator E) where
  open g use {G}

  -- The text that `itoa::write` writes to the writer.
  abbrev pub write_int : ℤ → G → Io E G
  write_int num x = g.write_text (t.itoa num) x

  abbrev pub write_float : F → G → Io E G
  write_float num x = g.write_text (t.ryu num) x

  -- `self.indent(); stry!(self.new_line())`.
  abbrev indent_line : G → Io E G
  indent_line x = g.new_line (g.indent x)

  -- `self.dedent(); stry!(self.new_line())`.
  abbrev dedent_line : G → Io E G
  dedent_line x = g.new_line (g.dedent x)

  -- `self.write_json(…)` of the values inside.
  abbrev pub Nested : Type 0
  Nested = Value F → G → Io E G

  -- A key and its value.
  abbrev pub entry : Nested → List ℕ → Value F → G → Io E G
  entry write_json key value x =
      write_string g key x >>= g.write_min (codes ": ") b':' >>= write_json value

  abbrev pub more_entries : Nested → Map F → G → Io E G
  more_entries write_json new x = done x
  more_entries write_json (insert key value m) x =
      g.write_char b',' x
      >>= g.new_line
      >>= entry write_json key value
      >>= more_entries write_json m

  unfoldable pub write_object : Nested → Map F → G → Io E G
  write_object write_json new x = g.write_char b'{' x >>= g.write_char b'}'
  write_object write_json (insert key value m) x =
      g.write_char b'{' x
      >>= indent_line
      >>= entry write_json key value
      >>= more_entries write_json m
      >>= dedent_line
      >>= g.write_char b'}'

  abbrev pub more_items : Nested → Values F → G → Io E G
  more_items write_json nil x = done x
  more_items write_json (cons item vs) x =
      g.write_char b',' x >>= g.new_line >>= write_json item >>= more_items write_json vs

  -- The case `Value::Array`.
  unfoldable pub write_array : Nested → Values F → G → Io E G
  write_array write_json nil x = g.write_char b'[' x >>= g.write_char b']'
  write_array write_json (cons item vs) x =
      g.write_char b'[' x
      >>= indent_line
      >>= write_json item
      >>= more_items write_json vs
      >>= dedent_line
      >>= g.write_char b']'

  unfoldable pub write_json : ℕ → Value F → G → Io E G
  unfolding write_object write_array
  write_json zero v x = stuck
  write_json (suc fuel) null x = g.write (codes "null") x
  write_json (suc fuel) (string s) x = write_string g s x
  write_json (suc fuel) (int number) x = write_int number x
  write_json (suc fuel) (float number) x = write_float number x
  write_json (suc fuel) (bool true) x = g.write (codes "true") x
  write_json (suc fuel) (bool false) x = g.write (codes "false") x
  write_json (suc fuel) (array vs) x = write_array (write_json fuel) vs x
  write_json (suc fuel) (object m) x = write_object (write_json fuel) (t.iter m) x

-- `let _ = g.write_json(…); g.consume()`.
abbrev pub consume : {E S : Type 0} → (S → List ℕ) → Io E S → Outcome ErrorType (List ℕ)
consume code (done g) = ok (code g)
consume code (failed e g) = ok (code g)
consume code stuck = out_of_fuel

module _ {F : Type 0} (t : Texts F) (fuel : ℕ) (v : Value F) where
  unfoldable pub to_string : Outcome ErrorType (List ℕ)
  unfolding DumpGenerator.generator
  to_string = consume (λ g. g.code) (write_json t DumpGenerator.generator fuel v DumpGenerator.new)

  unfoldable pub to_string_pp : Outcome ErrorType (List ℕ)
  unfolding PrettyGenerator.generator
  to_string_pp =
      consume (λ g. g.code) (write_json t PrettyGenerator.generator fuel v (PrettyGenerator.new 2))

  unfoldable pub write : (w : Write) → w.W → Io w.E w.W
  unfolding WriterGenerator.generator
  write w x =
      through (λ g. g.writer)
        (write_json t (WriterGenerator.generator w) fuel v (WriterGenerator.new w x))

  unfoldable pub write_pp : (w : Write) → w.W → Io w.E w.W
  unfolding PrettyWriterGenerator.generator
  write_pp w x =
      through (λ g. g.writer)
        (write_json t (PrettyWriterGenerator.generator w) fuel v (PrettyWriterGenerator.new w x 2))
