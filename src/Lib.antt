-- ===== src/Lib.antt =====
-- simdjson-rs: a JSON parser in two stages. Stage 1 (src/stage1.rs) finds the structural characters
-- with bit operations on 64 bytes at a time; stage 2 (src/stage2.rs) walks over their indexes and
-- checks the grammar, and writes the number of elements of each array and object. Both give a
-- `Deserializer` (src/lib.rs), from which src/value/owned.rs, src/value/borrowed.rs and
-- src/serde/de.rs build values; src/value/generator.rs writes them as text.
--
-- Files and the code that they are about:
--   Prelude: names that every file shares, Boolean tests, lists over the native numbers, laws of the
--     bit operations, tables over a byte.
--   Error: src/error.rs, and the outcome of a run: a value, an error, a fault (an access outside of a
--     slice by `get_unchecked` or a raw pointer, or a read of memory that was never written) or the
--     end of the fuel.
--   CharUtils: src/charutils.rs; CharUtils/Classes, /Hex and /Utf8 relate its tables to the
--     characters, its four-digit lookup to the number, and its encoder to a decoder of UTF-8.
--   StringParse: src/stringparse.rs, `ESCAPE_MAP` and `handle_unicode_codepoint`; StringParse/Codepoint
--     is about one escape and a pair, /Scalar about those of a scalar value, /Refused about errors.
--   Atoms: src/stage2.rs, `is_valid_true_atom`, `is_valid_false_atom`, `is_valid_null_atom`.
--   Validate: src/stage2.rs, `Deserializer::validate`. `Machine` is the local variables of the
--     function, one function stands for each macro and each `match` arm, `goto` is the next state of
--     the loop. Validate/Automaton is the grammar as a machine on tokens, Validate/Simulation relates
--     the code to it, Validate/Grammar is the grammar as data types, Validate/Parses joins both. /Counted says what the
--     counts are, by the grammar, /Leads, /Scans and /Reads follow the rounds over known tokens, /Ends,
--     /Scopes and /Walks over values, /Counting is the whole run.
--   NumberParse: src/numberparse.rs: NumberParse/Integer is `parse_number_int` and
--     `parse_large_integer`, NumberParse/Float is `parse_float`, NumberParse/Digits and /Decimal are
--     about texts of digits, NumberParse/Eight about the arithmetic on eight digits at once. The
--     feature `swar-number-parsing` is the Boolean `swar`.
--   ParseStr: src/lib.rs, `Deserializer::parse_str_`; ParseStr/Chunk is about the masks of 32 bytes,
--     ParseStr/Escape about the length of an escape, ParseStr/Text and ParseStr/Whole about both loops.
--   Value/Conversions: src/value/owned/from.rs and src/value/owned/cmp.rs.
--   Value, Deserializer, Deserializer/Owned: src/value/owned.rs, and the cursor of src/lib.rs;
--     Deserializer/Quoted is about a string that was written before.
--   Generator: src/value/generator.rs, `write_string` and `write_string_complex` over a `Vec<u8>`, whose
--     writes never fail; Generator/Strings is the same over any generator; Generator/Generators
--     is the trait `BaseGenerator` without its strings, and /DumpGenerator, /PrettyGenerator,
--     /WriterGenerator and /PrettyWriterGenerator its implementations.
--   Serialize: src/value/owned/serialize.rs, over any `BaseGenerator`. Serialize/Layout is the text of
--     a value by a layout, /Emits is what a generator promises that lays out so, /Puts is about runs
--     that write a text, /Strings about `write_string`, /Writes about `write_json`, /Writers about the
--     two generators over a writer, /Printers about what is printed, /Minify and /Minified about white
--     space.
--   Utf8Check: src/utf8check.rs, a vector as the list of its bytes. Utf8Check/Sequences is UTF-8, one
--     byte after another; /Lanes is about the errors of a lane, by tables; /Walk and /Pushes turn the
--     vectors into a walk over the lanes, /Carries and /Vectors are about the carries, /Runs, /States
--     and /Tracks about a vector and those behind it.
--   Stage1: src/stage1.rs, `find_structural_bits` and the functions that it calls; `Scan` is its local
--     variables. Stage1/Scanner says what it looks for, one byte after another. Stage1/Words and
--     /Prefix are about the bits of a word, /Odd and /Escapes about backslashes, /Classes and /Buckets
--     about the classes of bytes, /Strings about quotes, /Final about `finalize_structurals`, /Flatten
--     and /Stores about `flatten_bits`, /Loop and /Rounds about the loop, /Ascii, /Encoding, /Tracking
--     and /Utf8 about the UTF-8 check, /Whole about the whole run.
--   Deserializer/FromSlice: `from_slice` of src/lib.rs, which joins both stages, and `to_value` of
--     src/value/owned.rs.
--   Deserializer/Borrowed: src/value/borrowed.rs, the parsers; a borrowed value is modelled by the type
--     of the owned ones.
--   Error/Settles, NumberParse/Ends, ParseStr/Ends, Deserializer/Ends, /Values and /Total: the parsers
--     and the builder end.
--   Tests: the definitions and the theorems at concrete inputs.
--
-- Bounds and fuel: bytes are numbers, below 256 where a theorem says so; a `u64` keeps its wrap-around
-- by `% 2 ^ 64`. `validate` has as much fuel as there are structural indexes, and every round of its
-- loop takes at least one of them. The loops of `parse_str_` have one more than the bytes of the
-- source, of which each round takes at least one, and those of `write_string` one more than the bytes
-- of the text. `parse_value` has the depth of the nesting as its fuel, for which one more than the bytes of
-- the input is enough: each depth takes a structural index. The
-- loop of `find_structural_bits` has one more than the bytes of the input, of which each round takes
-- 64, and that of `flatten_bits` has nine rounds, of which each takes eight of the 64 bits. The
-- theorems on stage 1 are about inputs of up to 2 ^ 32 - 64 bytes: an index is a `u32`.
--
-- Parameters: the operations of `f64` with the literals of `POWER_OF_TEN` (`Floats`), the memory
-- that can be read behind a slice (`Input.behind`), the size of a page and the address of the input.
-- A type with `io::Write`, of which a call takes all of its text or fails behind a part of it, the
-- iteration over a map and the texts of numbers by itoa and ryu are parameters of the printers
-- (`Write`, `Texts`), whose fuel is the depth of the nesting. The position in an error of a number or a string is a function of the error type.
--
-- Not modelled: the serde front end, and the accessors, conversions and printers of the
-- borrowed values, which are the same code over slices of the input. Objects are not built from pairs by
-- `FromIterator`. The benchmarks, the examples and the fuzz target have no logic of their own.
pub mod Prelude
pub mod Error
pub mod CharUtils
pub mod StringParse
pub mod Atoms
pub mod Validate
pub mod Tests
pub mod NumberParse
pub mod ParseStr
pub mod Utf8Check
pub mod Stage1
pub mod Value
pub mod Deserializer
pub mod Generator
pub mod Serialize
