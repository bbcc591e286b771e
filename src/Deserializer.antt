-- ===== src/Deserializer.antt =====
-- src/lib.rs, `Deserializer`: the cursor on the structural indexes, and the numbers and strings at
-- it. `str_offset` and the buffer for strings keep nothing that a later call reads. Behind a slice
-- stands nothing that may be read.
pub mod Owned
pub mod Quoted
pub mod FromSlice
pub mod Borrowed
pub mod Ends
pub mod Values
pub mod Total
use simdjson_rs.Prelude.{
  ℕ, ◌+◌, Bool, Option, none, some, List, ◌++◌, drop, get_elem?, get_or, length, replicate, ltb,
  if◌then◌else◌,
}
use simdjson_rs.Error.{Error, ErrorType, new, Outcome, ok, err, fault, out_of_fuel, ◌>>=◌}
use simdjson_rs.NumberParse.{Floats, Number}
use simdjson_rs.NumberParse.Integer.{parse_number_int}
use simdjson_rs.ParseStr.{parse_str_}

pub record Deserializer : Type 0 where
  pub input : List ℕ
  pub structural_indexes : List ℕ
  pub idx : ℕ
  pub counts : List (Option ℕ)
  pub iidx : ℕ

abbrev pub padding_size : ℕ
padding_size = 32

-- `get_unchecked`.
abbrev pub unchecked {ℓ} : {A : Type ℓ} → Option A → Outcome Error A
unchecked none = fault
unchecked (some a) = ok a

-- `self.c()`, which reads inside of the input once `next_` or `skip` has set the cursor.
abbrev pub c : Deserializer → ℕ
c d = get_or d.input (get_or d.structural_indexes d.idx 0) 0

abbrev pub error : Deserializer → ErrorType → Error
error d e = new d.idx d.iidx (c d) e

unfoldable pub skip : Deserializer → Outcome Error Deserializer
skip d = unchecked (get_elem? d.structural_indexes (d.idx + 1)) >>= λ iidx. ok (record {
  input = d.input;
  structural_indexes = d.structural_indexes;
  idx = d.idx + 1;
  counts = d.counts;
  iidx = iidx;
})

unfoldable pub next_ : Deserializer → Outcome Error (ℕ × Deserializer)
unfolding skip
next_ d = skip d >>= λ d'. unchecked (get_elem? d'.input d'.iidx) >>= λ b. ok (b, d')

-- A count that `validate` has not written is memory that was never initialised.
unfoldable pub count_elements : Deserializer → Outcome Error ℕ
count_elements d = unchecked (get_elem? d.counts d.idx) >>= unchecked

unfoldable pub parse_str : Deserializer → Outcome Error (List ℕ × Deserializer)
parse_str d = parse_str_ (error d) d.input d.iidx >>= λ (text, input). ok (
  text,
  record {
    input = input;
    structural_indexes = d.structural_indexes;
    idx = d.idx;
    counts = d.counts;
    iidx = d.iidx;
  },
)

module _ (fl : Floats) (swar : Bool) where
  open fl use {F64}

  unfoldable pub parse_number_root : Deserializer → Bool → Outcome Error (Number F64)
  parse_number_root d minus =
      let input = drop d.iidx d.input in
      parse_number_int fl swar (error d) (input ++ replicate padding_size 0) minus

  unfoldable pub parse_number : Deserializer → Bool → Outcome Error (Number F64)
  parse_number d minus =
      let input = drop d.iidx d.input in
      if ltb (length input) padding_size
      then parse_number_int fl swar (error d) (input ++ replicate padding_size 0) minus
      else parse_number_int fl swar (error d) input minus

  -- The parser that the borrowed values call, on the slice as it is.
  unfoldable pub parse_number_ : Deserializer → Bool → Outcome Error (Number F64)
  parse_number_ d minus =
      let input = drop d.iidx d.input in parse_number_int fl swar (error d) input minus
