-- ===== src/Tests/ValidateTests.antt =====
-- `validate` of src/stage2.rs at concrete inputs.
use simdjson_rs.Prelude.{ℕ, ◌≡◌, ◌↔◌, refl, arith, true, none, some, List, [], ◌∷◌, drop, codes}
use simdjson_rs.Error.{ok, err, new, is_ok, Returns, fault, expected_array_content}
use simdjson_rs.Atoms.{load, is_valid_true_atom}
use simdjson_rs.CharUtils.{is_not_structural_or_whitespace}
use simdjson_rs.Validate.{Input, Counts, update_char, step, validate}
use simdjson_rs.Validate.Automaton.{token, classify}
use simdjson_rs.Validate.Grammar.{
  scalar, full_array, full_object, last_element, more_elements, last_member,
}
use simdjson_rs.Validate.Counting.{CountsOf, validate-Counted}
use simdjson_rs.Validate.Refinement.{validate-Returns, is_ok-validate, accepts_document}
use simdjson_rs.Validate.Parses.{validate_iff, IsDocument}

-- [1,{"a":true}] and eight bytes behind it.
abbrev nested : Input
nested = record { bytes = codes "[1,{\"a\":true}]"; behind = codes "        " }

abbrev nested_indexes : List ℕ
nested_indexes = 0 ∷ 0 ∷ 1 ∷ 2 ∷ 3 ∷ 4 ∷ 7 ∷ 8 ∷ 12 ∷ 13 ∷ []

nested_counts :
    validate nested nested_indexes
    ≡ ok (none ∷ some 2 ∷ none ∷ none ∷ some 1 ∷ none ∷ none ∷ none ∷ none ∷ none ∷ [])
unfolding validate update_char step is_valid_true_atom load is_not_structural_or_whitespace
nested_counts = refl

-- Nothing can be read behind the input: the atom is a fault.
at_the_end : validate (record { bytes = codes "[true]"; behind = [] }) (0 ∷ 0 ∷ 1 ∷ 5 ∷ []) ≡ fault
unfolding validate update_char step is_valid_true_atom load
at_the_end = refl

unclosed :
    validate
      (record { bytes = codes "[1:2]"; behind = codes "        " })
      (0 ∷ 0 ∷ 1 ∷ 2 ∷ 3 ∷ 4 ∷ [])
    ≡ err (new 3 2 b':' expected_array_content)
unfolding validate update_char step
unclosed = refl

validate-Returns_example : Returns (validate nested nested_indexes)
validate-Returns_example = validate-Returns nested nested_indexes (omega arith) (omega arith)

is_ok-validate_example :
    is_ok (validate nested nested_indexes) ≡ accepts_document nested (drop 1 nested_indexes)
is_ok-validate_example = is_ok-validate nested nested_indexes (omega arith) (omega arith)

validate_iff_example :
    (is_ok (validate nested nested_indexes) ≡ true) ↔ IsDocument nested (drop 1 nested_indexes)
validate_iff_example = validate_iff nested nested_indexes (omega arith) (omega arith)

nested_document : IsDocument nested (drop 1 nested_indexes)
unfolding token classify is_valid_true_atom load is_not_structural_or_whitespace
nested_document =
    full_array (more_elements scalar (last_element (full_object (last_member scalar))))

validate-Counted_example :
    (counts : Counts) × (validate nested nested_indexes ≡ ok counts)
    × CountsOf nested (drop 1 nested_indexes) nested_document counts
validate-Counted_example =
    validate-Counted nested nested_indexes (omega arith) (omega arith) nested_document
