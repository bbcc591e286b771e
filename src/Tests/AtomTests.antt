-- ===== src/Tests/AtomTests.antt =====
-- The atom tests of src/stage2.rs at concrete inputs.
use simdjson_rs.Prelude.{◌≡◌, arith, true, false, some, [], codes}
use simdjson_rs.CharUtils.Classes.{ends_token}
use simdjson_rs.Atoms.{is_valid_true_atom, is_valid_false_atom, is_valid_null_atom}
use simdjson_rs.Atoms.Spelling.{
  is_valid_true_atom_lem, is_valid_false_atom_lem, is_valid_null_atom_lem,
}

is_valid_true_atom_lem_example : is_valid_true_atom (codes "true,   ") ≡ some true
unfolding ends_token
is_valid_true_atom_lem_example =
    is_valid_true_atom_lem b't' b'r' b'u' b'e' b',' b' ' b' ' b' ' [] (omega arith) (omega arith)
      (omega arith) (omega arith) (omega arith)

is_valid_false_atom_lem_example : is_valid_false_atom (codes "falsy,  ") ≡ some false
is_valid_false_atom_lem_example =
    is_valid_false_atom_lem b'f' b'a' b'l' b's' b'y' b',' b' ' b' ' [] (omega arith) (omega arith)
      (omega arith) (omega arith) (omega arith) (omega arith)

is_valid_null_atom_lem_example : is_valid_null_atom (codes "nulls,  ") ≡ some false
unfolding ends_token
is_valid_null_atom_lem_example =
    is_valid_null_atom_lem b'n' b'u' b'l' b'l' b's' b',' b' ' b' ' [] (omega arith) (omega arith)
      (omega arith) (omega arith) (omega arith)
