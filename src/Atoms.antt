-- ===== src/Atoms.antt =====
-- src/stage2.rs: the tests for `true`, `false` and `null`.
pub mod Spelling
use simdjson_rs.Prelude.{
  ℕ, zero, suc, ◌+◌, ◌*◌, Bool, Option, none, some, List, [], ◌∷◌, bit_and, bit_or, bit_xor,
  get_elem?, ◌==◌,
}
use simdjson_rs.CharUtils.{is_not_structural_or_whitespace}

-- `*(loc.as_ptr() as *const u64)`: eight bytes, the lowest first.
unfoldable pub load : ℕ → List ℕ → Option ℕ
load zero s = some 0
load (suc n) [] = none
load (suc n) (b ∷ s) = elim (load n s) [ none ↦ none | some v ↦ some (b + 256 * v) ]

-- `(locval & mask) ^ value`, joined with the class of the byte behind the atom, is 0.
abbrev atom_test : ℕ → ℕ → Option ℕ → Option ℕ → Option Bool
atom_test mask value (some locval) (some c) =
    some (bit_or (bit_xor (bit_and locval mask) value) (is_not_structural_or_whitespace c) == 0)
atom_test mask value none c = none
atom_test mask value (some locval) none = none

-- The argument is the memory from the location on, behind the slice too: `none` is a read outside
-- of what can be read.
abbrev is_valid_atom : ℕ → ℕ → ℕ → List ℕ → Option Bool
is_valid_atom mask value next loc = atom_test mask value (load 8 loc) (get_elem? loc next)

unfoldable pub is_valid_true_atom : List ℕ → Option Bool
is_valid_true_atom loc = is_valid_atom 0x00000000ffffffff 0x0000000065757274 4 loc

unfoldable pub is_valid_false_atom : List ℕ → Option Bool
is_valid_false_atom loc = is_valid_atom 0x000000ffffffffff 0x00000065736c6166 5 loc

unfoldable pub is_valid_null_atom : List ℕ → Option Bool
is_valid_null_atom loc = is_valid_atom 0x00000000ffffffff 0x000000006c6c756e 4 loc
