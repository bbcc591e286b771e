-- ===== src/Atoms/Spelling.antt =====
-- The atoms of src/stage2.rs against their spelling.
use simdjson_rs.Prelude.{
  ℕ, ◌+◌, ◌-◌, ◌*◌, ◌%◌, ◌^◌, ◌<◌, ◌≡◌, ◌↔◌, true, ◌&&◌, some, List, ◌∷◌, arith, ◌==◌, bit_and,
  bit_or, bit_xor,
}
use simdjson_rs.Prelude.Bits.{bit_and_mask, bit_or-eq-zero_iff, bit_xor-eq-zero_iff}
use simdjson_rs.CharUtils.{is_not_structural_or_whitespace}
use simdjson_rs.CharUtils.Classes.{ends_token, is_not_structural_or_whitespace_lem}
use simdjson_rs.Atoms.{load, is_valid_true_atom, is_valid_false_atom, is_valid_null_atom}

-- The test of the code is a comparison and a class.
test_iff :
    (k locval value n : ℕ)
    → (bit_or (bit_xor (bit_and locval (2 ^ k - 1)) value) n ≡ 0)
      ↔ ((locval % 2 ^ k ≡ value) × (n ≡ 0))
test_iff k locval value n = ground (
  arith,
  bit_and_mask k locval,
  bit_or-eq-zero_iff (bit_xor (bit_and locval (2 ^ k - 1)) value) n,
  bit_xor-eq-zero_iff (bit_and locval (2 ^ k - 1)) value,
)

-- The eight bytes of a load, the lowest first.
abbrev word : ℕ → ℕ → ℕ → ℕ → ℕ → ℕ → ℕ → ℕ → ℕ
word a b c d e f g h =
    a + 256 * (b + 256 * (c + 256 * (d + 256 * (e + 256 * (f + 256 * (g + 256 * (h + 0)))))))

-- The first four or five bytes of a load.
low_four :
    (a b c d e f g h t u v w : ℕ)
    → a < 256
    → b < 256
    → c < 256
    → d < 256
    → t < 256
    → u < 256
    → v < 256
    → w < 256
    → (word a b c d e f g h % 2 ^ 32 ≡ t + 256 * u + 65536 * v + 16777216 * w)
      ↔ ((a ≡ t) × (b ≡ u) × (c ≡ v) × (d ≡ w))
low_four a b c d e f g h t u v w ha hb hc hd ht hu hv hw =
    (λ p. omega arith, λ p. omega (arith, p.0, p.1, p.2, p.3))

low_five :
    (a b c d e f g h t u v w x : ℕ)
    → a < 256
    → b < 256
    → c < 256
    → d < 256
    → e < 256
    → t < 256
    → u < 256
    → v < 256
    → w < 256
    → x < 256
    → (word a b c d e f g h % 2 ^ 40 ≡ t + 256 * u + 65536 * v + 16777216 * w + 4294967296 * x)
      ↔ ((a ≡ t) × (b ≡ u) × (c ≡ v) × (d ≡ w) × (e ≡ x))
low_five a b c d e f g h t u v w x ha hb hc hd he ht hu hv hw hx =
    (λ p. omega arith, λ p. omega (arith, p.0, p.1, p.2, p.3, p.4))

class_iff : (c : ℕ) → c < 256 → (is_not_structural_or_whitespace c ≡ 0) ↔ (ends_token c ≡ true)
class_iff c h = ground (arith, is_not_structural_or_whitespace_lem c h)

-- On eight readable bytes, `is_valid_true_atom` holds exactly if the first four spell `true` and a
-- byte that ends a token follows them.
pub is_valid_true_atom_lem :
    (a b c d e f g h : ℕ) (rest : List ℕ)
    → a < 256
    → b < 256
    → c < 256
    → d < 256
    → e < 256
    → is_valid_true_atom (a ∷ b ∷ c ∷ d ∷ e ∷ f ∷ g ∷ h ∷ rest)
      ≡ some (a == b't' && b == b'r' && c == b'u' && d == b'e' && ends_token e)
unfolding is_valid_true_atom load
is_valid_true_atom_lem a b c d e f g h rest ha hb hc hd he = ground (
  arith,
  test_iff 32 (word a b c d e f g h) 0x65757274 (is_not_structural_or_whitespace e),
  low_four a b c d e f g h b't' b'r' b'u' b'e' ha hb hc hd (omega arith) (omega arith) (omega arith)
      (omega arith),
  class_iff e he,
)

-- On eight readable bytes, `is_valid_null_atom` holds exactly if the first four spell `null` and a
-- byte that ends a token follows them.
pub is_valid_null_atom_lem :
    (a b c d e f g h : ℕ) (rest : List ℕ)
    → a < 256
    → b < 256
    → c < 256
    → d < 256
    → e < 256
    → is_valid_null_atom (a ∷ b ∷ c ∷ d ∷ e ∷ f ∷ g ∷ h ∷ rest)
      ≡ some (a == b'n' && b == b'u' && c == b'l' && d == b'l' && ends_token e)
unfolding is_valid_null_atom load
is_valid_null_atom_lem a b c d e f g h rest ha hb hc hd he = ground (
  arith,
  test_iff 32 (word a b c d e f g h) 0x6c6c756e (is_not_structural_or_whitespace e),
  low_four a b c d e f g h b'n' b'u' b'l' b'l' ha hb hc hd (omega arith) (omega arith) (omega arith)
      (omega arith),
  class_iff e he,
)

-- On eight readable bytes, `is_valid_false_atom` holds exactly if the first five spell `false` and
-- a byte that ends a token follows them.
pub is_valid_false_atom_lem :
    (a b c d e f g h : ℕ) (rest : List ℕ)
    → a < 256
    → b < 256
    → c < 256
    → d < 256
    → e < 256
    → f < 256
    → is_valid_false_atom (a ∷ b ∷ c ∷ d ∷ e ∷ f ∷ g ∷ h ∷ rest)
      ≡ some (a == b'f' && b == b'a' && c == b'l' && d == b's' && e == b'e' && ends_token f)
unfolding is_valid_false_atom load
is_valid_false_atom_lem a b c d e f g h rest ha hb hc hd he hf = ground (
  arith,
  test_iff 40 (word a b c d e f g h) 0x65736c6166 (is_not_structural_or_whitespace f),
  low_five a b c d e f g h b'f' b'a' b'l' b's' b'e' ha hb hc hd he (omega arith) (omega arith)
      (omega arith) (omega arith) (omega arith),
  class_iff f hf,
)
