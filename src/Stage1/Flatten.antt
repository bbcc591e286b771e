-- ===== src/Stage1/Flatten.antt =====
-- src/stage1.rs, `flatten_bits`: the positions of the ones of a word, eight at a time.
use simdjson_rs.Prelude.{
  ℕ, zero, suc, ◌+◌, ◌-◌, ◌*◌, ◌/◌, ◌%◌, ◌^◌, ◌≤◌, ◌<◌, Bool, true, false, ◌&&◌, List, [], ◌∷◌,
  length, ◌≡◌, ◌≢◌, refl, sym, ap, ◌∙◌, subst, arith, bit_and, ◌==◌, if◌then◌else◌, Bool-cases, inl,
  inr,
}
use simdjson_rs.Prelude.Bits.{bit_and_step, zero-bit_and}
use simdjson_rs.ParseStr.{trailingzeroes}
use simdjson_rs.Stage1.{pack, u64_mod, hamming, tzcnt}
use simdjson_rs.Stage1.Words.{bit, zip, bit_and-pack, pack-lt}

-- The number of ones, and the place of the lowest.
abbrev ones_in : List Bool → ℕ
ones_in [] = 0
ones_in (x ∷ a) = bit x + ones_in a

abbrev pub lowest : List Bool → ℕ
lowest [] = 0
lowest (x ∷ a) = if x then 0 else suc (lowest a)

abbrev pub clear_lowest : List Bool → List Bool
clear_lowest [] = []
clear_lowest (x ∷ a) = if x then (false ∷ a) else (false ∷ clear_lowest a)

-- The positions of the ones, where the first bit stands at `i`.
abbrev pub positions : ℕ → List Bool → List ℕ
positions i [] = []
positions i (x ∷ a) = if x then (i ∷ positions (suc i) a) else positions (suc i) a

zip_self : (a : List Bool) → zip ◌&&◌ a a ≡ a
zip_self [] = refl
zip_self (true ∷ a) = ap (λ r. true ∷ r) (zip_self a)
zip_self (false ∷ a) = ap (λ r. false ∷ r) (zip_self a)

bit_and_self : (a : List Bool) → bit_and (pack a) (pack a) ≡ pack a
bit_and_self a = bit_and-pack a a refl ∙ ap pack (zip_self a)

-- `bits & bits.wrapping_sub(1)`.
halve_less : (n : ℕ) → n ≢ 0 → ((2 * n - 1) % 2 ≡ 1) × ((2 * n - 1) / 2 ≡ n - 1)
halve_less n h = (omega arith, omega arith)

clear_lowest-pack : (a : List Bool) → bit_and (pack a) (pack a - 1) ≡ pack (clear_lowest a)
clear_lowest-pack [] = zero-bit_and 0
clear_lowest-pack (true ∷ a) =
    let l : (1 + 2 * pack a) % 2 ≡ 1 = omega arith in
    let m : (1 + 2 * pack a) / 2 ≡ pack a = omega arith in
    let l' : (1 + 2 * pack a - 1) % 2 ≡ 0 = omega arith in
    let m' : (1 + 2 * pack a - 1) / 2 ≡ pack a = omega arith in
    bit_and_step (1 + 2 * pack a) (1 + 2 * pack a - 1) ∙ rw (l, m, l', m', bit_and_self a) refl
clear_lowest-pack (false ∷ a) = elim (Bool-cases (pack a == 0)) [
  | inl e ↦
      let n : pack a ≡ 0 = ground arith in
      let z : pack (clear_lowest a) ≡ 0 =
        sym (clear_lowest-pack a) ∙ ap (λ n. bit_and n (n - 1)) n ∙ zero-bit_and 0 in
      ap (λ n. bit_and (0 + 2 * n) (0 + 2 * n - 1)) n ∙ (zero-bit_and 0 ∙ omega (arith, z))
  | inr e ↦
      let n : pack a ≢ 0 = λ z. ground arith in
      let l : (0 + 2 * pack a) % 2 ≡ 0 = omega arith in
      let m : (0 + 2 * pack a) / 2 ≡ pack a = omega arith in
      let l' : (0 + 2 * pack a - 1) % 2 ≡ 1 = omega arith in
      let m' : (0 + 2 * pack a - 1) / 2 ≡ pack a - 1 = omega arith in
      bit_and_step (0 + 2 * pack a) (0 + 2 * pack a - 1)
      ∙ rw (l, m, l', m', clear_lowest-pack a) refl
]

pub length-clear_lowest : (a : List Bool) → length (clear_lowest a) ≡ length a
length-clear_lowest [] = refl
length-clear_lowest (true ∷ a) = refl
length-clear_lowest (false ∷ a) = ap suc (length-clear_lowest a)

pub less_word :
    (a : List Bool)
    → length a ≡ 64
    → bit_and (pack a) ((pack a + u64_mod - 1) % u64_mod) ≡ pack (clear_lowest a)
less_word a h = elim (Bool-cases (pack a == 0)) [
  | inl e ↦
      let n : pack a ≡ 0 = ground arith in
      ap (λ x. bit_and x ((x + u64_mod - 1) % u64_mod)) n
      ∙ (zero-bit_and (u64_mod - 1)
          ∙ (sym (ap (λ x. bit_and x (x - 1)) n ∙ zero-bit_and 0) ∙ clear_lowest-pack a))
  | inr e ↦
      let n : pack a ≢ 0 = λ z. ground arith in
      let l : pack a < 2 ^ 64 = subst (λ w. pack a < 2 ^ w) h (pack-lt a) in
      let m : (pack a + u64_mod - 1) % u64_mod ≡ pack a - 1 = omega arith in
      rw m (clear_lowest-pack a)
]

trailingzeroes-lowest :
    (w : ℕ) (a : List Bool)
    → length a ≤ w
    → pack a ≢ 0
    → (trailingzeroes w (pack a) ≡ lowest a) × (lowest a < length a)
unfolding trailingzeroes
trailingzeroes-lowest w [] h n = absurd (n refl)
trailingzeroes-lowest zero (x ∷ a) h n = absurd (omega arith)
trailingzeroes-lowest (suc w) (true ∷ a) h n =
    let l : (1 + 2 * pack a) % 2 ≡ 1 = omega arith in (rw l refl, omega arith)
trailingzeroes-lowest (suc w) (false ∷ a) h n =
    let l : (0 + 2 * pack a) % 2 ≡ 0 = omega arith in
    let m : (0 + 2 * pack a) / 2 ≡ pack a = omega arith in
    let (e, i) = trailingzeroes-lowest w a (omega arith) (λ z. n (omega arith)) in
    (rw (l, m) (ap suc e), omega arith)

pub tzcnt-lowest :
    (a : List Bool) → length a ≡ 64 → pack a ≢ 0 → (tzcnt (pack a) ≡ lowest a) × (lowest a < 64)
tzcnt-lowest a h n =
    let (e, i) = trailingzeroes-lowest 64 a (omega arith) n in (ground (arith, e), omega arith)

pub positions-zero : (i : ℕ) (a : List Bool) → pack a ≡ 0 → positions i a ≡ []
positions-zero i [] h = refl
positions-zero i (true ∷ a) h = absurd (omega arith)
positions-zero i (false ∷ a) h = positions-zero (suc i) a (omega arith)

pub positions-lowest :
    (i : ℕ) (a : List Bool)
    → pack a ≢ 0
    → positions i a ≡ (i + lowest a) ∷ positions i (clear_lowest a)
positions-lowest i [] n = absurd (n refl)
positions-lowest i (true ∷ a) n = ap (λ j. j ∷ positions (suc i) a) (omega arith)
positions-lowest i (false ∷ a) n =
    positions-lowest (suc i) a (λ z. n (omega arith))
    ∙ ap (λ j. j ∷ positions (suc i) (clear_lowest a)) (omega arith)

pub length-positions :
    (i : ℕ) (a : List Bool) → length (positions i a) ≡ hamming (length a) (pack a)
unfolding hamming
length-positions i [] = refl
length-positions i (true ∷ a) =
    let l : (1 + 2 * pack a) % 2 ≡ 1 = omega arith in
    let m : (1 + 2 * pack a) / 2 ≡ pack a = omega arith in
    rw (l, m) (omega (arith, length-positions (suc i) a))
length-positions i (false ∷ a) =
    let l : (0 + 2 * pack a) % 2 ≡ 0 = omega arith in
    let m : (0 + 2 * pack a) / 2 ≡ pack a = omega arith in
    rw (l, m) (omega (arith, length-positions (suc i) a))

pub positions-at_most : (i : ℕ) (a : List Bool) → length (positions i a) ≤ length a
positions-at_most i [] = omega arith
positions-at_most i (true ∷ a) = omega (arith, positions-at_most (suc i) a)
positions-at_most i (false ∷ a) = omega (arith, positions-at_most (suc i) a)

pub place :
    (first t : ℕ)
    → first + 64 ≤ 2 ^ 32
    → t < 64
    → (((first + 64) % 2 ^ 32 + 2 ^ 32 - 64) % 2 ^ 32 + t) % 2 ^ 32 ≡ first + t
place first t h l = omega arith
