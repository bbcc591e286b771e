-- ===== src/Stage1/Stores.antt =====
-- src/stage1.rs, `flatten_bits`: the positions that the loop stores.
use simdjson_rs.Prelude.{
  ℕ, zero, suc, ◌+◌, ◌-◌, ◌*◌, ◌%◌, ◌^◌, ◌≤◌, ◌<◌, Bool, true, false, List, [], ◌∷◌, ◌++◌, length,
  take, drop, replicate, overwrite, overwrite_at, ◌≡◌, ◌≢◌, refl, sym, ap, ◌∙◌, arith, ◌==◌,
  length-replicate, append_assoc, append-nil, take-drop, length-take, length-drop, length-append,
  Bool-cases, inl, inr, ==_iff,
}
use simdjson_rs.Error.{ok}
use simdjson_rs.Stage1.{pack, hamming, next_positions, flatten_loop, flatten_bits}
use simdjson_rs.Stage1.Flatten.{
  lowest, clear_lowest, positions, length-clear_lowest, less_word, tzcnt-lowest, positions-zero,
  positions-lowest, length-positions, positions-at_most, place,
}

-- `k` ones are taken off.
abbrev clear_times : ℕ → List Bool → List Bool
clear_times zero a = a
clear_times (suc k) a = clear_times k (clear_lowest a)

length-clear_times : (k : ℕ) (a : List Bool) → length (clear_times k a) ≡ length a
length-clear_times zero a = refl
length-clear_times (suc k) a = length-clear_times k (clear_lowest a) ∙ length-clear_lowest a

overwrite_at-append :
    (xs rest ys : List ℕ) → overwrite_at (length xs) (xs ++ rest) ys ≡ xs ++ overwrite rest ys
overwrite_at-append [] rest ys = refl
overwrite_at-append (x ∷ xs) rest ys = ap (λ r. x ∷ r) (overwrite_at-append xs rest ys)

overwrite-nil : (ys : List ℕ) → overwrite [] ys ≡ []
overwrite-nil [] = refl
overwrite-nil (y ∷ ys) = refl

clear_lowest-zero : (a : List Bool) → pack a ≡ 0 → pack (clear_lowest a) ≡ 0
clear_lowest-zero [] h = refl
clear_lowest-zero (true ∷ a) h = absurd (omega arith)
clear_lowest-zero (false ∷ a) h = let z = clear_lowest-zero a (omega arith) in omega (arith, z)

drop_none : (k : ℕ) → drop {A = ℕ} k [] ≡ []
drop_none zero = refl
drop_none (suc k) = refl

pub no_elements : (xs : List ℕ) → length xs ≡ 0 → xs ≡ []
no_elements [] h = refl
no_elements (x ∷ xs) h = absurd (omega arith)

module _ (first : ℕ) (h : first + 64 ≤ 2 ^ 32) where
  abbrev idx : ℕ
  idx = (first + 64) % 2 ^ 32

  left_lem :
      (k : ℕ) (a : List Bool)
      → length a ≡ 64
      → (next_positions k idx (pack a)).1 ≡ pack (clear_times k a)
  unfolding next_positions
  left_lem zero a n = refl
  left_lem (suc k) a n =
      ap (λ x. (next_positions k idx x).1) (less_word a n)
      ∙ left_lem k (clear_lowest a) (length-clear_lowest a ∙ n)

  positions-clear_times :
      (k : ℕ) (a : List Bool) → positions first (clear_times k a) ≡ drop k (positions first a)
  positions-clear_times zero a = refl
  positions-clear_times (suc k) a = elim (Bool-cases (pack a == 0)) [
    | inl e ↦
        let z : pack a ≡ 0 = ground arith in
        positions-clear_times k (clear_lowest a)
        ∙ rw
            (
              positions-zero first (clear_lowest a) (clear_lowest-zero a z),
              positions-zero first a z,
            )
            (drop_none k)
    | inr e ↦
        rw (positions-lowest first a (λ z. ground arith)) (positions-clear_times k (clear_lowest a))
  ]

  stored :
      (k : ℕ) (a : List Bool) (rest : List ℕ)
      → length a ≡ 64
      → length rest ≡ length (positions first a)
      → overwrite rest (next_positions k idx (pack a)).0 ≡ take k (positions first a) ++ drop k rest
  unfolding next_positions
  stored zero a [] n e = refl
  stored zero a (x ∷ rest) n e = refl
  stored (suc k) a [] n e = rw (no_elements (positions first a) (omega arith)) refl
  stored (suc k) a (x ∷ rest) n e =
      let z : pack a ≢ 0 = λ z. omega (arith, ap length (positions-zero first a z)) in
      let (t, l) = tzcnt-lowest a n z in
      let p = positions-lowest first a z in
      let more =
        stored k (clear_lowest a) rest (length-clear_lowest a ∙ n) (omega (arith, ap length p)) in
      rw (t, less_word a n, place first (lowest a) h l, p) (ap (λ r. (first + lowest a) ∷ r) more)

  split_positions :
      (k : ℕ) (a : List Bool)
      → take k (positions first a) ++ positions first (clear_times k a) ≡ positions first a
  split_positions k a =
      ap (λ r. take k (positions first a) ++ r) (positions-clear_times k a)
      ∙ take-drop k (positions first a)

  ones_left : (a : List Bool) → pack a ≢ 0 → 0 < length (positions first a)
  ones_left a n = omega (arith, ap length (positions-lowest first a n))

  -- The loop stores the positions of all ones, in order, where `rest` was reserved for them.
  flatten_loop-positions :
      (fuel : ℕ) (behind rest : List ℕ) (l : ℕ) (a : List Bool)
      → length a ≡ 64
      → length rest ≡ length (positions first a)
      → length rest + 8 ≤ 8 * fuel
      → (0 < length rest → l ≡ length behind)
      → flatten_loop fuel (behind ++ rest) l idx (pack a) ≡ ok (behind ++ positions first a)
  unfolding flatten_loop
  flatten_loop-positions zero behind rest l a n e f i = absurd (omega arith)
  flatten_loop-positions (suc fuel) behind rest l a n e f i = elim (Bool-cases (pack a == 0)) [
    | inl z ↦
        let none_left = positions-zero first a ((==_iff _ _).0 z) in
        rw (flatten_loop, z, none_left, no_elements rest (e ∙ ap length none_left)) refl
    | inr z ↦
        let p = positions first a in
        let more : 0 < length p = ones_left a (λ y. ground arith) in
        let here : l ≡ length behind = i (omega arith) in
        let next =
          flatten_loop-positions fuel (behind ++ take 8 p) (drop 8 rest) (length behind + 8)
            (clear_times 8 a) (length-clear_times 8 a ∙ n)
            (length-drop 8 rest
              ∙ (ap (λ m. m - 8) e
                  ∙ (sym (length-drop 8 p) ∙ ap length (sym (positions-clear_times 8 a)))))
            (omega (arith, length-drop 8 rest))
            (λ more_left.
              omega
                (arith, length-drop 8 rest, length-append behind (take 8 p), length-take 8 p)) in
        rw
          (
            flatten_loop,
            z,
            here,
            overwrite_at-append behind rest (next_positions 8 idx (pack a)).0,
            stored 8 a rest n e,
            left_lem 8 a n,
          )
          (ap (λ b. flatten_loop fuel b (length behind + 8) idx (pack (clear_times 8 a)))
              (sym (append_assoc behind (take 8 p) (drop 8 rest)))
            ∙ (next
                ∙ ap ok (
                    append_assoc behind (take 8 p) (positions first (clear_times 8 a))
                    ∙ ap (λ r. behind ++ r) (split_positions 8 a))))
  ]

-- For a word of 64 bits, of which the first stands at a place up to 2^32 - 64, `flatten_bits` adds
-- the places of its ones in order to the indexes, and ends.
pub flatten_bits-positions :
    (base : List ℕ) (first : ℕ) (a : List Bool)
    → first + 64 ≤ 2 ^ 32
    → length a ≡ 64
    → flatten_bits base (first + 64) (pack a) ≡ ok (base ++ positions first a)
unfolding flatten_bits
flatten_bits-positions base first a h n =
    let count : hamming 64 (pack a) ≡ length (positions first a) =
      sym (length-positions first a ∙ ap (λ w. hamming w (pack a)) n) in
    let reserved = length-replicate (hamming 64 (pack a)) 0 in
    flatten_loop-positions first h 9 base (replicate (hamming 64 (pack a)) 0) (length base) a n
      (reserved ∙ count) (omega (arith, positions-at_most first a, reserved, count)) (λ more. refl)

-- No word has any positions at the start of the run.
pub flatten_bits-zero : (base : List ℕ) (i : ℕ) → flatten_bits base i 0 ≡ ok base
unfolding flatten_bits flatten_loop hamming
flatten_bits-zero base i = ap ok (append-nil base)
