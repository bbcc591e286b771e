-- ===== src/Stage1/Classes.antt =====
-- src/stage1.rs: the masks of a block, as a test of each of its bytes.
use simdjson_rs.Prelude.Bits.{bit_or_comm, bit_or_shifted}
use simdjson_rs.Prelude.{
  subst, ℕ, ◌+◌, ◌*◌, ◌%◌, ◌^◌, ◌<◌, Bool, List, [], ◌∷◌, ◌++◌, map, length, ◌≡◌, refl, sym, ap,
  ◌∙◌, arith, ◌==◌, take, drop, length-take, length-drop, take-drop, take_all,
}
use native.Mathlib.Nat.{pow-suc}
use simdjson_rs.Stage1.{pack, join, movemask, SimdInput, cmp_mask_against_input}
use simdjson_rs.Stage1.Words.{length-map, pack-lt}

-- Two masks side by side.
pack-append : (a b : List Bool) → pack (a ++ b) ≡ pack a + pack b * 2 ^ length a
pack-append [] b = omega arith
pack-append (x ∷ a) b =
    omega (arith, pack-append a b, ap (λ (p : ℕ). pack b * p) (pow-suc 2 (length a)))

map-append : (p : ℕ → Bool) (a b : List ℕ) → map p (a ++ b) ≡ map p a ++ map p b
map-append p [] b = refl
map-append p (x ∷ a) b = ap (λ r. p x ∷ r) (map-append p a b)

join-pack :
    (a b : List Bool) → length a ≡ 32 → length b ≡ 32 → join (pack a) (pack b) ≡ pack (a ++ b)
join-pack a b h g =
    let low : pack a < 2 ^ 32 = subst (λ n. pack a < 2 ^ n) h (pack-lt a) in
    let high : pack b < 2 ^ 32 = subst (λ n. pack b < 2 ^ n) g (pack-lt b) in
    let fits : pack b * 2 ^ 32 % 2 ^ 64 ≡ pack b * 2 ^ 32 = omega arith in
    let whole : pack (a ++ b) ≡ pack a + pack b * 2 ^ 32 =
      subst (λ n. pack (a ++ b) ≡ pack a + pack b * 2 ^ n) h (pack-append a b) in
    rw fits (
      bit_or_comm (pack a) (pack b * 2 ^ 32)
      ∙ omega (arith, bit_or_shifted 32 (pack b) (pack a) low, whole))

-- A block of 64 bytes.
abbrev pub block : List ℕ → SimdInput
block s = record { lo = take 32 s; hi = take 32 (drop 32 s) }

module _ (s : List ℕ) (h : length s ≡ 64) where
  pub length_lo : length (take 32 s) ≡ 32
  length_lo = length-take 32 s (omega arith)

  hi_rest : take 32 (drop 32 s) ≡ drop 32 s
  hi_rest =
      let e : length (drop 32 s) ≡ 32 = omega (arith, length-drop 32 s) in
      subst (λ n. take n (drop 32 s) ≡ drop 32 s) e (take_all (drop 32 s))

  pub length_hi : length (take 32 (drop 32 s)) ≡ 32
  length_hi = ap length hi_rest ∙ omega (arith, length-drop 32 s)

  pub halves : take 32 s ++ take 32 (drop 32 s) ≡ s
  halves = ap (λ r. take 32 s ++ r) hi_rest ∙ take-drop 32 s

  -- A test of each byte of both halves.
  pub join-movemask :
      (p : ℕ → Bool)
      → join (movemask p (take 32 s)) (movemask p (take 32 (drop 32 s))) ≡ pack (map p s)
  join-movemask p =
      join-pack (map p (take 32 s)) (map p (take 32 (drop 32 s)))
        (length-map p (take 32 s) ∙ length_lo) (length-map p (take 32 (drop 32 s)) ∙ length_hi)
      ∙ ap pack (sym (map-append p (take 32 s) (take 32 (drop 32 s))) ∙ ap (map p) halves)

  pub cmp_mask_against_input-pack :
      (m : ℕ) → cmp_mask_against_input (block s) m ≡ pack (map (λ c. c == m) s)
  unfolding cmp_mask_against_input
  cmp_mask_against_input-pack m = join-movemask (λ c. c == m)
