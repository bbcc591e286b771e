-- ===== src/Stage1/Rounds.antt =====
-- src/stage1.rs, `find_structural_bits`: the rounds of the loop, and the rest behind it.
use simdjson_rs.Prelude.{
  leb→le, length-take, AreBytes-take, AreBytes-drop, take-drop, AreBytes, AreBytes-take,
  AreBytes-drop, AreBytes-append, AreBytes-replicate, ℕ, zero, suc, ◌+◌, ◌-◌, ◌*◌, ◌/◌, ◌%◌, ◌^◌,
  ◌≤◌, ◌<◌, true, false, List, [], ◌∷◌, ◌++◌, length, take, drop, replicate, ◌≡◌, refl, sym, ap,
  ◌∙◌, subst, arith, ◌==◌, leb, ltb, length-replicate, length-append, length-drop, append_assoc,
  append-nil, Bool-cases, inl, inr, ==_iff,
}
use simdjson_rs.Error.{ok}
use simdjson_rs.Utf8Check.{set1, unprocessed}
use simdjson_rs.Prelude.{Bool}
use simdjson_rs.Stage1.{testz, Utf8State, check_utf8, Scan, scan_block, scan_loop}
use simdjson_rs.Stage1.Classes.{block}
use simdjson_rs.Stage1.Stores.{no_elements}
use simdjson_rs.Stage1.Loop.{
  IsBehind, block-append, behind_block, scan_block-behind_block, behind_block-IsBehind,
}

-- The input with spaces behind it, to whole blocks, and the number of these.
abbrev pub padded : List ℕ → List ℕ
padded s = s ++ replicate ((64 - length s % 64) % 64) 0x20

abbrev pub block_count : List ℕ → ℕ
block_count s = (length s + 63) / 64

-- The UTF-8 check over `n` blocks.
abbrev pub utf8_run : ℕ → Utf8State → List ℕ → Utf8State
utf8_run zero u s = u
utf8_run (suc n) u s = utf8_run n (check_utf8 (block s) u) (drop 64 s)

drop-read : (read rest : List ℕ) → drop (length read) (read ++ rest) ≡ rest
drop-read [] rest = refl
drop-read (c ∷ read) rest = drop-read read rest

module _ (read : List ℕ) (s : Scan) (fuel : ℕ) where
  -- A round of the loop over a whole block.
  scan_loop-block :
      (b tail : List ℕ)
      → AreBytes b
      → length b ≡ 64
      → 0 < length tail
      → IsBehind read s
      → scan_loop (suc fuel) (read ++ (b ++ tail)) (length read) s
        ≡ scan_loop fuel ((read ++ b) ++ tail) (length (read ++ b)) (behind_block read b s)
  unfolding scan_loop
  scan_loop-block b tail bytes h more i =
      let test : ltb (length read) (length (read ++ (b ++ tail)) - 64) ≡ true =
        ground (arith, length-append read (b ++ tail), length-append b tail) in
      let n : length read + 64 ≡ length (read ++ b) = omega (arith, length-append read b) in
      rw
        (
          scan_loop,
          test,
          drop-read read (b ++ tail),
          scan_block-behind_block read b s tail bytes h i,
          n,
        )
        (ap (λ r. scan_loop fuel r (length (read ++ b)) (behind_block read b s))
          (sym (append_assoc read b tail)))

  -- The block behind the loop.
  scan_loop-rest :
      (rest : List ℕ)
      → AreBytes (padded rest)
      → 0 < length rest
      → length rest ≤ 64
      → IsBehind read s
      → scan_loop (suc fuel) (read ++ rest) (length read) s
        ≡ ok (length (read ++ padded rest), behind_block read (padded rest) s)
  unfolding scan_loop
  scan_loop-rest rest bytes some_left h i =
      let test : ltb (length read) (length (read ++ rest) - 64) ≡ false =
        ground (arith, length-append read rest) in
      let inside : ltb (length read) (length (read ++ rest)) ≡ true =
        ground (arith, length-append read rest) in
      let p : 64 - length rest ≡ (64 - length rest % 64) % 64 = omega arith in
      let n : length (padded rest) ≡ 64 = omega (
        arith,
        length-append rest (replicate ((64 - length rest % 64) % 64) 0x20),
        length-replicate {A = ℕ} ((64 - length rest % 64) % 64) 0x20,
      ) in
      let m : length read + 64 ≡ length (read ++ padded rest) =
        omega (arith, length-append read (padded rest)) in
      let ran : scan_block (padded rest) (length read) s ≡ ok (behind_block read (padded rest) s) =
        ap (λ r. scan_block r (length read) s) (sym (append-nil (padded rest)))
        ∙ scan_block-behind_block read (padded rest) s [] bytes n i in
      rw (scan_loop, test, inside, drop-read read rest, p, ran, m) refl

  scan_loop-nil : scan_loop (suc fuel) (read ++ []) (length read) s ≡ ok (length (read ++ []), s)
  unfolding scan_loop
  scan_loop-nil =
      let test : ltb (length read) (length (read ++ []) - 64) ≡ false =
        ground (arith, length-append read []) in
      let inside : ltb (length read) (length (read ++ [])) ≡ false =
        ground (arith, length-append read []) in
      rw (scan_loop, test, inside) (ap (λ n. ok (n, s)) (omega (arith, length-append read [])))

  -- What the loop comes to from here on.
  abbrev Scans : List ℕ → Type 0
  Scans rest =
      (s' : Scan) × (scan_loop fuel (read ++ rest) (length read) s
        ≡ ok (length (read ++ padded rest), s'))
      × IsBehind (read ++ padded rest) s'
      × (s'.utf8 ≡ utf8_run (block_count rest) s.utf8 (padded rest))

pub AreBytes-padded : (s : List ℕ) → AreBytes s → AreBytes (padded s)
AreBytes-padded s b =
    AreBytes-append s _ b (AreBytes-replicate ((64 - length s % 64) % 64) 0x20 (omega arith))

padded-append : (b tail : List ℕ) → length b ≡ 64 → padded (b ++ tail) ≡ b ++ padded tail
padded-append b tail h =
    let n : (64 - length (b ++ tail) % 64) % 64 ≡ (64 - length tail % 64) % 64 =
      omega (arith, length-append b tail) in
    ap (λ m. (b ++ tail) ++ replicate m 0x20) n
    ∙ append_assoc b tail (replicate ((64 - length tail % 64) % 64) 0x20)

utf8_run-block :
    (u : Utf8State) (b tail : List ℕ)
    → length b ≡ 64
    → utf8_run (block_count (b ++ tail)) u (padded (b ++ tail))
      ≡ utf8_run (block_count tail) (check_utf8 (block b) u) (padded tail)
utf8_run-block u b tail h =
    let n : block_count (b ++ tail) ≡ suc (block_count tail) =
      omega (arith, length-append b tail) in
    let d : drop 64 (b ++ padded tail) ≡ padded tail =
      subst (λ m. drop m (b ++ padded tail) ≡ padded tail) h (drop-read b (padded tail)) in
    ap (λ m. utf8_run m u (padded (b ++ tail))) n
    ∙ (ap (utf8_run (suc (block_count tail)) u) (padded-append b tail h)
        ∙ (ap (λ x. utf8_run (block_count tail) (check_utf8 x u) (drop 64 (b ++ padded tail)))
              (block-append b (padded tail) h)
            ∙ ap (utf8_run (block_count tail) (check_utf8 (block b) u)) d))

module _ (fuel : ℕ) (read : List ℕ) (s : Scan) (i : IsBehind read s) where
  Scans-block :
      (b tail : List ℕ)
      → AreBytes b
      → length b ≡ 64
      → 0 < length tail
      → Scans (read ++ b) (behind_block read b s) fuel tail
      → Scans read s (suc fuel) (b ++ tail)
  Scans-block b tail bytes h more (s', e, j, u) =
      let whole : (read ++ b) ++ padded tail ≡ read ++ padded (b ++ tail) =
        append_assoc read b (padded tail) ∙ ap (λ r. read ++ r) (sym (padded-append b tail h)) in
      (
        s',
        scan_loop-block read s fuel b tail bytes h more i ∙ (e ∙ ap (λ r. ok (length r, s')) whole),
        subst (λ r. IsBehind r s') whole j,
        u ∙ sym (utf8_run-block s.utf8 b tail h),
      )

  Scans-rest :
      (rest : List ℕ)
      → AreBytes rest
      → 0 < length rest
      → length rest ≤ 64
      → length read + 64 ≤ 2 ^ 32
      → Scans read s (suc fuel) rest
  Scans-rest rest bytes some_left h l =
      let one : block_count rest ≡ 1 = omega arith in
      let n : length (padded rest) ≡ 64 = omega (
        arith,
        length-append rest (replicate ((64 - length rest % 64) % 64) 0x20),
        length-replicate {A = ℕ} ((64 - length rest % 64) % 64) 0x20,
      ) in
      (
        behind_block read (padded rest) s,
        scan_loop-rest read s fuel rest (AreBytes-padded rest bytes) some_left h i,
        behind_block-IsBehind read (padded rest) s n l i,
        sym (ap (λ m. utf8_run m s.utf8 (padded rest)) one),
      )

nonzero : (n : ℕ) → (n == 0) ≡ false → 0 < n
nonzero n h = ground arith

beyond : (n : ℕ) → leb n 64 ≡ false → 64 < n
beyond n h = ground arith

-- From variables that tell what a scanner knows behind the bytes that were read, and on fuel of
-- which 64 times exceeds the bytes that are left, the loop of `find_structural_bits` with the
-- block behind it ends behind the input, padded with spaces to whole blocks, with variables that
-- tell what the scanner knows there, and with the state of the UTF-8 check over these blocks.
pub scan_loop-Scans :
    (fuel : ℕ) (read : List ℕ) (s : Scan) (rest : List ℕ)
    → AreBytes rest
    → length read + length rest + 64 ≤ 2 ^ 32
    → length rest < 64 * fuel
    → IsBehind read s
    → Scans read s fuel rest
scan_loop-Scans zero read s rest bytes l f i = absurd (omega arith)
scan_loop-Scans (suc fuel) read s rest bytes l f i = elim (Bool-cases (length rest == 0)) [
  | inl e ↦
      let none_left : [] ≡ rest = sym (no_elements rest ((==_iff _ _).0 e)) in
      subst (Scans read s (suc fuel)) none_left
        (s, scan_loop-nil read s fuel, subst (λ r. IsBehind r s) (sym (append-nil read)) i, refl)
  | inr e ↦ elim (Bool-cases (leb (length rest) 64)) [
    | inl e' ↦ Scans-rest fuel read s i rest bytes (nonzero _ e) (leb→le _ _ e') (omega arith)
    | inr e' ↦
        let far : 64 < length rest = beyond _ e' in
        let b = take 64 rest in
        let tail = drop 64 rest in
        let h : length b ≡ 64 = length-take 64 rest (omega arith) in
        let n : 64 + length tail ≡ length rest = omega (arith, length-drop 64 rest) in
        subst (Scans read s (suc fuel)) (take-drop 64 rest) (
          Scans-block fuel read s i b tail (AreBytes-take 64 rest bytes) h (omega arith) (
            scan_loop-Scans fuel (read ++ b) (behind_block read b s) tail
              (AreBytes-drop 64 rest bytes) (omega (arith, length-append read b)) (omega arith)
              (behind_block-IsBehind read b s h (omega arith) i)))
  ]
]

-- The UTF-8 check of `find_structural_bits` finds nothing wrong.
unfoldable pub passes_utf8 : List ℕ → Bool
passes_utf8 input =
    testz 0xff
      (utf8_run (block_count input) (record { has_error = set1 0; previous = unprocessed })
        (padded input)).has_error
