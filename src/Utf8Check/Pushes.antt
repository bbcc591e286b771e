-- ===== src/Utf8Check/Pushes.antt =====
-- src/utf8check.rs, `avxcheck_utf8_bytes`: its vectors are those that walk over the lanes.
use simdjson_rs.Prelude.{
  ℕ, suc, ◌+◌, ◌*◌, ◌/◌, ◌%◌, ◌<◌, List, [], ◌∷◌, map, length, get_or, replicate, ◌≡◌, refl, ap,
  ◌∙◌, subst, arith, bit_and, bit_or, AreBytes, ◌==◌, ==_iff, true,
}
use simdjson_rs.Prelude.Table.{all_below, all_below_sound}
use simdjson_rs.Utf8Check.{
  lanes, set1, shuffle, cmpgt, subs, add8, initial_mins_table, second_mins_table,
  push_last_byte_of_a_to_b, push_last_2bytes_of_a_to_b, avxcheck_smaller_than_0xf4,
  avxcontinuation_lengths, avxcarry_continuations, avxcheck_continuations,
  avxcheck_first_continuation_max, avxcheck_overlong, AvxProcessedUtfBytes, srli_epi16,
  avx_count_nibbles, avxcheck_utf8_bytes,
}
use simdjson_rs.Utf8Check.Lanes.{length_of}
use simdjson_rs.Utf8Check.Walk.{
  shift, take-shift, take-shift-shift, carries, errors, nibbles, lengths, sums, all_carries,
  all_carries-carries, all_errors, all_errors-errors,
}

-- `_mm256_srli_epi16` and the mask.
nibble_table : all_below 256 (λ x. bit_and x 0x0f == x % 16) ≡ true
unfolding all_below
nibble_table = refl

nibble_low : (a b : ℕ) → a < 256 → bit_and (a / 16 + b % 16 * 16) 0x0f ≡ a / 16
nibble_low a b h =
    (==_iff _ _).0 (all_below_sound 256 _ nibble_table (a / 16 + b % 16 * 16) (omega arith))
    ∙ omega arith

nibble_high : (a : ℕ) → a < 256 → bit_and (a / 16) 0x0f ≡ a / 16
nibble_high a h =
    (==_iff _ _).0 (all_below_sound 256 _ nibble_table (a / 16) (omega arith)) ∙ omega arith

nibbles_lem :
    (v : List ℕ)
    → AreBytes v
    → length v % 2 ≡ 0
    → lanes bit_and (srli_epi16 v) (replicate (length v) 0x0f) ≡ nibbles v
nibbles_lem [] b h = refl
nibbles_lem (x ∷ []) b h = absurd (omega arith)
nibbles_lem (x ∷ (y ∷ v)) (bx, (by, b)) h =
    rw (nibble_low x y bx, nibble_high y by, nibbles_lem v b (omega arith)) refl

length-map : (f : ℕ → ℕ) (v : List ℕ) → length (map f v) ≡ length v
length-map f [] = refl
length-map f (c ∷ v) = ap suc (length-map f v)

length-sums : (l : ℕ) (v : List ℕ) → length v ≡ 32 → length (sums 32 l v) ≡ 32
length-sums l v h = subst (λ m. length (sums m l v) ≡ m) h (length-sums_self l v)
  where
    length-sums_self : (l : ℕ) (v : List ℕ) → length (sums (length v) l v) ≡ length v
    length-sums_self l [] = refl
    length-sums_self l (c ∷ v) = ap suc (length-sums_self (length_of c) v)

pushed_byte :
    (a b : List ℕ) → length b ≡ 32 → push_last_byte_of_a_to_b a b ≡ shift (get_or a 31 0) b
unfolding push_last_byte_of_a_to_b
pushed_byte a b h = take-shift 31 (get_or a 31 0) b h

pushed_bytes :
    (a b : List ℕ)
    → length b ≡ 32
    → push_last_2bytes_of_a_to_b a b ≡ shift (get_or a 30 0) (shift (get_or a 31 0) b)
unfolding push_last_2bytes_of_a_to_b
pushed_bytes a b h = take-shift-shift 30 (get_or a 30 0) (get_or a 31 0) b h

module _ (v : List ℕ) (h : length v ≡ 32) where
  counted : AreBytes v → avx_count_nibbles v ≡ nibbles v
  unfolding avx_count_nibbles
  counted b =
      subst (λ m. lanes bit_and (srli_epi16 v) (replicate m 0x0f) ≡ nibbles v) h
        (nibbles_lem v b (ap (λ m. m % 2) h))

  measured : avxcontinuation_lengths (nibbles v) ≡ lengths v
  unfolding avxcontinuation_lengths
  measured = refl

  length-lengths : length (lengths v) ≡ 32
  length-lengths = length-map _ (nibbles v) ∙ (length-map _ v ∙ h)

  carried :
      (c : List ℕ)
      → avxcarry_continuations (lengths v) c
        ≡ carries (get_or c 31 0) (get_or c 30 0) (get_or c 31 0) v
  unfolding avxcarry_continuations push_last_byte_of_a_to_b push_last_2bytes_of_a_to_b
  carried c =
      let l = get_or c 31 0 in
      let s = get_or c 30 0 in
      let sum_of : List ℕ → List ℕ = λ x. lanes add8 (lengths v) (lanes subs x (set1 1)) in
      ap
        (λ x. lanes add8 (sum_of x) (lanes subs (push_last_2bytes_of_a_to_b c (sum_of x)) (set1 2)))
        (pushed_byte c (lengths v) length-lengths)
      ∙ (ap (λ y. lanes add8 (sums 32 l v) (lanes subs y (set1 2)))
            (pushed_bytes c (sums 32 l v) (length-sums l v h))
          ∙ subst (λ m. all_carries m l s l v ≡ carries l s l v) h (all_carries-carries l s l v))

  checked :
      (l s p : ℕ) (hib e : List ℕ)
      → get_or hib 31 0 ≡ p / 16
      → avxcheck_overlong v (shift p v) (nibbles v) hib (
          avxcheck_first_continuation_max v
            (shift p v)
            (avxcheck_continuations (lengths v) (carries l s l v) (avxcheck_smaller_than_0xf4 v e)))
        ≡ errors l s l p e v
  unfolding avxcheck_smaller_than_0xf4 avxcheck_continuations avxcheck_first_continuation_max
      avxcheck_overlong push_last_byte_of_a_to_b
  checked l s p hib e n =
      let nibs : length (nibbles v) ≡ 32 = length-map _ v ∙ h in
      ap
        (λ x.
          lanes bit_or
            (avxcheck_first_continuation_max v (shift p v) (
              avxcheck_continuations (lengths v) (carries l s l v)
                (avxcheck_smaller_than_0xf4 v e)))
            (lanes bit_and (lanes cmpgt (map (shuffle initial_mins_table) x) (shift p v))
              (lanes cmpgt (map (shuffle second_mins_table) x) v)))
        (pushed_byte hib (nibbles v) nibs ∙ ap (λ q. shift q (nibbles v)) n)
      ∙ subst (λ m. all_errors m l s l p e v ≡ errors l s l p e v) h (all_errors-errors l s l p e v)

-- The state of the check behind a vector.
pub avxcheck_utf8_bytes-errors :
    (v e : List ℕ) (previous : AvxProcessedUtfBytes)
    → AreBytes v
    → length v ≡ 32
    → get_or previous.high_nibbles 31 0 ≡ get_or previous.rawbytes 31 0 / 16
    → let l = get_or previous.carried_continuations 31 0 in
      let s = get_or previous.carried_continuations 30 0 in
      avxcheck_utf8_bytes v previous e ≡ (
        record { rawbytes = v; high_nibbles = nibbles v; carried_continuations = carries l s l v },
        errors l s l (get_or previous.rawbytes 31 0) e v,
      )
unfolding avxcheck_utf8_bytes
avxcheck_utf8_bytes-errors v e previous b h n =
    let l = get_or previous.carried_continuations 31 0 in
    let s = get_or previous.carried_continuations 30 0 in
    rw
      (
        counted v h b,
        measured v h,
        carried v h previous.carried_continuations,
        pushed_byte previous.rawbytes v h,
        checked v h l s (get_or previous.rawbytes 31 0) previous.high_nibbles e n,
      )
      refl
