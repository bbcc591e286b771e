-- ===== src/Stage1/Escapes.antt =====
-- src/stage1.rs, `find_odd_backslash_sequences`: its words, by their bits.
use simdjson_rs.Prelude.{
  ℕ, zero, suc, ◌+◌, ◌%◌, Bool, true, false, not, ◌&&◌, ◌||◌, List, [], ◌∷◌, map, length, ◌≡◌, refl,
  sym, ap, ◌∙◌, arith, bit_and, bit_or, bit_xor,
}
use simdjson_rs.Stage1.{
  SimdInput, cmp_mask_against_input, find_odd_backslash_sequences, pack, complement, shl1,
  even_bits, u64_mod,
}
use simdjson_rs.Stage1.Scanner.{xor}
use simdjson_rs.Stage1.Words.{
  bit, zip, length-zip, length-map, shift, length-shift, sum, carry, length-sum, bit_and-pack,
  bit_or-pack, complement-pack, shl1-pack, sum-pack, carry-pack,
}
use simdjson_rs.Stage1.Odd.{
  alternate, pulse, starts, even_mask, even_starts, odd_starts, behind_odd, parity, odd_ends_lem,
  even_at, carry_lem,
}

length-alternate : (e : Bool) (n : ℕ) → length (alternate e n) ≡ n
length-alternate e zero = refl
length-alternate e (suc n) = ap suc (length-alternate (not e) n)

pub length-pulse : (w : Bool) (n : ℕ) → length (pulse w n) ≡ n
length-pulse w zero = refl
length-pulse w (suc n) = ap suc (length-pulse false n)

-- The words of the code that do not depend on the input.
pub bit-pulse : (r : Bool) → bit r ≡ pack (pulse r 64)
bit-pulse true = refl
bit-pulse false = refl

mask_word :
    (r : Bool) (bs : List Bool)
    → length bs ≡ 64
    → bit_xor even_bits (bit r) ≡ pack (even_mask true r bs)
mask_word true bs h = rw h refl
mask_word false bs h = rw h refl

even_word : (bs : List Bool) → length bs ≡ 64 → even_bits ≡ pack (alternate true (length bs))
even_word bs h = rw h refl

odd_word :
    (bs : List Bool)
    → length bs ≡ 64
    → complement even_bits ≡ pack (map not (alternate true (length bs)))
odd_word bs h = rw h refl

module _ (r : Bool) (bs : List Bool) (h : length bs ≡ 64) where
  length-starts : length (starts false bs) ≡ 64
  length-starts =
      length-zip ◌&&◌ bs (map not (shift false bs))
        (sym (length-map not (shift false bs) ∙ length-shift false bs))
      ∙ h

  length_mask : length (even_mask true r bs) ≡ 64
  length_mask =
      length-zip xor (alternate true (length bs)) (pulse r (length bs))
        (length-alternate true (length bs) ∙ sym (length-pulse r (length bs)))
      ∙ (length-alternate true (length bs) ∙ h)

  length-not : (a : List Bool) → length a ≡ 64 → length (map not a) ≡ 64
  length-not a g = length-map not a ∙ g

  length_both :
      (f : Bool → Bool → Bool) (a b : List Bool)
      → length a ≡ 64
      → length b ≡ 64
      → length (zip f a b) ≡ 64
  length_both f a b g i = length-zip f a b (g ∙ sym i) ∙ g

  start_word : bit_and (pack bs) (complement (shl1 (pack bs))) ≡ pack (starts false bs)
  start_word =
      rw (shl1-pack bs h, complement-pack (shift false bs) (length-shift false bs ∙ h))
        (bit_and-pack bs (map not (shift false bs))
          (h ∙ sym (length-not (shift false bs) (length-shift false bs ∙ h))))

  even_starts_word :
      bit_and (pack (starts false bs)) (pack (even_mask true r bs))
      ≡ pack (even_starts false true r bs)
  even_starts_word =
      bit_and-pack (starts false bs) (even_mask true r bs) (length-starts ∙ sym length_mask)

  odd_starts_word :
      bit_and (pack (starts false bs)) (complement (pack (even_mask true r bs)))
      ≡ pack (odd_starts false true r bs)
  odd_starts_word = rw (complement-pack (even_mask true r bs) length_mask) (
      bit_and-pack (starts false bs) (map not (even_mask true r bs))
        (length-starts ∙ sym (length-not (even_mask true r bs) length_mask)))

  length_even : length (even_starts false true r bs) ≡ 64
  length_even = length_both ◌&&◌ (starts false bs) (even_mask true r bs) length-starts length_mask

  length_odd : length (odd_starts false true r bs) ≡ 64
  length_odd =
      length_both ◌&&◌ (starts false bs) (map not (even_mask true r bs)) length-starts
        (length-not (even_mask true r bs) length_mask)

  -- The ends of the sequences that a sum runs over, at the places that a mask picks.
  ends_word :
      (a m : List Bool)
      → length a ≡ 64
      → length m ≡ 64
      → bit_and (bit_and (pack a) (complement (pack bs))) (pack m)
        ≡ pack (zip ◌&&◌ (zip ◌&&◌ a (map not bs)) m)
  ends_word a m g i =
      let inner = length_both ◌&&◌ a (map not bs) g (length-not bs h) in
      rw (complement-pack bs h, bit_and-pack a (map not bs) (g ∙ sym (length-not bs h)))
        (bit_and-pack (zip ◌&&◌ a (map not bs)) m (inner ∙ sym i))

  abbrev even_sum : List Bool
  even_sum = sum false bs (even_starts false true r bs)

  abbrev odd_sum : List Bool
  odd_sum = zip ◌||◌ (sum false bs (odd_starts false true r bs)) (pulse r (length bs))

  length-sum_word : (a : List Bool) → length a ≡ 64 → length (sum false bs a) ≡ 64
  length-sum_word a g = length-sum false bs a (h ∙ sym g) ∙ h

  odd_sum_word :
      bit_or ((pack bs + pack (odd_starts false true r bs)) % u64_mod) (bit r) ≡ pack odd_sum
  odd_sum_word =
      let w : bit r ≡ pack (pulse r (length bs)) =
        bit-pulse r ∙ ap (λ n. pack (pulse r n)) (sym h) in
      let p : length (pulse r (length bs)) ≡ 64 = length-pulse r (length bs) ∙ h in
      let s = sum false bs (odd_starts false true r bs) in
      rw (sum-pack bs (odd_starts false true r bs) h length_odd, w)
        (bit_or-pack s (pulse r (length bs))
          (length-sum_word (odd_starts false true r bs) length_odd ∙ sym p))

  odd_ends_word :
      bit_or
        (bit_and (bit_and (pack even_sum) (complement (pack bs))) (complement even_bits))
        (bit_and (bit_and (pack odd_sum) (complement (pack bs))) even_bits)
      ≡ pack (behind_odd r bs)
  odd_ends_word =
      let alternating : length (alternate true (length bs)) ≡ 64 =
        length-alternate true (length bs) ∙ h in
      let flipped = length-not (alternate true (length bs)) alternating in
      let odd_length =
        length_both ◌||◌ (sum false bs (odd_starts false true r bs)) (pulse r (length bs))
          (length-sum_word (odd_starts false true r bs) length_odd)
          (length-pulse r (length bs) ∙ h) in
      let even_length = length-sum_word (even_starts false true r bs) length_even in
      let left =
        length_both ◌&&◌ (zip ◌&&◌ even_sum (map not bs)) (map not (alternate true (length bs)))
          (length_both ◌&&◌ even_sum (map not bs) even_length (length-not bs h)) flipped in
      let right =
        length_both ◌&&◌ (zip ◌&&◌ odd_sum (map not bs)) (alternate true (length bs))
          (length_both ◌&&◌ odd_sum (map not bs) odd_length (length-not bs h)) alternating in
      rw
        (
          odd_word bs h,
          even_word bs h,
          ends_word even_sum (map not (alternate true (length bs))) even_length flipped,
          ends_word odd_sum (alternate true (length bs)) odd_length alternating,
        )
        (bit_or-pack
            (zip ◌&&◌ (zip ◌&&◌ even_sum (map not bs)) (map not (alternate true (length bs))))
            (zip ◌&&◌ (zip ◌&&◌ odd_sum (map not bs)) (alternate true (length bs)))
            (left ∙ sym right)
          ∙ ap pack (odd_ends_lem r bs))

-- The carry out of the sum over odd places tells whether the last sequence is odd.
carry_word :
    (r : Bool) (bs : List Bool)
    → length bs ≡ 64
    → carry false bs (odd_starts false true r bs) ≡ parity r bs
carry_word r [] h = absurd (omega arith)
carry_word r (b ∷ bs) h =
    let n : length bs ≡ 63 = omega arith in carry_lem r b bs (ap (even_at false) n)

-- Where the backslashes of a block are given as 64 bits, `find_odd_backslash_sequences` marks the
-- bytes behind an odd number of backslashes, the run at the end of the block before included, and
-- carries on whether the block ends with an odd number.
pub find_odd_backslash_sequences-behind_odd :
    (input : SimdInput) (r : Bool) (bs : List Bool)
    → length bs ≡ 64
    → cmp_mask_against_input input 0x5c ≡ pack bs
    → find_odd_backslash_sequences input (bit r) ≡ (pack (behind_odd r bs), bit (parity r bs))
unfolding find_odd_backslash_sequences
find_odd_backslash_sequences-behind_odd input r bs h e =
    rw
      (
        e,
        start_word r bs h,
        mask_word r bs h,
        even_starts_word r bs h,
        odd_starts_word r bs h,
        sum-pack bs (even_starts false true r bs) h (length_even r bs h),
        odd_sum_word r bs h,
        carry-pack bs (odd_starts false true r bs) h (length_odd r bs h),
        carry_word r bs h,
        odd_ends_word r bs h,
      )
      refl
