-- ===== src/Stage1/Buckets.antt =====
-- src/stage1.rs, `find_whitespace_and_structurals`: the two tables, over all bytes.
use simdjson_rs.Prelude.{
  AreBytes, AreBytes-take, AreBytes-drop, subst, ℕ, ◌+◌, ◌*◌, ◌/◌, ◌%◌, ◌<◌, Bool, true, false, not,
  List, [], ◌∷◌, map, length, ◌≡◌, refl, ap, ◌∙◌, arith, replicate, bit_and, if◌then◌else◌, get_or,
  ◌==◌, ==_iff, leb, take, drop,
}
use Prim.Native.Nat.{max}
use simdjson_rs.Prelude.Table.{all_below, all_below_sound, same_test}
use simdjson_rs.Utf8Check.{lanes, shuffle}
use simdjson_rs.Stage1.{
  pack, join, unsigned_lteq_against_input, buckets, in_buckets, find_whitespace_and_structurals,
  low_nibble_mask, high_nibble_mask, srli_epi32,
}
use simdjson_rs.Stage1.Words.{length-map, complement-pack}
use simdjson_rs.Stage1.Scanner.{is_structural, is_whitespace}
use simdjson_rs.Stage1.Classes.{block, length_lo, length_hi, join-movemask}

-- The buckets of a byte.
abbrev bucket : ℕ → ℕ
bucket c = bit_and (shuffle low_nibble_mask c) (get_or high_nibble_mask (c / 16) 0)

high_table :
    all_below 256
      (λ x. shuffle high_nibble_mask (bit_and x 0x7f) == get_or high_nibble_mask (x % 16) 0)
    ≡ true
unfolding all_below
high_table = refl

-- The byte of the shifted lane, whose upper half the mask and the shuffle drop.
high_lem :
    (a b : ℕ)
    → a < 256
    → shuffle high_nibble_mask (bit_and (a / 16 + b % 16 * 16) 0x7f)
      ≡ get_or high_nibble_mask (a / 16) 0
high_lem a b h =
    let e : (a / 16 + b % 16 * 16) % 16 ≡ a / 16 = omega arith in
    (==_iff _ _).0 (all_below_sound 256 _ high_table (a / 16 + b % 16 * 16) (omega arith))
    ∙ ap (λ n. get_or high_nibble_mask n 0) e

high_last :
    (a : ℕ)
    → a < 256
    → shuffle high_nibble_mask (bit_and (a / 16) 0x7f) ≡ get_or high_nibble_mask (a / 16) 0
high_last a h =
    let e : a / 16 % 16 ≡ a / 16 = omega arith in
    (==_iff _ _).0 (all_below_sound 256 _ high_table (a / 16) (omega arith))
    ∙ ap (λ n. get_or high_nibble_mask n 0) e

buckets-map :
    (v : List ℕ)
    → AreBytes v
    → length v % 4 ≡ 0
    → lanes bit_and
        (map (shuffle low_nibble_mask) v)
        (map (shuffle high_nibble_mask) (lanes bit_and (srli_epi32 v) (replicate (length v) 0x7f)))
      ≡ map bucket v
buckets-map [] b h = refl
buckets-map (x ∷ []) b h = absurd (omega arith)
buckets-map (x ∷ (y ∷ [])) b h = absurd (omega arith)
buckets-map (x ∷ (y ∷ (z ∷ []))) b h = absurd (omega arith)
buckets-map (x ∷ (y ∷ (z ∷ (w ∷ v)))) (bx, (by, (bz, (bw, b)))) h =
    rw
      (
        high_lem x y bx,
        high_lem y z by,
        high_lem z w bz,
        high_last w bw,
        buckets-map v b (omega arith),
      )
      refl

not-not : (a : List Bool) → map not (map not a) ≡ a
not-not [] = refl
not-not (true ∷ a) = ap (λ r. true ∷ r) (not-not a)
not-not (false ∷ a) = ap (λ r. false ∷ r) (not-not a)

map-map : (class : ℕ → Bool) (v : List ℕ) → map not (map class v) ≡ map (λ c. not (class c)) v
map-map class [] = refl
map-map class (c ∷ v) = ap (λ r. not (class c) ∷ r) (map-map class v)

joined_not :
    (class : ℕ → Bool) (s : List ℕ)
    → length s ≡ 64
    → join
        (pack (map not (map class (take 32 s))))
        (pack (map not (map class (take 32 (drop 32 s)))))
      ≡ pack (map not (map class s))
joined_not class s h =
    rw (map-map class (take 32 s), map-map class (take 32 (drop 32 s)), map-map class s)
      (join-movemask s h (λ c. not (class c)))

-- A test of the buckets against a test of the byte, over all bytes.
module _ (mask : ℕ) (class : ℕ → Bool)
    (table : all_below 256
        (λ c. (if bit_and (bucket c) mask == 0 then 1 else 0) == (if not (class c) then 1 else 0))
      ≡ true) where
  bucket_test : (c : ℕ) → c < 256 → (bit_and (bucket c) mask == 0) ≡ not (class c)
  bucket_test c h = same_test _ _ ((==_iff _ _).0 (all_below_sound 256 _ table c h))

  bucket_tests :
      (v : List ℕ)
      → AreBytes v
      → map (λ b. bit_and b mask == 0) (map bucket v) ≡ map not (map class v)
  bucket_tests [] b = refl
  bucket_tests (c ∷ v) (h, b) =
      ap (λ t. t ∷ map (λ b. bit_and b mask == 0) (map bucket v)) (bucket_test c h)
      ∙ ap (λ r. not (class c) ∷ r) (bucket_tests v b)

  half_tests :
      (v : List ℕ)
      → AreBytes v
      → length v ≡ 32
      → map (λ b. bit_and b mask == 0) (buckets v) ≡ map not (map class v)
  unfolding buckets
  half_tests v b h =
      let as_map : buckets v ≡ map bucket v =
        subst
          (λ n.
            lanes bit_and (map (shuffle low_nibble_mask) v)
              (map (shuffle high_nibble_mask) (lanes bit_and (srli_epi32 v) (replicate n 0x7f)))
            ≡ map bucket v)
          h (buckets-map v b (ap (λ n. n % 4) h)) in
      ap (map (λ b. bit_and b mask == 0)) as_map ∙ bucket_tests v b

  in_buckets-pack :
      (s : List ℕ) → AreBytes s → length s ≡ 64 → in_buckets (block s) mask ≡ pack (map class s)
  in_buckets-pack s b h =
      let lo = take 32 s in
      let hi = take 32 (drop 32 s) in
      let b_lo = AreBytes-take 32 s b in
      let b_hi = AreBytes-take 32 (drop 32 s) (AreBytes-drop 32 s b) in
      let joined : join (pack (map not (map class lo))) (pack (map not (map class hi)))
          ≡ pack (map not (map class s)) =
        joined_not class s h in
      rw
        (
          half_tests lo b_lo (length_lo s h),
          half_tests hi b_hi (length_hi s h),
          joined,
          complement-pack (map not (map class s))
              (length-map not (map class s) ∙ (length-map class s ∙ h)),
        )
        (ap pack (not-not (map class s)))

structural_table :
    all_below 256 (λ c.
      (if bit_and (bucket c) 0x7 == 0 then 1 else 0) == (if not (is_structural c) then 1 else 0))
    ≡ true
unfolding all_below is_structural
structural_table = refl

whitespace_table :
    all_below 256 (λ c.
      (if bit_and (bucket c) 0x18 == 0 then 1 else 0) == (if not (is_whitespace c) then 1 else 0))
    ≡ true
unfolding all_below is_whitespace
whitespace_table = refl

-- Of a block of 64 bytes, `find_whitespace_and_structurals` marks the four whitespace characters
-- and the six structural characters: its two table lookups agree with comparisons.
pub find_whitespace_and_structurals-pack :
    (s : List ℕ)
    → AreBytes s
    → length s ≡ 64
    → find_whitespace_and_structurals (block s)
      ≡ (pack (map is_whitespace s), pack (map is_structural s))
unfolding find_whitespace_and_structurals
find_whitespace_and_structurals-pack s b h =
    rw
      (
        in_buckets-pack 0x18 is_whitespace whitespace_table s b h,
        in_buckets-pack 0x7 is_structural structural_table s b h,
      )
      refl

at_most_test : (c : ℕ) → (max 0x1f c == 0x1f) ≡ leb c 0x1f
at_most_test c = ground arith

at_most_tests : (s : List ℕ) → map (λ c. max 0x1f c == 0x1f) s ≡ map (λ c. leb c 0x1f) s
at_most_tests [] = refl
at_most_tests (c ∷ s) =
    ap (λ t. t ∷ map (λ c. max 0x1f c == 0x1f) s) (at_most_test c)
    ∙ ap (λ r. leb c 0x1f ∷ r) (at_most_tests s)

pub unsigned_lteq_against_input-pack :
    (s : List ℕ)
    → length s ≡ 64
    → unsigned_lteq_against_input (block s) 0x1f ≡ pack (map (λ c. leb c 0x1f) s)
unfolding unsigned_lteq_against_input
unsigned_lteq_against_input-pack s h =
    join-movemask s h (λ c. max 0x1f c == 0x1f) ∙ ap pack (at_most_tests s)
