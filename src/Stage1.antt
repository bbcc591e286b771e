-- ===== src/Stage1.antt =====
-- src/stage1.rs: the structural characters of 64 bytes at a time. A `u64` is a number below
-- 2 ^ 64, a vector the list of its bytes.
pub mod Words
pub mod Prefix
pub mod Scanner
pub mod Odd
pub mod Escapes
pub mod Classes
pub mod Buckets
pub mod Strings
pub mod Final
pub mod Flatten
pub mod Stores
pub mod Loop
pub mod Rounds
pub mod Whole
pub mod Ascii
pub mod Encoding
pub mod Tracking
pub mod Utf8
use simdjson_rs.Prelude.{
  ℕ, zero, suc, ◌+◌, ◌-◌, ◌*◌, ◌/◌, ◌%◌, ◌^◌, Bool, true, false, not, ◌&&◌, ◌||◌, Option, none,
  some, List, [], ◌∷◌, ◌++◌, map, bit_and, bit_or, bit_xor, take, drop, get_or, length, replicate,
  overwrite_at, ltb, leb, ◌==◌, if◌then◌else◌,
}
use Prim.Native.Nat.{max}
use simdjson_rs.Error.{
  ErrorType, syntax, eof, internal_error, invalid_utf8, Outcome, ok, err, fault, out_of_fuel, ◌>>=◌,
}
use simdjson_rs.ParseStr.{trailingzeroes}
use simdjson_rs.Utf8Check.{
  lanes, set1, shuffle, cmpgt, AvxProcessedUtfBytes, unprocessed, avxcheck_utf8_bytes,
}

abbrev pub u64_mod : ℕ
u64_mod = 2 ^ 64

-- `!x`, `x << 1` and `x.wrapping_sub(1)`.
abbrev pub complement : ℕ → ℕ
complement x = u64_mod - 1 - x

abbrev pub shl1 : ℕ → ℕ
shl1 x = x * 2 % u64_mod

-- The number whose digits to the base 2 are given, the lowest first.
abbrev pub pack : List Bool → ℕ
pack [] = 0
pack (b ∷ bits) = (if b then 1 else 0) + 2 * pack bits

-- `_mm256_movemask_epi8` of the lanes that a test picks.
abbrev pub movemask : (ℕ → Bool) → List ℕ → ℕ
movemask p v = pack (map p v)

-- `a | (b << 32)`, where `b` is a mask of 32 lanes.
abbrev pub join : ℕ → ℕ → ℕ
join a b = bit_or a (b * 2 ^ 32 % u64_mod)

pub record SimdInput : Type 0 where
  pub lo : List ℕ
  pub hi : List ℕ

-- The 64 bytes from a pointer on.
unfoldable pub fill_input : List ℕ → Outcome ErrorType SimdInput
fill_input ptr =
    if leb 64 (length ptr)
    then ok (record { lo = take 32 ptr; hi = take 32 (drop 32 ptr) })
    else fault

-- The state of the UTF-8 check: `has_error` and `previous`.
pub record Utf8State : Type 0 where
  pub has_error : List ℕ
  pub previous : AvxProcessedUtfBytes

-- `_mm256_testz_si256(a, set1(mask)) == 1`.
abbrev pub testz : ℕ → List ℕ → Bool
testz mask [] = true
testz mask (x ∷ v) = bit_and x mask == 0 && testz mask v

unfoldable pub check_utf8 : SimdInput → Utf8State → Utf8State
check_utf8 input u =
    if testz 0x80 (lanes bit_or input.lo input.hi)
    then record {
      has_error =
          lanes bit_or (lanes cmpgt u.previous.carried_continuations (replicate 31 9 ++ 1 ∷ []))
            u.has_error;
      previous = u.previous;
    }
    else (let (previous₁, error₁) = avxcheck_utf8_bytes input.lo u.previous u.has_error in
        let (previous₂, error₂) = avxcheck_utf8_bytes input.hi previous₁ error₁ in
        record { has_error = error₂; previous = previous₂ })

unfoldable pub cmp_mask_against_input : SimdInput → ℕ → ℕ
cmp_mask_against_input input m =
    join (movemask (λ c. c == m) input.lo) (movemask (λ c. c == m) input.hi)

unfoldable pub unsigned_lteq_against_input : SimdInput → ℕ → ℕ
unsigned_lteq_against_input input maxval =
    join (movemask (λ c. max maxval c == maxval) input.lo)
      (movemask (λ c. max maxval c == maxval) input.hi)

abbrev pub even_bits : ℕ
even_bits = 0x5555_5555_5555_5555

-- `add_overflow`: the carry, and the sum.
unfoldable pub add_overflow : ℕ → ℕ → Bool × ℕ
add_overflow value1 value2 = (leb u64_mod (value1 + value2), (value1 + value2) % u64_mod)

-- The ends of odd sequences of backslashes, and `prev_iter_ends_odd_backslash` behind the call.
unfoldable pub find_odd_backslash_sequences : SimdInput → ℕ → ℕ × ℕ
unfolding add_overflow cmp_mask_against_input
find_odd_backslash_sequences input prev =
    let bs_bits = cmp_mask_against_input input 0x5c in
    let start_edges = bit_and bs_bits (complement (shl1 bs_bits)) in
    let even_start_mask = bit_xor even_bits prev in
    let even_starts = bit_and start_edges even_start_mask in
    let odd_starts = bit_and start_edges (complement even_start_mask) in
    let even_carries = (bs_bits + even_starts) % u64_mod in
    let (iter_ends_odd_backslash, sum) = add_overflow bs_bits odd_starts in
    let odd_carries = bit_or sum prev in
    let even_carry_ends = bit_and even_carries (complement bs_bits) in
    let odd_carry_ends = bit_and odd_carries (complement bs_bits) in
    let even_start_odd_end = bit_and even_carry_ends (complement even_bits) in
    let odd_start_even_end = bit_and odd_carry_ends even_bits in
    (bit_or even_start_odd_end odd_start_even_end, if iter_ends_odd_backslash then 1 else 0)

-- The product of polynomials over two elements, of which `a` has up to `k` coefficients.
unfoldable pub clmul : ℕ → ℕ → ℕ → ℕ
clmul zero a b = 0
clmul (suc k) a b = bit_xor (if a % 2 == 1 then b else 0) (2 * clmul k (a / 2) b)

-- `x >> 63` of an `i64`.
abbrev pub sign_fill : ℕ → ℕ
sign_fill x = if leb (2 ^ 63) x then u64_mod - 1 else 0

-- The variables that `find_quote_mask_and_bits` returns or changes.
pub record Quotes : Type 0 where
  pub quote_mask : ℕ
  pub quote_bits : ℕ
  pub inside_quote : ℕ
  pub error_mask : ℕ

unfoldable pub find_quote_mask_and_bits : SimdInput → ℕ → ℕ → ℕ → Quotes
unfolding cmp_mask_against_input unsigned_lteq_against_input
find_quote_mask_and_bits input odd_ends inside error_mask =
    let quote_bits = bit_and (cmp_mask_against_input input b'"') (complement odd_ends) in
    let quote_mask = bit_xor (clmul 64 quote_bits (u64_mod - 1) % u64_mod) inside in
    let unescaped = unsigned_lteq_against_input input 0x1f in
    record {
      quote_mask = quote_mask;
      quote_bits = quote_bits;
      inside_quote = sign_fill quote_mask;
      error_mask = bit_or error_mask (bit_and quote_mask unescaped);
    }

abbrev pub low_nibble_mask : List ℕ
low_nibble_mask = 16 ∷ 0 ∷ 0 ∷ 0 ∷ 0 ∷ 0 ∷ 0 ∷ 0 ∷ 0 ∷ 8 ∷ 12 ∷ 1 ∷ 2 ∷ 9 ∷ 0 ∷ 0 ∷ []

abbrev pub high_nibble_mask : List ℕ
high_nibble_mask = 8 ∷ 0 ∷ 18 ∷ 4 ∷ 0 ∷ 1 ∷ 0 ∷ 1 ∷ 0 ∷ 0 ∷ 0 ∷ 3 ∷ 2 ∷ 1 ∷ 0 ∷ 0 ∷ []

-- `_mm256_srli_epi32(v, 4)`: four bits of the next byte of a lane come in from above.
abbrev pub srli_epi32 : List ℕ → List ℕ
srli_epi32 (a ∷ b ∷ c ∷ d ∷ v) =
    (a / 16 + b % 16 * 16) ∷ (b / 16 + c % 16 * 16) ∷ (c / 16 + d % 16 * 16) ∷ d / 16 ∷ srli_epi32 v
srli_epi32 v = v

-- `v_lo` or `v_hi`: the buckets of each byte.
unfoldable pub buckets : List ℕ → List ℕ
buckets v =
    lanes bit_and (map (shuffle low_nibble_mask) v)
      (map (shuffle high_nibble_mask) (lanes bit_and (srli_epi32 v) (set1 0x7f)))

-- The bytes that are in no bucket of a mask, then all others.
abbrev pub in_buckets : SimdInput → ℕ → ℕ
in_buckets input mask = complement (
    join (movemask (λ b. bit_and b mask == 0) (buckets input.lo))
      (movemask (λ b. bit_and b mask == 0) (buckets input.hi)))

-- `whitespace` and `structurals`.
unfoldable pub find_whitespace_and_structurals : SimdInput → ℕ × ℕ
find_whitespace_and_structurals input = (in_buckets input 0x18, in_buckets input 0x7)

-- The number of ones among `k` bits.
unfoldable pub hamming : ℕ → ℕ → ℕ
hamming zero x = 0
hamming (suc k) x = x % 2 + hamming k (x / 2)

-- `_tzcnt_u64`, which is 64 at 0.
abbrev pub tzcnt : ℕ → ℕ
tzcnt x = if x == 0 then 64 else trailingzeroes 64 x

-- The positions of `k` ones, each taken off in its turn.
unfoldable pub next_positions : ℕ → ℕ → ℕ → List ℕ × ℕ
next_positions zero idx bits = ([], bits)
next_positions (suc k) idx bits =
    let less = bit_and bits ((bits + u64_mod - 1) % u64_mod) in
    let (rest, left) = next_positions k idx less in
    ((((idx + 2 ^ 32 - 64) % 2 ^ 32 + tzcnt bits) % 2 ^ 32) ∷ rest, left)

-- The loop that stores eight positions at `l`. A store past the new length of `base` goes to memory
-- that was reserved and is never read.
unfoldable pub flatten_loop : ℕ → List ℕ → ℕ → ℕ → ℕ → Outcome ErrorType (List ℕ)
flatten_loop zero base l idx bits = out_of_fuel
flatten_loop (suc fuel) base l idx bits = elim (bits == 0) [
  | true ↦ ok base
  | false ↦
      let (positions, left) = next_positions 8 idx bits in
      flatten_loop fuel (overwrite_at l base positions) (l + 8) idx left
]

unfoldable pub flatten_bits : List ℕ → ℕ → ℕ → Outcome ErrorType (List ℕ)
flatten_bits base idx bits =
    flatten_loop 9 (base ++ replicate (hamming 64 bits) 0) (length base) (idx % 2 ^ 32) bits

-- The structurals, and `prev_iter_ends_pseudo_pred` behind the call.
unfoldable pub finalize_structurals : ℕ → ℕ → ℕ → ℕ → ℕ → ℕ × ℕ
finalize_structurals structurals whitespace quote_mask quote_bits prev =
    let s₁ = bit_and structurals (complement quote_mask) in
    let s₂ = bit_or s₁ quote_bits in
    let pseudo_pred = bit_or s₂ whitespace in
    let shifted_pseudo_pred = bit_or (shl1 pseudo_pred) prev in
    let pseudo_structurals =
      bit_and (bit_and shifted_pseudo_pred (complement whitespace)) (complement quote_mask) in
    let s₃ = bit_or s₂ pseudo_structurals in
    (bit_and s₃ (complement (bit_and quote_bits (complement quote_mask))), pseudo_pred / 2 ^ 63)

-- The variables of `find_structural_bits`.
pub record Scan : Type 0 where
  pub structural_indexes : List ℕ
  pub utf8 : Utf8State
  pub odd_backslash : ℕ
  pub inside_quote : ℕ
  pub pseudo_pred : ℕ
  pub structurals : ℕ
  pub error_mask : ℕ

abbrev pub start : Scan
start = record {
  structural_indexes = 0 ∷ [];
  utf8 = record { has_error = set1 0; previous = unprocessed };
  odd_backslash = 0;
  inside_quote = 0;
  pseudo_pred = 1;
  structurals = 0;
  error_mask = 0;
}

-- The body of the loop, which stands a second time behind it. `ptr` is the buffer from `idx` on.
unfoldable pub scan_block : List ℕ → ℕ → Scan → Outcome ErrorType Scan
scan_block ptr idx s = do
  input ← fill_input ptr
  let utf8 = check_utf8 input s.utf8
  let (odd_ends, odd_backslash) = find_odd_backslash_sequences input s.odd_backslash
  let q = find_quote_mask_and_bits input odd_ends s.inside_quote s.error_mask
  structural_indexes ← flatten_bits s.structural_indexes idx s.structurals
  let (whitespace, structurals) = find_whitespace_and_structurals input
  let (structurals', pseudo_pred) =
      finalize_structurals structurals whitespace q.quote_mask q.quote_bits s.pseudo_pred
  ok (record {
    structural_indexes = structural_indexes;
    utf8 = utf8;
    odd_backslash = odd_backslash;
    inside_quote = q.inside_quote;
    pseudo_pred = pseudo_pred;
    structurals = structurals';
    error_mask = q.error_mask;
  })

-- The loop, while `idx` is below `lenminus64`, then the rest in a buffer of spaces. The result is
-- `idx` and the variables.
unfoldable pub scan_loop : ℕ → List ℕ → ℕ → Scan → Outcome ErrorType (ℕ × Scan)
scan_loop zero input idx s = out_of_fuel
scan_loop (suc fuel) input idx s = elim (ltb idx (length input - 64)) [
  | true ↦ scan_block (drop idx input) idx s >>= λ s'. scan_loop fuel input (idx + 64) s'
  | false ↦
      if ltb idx (length input)
      then (let rest = drop idx input in
          scan_block (rest ++ replicate (64 - length rest) 0x20) idx s >>= λ s'. ok (idx + 64, s'))
      else ok (idx, s)
]

abbrev pub last : List ℕ → Option ℕ
last [] = none
last (x ∷ []) = some x
last (x ∷ (y ∷ r)) = last (y ∷ r)

-- `structural_indexes.last() > Some(&(len as u32))`.
abbrev pub above : Option ℕ → ℕ → Bool
above none n = false
above (some x) n = ltb (n % 2 ^ 32) x

abbrev pub verdict : List ℕ → List ℕ → Scan → Outcome ErrorType (List ℕ)
verdict input structural_indexes s =
    if length structural_indexes == 1
    then err eof
    else if above (last structural_indexes) (length input)
    then err internal_error
    else if not (s.error_mask == 0)
    then err syntax
    else if testz 0xff s.utf8.has_error
    then ok structural_indexes
    else err invalid_utf8

unfoldable pub find_structural_bits : List ℕ → Outcome ErrorType (List ℕ)
find_structural_bits input = scan_loop (suc (length input)) input 0 start >>= λ (idx, s).
    if not (s.inside_quote == 0)
    then err syntax
    else (flatten_bits s.structural_indexes idx s.structurals >>= λ structural_indexes.
        verdict input structural_indexes s)
