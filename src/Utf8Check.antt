-- ===== src/Utf8Check.antt =====
-- src/utf8check.rs: the check of 32 bytes at a time. A vector is the list of its 32 bytes, each
-- below 256.
pub mod Sequences
pub mod Lanes
pub mod Walk
pub mod Pushes
pub mod Carries
pub mod Runs
pub mod Vectors
pub mod States
pub mod Tracks
use simdjson_rs.Prelude.{
  ℕ, ◌+◌, ◌-◌, ◌*◌, ◌/◌, ◌%◌, Bool, List, [], ◌∷◌, ◌++◌, map, bit_and, bit_or, take, get_or,
  replicate, ltb, leb, ◌==◌, if◌then◌else◌,
}

-- An operation on the lanes of two vectors.
abbrev pub lanes : (ℕ → ℕ → ℕ) → List ℕ → List ℕ → List ℕ
lanes f [] b = []
lanes f (x ∷ a) [] = []
lanes f (x ∷ a) (y ∷ b) = f x y ∷ lanes f a b

-- `_mm256_set1_epi8`, `_mm256_setzero_si256`.
abbrev pub set1 : ℕ → List ℕ
set1 x = replicate 32 x

-- The lane of a comparison.
abbrev pub truth : Bool → ℕ
truth b = if b then 0xff else 0

-- The order of `i8` on the patterns of 8 bits.
abbrev pub cmpgt : ℕ → ℕ → ℕ
cmpgt a b = truth (ltb ((b + 128) % 256) ((a + 128) % 256))

abbrev pub cmpeq : ℕ → ℕ → ℕ
cmpeq a b = truth (a == b)

-- `_mm256_subs_epu8` stops at 0.
abbrev pub subs : ℕ → ℕ → ℕ
subs a b = a - b

abbrev pub add8 : ℕ → ℕ → ℕ
add8 a b = (a + b) % 256

-- `_mm256_shuffle_epi8` of a table of which both halves are `table`.
abbrev pub shuffle : List ℕ → ℕ → ℕ
shuffle table i = if leb 128 i then 0 else get_or table (i % 16) 0

-- `alignr(b, permute2x128(a, b, 0x21), 15)` and `… 14)`.
unfoldable pub push_last_byte_of_a_to_b : List ℕ → List ℕ → List ℕ
push_last_byte_of_a_to_b a b = get_or a 31 0 ∷ take 31 b

unfoldable pub push_last_2bytes_of_a_to_b : List ℕ → List ℕ → List ℕ
push_last_2bytes_of_a_to_b a b = get_or a 30 0 ∷ get_or a 31 0 ∷ take 30 b

unfoldable pub avxcheck_smaller_than_0xf4 : List ℕ → List ℕ → List ℕ
avxcheck_smaller_than_0xf4 current_bytes has_error =
    lanes bit_or has_error (lanes subs current_bytes (set1 0xf4))

abbrev pub continuation_lengths : List ℕ
continuation_lengths = 1 ∷ 1 ∷ 1 ∷ 1 ∷ 1 ∷ 1 ∷ 1 ∷ 1 ∷ 0 ∷ 0 ∷ 0 ∷ 0 ∷ 2 ∷ 2 ∷ 3 ∷ 4 ∷ []

unfoldable pub avxcontinuation_lengths : List ℕ → List ℕ
avxcontinuation_lengths high_nibbles = map (shuffle continuation_lengths) high_nibbles

unfoldable pub avxcarry_continuations : List ℕ → List ℕ → List ℕ
unfolding push_last_byte_of_a_to_b push_last_2bytes_of_a_to_b
avxcarry_continuations initial_lengths previous_carries =
    let right1 = lanes subs (push_last_byte_of_a_to_b previous_carries initial_lengths) (set1 1) in
    let sum = lanes add8 initial_lengths right1 in
    let right2 = lanes subs (push_last_2bytes_of_a_to_b previous_carries sum) (set1 2) in
    lanes add8 sum right2

unfoldable pub avxcheck_continuations : List ℕ → List ℕ → List ℕ → List ℕ
avxcheck_continuations initial_lengths carries has_error =
    let overunder =
      lanes cmpeq (lanes cmpgt carries initial_lengths) (lanes cmpgt initial_lengths (set1 0)) in
    lanes bit_or has_error overunder

unfoldable pub avxcheck_first_continuation_max : List ℕ → List ℕ → List ℕ → List ℕ
avxcheck_first_continuation_max current_bytes off1_current_bytes has_error =
    let mask_ed = lanes cmpeq off1_current_bytes (set1 0xed) in
    let mask_f4 = lanes cmpeq off1_current_bytes (set1 0xf4) in
    let badfollow_ed = lanes bit_and (lanes cmpgt current_bytes (set1 0x9f)) mask_ed in
    let badfollow_f4 = lanes bit_and (lanes cmpgt current_bytes (set1 0x8f)) mask_f4 in
    lanes bit_or has_error (lanes bit_or badfollow_ed badfollow_f4)

-- -128 is 0x80 as a `u8`.
abbrev pub initial_mins_table : List ℕ
initial_mins_table = replicate 12 0x80 ++ (0xc2 ∷ 0x80 ∷ 0xe1 ∷ 0xf1 ∷ [])

abbrev pub second_mins_table : List ℕ
second_mins_table = replicate 12 0x80 ++ (0x7f ∷ 0x7f ∷ 0xa0 ∷ 0x90 ∷ [])

unfoldable pub avxcheck_overlong : List ℕ → List ℕ → List ℕ → List ℕ → List ℕ → List ℕ
unfolding push_last_byte_of_a_to_b
avxcheck_overlong current_bytes off1_current_bytes hibits previous_hibits has_error =
    let off1_hibits = push_last_byte_of_a_to_b previous_hibits hibits in
    let initial_mins = map (shuffle initial_mins_table) off1_hibits in
    let initial_under = lanes cmpgt initial_mins off1_current_bytes in
    let second_mins = map (shuffle second_mins_table) off1_hibits in
    let second_under = lanes cmpgt second_mins current_bytes in
    lanes bit_or has_error (lanes bit_and initial_under second_under)

pub record AvxProcessedUtfBytes : Type 0 where
  pub rawbytes : List ℕ
  pub high_nibbles : List ℕ
  pub carried_continuations : List ℕ

-- `AvxProcessedUtfBytes::default()`.
abbrev pub unprocessed : AvxProcessedUtfBytes
unprocessed = record { rawbytes = set1 0; high_nibbles = set1 0; carried_continuations = set1 0 }

-- `_mm256_srli_epi16(bytes, 4)`: the low four bits of a lane's high byte come in from above.
abbrev pub srli_epi16 : List ℕ → List ℕ
srli_epi16 (a ∷ b ∷ v) = (a / 16 + b % 16 * 16) ∷ b / 16 ∷ srli_epi16 v
srli_epi16 v = v

unfoldable pub avx_count_nibbles : List ℕ → List ℕ
avx_count_nibbles bytes = lanes bit_and (srli_epi16 bytes) (set1 0x0f)

-- The processed bytes, and `has_error`.
unfoldable pub avxcheck_utf8_bytes :
    List ℕ → AvxProcessedUtfBytes → List ℕ → AvxProcessedUtfBytes × List ℕ
avxcheck_utf8_bytes current_bytes previous has_error =
    let high_nibbles = avx_count_nibbles current_bytes in
    let e₁ = avxcheck_smaller_than_0xf4 current_bytes has_error in
    let initial_lengths = avxcontinuation_lengths high_nibbles in
    let carries = avxcarry_continuations initial_lengths previous.carried_continuations in
    let e₂ = avxcheck_continuations initial_lengths carries e₁ in
    let off1_current_bytes = push_last_byte_of_a_to_b previous.rawbytes current_bytes in
    let e₃ = avxcheck_first_continuation_max current_bytes off1_current_bytes e₂ in
    let e₄ =
      avxcheck_overlong current_bytes off1_current_bytes high_nibbles previous.high_nibbles e₃ in
    (
      record {
        rawbytes = current_bytes;
        high_nibbles = high_nibbles;
        carried_continuations = carries;
      },
      e₄,
    )
