-- ===== src/ParseStr.antt =====
-- src/lib.rs, `Deserializer::parse_str_`: the text of a string, 32 bytes at a time. The source is
-- the list of the bytes from `src_i` on; `padding` is the buffer that the last bytes are copied to,
-- and keeps what an earlier copy left in it.
pub mod Chunk
pub mod Escape
pub mod Text
pub mod Whole
pub mod Ends
use simdjson_rs.Prelude.{
  ℕ, zero, suc, ◌+◌, ◌-◌, ◌*◌, ◌/◌, ◌%◌, ◌^◌, Bool, true, false, not, Option, none, some, List, [],
  ◌∷◌, ◌++◌, bit_and, take, drop, get_elem?, get_or, length, replicate, overwrite, overwrite_at,
  leb, ◌==◌, if◌then◌else◌,
}
use simdjson_rs.Error.{
  Error, ErrorType, invalid_escape, invlaid_unicode_codepoint, Outcome, ok, err, fault, out_of_fuel,
  ◌>>=◌,
}
use simdjson_rs.StringParse.{escape_map, handle_unicode_codepoint}

-- `_mm256_movemask_epi8(_mm256_cmpeq_epi8(v, _mm256_set1_epi8(b)))`, the first byte lowest.
unfoldable pub equal_mask : ℕ → List ℕ → ℕ
equal_mask b [] = 0
equal_mask b (c ∷ v) = (if c == b then 1 else 0) + 2 * equal_mask b v

-- `trailingzeroes` of a number of up to `k` bits, which is not 0.
unfoldable pub trailingzeroes : ℕ → ℕ → ℕ
trailingzeroes zero x = 0
trailingzeroes (suc k) x = if x % 2 == 1 then 0 else suc (trailingzeroes k (x / 2))

-- What comes first in 32 bytes.
pub data Special : Type 0 where
  at_quote at_backslash : ℕ → Special
  nothing : Special

abbrev pub minus_one : ℕ → ℕ
minus_one x = (x + 2 ^ 32 - 1) % 2 ^ 32

unfoldable pub find_special : List ℕ → Special
find_special v =
    let bs_bits = equal_mask 0x5c v in
    let quote_bits = equal_mask b'"' v in
    if not (bit_and (minus_one bs_bits) quote_bits == 0)
    then at_quote (trailingzeroes 32 quote_bits)
    else if not (bit_and (minus_one quote_bits) bs_bits == 0)
    then at_backslash (trailingzeroes 32 bs_bits)
    else nothing

-- The 32 bytes that are loaded, and the padding behind the load.
unfoldable pub load_chunk : List ℕ → List ℕ → List ℕ × List ℕ
load_chunk padding s =
    if leb 32 (length s) then (take 32 s, padding) else (overwrite padding s, overwrite padding s)

-- `src_i += k`: the next access is outside of the source if that passes its end.
abbrev pub advance {ℓ} : {A : Type ℓ} → ℕ → List ℕ → (List ℕ → Outcome Error A) → Outcome Error A
advance k s next = if leb k (length s) then next (drop k s) else fault

-- The first loop ends at the closing quote, or at the first backslash.
pub data Plain : Type 0 where
  closed : ℕ → Plain
  escaped : ℕ → List ℕ → List ℕ → Plain

unfoldable pub plain_loop : ℕ → List ℕ → List ℕ → ℕ → Outcome Error Plain
plain_loop zero padding s len = out_of_fuel
plain_loop (suc fuel) padding s len =
    let (v, padding') = load_chunk padding s in
    elim (find_special v) [
      | at_quote k ↦ advance k s (λ s'. ok (closed (len + k)))
      | at_backslash k ↦ advance k s (λ s'. ok (escaped (len + k) s' padding'))
      | nothing ↦ advance 32 s (λ s'. plain_loop fuel padding' s' (len + 32))
    ]

module _ (error : ErrorType → Error) where
  -- The result of an escape of a code point: the bytes to append, and how far to go on.
  abbrev pub codepoint_result : Outcome ErrorType (List ℕ × ℕ) → Outcome Error (List ℕ × ℕ)
  codepoint_result (ok ([], n)) = err (error invlaid_unicode_codepoint)
  codepoint_result (ok (b ∷ bytes, n)) = ok (b ∷ bytes, n)
  codepoint_result (err e) = err (error invlaid_unicode_codepoint)
  codepoint_result fault = fault
  codepoint_result out_of_fuel = out_of_fuel

  -- `ESCAPE_MAP[escape_char]`, where the default is never read since a `u8` is below 256.
  abbrev pub simple_result : ℕ → Outcome Error (List ℕ × ℕ)
  simple_result escape_char =
      let escape_result = get_or escape_map escape_char 0 in
      if escape_result == 0 then err (error invalid_escape) else ok (escape_result ∷ [], 2)

  abbrev pub escape_result : List ℕ → Option ℕ → Outcome Error (List ℕ × ℕ)
  escape_result s none = fault
  escape_result s (some escape_char) =
      if escape_char == b'u'
      then codepoint_result (handle_unicode_codepoint s)
      else simple_result escape_char

  -- The escape at the front of `s`: the bytes that it stands for, and how many bytes it has.
  unfoldable pub escape_at : List ℕ → Outcome Error (List ℕ × ℕ)
  escape_at s = escape_result s (get_elem? s 1)

  -- The second loop. `dst` is the buffer up to `dst_i`: what a store leaves behind that is
  -- overwritten before it is read. The code writes and reads it in the spare capacity of
  -- `self.strings`, by pointers and by `get_unchecked` on a slice of length 0. That access outside of a
  -- slice is not a `fault` here: it is taken for what it does to the memory that is allocated.
  unfoldable pub escaped_loop : ℕ → List ℕ → List ℕ → List ℕ → Outcome Error (List ℕ)
  escaped_loop zero padding s dst = out_of_fuel
  escaped_loop (suc fuel) padding s dst =
      let (v, padding') = load_chunk padding s in
      elim (find_special v) [
        | at_quote k ↦ advance k s (λ _. ok (dst ++ take k v))
        | at_backslash k ↦ advance k s λ s'. escape_at s' >>= λ (bytes, n).
            advance n s' λ s''. escaped_loop fuel padding' s'' (dst ++ (take k v ++ bytes))
        | nothing ↦ advance 32 s (λ s'. escaped_loop fuel padding' s' (dst ++ take 32 v))
      ]

  -- The text, and the input behind the call: the text is written over the escapes that it had.
  unfoldable pub string_text : ℕ → List ℕ → ℕ → Plain → Outcome Error (List ℕ × List ℕ)
  string_text fuel input idx (closed len) = ok (take len (drop idx input), input)
  string_text fuel input idx (escaped len s padding) = escaped_loop fuel padding s [] >>= λ dst.
      let input' = overwrite_at (idx + len) input dst in
      ok (take (len + length dst) (drop idx input'), input')

  -- `iidx` is the position of the opening quote.
  unfoldable pub parse_str_ : List ℕ → ℕ → Outcome Error (List ℕ × List ℕ)
  parse_str_ input iidx =
      let idx = iidx + 1 in
      let src = drop idx input in
      let fuel = suc (length src) in
      plain_loop fuel (replicate 32 0) src 0 >>= string_text fuel input idx
