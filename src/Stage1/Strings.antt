-- ===== src/Stage1/Strings.antt =====
-- src/stage1.rs, `find_quote_mask_and_bits`: the quotes that are not escaped, and what is inside of
-- them.
use simdjson_rs.Prelude.{
  ℕ, zero, suc, ◌+◌, ◌-◌, ◌*◌, ◌/◌, ◌%◌, ◌^◌, ◌<◌, Bool, true, false, not, ◌&&◌, List, [], ◌∷◌, map,
  length, ◌≡◌, refl, sym, ap, ◌∙◌, arith, replicate, length-replicate, bit_xor, bit_and, bit_or,
  if◌then◌else◌, leb, ◌==◌, subst,
}
use native.Mathlib.Nat.{pow-suc}
use simdjson_rs.Stage1.{
  pack, complement, u64_mod, sign_fill, clmul, find_quote_mask_and_bits, cmp_mask_against_input,
  unsigned_lteq_against_input,
}
use simdjson_rs.Stage1.Words.{
  bit, zip, top, length-map, bit_and-pack, bit_xor-pack, complement-pack, double,
}
use simdjson_rs.Stage1.Prefix.{prefix, length-prefix, zip-xor_comm, clmul-pack, zip-prefix}
use simdjson_rs.Stage1.Odd.{behind_odd, parity, length-behind_odd}
use simdjson_rs.Stage1.Scanner.{xor, Context, is_quote, in_string, next, context_behind}
use simdjson_rs.Stage1.Classes.{block, cmp_mask_against_input-pack}
use simdjson_rs.Stage1.Buckets.{unsigned_lteq_against_input-pack}

-- A word of ones, or of zeros.
abbrev pub fill : Bool → ℕ
fill b = if b then u64_mod - 1 else 0

pub fill-pack : (b : Bool) → fill b ≡ pack (replicate 64 b)
fill-pack true = refl
fill-pack false = refl

-- The highest bit of a word.
below : (x : Bool) (r n : ℕ) → r < 2 ^ n → bit x + 2 * r < 2 ^ suc n
below true r n h = omega (arith, pow-suc 2 n)
below false r n h = omega (arith, pow-suc 2 n)

pub split_top :
    (n : ℕ) (c : Bool) (a : List Bool)
    → length a ≡ suc n
    → (r : ℕ) × (r < 2 ^ n) × (pack a ≡ r + 2 ^ n * bit (top c a))
split_top n c [] h = absurd (omega arith)
split_top zero c (x ∷ []) h = (0, omega arith, omega arith)
split_top (suc n) c (x ∷ []) h = absurd (omega arith)
split_top zero c (x ∷ (y ∷ a)) h = absurd (omega arith)
split_top (suc n) c (x ∷ (y ∷ a)) h =
    let (r, l, e) = split_top n x (y ∷ a) (omega arith) in
    (bit x + 2 * r, below x r n l, omega (arith, e, double n (bit (top y a))))

by_sign : (t : Bool) (r x : ℕ) → r < 2 ^ 63 → x ≡ r + 2 ^ 63 * bit t → sign_fill x ≡ fill t
by_sign true r x h e = ground arith
by_sign false r x h e = ground arith

by_bit : (t : Bool) (r x : ℕ) → r < 2 ^ 63 → x ≡ r + 2 ^ 63 * bit t → x / 2 ^ 63 ≡ bit t
by_bit true r x h e = omega arith
by_bit false r x h e = omega arith

pub sign_fill-pack :
    (c : Bool) (a : List Bool) → length a ≡ 64 → sign_fill (pack a) ≡ fill (top c a)
sign_fill-pack c a h = let (r, l, e) = split_top 63 c a h in by_sign (top c a) r (pack a) l e

pub high_bit-pack : (c : Bool) (a : List Bool) → length a ≡ 64 → pack a / 2 ^ 63 ≡ bit (top c a)
high_bit-pack c a h = let (r, l, e) = split_top 63 c a h in by_bit (top c a) r (pack a) l e

-- Every byte of a block in its context.
abbrev pub quotes : Context → List ℕ → List Bool
quotes k [] = []
quotes k (c ∷ s) = is_quote k c ∷ quotes (next k c) s

abbrev pub strings : Context → List ℕ → List Bool
strings k [] = []
strings k (c ∷ s) = in_string k c ∷ strings (next k c) s

abbrev pub backslashes : List ℕ → List Bool
backslashes s = map (λ c. c == 0x5c) s

quote_head : (c : ℕ) (r : Bool) → (c == b'"' && not (not (c == 0x5c) && r)) ≡ (c == b'"' && not r)
quote_head c true = ground arith
quote_head c false = ground arith

quotes_lem :
    (k : Context) (s : List ℕ)
    → zip ◌&&◌ (map (λ c. c == b'"') s) (map not (behind_odd k.escaped (backslashes s)))
      ≡ quotes k s
quotes_lem k [] = refl
quotes_lem k (c ∷ s) =
    ap
      (λ t.
        t
        ∷ zip ◌&&◌ (map (λ c. c == b'"') s)
            (map not (behind_odd (c == 0x5c && not k.escaped) (backslashes s))))
      (quote_head c k.escaped)
    ∙ ap (λ r. is_quote k c ∷ r) (quotes_lem (next k c) s)

prefix-quotes : (k : Context) (s : List ℕ) → prefix k.inside (quotes k s) ≡ strings k s
prefix-quotes k [] = refl
prefix-quotes k (c ∷ s) = ap (λ r. in_string k c ∷ r) (prefix-quotes (next k c) s)

pub parity-context_behind :
    (k : Context) (s : List ℕ) → parity k.escaped (backslashes s) ≡ (context_behind k s).escaped
parity-context_behind k [] = refl
parity-context_behind k (c ∷ s) = parity-context_behind (next k c) s

pub top-strings :
    (k : Context) (s : List ℕ) → top k.inside (strings k s) ≡ (context_behind k s).inside
top-strings k [] = refl
top-strings k (c ∷ s) = top-strings (next k c) s

pub length-quotes : (k : Context) (s : List ℕ) → length (quotes k s) ≡ length s
length-quotes k [] = refl
length-quotes k (c ∷ s) = ap suc (length-quotes (next k c) s)

pub length-strings : (k : Context) (s : List ℕ) → length (strings k s) ≡ length s
length-strings k [] = refl
length-strings k (c ∷ s) = ap suc (length-strings (next k c) s)

abbrev pub forbidden_at : Context → List ℕ → List Bool
forbidden_at k s = zip ◌&&◌ (strings k s) (map (λ c. leb c 0x1f) s)

quote_bits-pack :
    (k : Context) (s : List ℕ)
    → length s ≡ 64
    → bit_and
        (cmp_mask_against_input (block s) b'"')
        (complement (pack (behind_odd k.escaped (backslashes s))))
      ≡ pack (quotes k s)
quote_bits-pack k s h =
    let n : length (behind_odd k.escaped (backslashes s)) ≡ 64 =
      length-behind_odd k.escaped (backslashes s) ∙ (length-map (λ c. c == 0x5c) s ∙ h) in
    rw
      (
        cmp_mask_against_input-pack s h b'"',
        complement-pack (behind_odd k.escaped (backslashes s)) n,
      )
      (bit_and-pack (map (λ c. c == b'"') s) (map not (behind_odd k.escaped (backslashes s))) (
          length-map (λ c. c == b'"') s
          ∙ (h ∙ sym (length-map not (behind_odd k.escaped (backslashes s)) ∙ n)))
        ∙ ap pack (quotes_lem k s))

xor-false : (c : Bool) → xor c false ≡ c
xor-false true = refl
xor-false false = refl

quote_mask-pack :
    (k : Context) (s : List ℕ)
    → length s ≡ 64
    → bit_xor (clmul 64 (pack (quotes k s)) (u64_mod - 1) % u64_mod) (fill k.inside)
      ≡ pack (strings k s)
quote_mask-pack k s h =
    let a = quotes k s in
    let n : length a ≡ 64 = length-quotes k s ∙ h in
    let p : length (prefix false a) ≡ 64 = length-prefix false a ∙ n in
    let r : length (replicate 64 k.inside) ≡ 64 = length-replicate 64 k.inside in
    let bits : zip xor (replicate 64 k.inside) (prefix false a) ≡ prefix k.inside a =
      subst (λ m. zip xor (replicate m k.inside) (prefix false a) ≡ prefix k.inside a) n
        (zip-prefix k.inside false a ∙ ap (λ c. prefix c a) (xor-false k.inside)) in
    rw (clmul-pack a n, fill-pack k.inside)
      (bit_xor-pack (prefix false a) (replicate 64 k.inside) (p ∙ sym r)
        ∙ ap pack (
            zip-xor_comm (prefix false a) (replicate 64 k.inside) (p ∙ sym r)
            ∙ (bits ∙ prefix-quotes k s)))

-- Of a block of 64 bytes, `find_quote_mask_and_bits` marks the quotes that are not escaped and, by
-- its carryless product, the bytes inside of strings; it carries on whether a string is open, and
-- adds the control characters in strings to the error mask.
pub find_quote_mask_and_bits-pack :
    (k : Context) (s : List ℕ) (error_mask : ℕ)
    → length s ≡ 64
    → find_quote_mask_and_bits
        (block s)
        (pack (behind_odd k.escaped (backslashes s)))
        (fill k.inside)
        error_mask
      ≡ record {
        quote_mask = pack (strings k s);
        quote_bits = pack (quotes k s);
        inside_quote = fill (context_behind k s).inside;
        error_mask = bit_or error_mask (pack (forbidden_at k s));
      }
unfolding find_quote_mask_and_bits
find_quote_mask_and_bits-pack k s error_mask h =
    let n : length (strings k s) ≡ 64 = length-strings k s ∙ h in
    let sign : sign_fill (pack (strings k s)) ≡ fill (context_behind k s).inside =
      sign_fill-pack k.inside (strings k s) n ∙ ap fill (top-strings k s) in
    let errors : bit_and (pack (strings k s)) (unsigned_lteq_against_input (block s) 0x1f)
        ≡ pack (forbidden_at k s) =
      rw (unsigned_lteq_against_input-pack s h) (
        bit_and-pack (strings k s) (map (λ c. leb c 0x1f) s)
          (n ∙ sym (length-map (λ c. leb c 0x1f) s ∙ h))) in
    rw (quote_bits-pack k s h, quote_mask-pack k s h, sign, errors) refl
