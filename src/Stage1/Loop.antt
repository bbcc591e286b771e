-- ===== src/Stage1/Loop.antt =====
-- src/stage1.rs, `find_structural_bits`: what its variables hold behind each block.
use simdjson_rs.Prelude.{
  AreBytes, ℕ, zero, suc, ◌+◌, ◌*◌, ◌%◌, ◌^◌, ◌≤◌, Bool, true, false, not, ◌&&◌, ◌||◌, List, [],
  ◌∷◌, ◌++◌, length, take, drop, ◌≡◌, refl, sym, ap, ◌∙◌, arith, bit_or, ◌==◌, leb, length-append,
  length-drop,
}
use simdjson_rs.Prelude.Bits.{either_zero}
use simdjson_rs.Error.{ok}
use simdjson_rs.Stage1.{pack, fill_input, check_utf8, flatten_bits, Scan, start, scan_block}
use simdjson_rs.Stage1.Words.{bit, length-map}
use simdjson_rs.Stage1.Scanner.{
  Context, is_forbidden, begins_token, next, context_behind, tokens_at, has_forbidden, outset,
}
use simdjson_rs.Stage1.Escapes.{find_odd_backslash_sequences-behind_odd}
use simdjson_rs.Stage1.Classes.{block, cmp_mask_against_input-pack}
use simdjson_rs.Stage1.Buckets.{find_whitespace_and_structurals-pack}
use simdjson_rs.Stage1.Strings.{
  fill, backslashes, forbidden_at, find_quote_mask_and_bits-pack, parity-context_behind,
}
use simdjson_rs.Stage1.Final.{finalize_structurals-pack}
use simdjson_rs.Stage1.Flatten.{positions}
use simdjson_rs.Stage1.Stores.{flatten_bits-positions, flatten_bits-zero}

-- Runs of the scanner, one behind the other.
pub context_behind-append :
    (k : Context) (a b : List ℕ) → context_behind k (a ++ b) ≡ context_behind (context_behind k a) b
context_behind-append k [] b = refl
context_behind-append k (c ∷ a) b = context_behind-append (next k c) a b

pub tokens_at-append :
    (k : Context) (a b : List ℕ)
    → tokens_at k (a ++ b) ≡ tokens_at k a ++ tokens_at (context_behind k a) b
tokens_at-append k [] b = refl
tokens_at-append k (c ∷ a) b = ap (λ r. begins_token k c ∷ r) (tokens_at-append (next k c) a b)

pub length-tokens_at : (k : Context) (a : List ℕ) → length (tokens_at k a) ≡ length a
length-tokens_at k [] = refl
length-tokens_at k (c ∷ a) = ap suc (length-tokens_at (next k c) a)

pub positions-append :
    (i : ℕ) (a b : List Bool) → positions i (a ++ b) ≡ positions i a ++ positions (i + length a) b
positions-append i [] b = ap (λ j. positions j b) (omega arith)
positions-append i (true ∷ a) b =
    ap (λ r. i ∷ r)
      (positions-append (suc i) a b ∙ ap (λ j. positions (suc i) a ++ positions j b) (omega arith))
positions-append i (false ∷ a) b =
    positions-append (suc i) a b ∙ ap (λ j. positions (suc i) a ++ positions j b) (omega arith)

or_assoc : (x y z : Bool) → (x || (y || z)) ≡ (x || y || z)
or_assoc true y z = refl
or_assoc false y z = refl

pub has_forbidden-append :
    (k : Context) (a b : List ℕ)
    → has_forbidden k (a ++ b) ≡ (has_forbidden k a || has_forbidden (context_behind k a) b)
has_forbidden-append k [] b = refl
has_forbidden-append k (c ∷ a) b =
    ap (λ r. is_forbidden k c || r) (has_forbidden-append (next k c) a b)
    ∙ or_assoc (is_forbidden k c) (has_forbidden (next k c) a)
        (has_forbidden (context_behind (next k c) a) b)

zero_test : (x : Bool) (n : ℕ) (y : Bool) → (n == 0) ≡ not y → (bit x + 2 * n == 0) ≡ not (x || y)
zero_test true n y h = ground arith
zero_test false n y h = let e : (0 + 2 * n == 0) ≡ (n == 0) = ground arith in e ∙ h

-- No bit of the mask is set when there is no control character.
forbidden_at-zero :
    (k : Context) (s : List ℕ) → (pack (forbidden_at k s) == 0) ≡ not (has_forbidden k s)
forbidden_at-zero k [] = refl
forbidden_at-zero k (c ∷ s) =
    zero_test (is_forbidden k c) (pack (forbidden_at (next k c) s)) (has_forbidden (next k c) s)
      (forbidden_at-zero (next k c) s)

-- The positions where tokens begin, behind a first 0.
abbrev pub indexes : List ℕ → List ℕ
indexes s = 0 ∷ positions 0 (tokens_at outset s)

-- The variables tell what the scanner knows behind `read`.
pub record IsBehind (read : List ℕ) (s : Scan) : Type 0 where
  pub whole : length read % 64 ≡ 0
  pub escaped : s.odd_backslash ≡ bit (context_behind outset read).escaped
  pub inside : s.inside_quote ≡ fill (context_behind outset read).inside
  pub boundary : s.pseudo_pred ≡ bit (context_behind outset read).boundary
  pub forbidden : (s.error_mask == 0) ≡ not (has_forbidden outset read)
  pub found : flatten_bits s.structural_indexes (length read) s.structurals ≡ ok (indexes read)

pub start-IsBehind : IsBehind [] start
start-IsBehind = record {
  whole = refl;
  escaped = refl;
  inside = refl;
  boundary = refl;
  forbidden = refl;
  found = flatten_bits-zero (0 ∷ []) 0;
}

-- A block in front of what follows it.
take-append : (a b : List ℕ) (n : ℕ) → n ≤ length a → take n (a ++ b) ≡ take n a
take-append a b zero h = refl
take-append [] b (suc n) h = absurd (omega arith)
take-append (c ∷ a) b (suc n) h = ap (λ r. c ∷ r) (take-append a b n (omega arith))

drop-append : (a b : List ℕ) (n : ℕ) → n ≤ length a → drop n (a ++ b) ≡ drop n a ++ b
drop-append a b zero h = refl
drop-append [] b (suc n) h = absurd (omega arith)
drop-append (c ∷ a) b (suc n) h = drop-append a b n (omega arith)

pub block-append : (b tail : List ℕ) → length b ≡ 64 → block (b ++ tail) ≡ block b
block-append b tail h =
    rw
      (
        take-append b tail 32 (omega arith),
        drop-append b tail 32 (omega arith),
        take-append (drop 32 b) tail 32 (omega (arith, length-drop 32 b)),
      )
      refl

fill_input-block : (b tail : List ℕ) → length b ≡ 64 → fill_input (b ++ tail) ≡ ok (block b)
unfolding fill_input
fill_input-block b tail h =
    let e : leb 64 (length (b ++ tail)) ≡ true = ground (arith, length-append b tail) in
    rw e (ap ok (block-append b tail h))

not_or : (x y : Bool) → (not x && not y) ≡ not (x || y)
not_or true y = refl
not_or false y = refl

indexes-append :
    (read b : List ℕ)
    → indexes read ++ positions (length read) (tokens_at (context_behind outset read) b)
      ≡ indexes (read ++ b)
indexes-append read b =
    ap (λ r. 0 ∷ r)
      (sym (
        ap (positions 0) (tokens_at-append outset read b)
        ∙ (positions-append 0 (tokens_at outset read) (tokens_at (context_behind outset read) b)
            ∙ ap
                (λ i.
                  positions 0 (tokens_at outset read)
                  ++ positions i (tokens_at (context_behind outset read) b))
                (omega (arith, length-tokens_at outset read)))))

-- The variables behind a block.
module _ (read b : List ℕ) (s : Scan) where
  abbrev k : Context
  k = context_behind outset read

  abbrev pub behind_block : Scan
  behind_block = record {
    structural_indexes = indexes read;
    utf8 = check_utf8 (block b) s.utf8;
    odd_backslash = bit (context_behind k b).escaped;
    inside_quote = fill (context_behind k b).inside;
    pseudo_pred = bit (context_behind k b).boundary;
    structurals = pack (tokens_at k b);
    error_mask = bit_or s.error_mask (pack (forbidden_at k b));
  }

  pub scan_block-behind_block :
      (tail : List ℕ)
      → AreBytes b
      → length b ≡ 64
      → IsBehind read s
      → scan_block (b ++ tail) (length read) s ≡ ok behind_block
  unfolding scan_block
  scan_block-behind_block tail bytes h i =
      let odd =
        find_odd_backslash_sequences-behind_odd (block b) k.escaped (backslashes b)
          (length-map (λ c. c == 0x5c) b ∙ h) (cmp_mask_against_input-pack b h 0x5c) in
      rw
        (
          fill_input-block b tail h,
          i.escaped,
          odd,
          i.inside,
          find_quote_mask_and_bits-pack k b s.error_mask h,
          i.found,
          i.boundary,
          find_whitespace_and_structurals-pack b bytes h,
          finalize_structurals-pack k b h,
          parity-context_behind k b,
        )
        refl

  pub behind_block-IsBehind :
      length b ≡ 64
      → length read + 64 ≤ 2 ^ 32
      → IsBehind read s
      → IsBehind (read ++ b) behind_block
  behind_block-IsBehind h l i =
      let c = context_behind-append outset read b in
      record {
        whole = omega (arith, length-append read b, i.whole);
        escaped = ap (λ d. bit d.escaped) (sym c);
        inside = ap (λ d. fill d.inside) (sym c);
        boundary = ap (λ d. bit d.boundary) (sym c);
        forbidden =
            either_zero s.error_mask (pack (forbidden_at k b))
            ∙ rw (i.forbidden, forbidden_at-zero k b, has_forbidden-append outset read b)
                (not_or (has_forbidden outset read) (has_forbidden k b));
        found =
            ap (λ n. flatten_bits (indexes read) n (pack (tokens_at k b)))
              (length-append read b ∙ ap (λ n. length read + n) h)
            ∙ (flatten_bits-positions (indexes read) (length read) (tokens_at k b) l
                  (length-tokens_at k b ∙ h)
                ∙ ap ok (indexes-append read b));
      }

-- A round over a block of 64 bytes, within 2^32 bytes, succeeds and keeps the invariant: the
-- carries for backslashes, quotes and scalars are those of a scanner behind the block, the error
-- mask is empty exactly if no control character stood in a string, and the indexes with those that
-- are still to be stored are the places where tokens begin.
pub scan_block-IsBehind :
    (read b tail : List ℕ) (s : Scan)
    → AreBytes b
    → length b ≡ 64
    → length read + 64 ≤ 2 ^ 32
    → IsBehind read s
    → (s' : Scan) × (scan_block (b ++ tail) (length read) s ≡ ok s') × IsBehind (read ++ b) s'
scan_block-IsBehind read b tail s bytes h l i = (
  behind_block read b s,
  scan_block-behind_block read b s tail bytes h i,
  behind_block-IsBehind read b s h l i,
)
