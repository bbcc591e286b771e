-- ===== src/Stage1/Whole.antt =====
-- src/stage1.rs, `find_structural_bits`: the whole run against the scanner of single bytes.
use simdjson_rs.Prelude.{
  ℕ, zero, suc, ◌+◌, ◌-◌, ◌%◌, ◌^◌, ◌≤◌, ◌<◌, Bool, true, false, not, ◌&&◌, ◌||◌, List, [], ◌∷◌,
  ◌++◌, length, replicate, ◌≡◌, refl, ap, sym, subst, ◌∙◌, arith, ◌==◌, if◌then◌else◌, append-nil,
  AreBytes,
}
use simdjson_rs.Error.{ErrorType, syntax, eof, invalid_utf8, Outcome, ok, err}
use simdjson_rs.Stage1.{start, last, above, find_structural_bits}
use simdjson_rs.Stage1.Scanner.{
  xor, Context, is_structural, is_whitespace, in_string, next, context_behind, tokens_at,
  has_forbidden, outset,
}
use simdjson_rs.Stage1.Strings.{fill}
use simdjson_rs.Stage1.Flatten.{positions}
use simdjson_rs.Stage1.Loop.{
  start-IsBehind, indexes, context_behind-append, tokens_at-append, has_forbidden-append,
  positions-append, length-tokens_at,
}
use simdjson_rs.Stage1.Utf8.{accepts_utf8, passes_utf8-accepts_utf8}
use simdjson_rs.Stage1.Rounds.{passes_utf8, padded, scan_loop-Scans}

-- What stage 1 promises: the positions where tokens begin, behind a first 0, or what is wrong with
-- the input.
unfoldable pub structural_bits : List ℕ → Outcome ErrorType (List ℕ)
structural_bits input =
    if (context_behind outset input).inside
    then err syntax
    else if length (indexes input) == 1
    then err eof
    else if has_forbidden outset input
    then err syntax
    else if accepts_utf8 input
    then ok (indexes input)
    else err invalid_utf8

-- Spaces behind the input.
xor-false : (b : Bool) → xor b false ≡ b
xor-false true = refl
xor-false false = refl

and-false : (b : Bool) → (b && false) ≡ false
and-false true = refl
and-false false = refl

spaces-inside : (k : Context) (n : ℕ) → (context_behind k (replicate n 0x20)).inside ≡ k.inside
spaces-inside k zero = refl
spaces-inside k (suc n) = spaces-inside (next k 0x20) n ∙ xor-false k.inside

spaces-forbidden : (k : Context) (n : ℕ) → has_forbidden k (replicate n 0x20) ≡ false
spaces-forbidden k zero = refl
spaces-forbidden k (suc n) = rw (and-false (in_string k 0x20)) (spaces-forbidden (next k 0x20) n)

spaces-positions : (i : ℕ) (k : Context) (n : ℕ) → positions i (tokens_at k (replicate n 0x20)) ≡ []
unfolding is_structural is_whitespace
spaces-positions i k zero = refl
spaces-positions i k (suc n) = rw (and-false k.boundary) (spaces-positions (suc i) (next k 0x20) n)

module _ (input : List ℕ) where
  abbrev spaces : List ℕ
  spaces = replicate ((64 - length input % 64) % 64) 0x20

  padded-inside :
      (context_behind outset (padded input)).inside ≡ (context_behind outset input).inside
  padded-inside =
      ap (λ k. k.inside) (context_behind-append outset input spaces)
      ∙ spaces-inside (context_behind outset input) ((64 - length input % 64) % 64)

  or-false : (b : Bool) → (b || false) ≡ b
  or-false true = refl
  or-false false = refl

  padded-forbidden : has_forbidden outset (padded input) ≡ has_forbidden outset input
  padded-forbidden =
      has_forbidden-append outset input spaces
      ∙ rw (spaces-forbidden (context_behind outset input) ((64 - length input % 64) % 64))
          (or-false (has_forbidden outset input))

  padded-indexes : indexes (padded input) ≡ indexes input
  padded-indexes =
      ap (λ r. 0 ∷ r)
        (ap (positions 0) (tokens_at-append outset input spaces)
          ∙ (positions-append 0 (tokens_at outset input)
                (tokens_at (context_behind outset input) spaces)
              ∙ (ap (λ r. positions 0 (tokens_at outset input) ++ r)
                    (spaces-positions (0 + length (tokens_at outset input))
                      (context_behind outset input) ((64 - length input % 64) % 64))
                  ∙ append-nil (positions 0 (tokens_at outset input)))))

-- All numbers of a list are below a bound.
abbrev pub AreBelow : ℕ → List ℕ → Type 0
AreBelow n [] = Unit
AreBelow n (x ∷ s) = (x < n) × AreBelow n s

pub positions-AreBelow : (n i : ℕ) (a : List Bool) → i + length a ≤ n → AreBelow n (positions i a)
positions-AreBelow n i [] h = tt
positions-AreBelow n i (true ∷ a) h = (omega arith, positions-AreBelow n (suc i) a (omega arith))
positions-AreBelow n i (false ∷ a) h = positions-AreBelow n (suc i) a (omega arith)

above-last : (n : ℕ) (s : List ℕ) → n < 2 ^ 32 → AreBelow (suc n) s → above (last s) n ≡ false
above-last n [] h b = refl
above-last n (x ∷ []) h (b, _) = ground arith
above-last n (x ∷ (y ∷ s)) h (_, b) = above-last n (y ∷ s) h b

pub indexes-AreBelow : (input : List ℕ) → AreBelow (suc (length input)) (indexes input)
indexes-AreBelow input = (
  omega arith,
  positions-AreBelow _ 0 (tokens_at outset input) (omega (arith, length-tokens_at outset input)),
)

fill_test : (b : Bool) → (fill b == 0) ≡ not b
fill_test true = refl
fill_test false = refl

not-not : (b : Bool) → not (not b) ≡ b
not-not true = refl
not-not false = refl

-- For every input of bytes of at most 2^32 - 64 bytes, `find_structural_bits` gives what a scanner
-- of one byte after another gives: a syntax error if a string is open at the end, the error of an
-- empty input if no token begins, a syntax error if there is a control character in a string, an
-- error if the input is not UTF-8, and else the places where tokens begin, behind a first 0; an
-- input of whole blocks of 64 bytes may end within a character. It never gives an internal error,
-- reads outside of the input or runs out of fuel.
pub find_structural_bits-structural_bits :
    (input : List ℕ)
    → AreBytes input
    → length input + 64 ≤ 2 ^ 32
    → find_structural_bits input ≡ structural_bits input
unfolding find_structural_bits structural_bits passes_utf8
find_structural_bits-structural_bits input bytes l =
    let (s, e, i, u) =
      scan_loop-Scans (suc (length input)) [] start input bytes (omega arith) (omega arith)
        start-IsBehind in
    rw
      (
        e,
        i.inside,
        fill_test,
        padded-inside input,
        i.found ∙ ap ok (padded-indexes input),
        above-last (length input) (indexes input) (omega arith) (indexes-AreBelow input),
        i.forbidden,
        padded-forbidden input,
        u,
        passes_utf8-accepts_utf8 input bytes,
        not-not (context_behind outset input).inside,
        not-not (has_forbidden outset input),
      )
      refl

-- What holds of the result, where there is one.
abbrev IsBounded : ℕ → Outcome ErrorType (List ℕ) → Type 0
IsBounded n (ok s) = (1 < length s) × AreBelow n s
IsBounded n _ = Unit

chosen-IsBounded :
    (n : ℕ) (s : List ℕ) (inside none_found forbidden valid : Bool)
    → (none_found ≡ false → IsBounded n (ok s))
    → IsBounded n (
        if inside
        then err syntax
        else if none_found
        then err eof
        else if forbidden
        then err syntax
        else if valid
        then ok s
        else err invalid_utf8)
chosen-IsBounded n s true _ _ _ h = tt
chosen-IsBounded n s false true _ _ h = tt
chosen-IsBounded n s false false true _ h = tt
chosen-IsBounded n s false false false true h = h refl
chosen-IsBounded n s false false false false h = tt

places :
    (n : ℕ) (p : List ℕ) → AreBelow n p → (length (0 ∷ p) == 1) ≡ false → IsBounded n (ok (0 ∷ p))
places n [] b h = cc
places n (x ∷ p) (l, b) h = (omega arith, (omega arith, (l, b)))

structural_bits-IsBounded : (input : List ℕ) → IsBounded (length input) (structural_bits input)
unfolding structural_bits
structural_bits-IsBounded input =
    chosen-IsBounded (length input) (indexes input) (context_behind outset input).inside
      (length (indexes input) == 1) (has_forbidden outset input) (accepts_utf8 input)
      (places (length input) (positions 0 (tokens_at outset input)) (
        positions-AreBelow (length input) 0 (tokens_at outset input)
          (omega (arith, length-tokens_at outset input))))

-- Where `find_structural_bits` succeeds on an input of at most 2^32 - 64 bytes, it gives more than
-- one index, and each is a place inside of the input.
pub find_structural_bits-AreBelow :
    (input structural_indexes : List ℕ)
    → AreBytes input
    → length input + 64 ≤ 2 ^ 32
    → find_structural_bits input ≡ ok structural_indexes
    → (1 < length structural_indexes) × AreBelow (length input) structural_indexes
find_structural_bits-AreBelow input structural_indexes bytes l h =
    subst (IsBounded (length input)) (sym (find_structural_bits-structural_bits input bytes l) ∙ h)
      (structural_bits-IsBounded input)
