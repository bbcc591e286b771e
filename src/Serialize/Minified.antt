-- ===== src/Serialize/Minified.antt =====
-- src/value/owned/serialize.rs: the text of `to_string_pp` without its white space is that of
-- `to_string`.
use simdjson_rs.Prelude.{
  ℕ, zero, suc, ◌%◌, ◌^◌, ◌*◌, Bool, true, false, not, ◌&&◌, ◌==◌, List, [], ◌∷◌, ◌++◌, codes,
  replicate, ◌≡◌, refl, sym, ap, ◌∙◌, AreBytes, append_assoc, append-nil,
}
use simdjson_rs.Error.{ok}
use simdjson_rs.Value.{
  Value, null, bool, int, float, string, array, object, Values, nil, cons, Map, new, insert,
}
use simdjson_rs.NumberParse.{ℤ}
use simdjson_rs.Generator.Escaped.{escape_bytes}
use simdjson_rs.Serialize.{Texts, to_string, to_string_pp}
use simdjson_rs.Serialize.Layout.{
  compact, indented, quoted, behind, bracketed, item_texts, entry_texts, Every, EveryEntry, Fits,
  YieldsEntries, text,
}
use simdjson_rs.Serialize.Printers.{to_string-text, to_string_pp-text}
use simdjson_rs.Serialize.Minify.{outside, in_string, is_space, minify, minify-escape_bytes}

-- `d` is the first text without its white space; both end outside of strings.
record Minifies (a d : List ℕ) : Type 0 where
  minifies : (rest : List ℕ) → minify outside (a ++ rest) ≡ d ++ minify outside rest

Minifies-append : {a b d e : List ℕ} → Minifies a d → Minifies b e → Minifies (a ++ b) (d ++ e)
Minifies-append {a} {b} {d} {e} h k = record {
  minifies = λ rest.
      ap (minify outside) (append_assoc a b rest)
      ∙ (h.minifies (b ++ rest)
          ∙ (ap (λ u. d ++ u) (k.minifies rest) ∙ sym (append_assoc d e (minify outside rest))));
}

Minifies-empty : Minifies [] []
Minifies-empty = record { minifies = λ rest. refl }

Minifies-quoted : (s : List ℕ) → AreBytes s → Minifies (quoted s) (quoted s)
unfolding minify
Minifies-quoted s b = record {
  minifies = λ rest.
      ap (λ u. b'"' ∷ u)
        (ap (minify in_string) (append_assoc (escape_bytes s) (b'"' ∷ []) rest)
          ∙ (minify-escape_bytes s (b'"' ∷ rest) b
              ∙ sym (append_assoc (escape_bytes s) (b'"' ∷ []) (minify outside rest))));
}

-- Neither white space nor a quote.
abbrev pub IsPlain : List ℕ → Type 0
IsPlain [] = Unit
IsPlain (ch ∷ s) = (is_space ch ≡ false) × ((ch == b'"') ≡ false) × IsPlain s

plain_test : List ℕ → Bool
plain_test [] = true
plain_test (ch ∷ s) = not (is_space ch) && not (ch == b'"') && plain_test s

split_tests : (a b c : Bool) → (not a && not b && c) ≡ true → (a ≡ false) × (b ≡ false) × (c ≡ true)
split_tests false false true h = (refl, refl, refl)
split_tests false false false h = cc
split_tests false true c h = cc
split_tests true b c h = cc

Minifies-plain : (s : List ℕ) → IsPlain s → Minifies s s
unfolding minify
Minifies-plain [] h = Minifies-empty
Minifies-plain (ch ∷ s) (n, q, h) = record {
  minifies = λ rest. rw (minify, n, q) (ap (λ u. ch ∷ u) ((Minifies-plain s h).minifies rest));
}

mark : (ch : ℕ) → is_space ch ≡ false → (ch == b'"') ≡ false → Minifies (ch ∷ []) (ch ∷ [])
mark ch n q = Minifies-plain (ch ∷ []) (n, q, tt)

Minifies-spaces : (n : ℕ) → Minifies (replicate n b' ') []
unfolding minify
Minifies-spaces zero = Minifies-empty
Minifies-spaces (suc n) = record { minifies = λ rest. (Minifies-spaces n).minifies rest }

module _ (spaces : ℕ) where
  Minifies-line : (n : ℕ) → Minifies ((indented spaces).line n) []
  unfolding minify
  Minifies-line n = record {
    minifies = λ rest. (Minifies-spaces ((n % 2 ^ 16 * spaces) % 2 ^ 16)).minifies rest;
  }

  -- The texts inside of a bracket.
  data AllMinify : List (List ℕ) → List (List ℕ) → Type 0 where
    no_texts : AllMinify [] []
    more_texts :
        {a d : List ℕ} {us ds : List (List ℕ)}
        → Minifies a d
        → AllMinify us ds
        → AllMinify (a ∷ us) (d ∷ ds)

  Minifies-behind :
      {us ds : List (List ℕ)} (n m : ℕ)
      → AllMinify us ds
      → Minifies (behind (indented spaces) n us) (behind compact m ds)
  unfolding behind
  Minifies-behind n m no_texts = Minifies-empty
  Minifies-behind n m (more_texts h hs) =
      Minifies-append (mark b',' refl refl)
        (Minifies-append (Minifies-line n) (Minifies-append h (Minifies-behind n m hs)))

  Minifies-bracketed :
      {us ds : List (List ℕ)} (n m a b : ℕ)
      → IsPlain (a ∷ b ∷ [])
      → AllMinify us ds
      → Minifies (bracketed (indented spaces) n a b us) (bracketed compact m a b ds)
  unfolding bracketed
  Minifies-bracketed n m a b plain no_texts = Minifies-plain (a ∷ b ∷ []) plain
  Minifies-bracketed n m a b (s, q, (s', q', _)) (more_texts h hs) = Minifies-append (mark a s q) (
      Minifies-append (Minifies-line (suc n)) (
        Minifies-append h (
          Minifies-append (Minifies-behind (suc n) (suc m) hs)
            (Minifies-append (Minifies-line n) (mark b s' q')))))

Minifies-colon : Minifies (codes ": ") (codes ":")
unfolding minify
Minifies-colon = record { minifies = λ rest. refl }

plain_test-IsPlain : (s : List ℕ) → plain_test s ≡ true → IsPlain s
unfolding plain_test
plain_test-IsPlain [] h = tt
plain_test-IsPlain (ch ∷ s) h =
    let (a, b, c) = split_tests (is_space ch) (ch == b'"') (plain_test s) h in
    (a, b, plain_test-IsPlain s c)

-- The texts of numbers have neither white space nor quotes.
pub record PlainNumbers {F : Type 0} (t : Texts F) : Type 0 where
  pub itoa_plain : (i : ℤ) → IsPlain (t.itoa i)
  pub ryu_plain : (x : F) → IsPlain (t.ryu x)

module _ {F : Type 0} (t : Texts F) (plain : PlainNumbers t) (yields : YieldsEntries t) where
  abbrev spaces : ℕ
  spaces = 2

  module _ (f g : Value F → List ℕ) (P : Value F → Type 0)
      (same : (v : Value F) → P v → Minifies (f v) (g v)) where
    items_minify :
        (vs : Values F) → Every P vs → AllMinify spaces (item_texts f vs) (item_texts g vs)
    unfolding item_texts
    items_minify nil h = no_texts
    items_minify (cons v vs) (p, h) = more_texts (same v p) (items_minify vs h)

    entries_minify :
        (m : Map F)
        → EveryEntry (λ key v. AreBytes key × P v) m
        → AllMinify spaces (entry_texts (indented spaces) f m) (entry_texts compact g m)
    unfolding entry_texts
    entries_minify new h = no_texts
    entries_minify (insert key v m) ((b, p), h) =
        more_texts
          (Minifies-append (Minifies-quoted key b) (Minifies-append (Minifies-colon) (same v p)))
          (entries_minify m h)

  Minifies-text :
      (fuel n k : ℕ) (v : Value F)
      → Fits fuel v
      → Minifies (text t (indented spaces) fuel n v) (text t compact fuel k v)
  unfolding text Fits plain_test
  Minifies-text zero n k v h = absurd h
  Minifies-text (suc fuel) n k null h =
      Minifies-plain (codes "null") (plain_test-IsPlain (codes "null") refl)
  Minifies-text (suc fuel) n k (bool true) h =
      Minifies-plain (codes "true") (plain_test-IsPlain (codes "true") refl)
  Minifies-text (suc fuel) n k (bool false) h =
      Minifies-plain (codes "false") (plain_test-IsPlain (codes "false") refl)
  Minifies-text (suc fuel) n k (int i) h = Minifies-plain (t.itoa i) (plain.itoa_plain i)
  Minifies-text (suc fuel) n k (float x) h = Minifies-plain (t.ryu x) (plain.ryu_plain x)
  Minifies-text (suc fuel) n k (string s) h = Minifies-quoted s h
  Minifies-text (suc fuel) n k (array vs) h =
      Minifies-bracketed spaces n k b'[' b']' (plain_test-IsPlain (b'[' ∷ b']' ∷ []) refl)
        (items_minify _ _ (Fits fuel) (Minifies-text fuel (suc n) (suc k)) vs h)
  Minifies-text (suc fuel) n k (object m) h =
      Minifies-bracketed spaces n k b'{' b'}' (plain_test-IsPlain (b'{' ∷ b'}' ∷ []) refl) (
        entries_minify _ _ (Fits fuel) (Minifies-text fuel (suc n) (suc k)) (t.iter m)
          (yields _ m h))

  -- For a value whose nesting is below the fuel and whose strings are bytes, where the texts of
  -- numbers have neither white space nor quotes and the iteration over a map yields entries of the
  -- map, `to_string` and `to_string_pp` return texts, and the text of `to_string_pp` without the
  -- spaces and line breaks outside of its strings is that of `to_string`.
  pub minify-to_string_pp :
      (fuel : ℕ) (v : Value F)
      → Fits fuel v
      → (code pretty : List ℕ) × (to_string t fuel v ≡ ok code)
        × (to_string_pp t fuel v ≡ ok pretty)
        × (minify outside pretty ≡ code)
  unfolding minify
  minify-to_string_pp fuel v fits =
      let printed = text t compact fuel 0 v in
      let laid_out = text t (indented 2) fuel 0 v in
      (
        printed,
        laid_out,
        to_string-text t yields fuel v fits,
        to_string_pp-text t yields fuel v fits,
        ap (minify outside) (sym (append-nil laid_out))
            ∙ ((Minifies-text fuel 0 0 v fits).minifies [] ∙ append-nil printed),
      )
