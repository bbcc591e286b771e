-- ===== src/Stage1/Final.antt =====
-- src/stage1.rs, `finalize_structurals`: the first bytes of the tokens.
use simdjson_rs.Prelude.{
  ℕ, zero, suc, ◌/◌, ◌^◌, Bool, true, false, not, ◌&&◌, ◌||◌, List, [], ◌∷◌, map, length, ◌≡◌, refl,
  sym, ap, ◌∙◌, arith, bit_and, bit_or,
}
use simdjson_rs.Stage1.{pack, complement, shl1, finalize_structurals}
use simdjson_rs.Stage1.Words.{
  bit, zip, shift, top, length-zip, length-map, length-shift, bit_and-pack, bit_or-pack,
  complement-pack, shl1-pack,
}
use simdjson_rs.Stage1.Odd.{pulse}
use simdjson_rs.Stage1.Escapes.{bit-pulse, length-pulse}
use simdjson_rs.Stage1.Scanner.{
  Context, is_structural, is_whitespace, begins_token, next, context_behind, tokens_at,
}
use simdjson_rs.Stage1.Strings.{quotes, strings, length-quotes, length-strings, high_bit-pack}

-- The word of 64 bits.
abbrev IsWord : ℕ → List Bool → Type 0
IsWord x a = (x ≡ pack a) × (length a ≡ 64)

bit_and-IsWord :
    (x y : ℕ) (a b : List Bool) → IsWord x a → IsWord y b → IsWord (bit_and x y) (zip ◌&&◌ a b)
bit_and-IsWord x y a b (e, h) (f, g) =
    (rw (e, f) (bit_and-pack a b (h ∙ sym g)), length-zip ◌&&◌ a b (h ∙ sym g) ∙ h)

bit_or-IsWord :
    (x y : ℕ) (a b : List Bool) → IsWord x a → IsWord y b → IsWord (bit_or x y) (zip ◌||◌ a b)
bit_or-IsWord x y a b (e, h) (f, g) =
    (rw (e, f) (bit_or-pack a b (h ∙ sym g)), length-zip ◌||◌ a b (h ∙ sym g) ∙ h)

complement-IsWord : (x : ℕ) (a : List Bool) → IsWord x a → IsWord (complement x) (map not a)
complement-IsWord x a (e, h) = (rw e (complement-pack a h), length-map not a ∙ h)

-- `(x << 1) | prev`.
or-false : (b : Bool) → (b || false) ≡ b
or-false true = refl
or-false false = refl

zip-pulse :
    (n : ℕ) (c p : Bool) (a : List Bool)
    → length a ≡ n
    → zip ◌||◌ (shift c a) (pulse p n) ≡ shift (c || p) a
zip-pulse n c p [] h = refl
zip-pulse zero c p (x ∷ a) h = absurd (omega arith)
zip-pulse (suc n) c p (x ∷ a) h =
    ap (λ r. (c || p) ∷ r) (zip-pulse n x false a (omega arith) ∙ ap (λ d. shift d a) (or-false x))

shifted-IsWord :
    (x : ℕ) (a : List Bool) (p : Bool) → IsWord x a → IsWord (bit_or (shl1 x) (bit p)) (shift p a)
shifted-IsWord x a p (e, h) =
    let (w, g) =
      bit_or-IsWord (shl1 x) (bit p) (shift false a) (pulse p 64)
        (ap shl1 e ∙ shl1-pack a h, length-shift false a ∙ h) (bit-pulse p, length-pulse p 64) in
    (w ∙ ap pack (zip-pulse 64 false p a h), length-shift p a ∙ h)

-- The words of the code by their bits.
module _ (k : Context) (s : List ℕ) where
  abbrev scalar_ends : List Bool
  scalar_ends = zip ◌||◌ (zip ◌&&◌ (map is_structural s) (map not (strings k s))) (quotes k s)

  abbrev pseudo_preds : List Bool
  pseudo_preds = zip ◌||◌ scalar_ends (map is_whitespace s)

  abbrev marks : List Bool
  marks =
      zip ◌&&◌
        (zip ◌||◌ scalar_ends (
          zip ◌&&◌ (zip ◌&&◌ (shift k.boundary pseudo_preds) (map not (map is_whitespace s)))
            (map not (strings k s))))
        (map not (zip ◌&&◌ (quotes k s) (map not (strings k s))))

marks-tokens_at : (k : Context) (s : List ℕ) → marks k s ≡ tokens_at k s
marks-tokens_at k [] = refl
marks-tokens_at k (c ∷ s) = ap (λ r. begins_token k c ∷ r) (marks-tokens_at (next k c) s)

top-pseudo_preds :
    (k : Context) (s : List ℕ) → top k.boundary (pseudo_preds k s) ≡ (context_behind k s).boundary
top-pseudo_preds k [] = refl
top-pseudo_preds k (c ∷ s) = top-pseudo_preds (next k c) s

-- Of a block of 64 bytes, `finalize_structurals` marks the first byte of each token outside of
-- strings and each opening quote, and carries on whether a scalar may begin behind the block.
pub finalize_structurals-pack :
    (k : Context) (s : List ℕ)
    → length s ≡ 64
    → finalize_structurals
        (pack (map is_structural s))
        (pack (map is_whitespace s))
        (pack (strings k s))
        (pack (quotes k s))
        (bit k.boundary)
      ≡ (pack (tokens_at k s), bit (context_behind k s).boundary)
unfolding finalize_structurals
finalize_structurals-pack k s h =
    let structural : IsWord (pack (map is_structural s)) (map is_structural s) =
      (refl, length-map is_structural s ∙ h) in
    let white : IsWord (pack (map is_whitespace s)) (map is_whitespace s) =
      (refl, length-map is_whitespace s ∙ h) in
    let inside : IsWord (pack (strings k s)) (strings k s) = (refl, length-strings k s ∙ h) in
    let quote : IsWord (pack (quotes k s)) (quotes k s) = (refl, length-quotes k s ∙ h) in
    let outside = complement-IsWord _ _ inside in
    let ends = bit_or-IsWord _ _ _ _ (bit_and-IsWord _ _ _ _ structural outside) quote in
    let preds = bit_or-IsWord _ _ _ _ ends white in
    let firsts =
      bit_and-IsWord _ _ _ _
        (bit_and-IsWord _ _ _ _ (shifted-IsWord _ _ k.boundary preds) (complement-IsWord _ _ white))
        outside in
    let all =
      bit_and-IsWord _ _ _ _ (bit_or-IsWord _ _ _ _ ends firsts)
        (complement-IsWord _ _ (bit_and-IsWord _ _ _ _ quote outside)) in
    let boundary =
      ap (λ x. x / 2 ^ 63) preds.0
      ∙ (high_bit-pack k.boundary (pseudo_preds k s) preds.1 ∙ ap bit (top-pseudo_preds k s)) in
    rw (all.0 ∙ ap pack (marks-tokens_at k s), boundary) refl
