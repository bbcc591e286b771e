-- ===== src/Utf8Check/Tracks.antt =====
-- src/utf8check.rs: vectors one behind the other, those behind an error included.
use simdjson_rs.Prelude.{
  ℕ, suc, ◌/◌, ◌<◌, Bool, true, false, ◌&&◌, Option, none, some, List, [], ◌∷◌, length, get_or, ◌≡◌,
  refl, sym, ap, ◌∙◌, subst, arith, AreBytes, bit_and, bit_or, ◌==◌,
}
use simdjson_rs.Prelude.Bits.{bit_or_lt, either_zero}
use simdjson_rs.Utf8Check.{truth, subs, add8, AvxProcessedUtfBytes, avxcheck_utf8_bytes}
use simdjson_rs.Utf8Check.Lanes.{length_of, overunder, bad_follow, under}
use simdjson_rs.Utf8Check.Walk.{carry_of, error_of, errors}
use simdjson_rs.Utf8Check.Pushes.{avxcheck_utf8_bytes-errors}
use simdjson_rs.Utf8Check.Runs.{scans, is_text, all_zero}
use simdjson_rs.Utf8Check.Vectors.{IsState, length-carries, nibble_at}
use simdjson_rs.Utf8Check.States.{avxcheck_utf8_bytes-scans}

truth_lt : (b : Bool) → truth b < 256
truth_lt true = omega arith
truth_lt false = omega arith

and-truth_lt : (a b : Bool) → bit_and (truth a) (truth b) < 256
and-truth_lt true true = omega arith
and-truth_lt true false = omega arith
and-truth_lt false true = omega arith
and-truth_lt false false = omega arith

error_of_lt : (x l s₂ p c : ℕ) → x < 256 → c < 256 → error_of x l s₂ p c < 256
error_of_lt x l s₂ p c h g =
    bit_or_lt 8 _ _
      (bit_or_lt 8 _ _ (bit_or_lt 8 _ _ (bit_or_lt 8 x (subs c 0xf4) h (omega arith)) (truth_lt _))
        (bit_or_lt 8 _ _ (and-truth_lt _ _) (and-truth_lt _ _)))
      (and-truth_lt _ _)

errors-AreBytes :
    (e v : List ℕ) (l s₂ s₁ p : ℕ) → AreBytes e → AreBytes v → AreBytes (errors l s₂ s₁ p e v)
errors-AreBytes [] v l s₂ s₁ p b d = tt
errors-AreBytes (x ∷ e) [] l s₂ s₁ p b d = tt
errors-AreBytes (x ∷ e) (c ∷ v) l s₂ s₁ p (h, b) (g, d) = (
  error_of_lt x l s₂ p c h g,
  errors-AreBytes e v (length_of c) s₁ (add8 (length_of c) (subs l 1)) c b d,
)

length-errors :
    (e v : List ℕ) (l s₂ s₁ p : ℕ) → length e ≡ length v → length (errors l s₂ s₁ p e v) ≡ length e
length-errors [] v l s₂ s₁ p h = refl
length-errors (x ∷ e) [] l s₂ s₁ p h = absurd (omega arith)
length-errors (x ∷ e) (c ∷ v) l s₂ s₁ p h =
    ap suc (length-errors e v (length_of c) s₁ (add8 (length_of c) (subs l 1)) c (omega arith))

-- An error stays.
stays :
    (x a b d u : ℕ) → (x == 0) ≡ false → (bit_or (bit_or (bit_or (bit_or x a) b) d) u == 0) ≡ false
stays x a b d u h =
    either_zero (bit_or (bit_or (bit_or x a) b) d) u
    ∙ ap (λ q. q && u == 0)
        (either_zero (bit_or (bit_or x a) b) d
          ∙ ap (λ q. q && d == 0)
              (either_zero (bit_or x a) b
                ∙ ap (λ q. q && b == 0) (either_zero x a ∙ ap (λ q. q && a == 0) h)))

and-false : (b : Bool) → (b && false) ≡ false
and-false true = refl
and-false false = refl

errors-stay :
    (e v : List ℕ) (l s₂ s₁ p : ℕ)
    → length e ≡ length v
    → all_zero e ≡ false
    → all_zero (errors l s₂ s₁ p e v) ≡ false
errors-stay [] v l s₂ s₁ p h z = z
errors-stay (x ∷ e) [] l s₂ s₁ p h z = absurd (omega arith)
errors-stay (x ∷ e) (c ∷ v) l s₂ s₁ p h z =
    after (x == 0) refl z
      (errors-stay e v (length_of c) s₁ (add8 (length_of c) (subs l 1)) c (omega arith))
  where
    after :
        (b : Bool)
        → (x == 0) ≡ b
        → (b && all_zero e) ≡ false
        → (all_zero e ≡ false
            → all_zero (errors (length_of c) s₁ (add8 (length_of c) (subs l 1)) c e v) ≡ false)
        → all_zero (errors l s₂ s₁ p (x ∷ e) (c ∷ v)) ≡ false
    after true q w again =
        ap (λ r. error_of x l s₂ p c == 0 && r) (again w) ∙ and-false (error_of x l s₂ p c == 0)
    after false q w again =
        ap (λ r. r && all_zero (errors (length_of c) s₁ (add8 (length_of c) (subs l 1)) c e v))
          (stays x (subs c 0xf4) (overunder (carry_of l s₂ c) (length_of c)) (bad_follow p c)
            (under p c) q)

-- The vectors have their lengths, whatever was found.
pub record IsShaped (e : List ℕ) (u : AvxProcessedUtfBytes) : Type 0 where
  pub width : length e ≡ 32
  pub bytes : AreBytes e
  pub nibble : get_or u.high_nibbles 31 0 ≡ get_or u.rawbytes 31 0 / 16
  pub full : length u.carried_continuations ≡ 32

-- The state behind a text, or behind what is none.
abbrev pub Tracks : Option (ℕ × ℕ) → List ℕ → AvxProcessedUtfBytes → Type 0
Tracks none e u = IsShaped e u × (all_zero e ≡ false)
Tracks (some (n, p)) e u = IsShaped e u × (all_zero e ≡ true) × IsState n p u

abbrev pub scans_on : Option (ℕ × ℕ) → List ℕ → Option (ℕ × ℕ)
scans_on none v = none
scans_on (some (n, p)) v = scans n p v

module _ (v : List ℕ) (b : AreBytes v) (h : length v ≡ 32) where
  vector-IsShaped :
      (e : List ℕ) (u : AvxProcessedUtfBytes)
      → IsShaped e u
      → IsShaped (avxcheck_utf8_bytes v u e).1 (avxcheck_utf8_bytes v u e).0
  vector-IsShaped e u i =
      let l = get_or u.carried_continuations 31 0 in
      let s = get_or u.carried_continuations 30 0 in
      let p = get_or u.rawbytes 31 0 in
      subst (λ x. IsShaped x.1 x.0) (sym (avxcheck_utf8_bytes-errors v e u b h i.nibble))
        (record {
          width = length-errors e v l s l p (i.width ∙ sym h) ∙ i.width;
          bytes = errors-AreBytes e v l s l p i.bytes b;
          nibble = nibble_at v 31;
          full = length-carries l s l v ∙ h;
        })

  pub vector-Tracks :
      (o : Option (ℕ × ℕ)) (e : List ℕ) (u : AvxProcessedUtfBytes)
      → Tracks o e u
      → Tracks (scans_on o v) (avxcheck_utf8_bytes v u e).1 (avxcheck_utf8_bytes v u e).0
  vector-Tracks none e u (i, z) = (
    vector-IsShaped e u i,
    ap (λ x. all_zero x.1) (avxcheck_utf8_bytes-errors v e u b h i.nibble)
        ∙ errors-stay e v _ _ _ _ (i.width ∙ sym h) z,
  )
  vector-Tracks (some (n, p)) e u (i, z, k) =
      let (test, next) = avxcheck_utf8_bytes-scans n p v e u b h i.width k in
      after (scans n p v) refl (vector-IsShaped e u i)
        (test ∙ ap (λ q. q && is_text (scans n p v)) z) next
    where
      after :
          (o : Option (ℕ × ℕ))
          → scans n p v ≡ o
          → IsShaped (avxcheck_utf8_bytes v u e).1 (avxcheck_utf8_bytes v u e).0
          → all_zero (avxcheck_utf8_bytes v u e).1 ≡ is_text (scans n p v)
          → ((r : ℕ × ℕ) → scans n p v ≡ some r → IsState r.0 r.1 (avxcheck_utf8_bytes v u e).0)
          → Tracks o (avxcheck_utf8_bytes v u e).1 (avxcheck_utf8_bytes v u e).0
      after none q w t next = (w, t ∙ ap is_text q)
      after (some r) q w t next = (w, t ∙ ap is_text q, next r q)
