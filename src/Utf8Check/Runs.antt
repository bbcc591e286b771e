-- ===== src/Utf8Check/Runs.antt =====
-- src/utf8check.rs: a vector without an error is a piece of UTF-8.
use simdjson_rs.Prelude.{
  ℕ, ◌+◌, ◌-◌, ◌≤◌, ◌<◌, Bool, true, false, ◌&&◌, Option, none, some, List, [], ◌∷◌, length, ◌≡◌,
  refl, sym, ap, ◌∙◌, arith, AreBytes, ◌==◌, leb, bit_or, leb→le,
}
use simdjson_rs.Prelude.Bits.{either_zero}
use simdjson_rs.Prelude.Table.{all_below, all_below_sound}
use simdjson_rs.Utf8Check.{subs, add8}
use simdjson_rs.Utf8Check.Sequences.{lacks_behind}
use simdjson_rs.Utf8Check.Lanes.{length_of, is_some, lane_test, overunder, bad_follow, under}
use simdjson_rs.Utf8Check.Walk.{error_of, errors}
use simdjson_rs.Utf8Check.Carries.{Knows, Knows-next}

-- The bytes that are lacking behind a text, and its last byte.
abbrev pub scans : ℕ → ℕ → List ℕ → Option (ℕ × ℕ)
scans n p [] = some (n, p)
scans n p (c ∷ s) = elim (lacks_behind n p c) [ none ↦ none | some m ↦ scans m c s ]

abbrev pub is_text : Option (ℕ × ℕ) → Bool
is_text none = false
is_text (some r) = true

abbrev pub all_zero : List ℕ → Bool
all_zero [] = true
all_zero (x ∷ e) = x == 0 && all_zero e

length_table : all_below 256 (λ c. leb (length_of c) 4) ≡ true
unfolding all_below
length_table = refl

length_of_le : (c : ℕ) → c < 256 → length_of c ≤ 4
length_of_le c h = leb→le _ _ (all_below_sound 256 _ length_table c h)

five : (x a b d u : Bool) → (x && a && b && d && u) ≡ (x && (a && b && (d && u)))
five true true true d u = refl
five true true false d u = refl
five true false b d u = refl
five false a b d u = refl

zero_five :
    (x a b d u : ℕ)
    → (bit_or (bit_or (bit_or (bit_or x a) b) d) u == 0)
      ≡ (x == 0 && (bit_or a b == 0 && bit_or d u == 0))
zero_five x a b d u =
    either_zero (bit_or (bit_or (bit_or x a) b) d) u
    ∙ (ap (λ q. q && u == 0)
          (either_zero (bit_or (bit_or x a) b) d
            ∙ ap (λ q. q && d == 0)
                (either_zero (bit_or x a) b ∙ ap (λ q. q && b == 0) (either_zero x a)))
        ∙ (five (x == 0) (a == 0) (b == 0) (d == 0) (u == 0)
            ∙ ap (λ q. x == 0 && q)
                (ap (λ q. q && (d == 0 && u == 0)) (sym (either_zero a b))
                  ∙ ap (λ q. bit_or a b == 0 && q) (sym (either_zero d u)))))

sum_fits :
    (l s m : ℕ)
    → l ≤ 4
    → s ≤ 4
    → m ≤ 4
    → add8 (add8 m (subs l 1)) (subs s 2) ≡ m + (l - 1 + (s - 2))
sum_fits l s m h g k = omega arith

error_test :
    (x n l s₂ s₁ p c : ℕ)
    → Knows n l s₂ s₁
    → c < 256
    → p < 256
    → (n ≡ 0 → p < 192)
    → (error_of x l s₂ p c == 0) ≡ (x == 0 && is_some (lacks_behind n p c))
error_test x n l s₂ s₁ p c k h g j =
    let (_, a, b, _) = k.small in
    let t = l - 1 + (s₂ - 2) in
    let e = sum_fits l s₂ (length_of c) a b (length_of_le c h) in
    ap
      (λ m.
        bit_or
          (bit_or (bit_or (bit_or x (subs c 0xf4)) (overunder m (length_of c))) (bad_follow p c))
          (under p c)
        == 0)
      e
    ∙ (zero_five x (subs c 0xf4) (overunder (length_of c + t) (length_of c)) (bad_follow p c)
          (under p c)
        ∙ ap (λ q. x == 0 && q) (lane_test n t p c h g (omega arith) k.now j))

-- The first byte, and what is behind it.
pub first_step :
    (n p c : ℕ) (v : List ℕ) (r : ℕ × ℕ)
    → scans n p (c ∷ v) ≡ some r
    → (m : ℕ) × (lacks_behind n p c ≡ some m) × (scans m c v ≡ some r)
first_step n p c v r h = after (lacks_behind n p c) refl h
  where
    after :
        (o : Option ℕ)
        → lacks_behind n p c ≡ o
        → elim o [ none ↦ none | some m ↦ scans m c v ] ≡ some r
        → (m : ℕ) × (lacks_behind n p c ≡ some m) × (scans m c v ≡ some r)
    after none e h = absurd (ground arith)
    after (some m) e h = (m, e, h)

dead : (x e r : Bool) → (x && false && r) ≡ (x && e && false)
dead true true r = refl
dead true false r = refl
dead false e r = refl

alive : (x e s : Bool) → (x && true && (e && s)) ≡ (x && e && s)
alive true true s = refl
alive true false s = refl
alive false e s = refl

-- No lane has an error exactly if the vector goes on as UTF-8.
pub errors_test :
    (e v : List ℕ) (n l s₂ s₁ p : ℕ)
    → length e ≡ length v
    → AreBytes v
    → p < 256
    → Knows n l s₂ s₁
    → (n ≡ 0 → p < 192)
    → all_zero (errors l s₂ s₁ p e v) ≡ (all_zero e && is_text (scans n p v))
errors_test [] [] n l s₂ s₁ p i b g k j = refl
errors_test [] (c ∷ v) n l s₂ s₁ p i b g k j = absurd (omega arith)
errors_test (x ∷ e) [] n l s₂ s₁ p i b g k j = absurd (omega arith)
errors_test (x ∷ e) (c ∷ v) n l s₂ s₁ p i (h, b) g k j =
    ap (λ q. q && all_zero (errors (length_of c) s₁ (add8 (length_of c) (subs l 1)) c e v))
      (error_test x n l s₂ s₁ p c k h g j)
    ∙ after (lacks_behind n p c) refl (λ m k' j'.
      errors_test e v m (length_of c) s₁ (add8 (length_of c) (subs l 1)) c (omega arith) b h k' j')
  where
    after :
        (o : Option ℕ)
        → lacks_behind n p c ≡ o
        → ((m : ℕ)
            → Knows m (length_of c) s₁ (add8 (length_of c) (subs l 1))
            → (m ≡ 0 → c < 192)
            → all_zero (errors (length_of c) s₁ (add8 (length_of c) (subs l 1)) c e v)
              ≡ (all_zero e && is_text (scans m c v)))
        → (x == 0
            && is_some o
            && all_zero (errors (length_of c) s₁ (add8 (length_of c) (subs l 1)) c e v))
          ≡ (x == 0 && all_zero e && is_text (elim o [ none ↦ none | some m ↦ scans m c v ]))
    after none q again = dead (x == 0) (all_zero e) _
    after (some m) q again =
        let (goes, low) = Knows-next n l s₂ s₁ p c m k h q in
        ap (λ z. x == 0 && true && z) (again m goes.0 low)
        ∙ alive (x == 0) (all_zero e) (is_text (scans m c v))
