-- ===== src/Utf8Check/Walk.antt =====
-- src/utf8check.rs: the vectors of `avxcheck_utf8_bytes`, one lane after another.
use simdjson_rs.Prelude.{
  ℕ, zero, suc, ◌/◌, ◌<◌, List, [], ◌∷◌, map, take, length, replicate, ◌≡◌, refl, sym, ap, ◌∙◌,
  arith, bit_and, bit_or,
}
use simdjson_rs.Utf8Check.{
  lanes, shuffle, cmpgt, cmpeq, subs, add8, continuation_lengths, initial_mins_table,
  second_mins_table,
}
use simdjson_rs.Utf8Check.Lanes.{length_of, bad_follow, under, overunder}

-- A vector moved up by a lane.
abbrev pub shift : ℕ → List ℕ → List ℕ
shift x [] = []
shift x (c ∷ v) = x ∷ shift c v

pub take-shift : (n x : ℕ) (v : List ℕ) → length v ≡ suc n → x ∷ take n v ≡ shift x v
take-shift n x [] h = absurd (omega arith)
take-shift zero x (c ∷ []) h = refl
take-shift zero x (c ∷ (d ∷ v)) h = absurd (omega arith)
take-shift (suc n) x (c ∷ v) h = ap (λ r. x ∷ r) (take-shift n c v (omega arith))

length-shift : (x : ℕ) (v : List ℕ) → length (shift x v) ≡ length v
length-shift x [] = refl
length-shift x (c ∷ v) = ap suc (length-shift c v)

shift-front : (n x : ℕ) (v : List ℕ) → n < length v → take (suc n) (shift x v) ≡ x ∷ take n v
shift-front n x [] h = absurd (omega arith)
shift-front zero x (c ∷ v) h = refl
shift-front (suc n) x (c ∷ v) h = ap (λ r. x ∷ r) (shift-front n c v (omega arith))

pub take-shift-shift :
    (n y x : ℕ) (v : List ℕ) → length v ≡ suc (suc n) → y ∷ (x ∷ take n v) ≡ shift y (shift x v)
take-shift-shift n y x v h =
    ap (λ r. y ∷ r) (sym (shift-front n x v (omega arith)))
    ∙ take-shift (suc n) y (shift x v) (length-shift x v ∙ h)

-- What lanes know: the length at the lane before (`l`), and the sums of the two lanes before.
abbrev pub carry_of : ℕ → ℕ → ℕ → ℕ
carry_of l s₂ c = add8 (add8 (length_of c) (subs l 1)) (subs s₂ 2)

abbrev pub carries : ℕ → ℕ → ℕ → List ℕ → List ℕ
carries l s₂ s₁ [] = []
carries l s₂ s₁ (c ∷ v) =
    carry_of l s₂ c ∷ carries (length_of c) s₁ (add8 (length_of c) (subs l 1)) v

abbrev pub error_of : ℕ → ℕ → ℕ → ℕ → ℕ → ℕ
error_of e l s₂ p c =
    bit_or
      (bit_or (bit_or (bit_or e (subs c 0xf4)) (overunder (carry_of l s₂ c) (length_of c)))
        (bad_follow p c))
      (under p c)

abbrev pub errors : ℕ → ℕ → ℕ → ℕ → List ℕ → List ℕ → List ℕ
errors l s₂ s₁ p [] v = []
errors l s₂ s₁ p (x ∷ e) [] = []
errors l s₂ s₁ p (x ∷ e) (c ∷ v) =
    error_of x l s₂ p c ∷ errors (length_of c) s₁ (add8 (length_of c) (subs l 1)) c e v

-- The same by vectors.
abbrev pub nibbles : List ℕ → List ℕ
nibbles v = map (λ c. c / 16) v

abbrev pub lengths : List ℕ → List ℕ
lengths v = map (shuffle continuation_lengths) (nibbles v)

abbrev pub sums : ℕ → ℕ → List ℕ → List ℕ
sums n l v = lanes add8 (lengths v) (lanes subs (shift l (lengths v)) (replicate n 1))

abbrev pub all_carries : ℕ → ℕ → ℕ → ℕ → List ℕ → List ℕ
all_carries n l s₂ s₁ v =
    lanes add8 (sums n l v) (lanes subs (shift s₂ (shift s₁ (sums n l v))) (replicate n 2))

pub all_carries-carries :
    (l s₂ s₁ : ℕ) (v : List ℕ) → all_carries (length v) l s₂ s₁ v ≡ carries l s₂ s₁ v
all_carries-carries l s₂ s₁ [] = refl
all_carries-carries l s₂ s₁ (c ∷ v) =
    ap (λ r. carry_of l s₂ c ∷ r)
      (all_carries-carries (length_of c) s₁ (add8 (length_of c) (subs l 1)) v)

abbrev pub all_errors : ℕ → ℕ → ℕ → ℕ → ℕ → List ℕ → List ℕ → List ℕ
all_errors n l s₂ s₁ p e v =
    let off1 = shift p v in
    let hibits = shift (p / 16) (nibbles v) in
    let e₁ = lanes bit_or e (lanes subs v (replicate n 0xf4)) in
    let e₂ = lanes bit_or e₁ (
      lanes cmpeq (lanes cmpgt (carries l s₂ s₁ v) (lengths v))
        (lanes cmpgt (lengths v) (replicate n 0))) in
    let e₃ = lanes bit_or e₂ (
      lanes bit_or
        (lanes bit_and (lanes cmpgt v (replicate n 0x9f)) (lanes cmpeq off1 (replicate n 0xed)))
        (lanes bit_and (lanes cmpgt v (replicate n 0x8f)) (lanes cmpeq off1 (replicate n 0xf4)))) in
    lanes bit_or e₃ (
      lanes bit_and (lanes cmpgt (map (shuffle initial_mins_table) hibits) off1)
        (lanes cmpgt (map (shuffle second_mins_table) hibits) v))

pub all_errors-errors :
    (l s₂ s₁ p : ℕ) (e v : List ℕ) → all_errors (length v) l s₂ s₁ p e v ≡ errors l s₂ s₁ p e v
all_errors-errors l s₂ s₁ p [] v = refl
all_errors-errors l s₂ s₁ p (x ∷ e) [] = refl
all_errors-errors l s₂ s₁ p (x ∷ e) (c ∷ v) =
    ap (λ r. error_of x l s₂ p c ∷ r)
      (all_errors-errors (length_of c) s₁ (add8 (length_of c) (subs l 1)) c e v)
