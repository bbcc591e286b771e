-- ===== src/Utf8Check/Vectors.antt =====
-- src/utf8check.rs, `avxcheck_utf8_bytes`: what its state knows behind each vector.
use simdjson_rs.Prelude.{
  ℕ, zero, suc, ◌+◌, ◌-◌, ◌/◌, ◌≤◌, ◌<◌, none, some, List, [], ◌∷◌, length, get_or, ◌≡◌, inl, inr,
  refl, sym, ap, subst, arith, AreBytes,
}
use simdjson_rs.Utf8Check.{subs, add8, AvxProcessedUtfBytes}
use simdjson_rs.Utf8Check.Sequences.{lacks_behind}
use simdjson_rs.Utf8Check.Lanes.{length_of}
use simdjson_rs.Utf8Check.Walk.{nibbles, carry_of, carries}
use simdjson_rs.Utf8Check.Carries.{Knows, Knows-next, lacks_behind-cases}
use simdjson_rs.Utf8Check.Runs.{scans, first_step}

abbrev pub AreSmall : List ℕ → Type 0
AreSmall [] = Unit
AreSmall (x ∷ s) = (x ≤ 9) × AreSmall s

-- The last two numbers of a list, behind two others, and its last byte.
abbrev pub pair_behind : ℕ → ℕ → List ℕ → ℕ × ℕ
pair_behind a b [] = (a, b)
pair_behind a b (x ∷ s) = pair_behind b x s

abbrev pub byte_behind : ℕ → List ℕ → ℕ
byte_behind p [] = p
byte_behind p (c ∷ s) = byte_behind c s

pub get_or-pair_behind :
    (n a b : ℕ) (s : List ℕ)
    → length s ≡ suc (suc n)
    → (get_or s n 0 ≡ (pair_behind a b s).0) × (get_or s (suc n) 0 ≡ (pair_behind a b s).1)
get_or-pair_behind n a b [] h = absurd (omega arith)
get_or-pair_behind n a b (x ∷ []) h = absurd (omega arith)
get_or-pair_behind zero a b (x ∷ (y ∷ [])) h = (refl, refl)
get_or-pair_behind (suc n) a b (x ∷ (y ∷ [])) h = absurd (omega arith)
get_or-pair_behind zero a b (x ∷ (y ∷ (z ∷ s))) h = absurd (omega arith)
get_or-pair_behind (suc n) a b (x ∷ (y ∷ (z ∷ s))) h =
    get_or-pair_behind n b x (y ∷ (z ∷ s)) (omega arith)

pub get_or-byte_behind : (n p : ℕ) (s : List ℕ) → length s ≡ suc n → get_or s n 0 ≡ byte_behind p s
get_or-byte_behind n p [] h = absurd (omega arith)
get_or-byte_behind zero p (x ∷ []) h = refl
get_or-byte_behind zero p (x ∷ (y ∷ s)) h = absurd (omega arith)
get_or-byte_behind (suc n) p (x ∷ []) h = absurd (omega arith)
get_or-byte_behind (suc n) p (x ∷ (y ∷ s)) h = get_or-byte_behind n x (y ∷ s) (omega arith)

-- The last two carries, where a character lacks `n` bytes.
abbrev pub AreLast : ℕ → ℕ × ℕ → Type 0
AreLast n (a, b) = (n ≤ 3) × (b - 1 ≡ n) × (a ≤ 4) × (n ≡ 0 → a ≤ 2)

pub AreLast-Knows : (n a b : ℕ) → AreLast n (a, b) → Knows n b a b
AreLast-Knows zero a b (s, e, l, z) =
    let z' = z refl in
    record {
      small = (omega arith, omega arith, omega arith, omega arith);
      now = (λ i. omega arith, λ i. omega arith);
      later = omega arith;
      at_last = omega arith;
    }
AreLast-Knows (suc n) a b (s, e, l, z) = record {
  small = (omega arith, omega arith, omega arith, omega arith);
  now = (λ i. omega arith, λ i. omega arith);
  later = omega arith;
  at_last = omega arith;
}

-- A carry behind that of a byte.
AreLast-next :
    (n p c n' b : ℕ)
    → n ≤ 3
    → c < 256
    → lacks_behind n p c ≡ some n'
    → n' ≤ 3
    → b - 1 ≡ n
    → AreLast n' (b, suc n')
AreLast-next n p c n' b s h e s' g = elim (lacks_behind-cases n p c n' h e) [
  | inl (z, _, _, _) ↦ (s', omega arith, omega arith, λ y. omega arith)
  | inr (z, _, _) ↦ (s', omega arith, omega arith, λ y. omega arith)
]

-- What a vector leaves behind.
abbrev pub Leaves : ℕ × ℕ → ℕ × ℕ → List ℕ → Type 0
Leaves (n', q) last cs = AreLast n' last × AreSmall cs × (n' ≡ 0 → q < 192) × (q < 256)

carries-Leaves :
    (v : List ℕ) (n l s₂ s₁ p a b : ℕ) (r : ℕ × ℕ)
    → AreBytes v
    → Knows n l s₂ s₁
    → l - 1 + (s₂ - 2) ≡ n
    → AreLast n (a, b)
    → (n ≡ 0 → p < 192)
    → p < 256
    → scans n p v ≡ some r
    → Leaves r (pair_behind a b (carries l s₂ s₁ v)) (carries l s₂ s₁ v)
carries-Leaves [] n l s₂ s₁ p a b r bytes k e t j g h =
    let same : (n, p) ≡ r = ap (λ o. elim o [ none ↦ (n, p) | some x ↦ x ]) h in
    subst (λ x. Leaves x (a, b) []) same (t, tt, j, g)
carries-Leaves (c ∷ v) n l s₂ s₁ p a b r (i, bytes) k e t j g h =
    let (m, lacks, rest) = first_step n p c v r h in
    let (goes, low) = Knows-next n l s₂ s₁ p c m k i lacks in
    let (k', e', small, exact) = goes in
    let x : carry_of l s₂ c ≡ suc m = exact e in
    let t' : AreLast m (b, carry_of l s₂ c) =
      subst (λ y. AreLast m (b, y)) (sym x) (AreLast-next n p c m b t.0 i lacks k'.small.0 t.1) in
    let (last, smalls, lows, byte) =
      carries-Leaves v m (length_of c) s₁ (add8 (length_of c) (subs l 1)) c b (carry_of l s₂ c) r
        bytes k' e' t' low i rest in
    (last, (small, smalls), lows, byte)

pub vector-Leaves :
    (v : List ℕ) (n l s p : ℕ) (r : ℕ × ℕ)
    → 2 < length v
    → AreBytes v
    → Knows n l s l
    → scans n p v ≡ some r
    → Leaves r (pair_behind 0 0 (carries l s l v)) (carries l s l v)
vector-Leaves [] n l s p r long bytes k h = absurd (omega arith)
vector-Leaves (c ∷ []) n l s p r long bytes k h = absurd (omega arith)
vector-Leaves (c ∷ (d ∷ [])) n l s p r long bytes k h = absurd (omega arith)
vector-Leaves (c ∷ (d ∷ (f ∷ v))) n l s p r long (i₀, (i₁, (i₂, bytes))) k h =
    let l₁ = add8 (length_of c) (subs l 1) in
    let l₂ = add8 (length_of d) (subs (length_of c) 1) in
    let l₃ = add8 (length_of f) (subs (length_of d) 1) in
    let (m₀, lacks₀, rest₀) = first_step n p c (d ∷ (f ∷ v)) r h in
    let ((k₀, e₀, small₀, _), low₀) = Knows-next n l s l p c m₀ k i₀ lacks₀ in
    let (m₁, lacks₁, rest₁) = first_step m₀ c d (f ∷ v) r rest₀ in
    let ((k₁, e₁, small₁, exact₁), low₁) = Knows-next m₀ (length_of c) l l₁ c d m₁ k₀ i₁ lacks₁ in
    let (m₂, lacks₂, rest₂) = first_step m₁ d f v r rest₁ in
    let ((k₂, e₂, small₂, exact₂), low₂) = Knows-next m₁ (length_of d) l₁ l₂ d f m₂ k₁ i₂ lacks₂ in
    let x₁ : carry_of (length_of c) l d ≡ suc m₁ = exact₁ e₀ in
    let x₂ : carry_of (length_of d) l₁ f ≡ suc m₂ = exact₂ e₁ in
    let t : AreLast m₂ (carry_of (length_of c) l d, carry_of (length_of d) l₁ f) =
      subst (λ y. AreLast m₂ (carry_of (length_of c) l d, y)) (sym x₂)
        (AreLast-next m₁ d f m₂ (carry_of (length_of c) l d) k₁.small.0 i₂ lacks₂ k₂.small.0
          (omega (arith, x₁))) in
    let (last, smalls, lows, byte) =
      carries-Leaves v m₂ (length_of f) l₂ l₃ f (carry_of (length_of c) l d)
        (carry_of (length_of d) l₁ f) r bytes k₂ e₂ t low₂ i₂ rest₂ in
    (last, (small₀, (small₁, (small₂, smalls))), lows, byte)

-- The state behind a text that lacks `n` bytes, where its last byte is `p`.
pub record IsState (n p : ℕ) (u : AvxProcessedUtfBytes) : Type 0 where
  pub nibble : get_or u.high_nibbles 31 0 ≡ get_or u.rawbytes 31 0 / 16
  pub full : length u.carried_continuations ≡ 32
  pub last : AreLast n (get_or u.carried_continuations 30 0, get_or u.carried_continuations 31 0)
  pub small : AreSmall u.carried_continuations
  pub lead : 0 < n → get_or u.rawbytes 31 0 ≡ p
  pub byte : get_or u.rawbytes 31 0 < 256
  pub low : n ≡ 0 → get_or u.rawbytes 31 0 < 192

-- Where nothing lacks, the byte in front does not matter.
pub scans-same :
    (n p q c : ℕ) (v : List ℕ) → (0 < n → q ≡ p) → scans n q (c ∷ v) ≡ scans n p (c ∷ v)
scans-same zero p q c v h = refl
scans-same (suc n) p q c v h = ap (λ x. scans (suc n) x (c ∷ v)) (h (omega arith))

pub scans-last : (v : List ℕ) (n p : ℕ) (r : ℕ × ℕ) → scans n p v ≡ some r → byte_behind p v ≡ r.1
scans-last [] n p r h = ap (λ o. elim o [ none ↦ p | some x ↦ x.1 ]) h
scans-last (c ∷ v) n p r h = let (m, _, rest) = first_step n p c v r h in scans-last v m c r rest

pub length-carries : (l s₂ s₁ : ℕ) (v : List ℕ) → length (carries l s₂ s₁ v) ≡ length v
length-carries l s₂ s₁ [] = refl
length-carries l s₂ s₁ (c ∷ v) =
    ap suc (length-carries (length_of c) s₁ (add8 (length_of c) (subs l 1)) v)

pub nibble_at : (v : List ℕ) (i : ℕ) → get_or (nibbles v) i 0 ≡ get_or v i 0 / 16
nibble_at [] i = refl
nibble_at (c ∷ v) zero = refl
nibble_at (c ∷ v) (suc i) = nibble_at v i
