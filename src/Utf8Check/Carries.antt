-- ===== src/Utf8Check/Carries.antt =====
-- src/utf8check.rs: what the carries know of the character that is begun.
use simdjson_rs.Prelude.{
  ℕ, zero, suc, ◌+◌, ◌-◌, ◌≤◌, ◌<◌, Bool, true, false, ◌&&◌, Option, none, some, ◌≡◌, ◌↔◌, ◌⊎◌, inl,
  inr, refl, sym, ap, ◌∙◌, subst, arith, ◌==◌, leb, ltb, if◌then◌else◌, Bool-cases, ==_iff, leb→le,
  ltb→lt,
}
use simdjson_rs.Prelude.Table.{all_below, all_below_sound}
use simdjson_rs.Utf8Check.{subs, add8}
use simdjson_rs.Utf8Check.Sequences.{is_continuation, follows, bytes_behind, lacks_behind}
use simdjson_rs.Utf8Check.Lanes.{length_of, no_follower}

both : (a b : Bool) → (a && b) ≡ true → (a ≡ true) × (b ≡ true)
both true b h = (refl, h)
both false b h = cc

-- The length of a first byte, and that of a continuation.
agrees : ℕ → Option ℕ → Bool
agrees c none = true
agrees c (some n) = length_of c == suc n && leb n 3 && ltb c (if n == 0 then 192 else 256)

first_table : all_below 256 (λ c. agrees c (bytes_behind c)) ≡ true
unfolding all_below bytes_behind agrees
first_table = refl

continuation_table :
    all_below 256 (λ c. if is_continuation c then length_of c == 0 && ltb c 192 else true) ≡ true
unfolding all_below is_continuation
continuation_table = refl

first_facts :
    (c n : ℕ)
    → c < 256
    → bytes_behind c ≡ some n
    → (length_of c ≡ suc n) × (n ≤ 3) × (n ≡ 0 → c < 192)
unfolding agrees
first_facts c n h e =
    let row : agrees c (some n) ≡ true =
      subst (λ o. agrees c o ≡ true) e (all_below_sound 256 _ first_table c h) in
    let (ab, last) = both _ _ row in
    let (a, b) = both _ _ ab in
    (
      (==_iff _ _).0 a,
      leb→le n 3 b,
      λ z. subst (λ m. c < (if m == 0 then 192 else 256)) z (ltb→lt c _ last),
    )

continuation_facts : (c : ℕ) → c < 256 → is_continuation c ≡ true → (length_of c ≡ 0) × (c < 192)
continuation_facts c h e =
    let row : (length_of c == 0 && ltb c 192) ≡ true =
      subst (λ b. (if b then length_of c == 0 && ltb c 192 else true) ≡ true) e
        (all_below_sound 256 _ continuation_table c h) in
    let (a, b) = both _ _ row in ((==_iff _ _).0 a, ltb→lt c 192 b)

differ_test : false ≡ true → ⊥
differ_test h = cc

follower : (p c : ℕ) → follows p c ≡ true → is_continuation c ≡ true
follower p c h = elim (Bool-cases (is_continuation c)) [
  | inl e ↦ e
  | inr e ↦ absurd (differ_test (sym (no_follower p c e) ∙ h))
]

some_lacking : (b : Bool) (m n : ℕ) → (if b then some m else none) ≡ some n → (b ≡ true) × (m ≡ n)
some_lacking true m n h = (refl, ap (λ o. elim o [ none ↦ 0 | some x ↦ x ]) h)
some_lacking false m n h = absurd (ground arith)

-- A byte begins a character, or goes on with one.
pub lacks_behind-cases :
    (n p c n' : ℕ)
    → c < 256
    → lacks_behind n p c ≡ some n'
    → ((n ≡ 0) × (length_of c ≡ suc n') × (n' ≤ 3) × (n' ≡ 0 → c < 192))
      ⊎ ((n ≡ suc n') × (length_of c ≡ 0) × (c < 192))
lacks_behind-cases zero p c n' h e = let (a, b, d) = first_facts c n' h e in inl (refl, a, b, d)
lacks_behind-cases (suc n) p c n' h e =
    let (f, m) = some_lacking (follows p c) n n' e in
    let (l, k) = continuation_facts c h (follower p c f) in inr (ap suc m, l, k)

-- The lengths and sums that the carries are made of, where a character lacks `n` bytes.
pub record Knows (n l s₂ s₁ : ℕ) : Type 0 where
  pub small : (n ≤ 3) × (l ≤ 4) × (s₂ ≤ 4) × (s₁ ≤ 4)
  pub now : (0 < l - 1 + (s₂ - 2)) ↔ (0 < n)
  pub later : s₁ - 2 ≡ n - 1
  pub at_last : l - 3 ≡ n - 2

nothing_left : (a n : ℕ) → ((0 < a) ↔ (0 < n)) → n ≡ 0 → a ≡ 0
nothing_left zero n i z = refl
nothing_left (suc a) n i z = absurd (omega (arith, i.0 (omega arith)))

-- A lane of which the length is `m`: what is known behind it, and its carry.
abbrev pub Goes : ℕ → ℕ → ℕ → ℕ → ℕ → ℕ → Type 0
Goes n l s₂ s₁ m n' =
    Knows n' m s₁ (add8 m (subs l 1))
    × (m - 1 + (s₁ - 2) ≡ n')
    × (add8 (add8 m (subs l 1)) (subs s₂ 2) ≤ 9)
    × (l - 1 + (s₂ - 2) ≡ n → add8 (add8 m (subs l 1)) (subs s₂ 2) ≡ suc n')

Goes-first :
    (n l s₂ s₁ m n' : ℕ) → Knows n l s₂ s₁ → n ≡ 0 → m ≡ suc n' → n' ≤ 3 → Goes n l s₂ s₁ m n'
Goes-first n l s₂ s₁ m n' k z e b =
    let t = nothing_left _ n k.now z in
    let (w, x, y, u) = k.small in
    let later = k.later in
    (
      record {
        small = (omega arith, omega arith, omega arith, omega arith);
        now = (λ i. omega arith, λ i. omega arith);
        later = omega arith;
        at_last = omega arith;
      },
      omega arith,
      omega arith,
      λ q. omega arith,
    )

Goes-on : (n l s₂ s₁ m n' : ℕ) → Knows n l s₂ s₁ → n ≡ suc n' → m ≡ 0 → Goes n l s₂ s₁ m n'
Goes-on n l s₂ s₁ m n' k z e =
    let (w, x, y, u) = k.small in
    let later = k.later in
    let at_last = k.at_last in
    (
      record {
        small = (omega arith, omega arith, omega arith, omega arith);
        now = (λ i. omega arith, λ i. omega arith);
        later = omega arith;
        at_last = omega arith;
      },
      omega arith,
      omega arith,
      λ q. omega arith,
    )

pub Knows-next :
    (n l s₂ s₁ p c n' : ℕ)
    → Knows n l s₂ s₁
    → c < 256
    → lacks_behind n p c ≡ some n'
    → Goes n l s₂ s₁ (length_of c) n' × (n' ≡ 0 → c < 192)
Knows-next n l s₂ s₁ p c n' k h e = elim (lacks_behind-cases n p c n' h e) [
  | inl (z, len, small, low) ↦ (Goes-first n l s₂ s₁ (length_of c) n' k z len small, low)
  | inr (z, len, low) ↦ (Goes-on n l s₂ s₁ (length_of c) n' k z len, λ q. low)
]
