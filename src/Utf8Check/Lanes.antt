-- ===== src/Utf8Check/Lanes.antt =====
-- src/utf8check.rs: the error of a single lane.
use simdjson_rs.Prelude.{
  ℕ, zero, suc, ◌+◌, ◌-◌, ◌/◌, ◌≤◌, ◌<◌, Bool, true, false, ◌&&◌, Option, none, some, ◌≡◌, ◌↔◌,
  refl, ◌∙◌, subst, arith, bit_and, bit_or, ◌==◌, ltb, if◌then◌else◌, ==_iff, Bool-cases, inl, inr,
  ltb→lt,
}
use simdjson_rs.Prelude.Table.{all_below, all_below_sound, same_test}
use simdjson_rs.Utf8Check.{
  shuffle, cmpgt, cmpeq, subs, continuation_lengths, initial_mins_table, second_mins_table,
}
use simdjson_rs.Utf8Check.Sequences.{is_continuation, follows, bytes_behind, lacks_behind}

abbrev pub length_of : ℕ → ℕ
length_of c = shuffle continuation_lengths (c / 16)

abbrev pub bad_follow : ℕ → ℕ → ℕ
bad_follow p c =
    bit_or (bit_and (cmpgt c 0x9f) (cmpeq p 0xed)) (bit_and (cmpgt c 0x8f) (cmpeq p 0xf4))

abbrev pub under : ℕ → ℕ → ℕ
under p c =
    bit_and (cmpgt (shuffle initial_mins_table (p / 16)) p)
      (cmpgt (shuffle second_mins_table (p / 16)) c)

abbrev pub overunder : ℕ → ℕ → ℕ
overunder carry length = cmpeq (cmpgt carry length) (cmpgt length 0)

-- Behind a byte below 0xc0 everything may follow.
behind_low_table :
    all_below 192 (λ p. all_below 256 (λ c. bit_or (bad_follow p c) (under p c) == 0)) ≡ true
unfolding all_below
behind_low_table = refl

behind_high_table :
    all_below 64 (λ i. all_below 64 (λ j.
      (if bit_or (bad_follow (i + 0xc0) (j + 0x80)) (under (i + 0xc0) (j + 0x80)) == 0
        then 1
        else 0)
      == (if follows (i + 0xc0) (j + 0x80) then 1 else 0)))
    ≡ true
unfolding all_below follows is_continuation
behind_high_table = refl

abbrev pub is_some : Option ℕ → Bool
is_some none = false
is_some (some n) = true

abbrev flag : Bool → ℕ
flag b = if b then 1 else 0

-- The first two errors of a lane, which the byte and what it has to continue give.
abbrev pub wrong_length : ℕ → ℕ → ℕ
wrong_length t c = bit_or (subs c 0xf4) (overunder (length_of c + t) (length_of c))

first_table :
    all_below 256 (λ c. flag (wrong_length 0 c == 0) == flag (is_some (bytes_behind c))) ≡ true
unfolding all_below bytes_behind
first_table = refl

other_table :
    all_below 16
      (λ t. all_below 256 (λ c. flag (wrong_length (suc t) c == 0) == flag (is_continuation c)))
    ≡ true
unfolding all_below is_continuation
other_table = refl

low_follows_table :
    all_below 192 (λ p. all_below 256 (λ c. flag (is_continuation c) == flag (follows p c))) ≡ true
unfolding all_below follows is_continuation
low_follows_table = refl

-- A row of a table of two bytes.
both_below :
    (m n : ℕ) (test : ℕ → ℕ → Bool)
    → all_below m (λ x. all_below n (test x)) ≡ true
    → (x y : ℕ) → x < m
    → y < n
    → test x y ≡ true
both_below m n test h x y l k =
    all_below_sound n (test x) (all_below_sound m (λ x. all_below n (test x)) h x l) y k

equal_flags : (a b : Bool) → (flag a == flag b) ≡ true → a ≡ b
equal_flags a b h = same_test a b ((==_iff _ _).0 h)

wrong_first : (c : ℕ) → c < 256 → (wrong_length 0 c == 0) ≡ is_some (bytes_behind c)
wrong_first c h = equal_flags _ _ (all_below_sound 256 _ first_table c h)

wrong_other : (t c : ℕ) → t < 16 → c < 256 → (wrong_length (suc t) c == 0) ≡ is_continuation c
wrong_other t c l h = equal_flags _ _ (both_below 16 256 _ other_table t c l h)

-- The errors that the byte in front and the byte give together.
abbrev pub wrong_pair : ℕ → ℕ → ℕ
wrong_pair p c = bit_or (bad_follow p c) (under p c)

pair_low : (p c : ℕ) → p < 192 → c < 256 → (wrong_pair p c == 0) ≡ true
pair_low p c l h = both_below 192 256 _ behind_low_table p c l h

follows_low : (p c : ℕ) → p < 192 → c < 256 → is_continuation c ≡ follows p c
follows_low p c l h = equal_flags _ _ (both_below 192 256 _ low_follows_table p c l h)

pub no_follower : (p c : ℕ) → is_continuation c ≡ false → follows p c ≡ false
unfolding follows
no_follower p c e = rw e refl

continuation_range : (c : ℕ) → is_continuation c ≡ true → (0x80 ≤ c) × (c < 0xc0)
unfolding is_continuation
continuation_range c h = ground arith

pair_high :
    (p c : ℕ) → 192 ≤ p → p < 256 → is_continuation c ≡ true → (wrong_pair p c == 0) ≡ follows p c
pair_high p c l k e =
    let (a, b) = continuation_range c e in
    let hp : p - 0xc0 + 0xc0 ≡ p = omega arith in
    let hc : c - 0x80 + 0x80 ≡ c = omega arith in
    let row =
      equal_flags _ _
        (both_below 64 64 _ behind_high_table (p - 0xc0) (c - 0x80) (omega arith) (omega arith)) in
    subst (λ x. (wrong_pair x c == 0) ≡ follows x c) hp
      (subst (λ y. (wrong_pair (p - 0xc0 + 0xc0) y == 0) ≡ follows (p - 0xc0 + 0xc0) y) hc row)

and-true : (b : Bool) → (b && true) ≡ b
and-true true = refl
and-true false = refl

and-false : (b : Bool) → (b && false) ≡ false
and-false true = refl
and-false false = refl

not_below : (p : ℕ) → ltb p 192 ≡ false → 192 ≤ p
not_below p h = ground arith

-- Without an error the byte may stand where it stands. `n` bytes are lacking, of which the carries
-- know `t`.
pub lane_test :
    (n t p c : ℕ)
    → c < 256
    → p < 256
    → t < 16
    → ((0 < t) ↔ (0 < n))
    → (n ≡ 0 → p < 192)
    → (wrong_length t c == 0 && wrong_pair p c == 0) ≡ is_some (lacks_behind n p c)
lane_test zero zero p c h k l i j =
    rw (wrong_first c h, pair_low p c (j refl) h) (and-true (is_some (bytes_behind c)))
lane_test zero (suc t) p c h k l i j = absurd (omega (arith, i.0 (omega arith)))
lane_test (suc n) zero p c h k l i j = absurd (omega (arith, i.1 (omega arith)))
lane_test (suc n) (suc t) p c h k l i j = wrong_other-first ∙ is_some-follows (follows p c)
  where
    is_some-follows : (b : Bool) → b ≡ is_some (if b then some n else none)
    is_some-follows true = refl
    is_some-follows false = refl

    pairs : (is_continuation c && wrong_pair p c == 0) ≡ follows p c
    pairs = elim (Bool-cases (ltb p 192)) [
      | inl e ↦
          rw (pair_low p c (ltb→lt p 192 e) h)
            (and-true (is_continuation c) ∙ follows_low p c (ltb→lt p 192 e) h)
      | inr e ↦ elim (Bool-cases (is_continuation c)) [
        | inl a ↦ rw a (pair_high p c (not_below p e) k a)
        | inr a ↦ rw (a, no_follower p c a) refl
      ]
    ]

    wrong_other-first : (wrong_length (suc t) c == 0 && wrong_pair p c == 0) ≡ follows p c
    wrong_other-first = rw (wrong_other t c (omega arith) h) pairs
