-- ===== src/StringParse/Refused.antt =====
-- `handle_unicode_codepoint` of src/stringparse.rs: which escapes it refuses.
use simdjson_rs.Prelude.{
  ℕ, ◌+◌, ◌*◌, ◌/◌, ◌^◌, ◌≤◌, ◌<◌, ◌≡◌, ◌⊎◌, ◌↔◌, true, false, ◌&&◌, ◌==◌, ==_iff, inl, inr, refl,
  subst, none, List, [], ◌∷◌, arith, leb, ltb, bit_or, AreBytes, Bool-cases, Option-cases,
}
use native.Mathlib.Decide.{dec_lt}
use simdjson_rs.Prelude.Bits.{le-bit_or}
use simdjson_rs.Error.{ErrorType, invalid_utf8, Outcome, ok, err}
use simdjson_rs.CharUtils.{hex_to_u32_nocheck}
use simdjson_rs.CharUtils.Hex.{hex_digit, hex_to_u32_nocheck_invalid}
use simdjson_rs.StringParse.{handle_unicode_codepoint}
use simdjson_rs.StringParse.Codepoint.{
  Spells, escape, hex_to_u32_nocheck-Spells, handle_unicode_codepoint_plain,
  handle_unicode_codepoint_below, handle_unicode_codepoint_invalid, pair_accepted,
}

-- A byte among the four is no hex digit.
abbrev Invalid : ℕ → ℕ → ℕ → ℕ → Type 0
Invalid a b c d =
    (hex_digit a ≡ none) ⊎ (hex_digit b ≡ none) ⊎ (hex_digit c ≡ none) ⊎ (hex_digit d ≡ none)

Spells-cases : (a b c d : ℕ) → ((n : ℕ) × Spells a b c d n) ⊎ Invalid a b c d
Spells-cases a b c d = elim (Option-cases (hex_digit a)) [
  | inl e ↦ inr (inl e)
  | inr (v, p) ↦ elim (Option-cases (hex_digit b)) [
    | inl e ↦ inr (inr (inl e))
    | inr (w, q) ↦ elim (Option-cases (hex_digit c)) [
      | inl e ↦ inr (inr (inr (inl e)))
      | inr (x, r) ↦ elim (Option-cases (hex_digit d)) [
        | inl e ↦ inr (inr (inr (inr e)))
        | inr (y, s) ↦ inl (
          v * 4096 + w * 256 + x * 16 + y,
          record {
            v = v;
            w = w;
            x = x;
            y = y;
            first = p;
            second = q;
            third = r;
            fourth = s;
            value = refl;
          },
        )
      ]
    ]
  ]
]

-- The four bytes of an escape spell a high surrogate, and behind it an escape spells a number below
-- the low surrogates.
pub record Refused (a b c d x y a' b' c' d' : ℕ) : Type 0 where
  pub h : ℕ
  pub l : ℕ
  pub high : Spells a b c d h
  pub from : 0xd800 ≤ h
  pub below : h < 0xdc00
  pub backslash : x ≡ 0x5c
  pub u : y ≡ b'u'
  pub low : Spells a' b' c' d' l
  pub small : l < 0xdc00

accepted :
    {p : List ℕ × ℕ} {o : Outcome ErrorType (List ℕ × ℕ)} → o ≡ ok p → o ≡ err invalid_utf8 → ⊥
accepted {p} {o} g h = cc

large_or : (h k : ℕ) → 0xfffff000 ≤ k → (bit_or h k / 2 ^ 16 == 0) ≡ false
large_or h k p = ground (arith, le-bit_or h k)

module _ (a b c d x y a' b' c' d' : ℕ) (rest : List ℕ) where
  abbrev second : List ℕ
  second = x ∷ y ∷ a' ∷ b' ∷ c' ∷ d' ∷ rest

  abbrev result : Outcome ErrorType (List ℕ × ℕ)
  result = handle_unicode_codepoint (escape a b c d second)

  module _ (h : ℕ) (high : Spells a b c d h) (from : 0xd800 ≤ h) (below : h < 0xdc00) where
    in_range : (leb 0xd800 h && ltb h 0xdc00) ≡ true
    in_range = ground arith

    no_backslash : (x == 0x5c) ≡ false → result ≡ ok ([], 6)
    unfolding handle_unicode_codepoint
    no_backslash e = rw (hex_to_u32_nocheck-Spells high, in_range, e) refl

    no_u : (x == 0x5c) ≡ true → (y == b'u') ≡ false → result ≡ ok ([], 6)
    unfolding handle_unicode_codepoint
    no_u e f = rw (hex_to_u32_nocheck-Spells high, in_range, e, f) refl

    no_digits :
        (x == 0x5c) ≡ true
        → (y == b'u') ≡ true
        → 0xfffff000 ≤ hex_to_u32_nocheck a' b' c' d'
        → result ≡ ok ([], 6)
    unfolding handle_unicode_codepoint
    no_digits e f k = rw (hex_to_u32_nocheck-Spells high, in_range, e, f, large_or h _ k) refl

    pair_taken :
        {l : ℕ}
        → x ≡ 0x5c
        → y ≡ b'u'
        → Spells a' b' c' d' l
        → 0xdc00 ≤ l
        → result ≡ err invalid_utf8
        → ⊥
    pair_taken p q low k e = accepted (pair_accepted rest high low from below k) (
        subst
          (λ u.
            handle_unicode_codepoint (escape a b c d (0x5c ∷ u ∷ a' ∷ b' ∷ c' ∷ d' ∷ rest))
            ≡ err invalid_utf8)
          q
          (subst
            (λ v.
              handle_unicode_codepoint (escape a b c d (v ∷ y ∷ a' ∷ b' ∷ c' ∷ d' ∷ rest))
              ≡ err invalid_utf8)
            p e))

    low_half :
        AreBytes (a' ∷ b' ∷ c' ∷ d' ∷ [])
        → result ≡ err invalid_utf8
        → Refused a b c d x y a' b' c' d'
    low_half (ha, (hb, (hc, (hd, _)))) e = elim (Bool-cases (x == 0x5c)) [
      | inr n ↦ absurd (accepted (no_backslash n) e)
      | inl p ↦ elim (Bool-cases (y == b'u')) [
        | inr n ↦ absurd (accepted (no_u p n) e)
        | inl q ↦ elim (Spells-cases a' b' c' d') [
          | inr bad ↦
              let invalid = hex_to_u32_nocheck_invalid a' b' c' d' ha hb hc hd bad in
              absurd (accepted (no_digits p q invalid) e)
          | inl (l, low) ↦ elim (dec_lt l 0xdc00) [
            | no k ↦ absurd (pair_taken ((==_iff _ _).0 p) ((==_iff _ _).0 q) low (omega arith) e)
            | yes k ↦ record {
              h = h;
              l = l;
              high = high;
              from = from;
              below = below;
              backslash = (==_iff _ _).0 p;
              u = (==_iff _ _).0 q;
              low = low;
              small = k;
            }
          ]
        ]
      ]
    ]

  module _ (bytes : AreBytes (a ∷ b ∷ c ∷ d ∷ []))
      (bytes' : AreBytes (a' ∷ b' ∷ c' ∷ d' ∷ [])) where
    refused : result ≡ err invalid_utf8 → Refused a b c d x y a' b' c' d'
    refused e = elim (Spells-cases a b c d) [
      | inr bad ↦
          let (ha, (hb, (hc, (hd, _)))) = bytes in
          absurd (accepted (handle_unicode_codepoint_invalid a b c d second ha hb hc hd bad) e)
      | inl (h, high) ↦ elim (dec_lt h 0xd800) [
        | yes k ↦ absurd (accepted (handle_unicode_codepoint_plain second high (inl k)) e)
        | no k ↦ elim (dec_lt h 0xdc00) [
          | no k' ↦
              absurd (accepted (handle_unicode_codepoint_plain second high (inr (omega arith))) e)
          | yes k' ↦ low_half h high (omega arith) k' bytes' e
        ]
      ]
    ]

    -- An escape with six more bytes behind it, hex digits or not, is refused with an error exactly
    -- if it spells a high surrogate and the six bytes are an escape of four hex digits that spells
    -- a number below the low surrogates.
    pub handle_unicode_codepoint_err_iff :
        (handle_unicode_codepoint (escape a b c d (x ∷ y ∷ a' ∷ b' ∷ c' ∷ d' ∷ rest))
          ≡ err invalid_utf8)
        ↔ Refused a b c d x y a' b' c' d'
    handle_unicode_codepoint_err_iff = (
      refused,
      λ r.
          rw (r.backslash, r.u)
            (handle_unicode_codepoint_below rest r.high r.low r.from r.below r.small),
    )
