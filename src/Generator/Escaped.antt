-- ===== src/Generator/Escaped.antt =====
-- src/value/generator.rs: which bytes the blocks and the table escape.
use simdjson_rs.Prelude.{
  AreBytes, ℕ, zero, suc, ◌+◌, ◌*◌, ◌≤◌, ◌<◌, Bool, true, false, List, [], ◌∷◌, ◌++◌, take, get_or,
  length, ltb, ◌==◌, if◌then◌else◌, ◌≡◌, ◌≢◌, refl, sym, ap, subst, ◌∙◌, arith, ◌⊎◌, inl, inr,
  Bool-cases, ==_iff,
}
use simdjson_rs.Prelude.Table.{all_below, all_below_sound, same_test}
use simdjson_rs.ParseStr.{trailingzeroes}
use simdjson_rs.ParseStr.Chunk.{trailingzeroes-even}
use simdjson_rs.Generator.{escaped, escape, in_block, quote_bits}

-- The text byte by byte.
unfoldable pub escape_bytes : List ℕ → List ℕ
escape_bytes [] = []
escape_bytes (ch ∷ s) = (if ltb 0 (escaped ch) then escape ch else ch ∷ []) ++ escape_bytes s

-- No byte is escaped.
abbrev pub AreClean : List ℕ → Type 0
AreClean [] = Unit
AreClean (ch ∷ s) = (ltb 0 (escaped ch) ≡ false) × AreClean s

pub escape_bytes-clean : (a b : List ℕ) → AreClean a → escape_bytes (a ++ b) ≡ a ++ escape_bytes b
unfolding escape_bytes
escape_bytes-clean [] b h = refl
escape_bytes-clean (ch ∷ a) b (h, t) = rw h (ap (λ u. ch ∷ u) (escape_bytes-clean a b t))

-- The blocks look for the bytes that the table escapes.
in_block_table :
    all_below 256 (λ ch. (if in_block ch then 1 else 0) == (if ltb 0 (escaped ch) then 1 else 0))
    ≡ true
unfolding all_below
in_block_table = refl

in_block_lem : (ch : ℕ) → ch < 256 → in_block ch ≡ ltb 0 (escaped ch)
in_block_lem ch h =
    same_test (in_block ch) (ltb 0 (escaped ch))
      ((==_iff _ _).0 (all_below_sound 256 _ in_block_table ch h))

-- The first byte of a block that is escaped stands at `k`.
abbrev pub FirstAt : List ℕ → ℕ → Type 0
FirstAt v k = (k < length v) × AreClean (take k v) × (ltb 0 (escaped (get_or v k 0)) ≡ true)

the_even : (t : Bool) → t ≡ false → (x : ℕ) → (if t then 1 else 0) + 2 * x ≡ 2 * x
the_even t e x = rw e (omega arith)

trailingzeroes-odd : (w x : ℕ) → trailingzeroes (suc w) (1 + 2 * x) ≡ 0
unfolding trailingzeroes
trailingzeroes-odd w x = grind arith

pub quote_bits-cases :
    (w : ℕ) (v : List ℕ)
    → length v ≤ w
    → AreBytes v
    → ((quote_bits v ≡ 0) × AreClean v)
      ⊎ ((quote_bits v ≢ 0) × FirstAt v (trailingzeroes w (quote_bits v)))
unfolding quote_bits trailingzeroes
quote_bits-cases w [] h b = inl (refl, tt)
quote_bits-cases zero (ch ∷ v) h b = absurd (omega arith)
quote_bits-cases (suc w) (ch ∷ v) h (small, b) =
    let as_table : ltb 0 (escaped ch) ≡ in_block ch = sym (in_block_lem ch small) in
    elim (Bool-cases (in_block ch)) [
      | inl e ↦
          let odd : quote_bits (ch ∷ v) ≡ 1 + 2 * quote_bits v = rw e refl in
          let here : trailingzeroes (suc w) (quote_bits (ch ∷ v)) ≡ 0 =
            rw odd (trailingzeroes-odd w (quote_bits v)) in
          inr (
            omega (arith, odd),
            subst (FirstAt (ch ∷ v)) (sym here) (omega arith, tt, as_table ∙ e),
          )
      | inr n ↦
          let even : quote_bits (ch ∷ v) ≡ 2 * quote_bits v =
            the_even (in_block ch) n (quote_bits v) in
          let next : trailingzeroes (suc w) (quote_bits (ch ∷ v))
              ≡ suc (trailingzeroes w (quote_bits v)) =
            ap (trailingzeroes (suc w)) even ∙ trailingzeroes-even w (quote_bits v) in
          elim (quote_bits-cases w v (omega arith) b) [
            | inl (z, clean) ↦ inl (omega (arith, even, z), (as_table ∙ n, clean))
            | inr (z, (inside, clean, marked)) ↦ inr (
              omega (arith, even, z),
              subst (FirstAt (ch ∷ v)) (sym next) (omega arith, (as_table ∙ n, clean), marked),
            )
          ]
    ]
