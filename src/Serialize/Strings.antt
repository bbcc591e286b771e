-- ===== src/Serialize/Strings.antt =====
-- src/value/generator.rs: `write_string` over any generator writes the escape of one byte after
-- another between quotes.
use simdjson_rs.Prelude.{
  AreBytes, AreBytes-take, AreBytes-drop, ℕ, zero, suc, ◌+◌, ◌-◌, ◌≤◌, ◌<◌, true, false, List, [],
  ◌∷◌, ◌++◌, ◌⊎◌, Bool, if◌then◌else◌, ==_iff, take, drop, get_or, length, ltb, leb, ◌==◌, ◌≡◌,
  refl, sym, ap, subst, ◌∙◌, arith, inl, inr, Bool-cases, append_assoc, append-nil, length-drop,
  length-append,
}
use simdjson_rs.ParseStr.{trailingzeroes}
use simdjson_rs.Generator.{escaped, escape, quote_bits, hex4}
use simdjson_rs.Generator.Escaped.{escape_bytes, AreClean, quote_bits-cases, escape_bytes-clean}
use simdjson_rs.Generator.Writes.{
  length-take_le, written, written-passes, written-escapes, AreClean-snoc, drop-front, take-front,
}
use simdjson_rs.Generator.Generators.{Io, BaseGenerator}
use simdjson_rs.Generator.Strings.{
  write_escape, blocks, complex_escape, complex_loop, write_string_complex, remainder_loop,
  write_remainder, write_string,
}
use simdjson_rs.Serialize.Layout.{Layout, quoted}
use simdjson_rs.Serialize.Emits.{Lays}
use simdjson_rs.Serialize.Puts.{
  Puts, Puts-then, Puts-same, Puts-char, Puts-write, Puts-text, Puts-fmt, Puts-nothing,
}

module _ {E : Type 0} (g : BaseGenerator E) (l : Layout) (lays : Lays g l) (n : ℕ) where
  open g use {G}

  -- At depth `n` it writes `d`.
  abbrev PutsHere : (G → Io E G) → List ℕ → Type 0
  PutsHere f d = Puts g l lays f n n d

  Puts-if :
      (b : Bool) {f h : G → Io E G} {c d : List ℕ}
      → PutsHere f c
      → PutsHere h d
      → PutsHere (λ x. if b then f x else h x) (if b then c else d)
  Puts-if true p q = p
  Puts-if false p q = q

  Puts-write_escape : (ch : ℕ) → PutsHere (write_escape g ch) (escape ch)
  Puts-write_escape ch =
      Puts-if (escaped ch == b'u') (Puts-fmt g l lays (b'\\' ∷ b'u' ∷ hex4 ch) n)
        (Puts-write g l lays (b'\\' ∷ escaped ch ∷ []) n)

  Puts-complex_escape : (ch : ℕ) → PutsHere (complex_escape g ch) (escape ch)
  Puts-complex_escape ch =
      subst (PutsHere (complex_escape g ch)) (parts (Bool-cases (escaped ch == b'u'))) (
        Puts-then g l lays (Puts-write g l lays (b'\\' ∷ escaped ch ∷ []) n)
          (Puts-if (escaped ch == b'u') (Puts-fmt g l lays (hex4 ch) n) (Puts-nothing g l lays n)))
    where
      parts :
          ((escaped ch == b'u') ≡ true) ⊎ ((escaped ch == b'u') ≡ false)
          → (b'\\' ∷ escaped ch ∷ []) ++ (if escaped ch == b'u' then hex4 ch else []) ≡ escape ch
      parts (inl e) = rw e (ap (λ c. b'\\' ∷ c ∷ hex4 ch) ((==_iff _ _).0 e))
      parts (inr e) = rw e refl

  -- The loop over blocks, where what follows writes what is behind `idx`.
  module _ (width least bound : ℕ) (next : List ℕ → ℕ → G → Io E G) (p : 0 < width)
      (q : width ≤ least)
      (follows : (s : List ℕ) (idx : ℕ)
        → AreBytes s
        → length s - idx ≤ bound
        → PutsHere (next s idx) (written s idx [])) where
    Puts-blocks :
        (fuel : ℕ) (s : List ℕ) (idx : ℕ)
        → length s - idx < fuel
        → length s - idx ≤ bound
        → AreBytes s
        → PutsHere (blocks g width least next fuel s idx) (written s idx [])
    unfolding blocks
    Puts-blocks zero s idx h k b = absurd (omega arith)
    Puts-blocks (suc fuel) s idx h k b = elim (Bool-cases (leb least (length s - idx))) [
      | inr e ↦ Puts-same g l lays (λ x. rw (blocks, e) refl) (follows s idx b k)
      | inl e ↦
          let v = take width (drop idx s) in
          let size = length-take_le width (drop idx s) in
          elim (quote_bits-cases width v size.0 (AreBytes-take width _ (AreBytes-drop idx s b))) [
            | inl (z, clean) ↦
                let zero_test : (quote_bits v == 0) ≡ true = ground arith in
                Puts-same g l lays (λ x. rw (blocks, e, zero_test) refl)
                  (subst (PutsHere (blocks g width least next fuel s (idx + width)))
                    (written-passes width s idx [] clean)
                    (Puts-blocks fuel s (idx + width) (ground arith) (omega arith) b))
            | inr (z, first) ↦
                let k' = trailingzeroes width (quote_bits v) in
                let zero_test : (quote_bits v == 0) ≡ false = ground arith in
                let there = drop (idx + k' + 1) s in
                let left : length there ≡ length s - (idx + k' + 1) =
                  length-drop (idx + k' + 1) s in
                let some_left : 0 < length s - idx = ground arith in
                Puts-same g l lays (λ x. rw (blocks, e, zero_test) refl)
                  (subst (PutsHere _) (written-escapes width s idx k' [] first) (
                    Puts-then g l lays
                      (Puts-then g l lays (Puts-text g l lays (take (idx + k') s) n)
                        (Puts-write_escape (get_or s (idx + k') 0)))
                      (Puts-blocks fuel there 0 (omega (arith, left, some_left))
                        (omega (arith, left)) (AreBytes-drop (idx + k' + 1) s b))))
          ]
    ]

  Puts-complex_loop :
      (s pending : List ℕ) → PutsHere (complex_loop g s pending) (pending ++ escape_bytes s)
  unfolding escape_bytes
  Puts-complex_loop [] pending =
      subst (PutsHere (complex_loop g [] pending)) (sym (append-nil pending))
        (Puts-write g l lays pending n)
  Puts-complex_loop (ch ∷ s) pending = elim (Bool-cases (ltb 0 (escaped ch))) [
    | inl e ↦
        Puts-same g l lays (λ x. rw (complex_loop, e) refl)
          (subst (PutsHere _) (append_assoc pending (escape ch) (escape_bytes s) ∙ rw e refl) (
            Puts-then g l lays
              (Puts-then g l lays (Puts-write g l lays pending n) (Puts-complex_escape ch))
              (Puts-complex_loop s [])))
    | inr e ↦
        Puts-same g l lays (λ x. rw (complex_loop, e) refl)
          (subst (PutsHere _) (append_assoc pending (ch ∷ []) (escape_bytes s) ∙ rw e refl)
            (Puts-complex_loop s (pending ++ ch ∷ [])))
  ]

  Puts-remainder_loop :
      (pre rest : List ℕ)
      → AreClean pre
      → PutsHere (remainder_loop g (pre ++ rest) (length pre) rest) (escape_bytes (pre ++ rest))
  unfolding remainder_loop write_string_complex escape_bytes
  Puts-remainder_loop pre [] h =
      subst (PutsHere _) (sym (escape_bytes-clean pre [] h)) (Puts-write g l lays (pre ++ []) n)
  Puts-remainder_loop pre (ch ∷ rest) h = elim (Bool-cases (ltb 0 (escaped ch))) [
    | inl e ↦
        Puts-same g l lays
          (λ x. rw (remainder_loop, e, drop-front pre (ch ∷ rest), take-front pre (ch ∷ rest)) refl)
          (subst (PutsHere _) (sym (escape_bytes-clean pre (ch ∷ rest) h))
            (Puts-then g l lays (Puts-write g l lays pre n) (Puts-complex_loop (ch ∷ rest) [])))
    | inr e ↦
        Puts-same g l lays (λ x. rw (remainder_loop, e) refl)
          (subst
            (λ i.
              PutsHere (remainder_loop g (pre ++ ch ∷ rest) i rest)
                (escape_bytes (pre ++ ch ∷ rest)))
            (length-append pre (ch ∷ []))
            (subst
              (λ r. PutsHere (remainder_loop g r (length (pre ++ ch ∷ [])) rest) (escape_bytes r))
              (append_assoc pre (ch ∷ []) rest)
              (Puts-remainder_loop (pre ++ ch ∷ []) rest (AreClean-snoc pre ch h e))))
  ]

  Puts-write_remainder :
      (s : List ℕ) (idx : ℕ) → PutsHere (write_remainder g s idx) (written s idx [])
  Puts-write_remainder s idx =
      Puts-then g l lays (Puts-text g l lays (take idx s) n)
        (Puts-remainder_loop [] (drop idx s) tt)

  pub Puts-string : (s : List ℕ) → AreBytes s → PutsHere (write_string g s) (quoted s)
  unfolding write_string
  Puts-string s b =
      let fuel = suc (length s) in
      Puts-then g l lays
        (Puts-then g l lays (Puts-char g l lays b'"' n) (
          Puts-blocks 32 32 (length s) (blocks g 16 17 (write_remainder g) fuel) (omega arith)
            (omega arith)
            (λ s' idx' b' h'.
              Puts-blocks 16 17 (length s) (write_remainder g) (omega arith) (omega arith)
                (λ s₂ idx₂ _ _. Puts-write_remainder s₂ idx₂) fuel s' idx' (omega arith) h' b')
            fuel s 0 (omega arith) (omega arith) b))
        (Puts-char g l lays b'"' n)
