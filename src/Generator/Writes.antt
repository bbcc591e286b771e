-- ===== src/Generator/Writes.antt =====
-- src/value/generator.rs: `write_string` against the escape of one byte after another.
use simdjson_rs.Prelude.{
  AreBytes, AreBytes-take, AreBytes-drop, ℕ, zero, suc, ◌+◌, ◌-◌, ◌≤◌, ◌<◌, true, false, List, [],
  ◌∷◌, ◌++◌, take, drop, get_or, length, ltb, leb, ◌==◌, ◌≡◌, refl, sym, ap, subst, ◌∙◌, arith, inl,
  inr, Bool-cases, append_assoc, append-nil, take-add, drop-add, length-drop, length-append,
  suc_add,
}
use simdjson_rs.Error.{ok}
use simdjson_rs.ParseStr.{trailingzeroes}
use simdjson_rs.Generator.{
  escaped, escape, quote_bits, blocks, complex_loop, write_string_complex, remainder_loop,
  write_string,
}
use simdjson_rs.Generator.Escaped.{
  escape_bytes, AreClean, FirstAt, quote_bits-cases, escape_bytes-clean,
}

pub length-take_le : (n : ℕ) (s : List ℕ) → (length (take n s) ≤ n) × (length (take n s) ≤ length s)
length-take_le zero s = (omega arith, omega arith)
length-take_le (suc n) [] = (omega arith, omega arith)
length-take_le (suc n) (ch ∷ s) = omega (arith, length-take_le n s)

get_or-drop : (a b : ℕ) (s : List ℕ) → get_or s (a + b) 0 ≡ get_or (drop a s) b 0
get_or-drop zero b s = ap (λ n. get_or s n 0) (omega arith)
get_or-drop (suc a) b [] = refl
get_or-drop (suc a) b (ch ∷ s) = ap (λ n. get_or (ch ∷ s) n 0) (suc_add a b) ∙ get_or-drop a b s

-- A block that nothing is escaped in.
clean-escape :
    (n : ℕ) (u : List ℕ)
    → AreClean (take n u)
    → escape_bytes u ≡ take n u ++ escape_bytes (drop n u)
unfolding escape_bytes
clean-escape zero u h = refl
clean-escape (suc n) [] h = refl
clean-escape (suc n) (ch ∷ u) (h, t) = rw h (ap (λ r. ch ∷ r) (clean-escape n u t))

-- A block up to the first byte that is escaped.
first-escape :
    (n : ℕ) (u : List ℕ) (k : ℕ)
    → FirstAt (take n u) k
    → escape_bytes u ≡ take k u ++ (escape (get_or u k 0) ++ escape_bytes (drop (suc k) u))
unfolding escape_bytes
first-escape zero u k (h, c, m) = absurd (omega arith)
first-escape (suc n) [] k (h, c, m) = absurd (omega arith)
first-escape (suc n) (ch ∷ u) zero (h, c, m) = rw m refl
first-escape (suc n) (ch ∷ u) (suc k) (h, (e, c), m) =
    rw e (ap (λ r. ch ∷ r) (first-escape n u k (omega arith, c, m)))

-- What is written in the end if the rest is escaped byte by byte.
abbrev pub written : List ℕ → ℕ → List ℕ → List ℕ
written string idx out = out ++ (take idx string ++ escape_bytes (drop idx string))

pub written-passes :
    (width : ℕ) (s : List ℕ) (idx : ℕ) (out : List ℕ)
    → AreClean (take width (drop idx s))
    → written s (idx + width) out ≡ written s idx out
written-passes width s idx out clean =
    rw (take-add idx width s, drop-add idx width s, clean-escape width (drop idx s) clean)
      (ap (λ r. out ++ r)
        (append_assoc (take idx s) (take width (drop idx s))
          (escape_bytes (drop width (drop idx s)))))

regroup : (a b c d e : List ℕ) → (a ++ ((b ++ c) ++ d)) ++ e ≡ a ++ (b ++ (c ++ (d ++ e)))
regroup a b c d e =
    rw (append_assoc a ((b ++ c) ++ d) e, append_assoc (b ++ c) d e, append_assoc b c (d ++ e)) refl

pub written-escapes :
    (width : ℕ) (s : List ℕ) (idx k : ℕ) (out : List ℕ)
    → FirstAt (take width (drop idx s)) k
    → written (drop (idx + k + 1) s) 0 (out ++ (take (idx + k) s ++ escape (get_or s (idx + k) 0)))
      ≡ written s idx out
written-escapes width s idx k out first =
    let u = drop idx s in
    let behind : drop (idx + k + 1) s ≡ drop (suc k) u =
      ap (λ n. drop n s) (omega arith) ∙ drop-add idx (suc k) s in
    rw (behind, take-add idx k s, get_or-drop idx k s, first-escape width u k first)
      (regroup out (take idx s) (take k u) (escape (get_or u k 0)) (escape_bytes (drop (suc k) u)))

module _ (width least fuel : ℕ) (s : List ℕ) (idx : ℕ) (out : List ℕ) where
  abbrev bits : ℕ
  bits = quote_bits (take width (drop idx s))

  blocks-stop :
      leb least (length s - idx) ≡ false
      → blocks width least (suc fuel) s idx out ≡ ok (s, idx, out)
  unfolding blocks
  blocks-stop e = rw (blocks, e) refl

  blocks-passes :
      leb least (length s - idx) ≡ true
      → (bits == 0) ≡ true
      → blocks width least (suc fuel) s idx out ≡ blocks width least fuel s (idx + width) out
  unfolding blocks
  blocks-passes e z = rw (blocks, e, z) refl

  blocks-escapes :
      leb least (length s - idx) ≡ true
      → (bits == 0) ≡ false
      → blocks width least (suc fuel) s idx out
        ≡ blocks width least fuel (drop (idx + trailingzeroes width bits + 1) s) 0 (
            out
            ++ (take (idx + trailingzeroes width bits) s
                ++ escape (get_or s (idx + trailingzeroes width bits) 0)))
  unfolding blocks
  blocks-escapes e z = rw (blocks, e, z) refl

-- The blocks write a part of that, and end.
blocks-written :
    (width least fuel : ℕ) (s : List ℕ) (idx : ℕ) (out : List ℕ)
    → 0 < width
    → width ≤ least
    → length s - idx < fuel
    → AreBytes s
    → (s' : List ℕ) × (idx' : ℕ) × (out' : List ℕ) × (blocks width least fuel s idx out
        ≡ ok (s', idx', out'))
      × (written s' idx' out' ≡ written s idx out)
      × AreBytes s'
      × (length s' - idx' ≤ length s - idx)
blocks-written width least zero s idx out p q h b = absurd (omega arith)
blocks-written width least (suc fuel) s idx out p q h b =
    elim (Bool-cases (leb least (length s - idx))) [
      | inr n ↦ (s, idx, out, blocks-stop width least fuel s idx out n, refl, b, omega arith)
      | inl e ↦
          let u = drop idx s in
          let v = take width u in
          let size = length-take_le width u in
          elim (quote_bits-cases width v size.0 (AreBytes-take width u (AreBytes-drop idx s b))) [
            | inl (z, clean) ↦
                let (s', idx', out', runs, same, bytes, less) =
                  blocks-written width least fuel s (idx + width) out p q (ground arith) b in
                (
                  s',
                  idx',
                  out',
                  blocks-passes width least fuel s idx out e (ground arith) ∙ runs,
                  same ∙ written-passes width s idx out clean,
                  bytes,
                  omega arith,
                )
            | inr (z, first) ↦
                let k = trailingzeroes width (quote_bits v) in
                let zero_test : (quote_bits v == 0) ≡ false = ground arith in
                let there = drop (idx + k + 1) s in
                let left : length there ≡ length s - (idx + k + 1) = length-drop (idx + k + 1) s in
                let some_left : 0 < length s - idx = ground arith in
                let (s', idx', out', runs, same, bytes, less) =
                  blocks-written width least fuel there 0
                    (out ++ (take (idx + k) s ++ escape (get_or s (idx + k) 0))) p q
                    (omega (arith, left, some_left)) (AreBytes-drop (idx + k + 1) s b) in
                (
                  s',
                  idx',
                  out',
                  blocks-escapes width least fuel s idx out e zero_test ∙ runs,
                  same ∙ written-escapes width s idx k out first,
                  bytes,
                  omega (arith, left),
                )
          ]
    ]

complex_loop-written :
    (s pending out : List ℕ) → complex_loop s pending out ≡ out ++ (pending ++ escape_bytes s)
unfolding escape_bytes
complex_loop-written [] pending out = ap (λ r. out ++ r) (sym (append-nil pending))
complex_loop-written (ch ∷ s) pending out = elim (Bool-cases (ltb 0 (escaped ch))) [
  | inl e ↦
      rw (complex_loop, e)
        (complex_loop-written s [] (out ++ (pending ++ escape ch))
          ∙ (append_assoc out (pending ++ escape ch) (escape_bytes s)
              ∙ ap (λ r. out ++ r) (append_assoc pending (escape ch) (escape_bytes s))))
  | inr n ↦
      rw (complex_loop, n)
        (complex_loop-written s (pending ++ ch ∷ []) out
          ∙ ap (λ r. out ++ r) (append_assoc pending (ch ∷ []) (escape_bytes s)))
]

pub take-front : (a b : List ℕ) → take (length a) (a ++ b) ≡ a
take-front [] b = refl
take-front (c ∷ a) b = ap (λ r. c ∷ r) (take-front a b)

pub drop-front : (a b : List ℕ) → drop (length a) (a ++ b) ≡ b
drop-front [] b = refl
drop-front (c ∷ a) b = drop-front a b

pub AreClean-snoc :
    (pre : List ℕ) (ch : ℕ) → AreClean pre → ltb 0 (escaped ch) ≡ false → AreClean (pre ++ ch ∷ [])
AreClean-snoc [] ch h n = (n, tt)
AreClean-snoc (c ∷ pre) ch (e, h) n = (e, AreClean-snoc pre ch h n)

remainder_loop-written :
    (pre rest out : List ℕ)
    → AreClean pre
    → remainder_loop (pre ++ rest) (length pre) rest out ≡ out ++ escape_bytes (pre ++ rest)
unfolding remainder_loop write_string_complex escape_bytes
remainder_loop-written pre [] out h = ap (λ r. out ++ r) (sym (escape_bytes-clean pre [] h))
remainder_loop-written pre (ch ∷ rest) out h = elim (Bool-cases (ltb 0 (escaped ch))) [
  | inl e ↦
      rw (remainder_loop, e, drop-front pre (ch ∷ rest), take-front pre (ch ∷ rest))
        (complex_loop-written (ch ∷ rest) [] (out ++ pre)
          ∙ (append_assoc out pre (escape_bytes (ch ∷ rest))
              ∙ ap (λ r. out ++ r) (sym (escape_bytes-clean pre (ch ∷ rest) h))))
  | inr n ↦
      let joined : (pre ++ ch ∷ []) ++ rest ≡ pre ++ ch ∷ rest = append_assoc pre (ch ∷ []) rest in
      let longer : length (pre ++ ch ∷ []) ≡ length pre + 1 = length-append pre (ch ∷ []) in
      let next : remainder_loop (pre ++ ch ∷ rest) (length pre + 1) rest out
          ≡ out ++ escape_bytes (pre ++ ch ∷ rest) =
        subst
          (λ n.
            remainder_loop (pre ++ ch ∷ rest) n rest out ≡ out ++ escape_bytes (pre ++ ch ∷ rest))
          longer
          (subst (λ r. remainder_loop r (length (pre ++ ch ∷ [])) rest out ≡ out ++ escape_bytes r)
            joined (remainder_loop-written (pre ++ ch ∷ []) rest out (AreClean-snoc pre ch h n))) in
      rw (remainder_loop, n) next
]

-- For every text of bytes, the blocks of 32 and 16 bytes and the remainder of `write_string` write
-- a quote, the escape of each byte of the text one after another, and a quote; its loops end.
pub write_string-escape_bytes :
    (s : List ℕ) → AreBytes s → write_string s ≡ ok (b'"' ∷ (escape_bytes s ++ b'"' ∷ []))
unfolding write_string
write_string-escape_bytes s b =
    let fuel = suc (length s) in
    let (s₁, idx₁, out₁, runs₁, same₁, b₁, less₁) =
      blocks-written 32 32 fuel s 0 (b'"' ∷ []) (omega arith) (omega arith) (omega arith) b in
    let (s₂, idx₂, out₂, runs₂, same₂, b₂, less₂) =
      blocks-written 16 17 fuel s₁ idx₁ out₁ (omega arith) (omega arith) (omega arith) b₁ in
    let rest = drop idx₂ s₂ in
    let end : remainder_loop rest 0 rest (out₂ ++ take idx₂ s₂) ≡ b'"' ∷ escape_bytes s =
      remainder_loop-written [] rest (out₂ ++ take idx₂ s₂) tt
      ∙ (append_assoc out₂ (take idx₂ s₂) (escape_bytes rest) ∙ (same₂ ∙ same₁)) in
    rw (runs₁, runs₂, end) refl
