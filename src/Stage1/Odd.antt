-- ===== src/Stage1/Odd.antt =====
-- src/stage1.rs, `find_odd_backslash_sequences`: the two sums find the bytes behind an odd number of
-- backslashes.
use simdjson_rs.Prelude.{
  ℕ, zero, suc, Bool, true, false, not, ◌&&◌, ◌||◌, List, [], ◌∷◌, map, length, ◌≡◌, refl, ap,
}
use simdjson_rs.Stage1.Scanner.{xor}
use simdjson_rs.Stage1.Words.{zip, shift, sum, carry}

-- Every other bit, and a single one at the start.
abbrev pub alternate : Bool → ℕ → List Bool
alternate e zero = []
alternate e (suc n) = e ∷ alternate (not e) n

abbrev pub pulse : Bool → ℕ → List Bool
pulse w zero = []
pulse w (suc n) = w ∷ pulse false n

-- The bits that the code computes, from a place on: whether a backslash stands in front, whether the
-- place is even, whether the sense of the first edge is flipped, and the carries of both sums.
abbrev pub starts : Bool → List Bool → List Bool
starts p bs = zip ◌&&◌ bs (map not (shift p bs))

abbrev pub even_mask : Bool → Bool → List Bool → List Bool
even_mask e w bs = zip xor (alternate e (length bs)) (pulse w (length bs))

abbrev pub even_starts : Bool → Bool → Bool → List Bool → List Bool
even_starts p e w bs = zip ◌&&◌ (starts p bs) (even_mask e w bs)

abbrev pub odd_starts : Bool → Bool → Bool → List Bool → List Bool
odd_starts p e w bs = zip ◌&&◌ (starts p bs) (map not (even_mask e w bs))

abbrev odd_ends : Bool → Bool → Bool → Bool → Bool → List Bool → List Bool
odd_ends p e w even_carry odd_carry bs =
    zip ◌||◌
      (zip ◌&&◌ (zip ◌&&◌ (sum even_carry bs (even_starts p e w bs)) (map not bs))
        (map not (alternate e (length bs))))
      (zip ◌&&◌
        (zip ◌&&◌ (zip ◌||◌ (sum odd_carry bs (odd_starts p e w bs)) (pulse w (length bs)))
          (map not bs))
        (alternate e (length bs)))

-- One bit after another: whether the byte is behind an odd number of backslashes.
abbrev pub behind_odd : Bool → List Bool → List Bool
behind_odd r [] = []
behind_odd r (b ∷ bs) = (not b && r) ∷ behind_odd (b && not r) bs

pub length-behind_odd : (r : Bool) (bs : List Bool) → length (behind_odd r bs) ≡ length bs
length-behind_odd r [] = refl
length-behind_odd r (b ∷ bs) = ap suc (length-behind_odd (b && not r) bs)

abbrev pub parity : Bool → List Bool → Bool
parity r [] = r
parity r (b ∷ bs) = parity (b && not r) bs

-- Behind a backslash the carry that goes on tells where the sequence began.
mutual
  odd_ends-running :
      (e r : Bool) (bs : List Bool)
      → odd_ends true e false (xor r e) (not (xor r e)) bs ≡ behind_odd r bs
  odd_ends-running e r [] = refl
  odd_ends-running true true (true ∷ bs) = ap (λ t. false ∷ t) (odd_ends-running false false bs)
  odd_ends-running true true (false ∷ bs) = ap (λ t. true ∷ t) (odd_ends-outside false bs)
  odd_ends-running true false (true ∷ bs) = ap (λ t. false ∷ t) (odd_ends-running false true bs)
  odd_ends-running true false (false ∷ bs) = ap (λ t. false ∷ t) (odd_ends-outside false bs)
  odd_ends-running false true (true ∷ bs) = ap (λ t. false ∷ t) (odd_ends-running true false bs)
  odd_ends-running false true (false ∷ bs) = ap (λ t. true ∷ t) (odd_ends-outside true bs)
  odd_ends-running false false (true ∷ bs) = ap (λ t. false ∷ t) (odd_ends-running true true bs)
  odd_ends-running false false (false ∷ bs) = ap (λ t. false ∷ t) (odd_ends-outside true bs)

  odd_ends-outside :
      (e : Bool) (bs : List Bool) → odd_ends false e false false false bs ≡ behind_odd false bs
  odd_ends-outside e [] = refl
  odd_ends-outside true (true ∷ bs) = ap (λ t. false ∷ t) (odd_ends-running false true bs)
  odd_ends-outside true (false ∷ bs) = ap (λ t. false ∷ t) (odd_ends-outside false bs)
  odd_ends-outside false (true ∷ bs) = ap (λ t. false ∷ t) (odd_ends-running true true bs)
  odd_ends-outside false (false ∷ bs) = ap (λ t. false ∷ t) (odd_ends-outside true bs)

pub odd_ends_lem :
    (r : Bool) (bs : List Bool) → odd_ends false true r false false bs ≡ behind_odd r bs
odd_ends_lem r [] = refl
odd_ends_lem false (b ∷ bs) = odd_ends-outside true (b ∷ bs)
odd_ends_lem true (true ∷ bs) = ap (λ t. false ∷ t) (odd_ends-running false false bs)
odd_ends_lem true (false ∷ bs) = ap (λ t. true ∷ t) (odd_ends-outside false bs)

-- Whether the place behind is even.
abbrev pub even_at : Bool → ℕ → Bool
even_at e zero = e
even_at e (suc n) = even_at (not e) n

not_true : false ≡ true → ⊥
not_true h = cc

mutual
  carry-running :
      (e r : Bool) (bs : List Bool)
      → even_at e (length bs) ≡ true
      → carry (not (xor r e)) bs (odd_starts true e false bs) ≡ parity r bs
  carry-running false r [] h = absurd (not_true h)
  carry-running true false [] h = refl
  carry-running true true [] h = refl
  carry-running true true (true ∷ bs) h = carry-running false false bs h
  carry-running true true (false ∷ bs) h = carry-outside false bs h
  carry-running true false (true ∷ bs) h = carry-running false true bs h
  carry-running true false (false ∷ bs) h = carry-outside false bs h
  carry-running false true (true ∷ bs) h = carry-running true false bs h
  carry-running false true (false ∷ bs) h = carry-outside true bs h
  carry-running false false (true ∷ bs) h = carry-running true true bs h
  carry-running false false (false ∷ bs) h = carry-outside true bs h

  carry-outside :
      (e : Bool) (bs : List Bool)
      → even_at e (length bs) ≡ true
      → carry false bs (odd_starts false e false bs) ≡ parity false bs
  carry-outside e [] h = refl
  carry-outside true (true ∷ bs) h = carry-running false true bs h
  carry-outside true (false ∷ bs) h = carry-outside false bs h
  carry-outside false (true ∷ bs) h = carry-running true true bs h
  carry-outside false (false ∷ bs) h = carry-outside true bs h

pub carry_lem :
    (r : Bool) (b : Bool) (bs : List Bool)
    → even_at false (length bs) ≡ true
    → carry false (b ∷ bs) (odd_starts false true r (b ∷ bs)) ≡ parity r (b ∷ bs)
carry_lem false b bs h = carry-outside true (b ∷ bs) h
carry_lem true true bs h = carry-running false false bs h
carry_lem true false bs h = carry-outside false bs h
