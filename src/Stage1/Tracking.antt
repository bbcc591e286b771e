-- ===== src/Stage1/Tracking.antt =====
-- src/stage1.rs, `check_utf8`: what its state knows behind each block.
use simdjson_rs.Prelude.{
  ℕ, zero, suc, ◌-◌, ◌<◌, Bool, true, false, ◌&&◌, Option, none, some, List, [], ◌∷◌, ◌++◌, take,
  drop, length, get_or, replicate, ◌≡◌, refl, sym, ap, ◌∙◌, subst, arith, AreBytes, AreBytes-take,
  AreBytes-drop, bit_or, ◌==◌, leb, ==_iff, Bool-cases, inl, inr, if◌then◌else◌,
}
use simdjson_rs.Prelude.Bits.{bit_or_lt, either_zero}
use simdjson_rs.Prelude.Table.{all_below, all_below_sound, same_test}
use simdjson_rs.Utf8Check.{lanes, truth, cmpgt, avxcheck_utf8_bytes, AvxProcessedUtfBytes}
use simdjson_rs.Utf8Check.Runs.{all_zero}
use simdjson_rs.Utf8Check.Vectors.{IsState, AreSmall, byte_behind}
use simdjson_rs.Utf8Check.Tracks.{Tracks, IsShaped, scans_on, vector-Tracks}
use simdjson_rs.Stage1.{Utf8State, testz, check_utf8}
use simdjson_rs.Stage1.Classes.{block, length_lo, length_hi, halves}
use simdjson_rs.Stage1.Ascii.{AreAscii, AreAscii-append}
use simdjson_rs.Stage1.Encoding.{scans_on-append, scans-AreAscii, scans-suc-AreAscii, testz-ascii}

-- The carries in front of ASCII.
abbrev bounds : ℕ → List ℕ
bounds k = replicate k 9 ++ 1 ∷ []

small_table : all_below 10 (λ x. cmpgt x 9 == 0) ≡ true
unfolding all_below
small_table = refl

last_table :
    all_below 10 (λ x. (if cmpgt x 1 == 0 && true then 1 else 0) == (if leb x 1 then 1 else 0))
    ≡ true
unfolding all_below
last_table = refl

carried_test :
    (k : ℕ) (cs : List ℕ)
    → length cs ≡ suc k
    → AreSmall cs
    → all_zero (lanes cmpgt cs (bounds k)) ≡ leb (get_or cs k 0) 1
carried_test k [] n a = absurd (omega arith)
carried_test zero (x ∷ []) n (h, a) =
    same_test _ _ ((==_iff _ _).0 (all_below_sound 10 _ last_table x (omega arith)))
carried_test zero (x ∷ (y ∷ cs)) n a = absurd (omega arith)
carried_test (suc k) (x ∷ []) n a = absurd (omega arith)
carried_test (suc k) (x ∷ (y ∷ cs)) n (h, a) =
    rw (all_below_sound 10 _ small_table x (omega arith)) (carried_test k (y ∷ cs) (omega arith) a)

lanes_or :
    (a b : List ℕ) → length a ≡ length b → all_zero (lanes bit_or a b) ≡ (all_zero a && all_zero b)
lanes_or [] [] n = refl
lanes_or [] (y ∷ b) n = absurd (omega arith)
lanes_or (x ∷ a) [] n = absurd (omega arith)
lanes_or (x ∷ a) (y ∷ b) n =
    ap (λ q. q && all_zero (lanes bit_or a b)) (either_zero x y)
    ∙ (ap (λ q. (x == 0 && y == 0) && q) (lanes_or a b (omega arith))
        ∙ exchange (x == 0) (y == 0) (all_zero a) (all_zero b))
  where
    exchange : (x y a b : Bool) → ((x && y) && (a && b)) ≡ ((x && a) && (y && b))
    exchange true true a b = refl
    exchange true false true b = refl
    exchange true false false b = refl
    exchange false y a b = refl

length-lanes :
    (f : ℕ → ℕ → ℕ) (a b : List ℕ) → length a ≡ length b → length (lanes f a b) ≡ length a
length-lanes f [] b n = refl
length-lanes f (x ∷ a) [] n = absurd (omega arith)
length-lanes f (x ∷ a) (y ∷ b) n = ap suc (length-lanes f a b (omega arith))

truth_lt : (b : Bool) → truth b < 256
truth_lt true = omega arith
truth_lt false = omega arith

AreBytes-cmpgt : (a b : List ℕ) → AreBytes (lanes cmpgt a b)
AreBytes-cmpgt [] b = tt
AreBytes-cmpgt (x ∷ a) [] = tt
AreBytes-cmpgt (x ∷ a) (y ∷ b) = (truth_lt _, AreBytes-cmpgt a b)

AreBytes-bit_or : (a b : List ℕ) → AreBytes a → AreBytes b → AreBytes (lanes bit_or a b)
AreBytes-bit_or [] b i j = tt
AreBytes-bit_or (x ∷ a) [] i j = tt
AreBytes-bit_or (x ∷ a) (y ∷ b) (h, i) (g, j) = (bit_or_lt 8 x y h g, AreBytes-bit_or a b i j)

at_most_one : (x : ℕ) → x - 1 ≡ 0 → leb x 1 ≡ true
at_most_one x h = ground arith

more_than_one : (x n : ℕ) → x - 1 ≡ suc n → leb x 1 ≡ false
more_than_one x n h = ground arith

and-false : (b : Bool) → (b && false) ≡ false
and-false true = refl
and-false false = refl

any_byte : (p q : ℕ) (u : AvxProcessedUtfBytes) → IsState 0 p u → IsState 0 q u
any_byte p q u k = record {
  nibble = k.nibble;
  full = k.full;
  last = k.last;
  small = k.small;
  lead = λ i. absurd (omega arith);
  byte = k.byte;
  low = k.low;
}

-- A block of ASCII behind a text.
module _ (u : Utf8State) (s : List ℕ) (a : AreAscii s) (h : length s ≡ 64) where
  abbrev found : List ℕ
  found = lanes bit_or (lanes cmpgt u.previous.carried_continuations (bounds 31)) u.has_error

  abbrev before : List ℕ
  before = lanes cmpgt u.previous.carried_continuations (bounds 31)

  found_zero :
      IsShaped u.has_error u.previous → all_zero found ≡ (all_zero before && all_zero u.has_error)
  found_zero i = lanes_or before u.has_error (
      length-lanes cmpgt u.previous.carried_continuations (bounds 31) i.full
      ∙ (i.full ∙ sym i.width))

  found-IsShaped : IsShaped u.has_error u.previous → IsShaped found u.previous
  found-IsShaped i =
      let n = length-lanes cmpgt u.previous.carried_continuations (bounds 31) i.full ∙ i.full in
      record {
        width = length-lanes bit_or before u.has_error (n ∙ sym i.width) ∙ n;
        bytes =
            AreBytes-bit_or before u.has_error
              (AreBytes-cmpgt u.previous.carried_continuations (bounds 31)) i.bytes;
        nibble = i.nibble;
        full = i.full;
      }

  ascii-Tracks :
      (o : Option (ℕ × ℕ))
      → IsShaped found u.previous
      → Tracks o u.has_error u.previous
      → Tracks (scans_on o s) found u.previous
  ascii-Tracks none w (i, z) =
      (w, found_zero i ∙ (ap (λ q. all_zero before && q) z ∙ and-false (all_zero before)))
  ascii-Tracks (some (zero, p)) w (i, z, k) =
      subst (λ o. Tracks o found u.previous) (sym (scans-AreAscii p s a))
        (
          w,
          found_zero i
              ∙ (ap (λ q. q && all_zero u.has_error)
                    (carried_test 31 _ k.full k.small ∙ at_most_one _ k.last.1)
                  ∙ z),
          any_byte p (byte_behind p s) u.previous k,
        )
  ascii-Tracks (some (suc n, p)) w (i, z, k) =
      subst (λ o. Tracks o found u.previous) (sym (scans-suc-AreAscii n p s (omega arith) a))
        (
          w,
          found_zero i
              ∙ ap (λ q. q && all_zero u.has_error)
                  (carried_test 31 _ k.full k.small ∙ more_than_one _ n k.last.1),
        )

Tracks-IsShaped :
    (o : Option (ℕ × ℕ)) (e : List ℕ) (u : AvxProcessedUtfBytes) → Tracks o e u → IsShaped e u
Tracks-IsShaped none e u t = t.0
Tracks-IsShaped (some r) e u t = t.0

module _ (u : Utf8State) (s : List ℕ) where
  abbrev lo : List ℕ
  lo = take 32 s

  abbrev hi : List ℕ
  hi = take 32 (drop 32 s)

  abbrev run_lo : AvxProcessedUtfBytes × List ℕ
  run_lo = avxcheck_utf8_bytes lo u.previous u.has_error

  abbrev run_hi : AvxProcessedUtfBytes × List ℕ
  run_hi = avxcheck_utf8_bytes hi run_lo.0 run_lo.1

  fast :
      testz 0x80 (lanes bit_or lo hi) ≡ true
      → check_utf8 (block s) u ≡ record {
        has_error =
            lanes bit_or (lanes cmpgt u.previous.carried_continuations (bounds 31)) u.has_error;
        previous = u.previous;
      }
  unfolding check_utf8
  fast e = rw e refl

  slow :
      testz 0x80 (lanes bit_or lo hi) ≡ false
      → check_utf8 (block s) u ≡ record { has_error = run_hi.1; previous = run_hi.0 }
  unfolding check_utf8
  slow e = rw e refl

-- `check_utf8` keeps track of the text.
pub check_utf8-Tracks :
    (o : Option (ℕ × ℕ)) (u : Utf8State) (s : List ℕ)
    → AreBytes s
    → length s ≡ 64
    → Tracks o u.has_error u.previous
    → Tracks (scans_on o s) (check_utf8 (block s) u).has_error (check_utf8 (block s) u).previous
check_utf8-Tracks o u s b h t =
    let b_lo = AreBytes-take 32 s b in
    let b_hi = AreBytes-take 32 (drop 32 s) (AreBytes-drop 32 s b) in
    elim (Bool-cases (testz 0x80 (lanes bit_or (lo u s) (hi u s)))) [
      | inl e ↦
          let (a, c) =
            testz-ascii (lo u s) (hi u s) (length_lo s h ∙ sym (length_hi s h)) b_lo b_hi e in
          let ascii : AreAscii s =
            subst AreAscii (halves s h) (AreAscii-append (lo u s) (hi u s) a c) in
          let shape = found-IsShaped u s ascii h (Tracks-IsShaped o u.has_error u.previous t) in
          subst (λ x. Tracks (scans_on o s) x.has_error x.previous) (sym (fast u s e))
            (ascii-Tracks u s ascii h o shape t)
      | inr e ↦
          let first = vector-Tracks (lo u s) b_lo (length_lo s h) o u.has_error u.previous t in
          let second =
            vector-Tracks (hi u s) b_hi (length_hi s h) (scans_on o (lo u s)) (run_lo u s).1
              (run_lo u s).0 first in
          let joined : scans_on (scans_on o (lo u s)) (hi u s) ≡ scans_on o s =
            sym (scans_on-append o (lo u s) (hi u s)) ∙ ap (scans_on o) (halves s h) in
          subst (λ x. Tracks (scans_on o s) x.has_error x.previous) (sym (slow u s e))
            (subst (λ x. Tracks x (run_hi u s).1 (run_hi u s).0) joined second)
    ]
