-- ===== src/Stage1/Utf8.antt =====
-- src/stage1.rs, the UTF-8 check of a whole input.
use simdjson_rs.Prelude.{
  ℕ, zero, suc, ◌-◌, ◌*◌, ◌%◌, ◌<◌, Bool, true, false, ◌&&◌, ◌||◌, Option, none, some, List, [],
  ◌∷◌, take, drop, length, replicate, length-append, length-replicate, length-take, length-drop,
  take-drop, ◌≡◌, refl, sym, ap, ◌∙◌, subst, arith, AreBytes, AreBytes-take, AreBytes-drop, bit_and,
  ◌==◌, ==_iff, if◌then◌else◌,
}
use simdjson_rs.Prelude.Table.{all_below, all_below_sound, same_test}
use simdjson_rs.Utf8Check.{set1, unprocessed, AvxProcessedUtfBytes}
use simdjson_rs.Utf8Check.Runs.{scans, is_text, all_zero}
use simdjson_rs.Utf8Check.Tracks.{Tracks, scans_on}
use simdjson_rs.Stage1.{Utf8State, testz, check_utf8}
use simdjson_rs.Stage1.Classes.{block}
use simdjson_rs.Stage1.Loop.{block-append}
use simdjson_rs.Stage1.Rounds.{padded, block_count, utf8_run, AreBytes-padded}
use simdjson_rs.Stage1.Rounds.{passes_utf8}
use simdjson_rs.Stage1.Ascii.{AreAscii-spaces, clean}
use simdjson_rs.Stage1.Encoding.{scans-append, scans_on-append, scans-AreAscii, scans-suc-AreAscii}
use simdjson_rs.Stage1.Tracking.{check_utf8-Tracks}

scans_on-nil : (o : Option (ℕ × ℕ)) → scans_on o [] ≡ o
scans_on-nil none = refl
scans_on-nil (some r) = refl

no_bytes : (s : List ℕ) → length s ≡ 0 → [] ≡ s
no_bytes [] h = refl
no_bytes (c ∷ s) h = absurd (omega arith)

utf8_run-Tracks :
    (n : ℕ) (o : Option (ℕ × ℕ)) (u : Utf8State) (s : List ℕ)
    → AreBytes s
    → length s ≡ 64 * n
    → Tracks o u.has_error u.previous
    → Tracks (scans_on o s) (utf8_run n u s).has_error (utf8_run n u s).previous
utf8_run-Tracks zero o u s b h t =
    subst (λ x. Tracks x u.has_error u.previous)
      (sym (scans_on-nil o) ∙ ap (scans_on o) (no_bytes s (omega arith))) t
utf8_run-Tracks (suc n) o u s b h t =
    let front = take 64 s in
    let back = drop 64 s in
    let k : length front ≡ 64 = length-take 64 s (omega arith) in
    let same : block front ≡ block s =
      sym (block-append front back k) ∙ ap block (take-drop 64 s) in
    let first = check_utf8-Tracks o u front (AreBytes-take 64 s b) k t in
    let first' =
      subst (λ x. Tracks (scans_on o front) (check_utf8 x u).has_error (check_utf8 x u).previous)
        same first in
    let rest =
      utf8_run-Tracks n (scans_on o front) (check_utf8 (block s) u) back (AreBytes-drop 64 s b)
        (omega (arith, length-drop 64 s)) first' in
    subst
      (λ x.
        Tracks x (utf8_run n (check_utf8 (block s) u) back).has_error
          (utf8_run n (check_utf8 (block s) u) back).previous)
      (sym (scans_on-append o front back) ∙ ap (scans_on o) (take-drop 64 s)) rest

pub unprocessed-Tracks : Tracks (some (0, 0)) (set1 0) unprocessed
unprocessed-Tracks = (
  record { width = refl; bytes = omega arith; nibble = refl; full = refl },
  refl,
  record {
    nibble = refl;
    full = refl;
    last = (omega arith, omega arith, omega arith, λ z. omega arith);
    small = omega arith;
    lead = λ i. absurd (omega arith);
    byte = omega arith;
    low = λ z. omega arith;
  },
)

mask_table :
    all_below 256 (λ x. (if bit_and x 0xff == 0 then 1 else 0) == (if x == 0 then 1 else 0)) ≡ true
unfolding all_below
mask_table = refl

testz-all_zero : (e : List ℕ) → AreBytes e → testz 0xff e ≡ all_zero e
testz-all_zero [] b = refl
testz-all_zero (x ∷ e) (h, b) =
    ap (λ q. q && testz 0xff e)
      (same_test _ _ ((==_iff _ _).0 (all_below_sound 256 _ mask_table x h)))
    ∙ ap (λ q. x == 0 && q) (testz-all_zero e b)

tracked :
    (o : Option (ℕ × ℕ)) (e : List ℕ) (u : AvxProcessedUtfBytes)
    → Tracks o e u
    → testz 0xff e ≡ is_text o
tracked none e u (i, z) = testz-all_zero e i.bytes ∙ z
tracked (some r) e u (i, z, k) = testz-all_zero e i.bytes ∙ z

-- The input is UTF-8; one that fills its last block may end within a character.
unfoldable pub accepts_utf8 : List ℕ → Bool
accepts_utf8 s = elim (scans 0 0 s) [ none ↦ false | some (n, p) ↦ n == 0 || length s % 64 == 0 ]

or-true : (a b : Bool) → b ≡ true → true ≡ (a || b)
or-true true b h = refl
or-true false b h = sym h

not_cut : (n m : ℕ) → 0 < m → false ≡ (suc n == 0 || m == 0)
not_cut n m h = ground arith

padded-text :
    (k l : ℕ) (o : Option (ℕ × ℕ))
    → k ≡ (64 - l % 64) % 64
    → is_text (scans_on o (replicate k 0x20))
      ≡ elim o [ none ↦ false | some (n, p) ↦ n == 0 || l % 64 == 0 ]
padded-text k l none h = refl
padded-text zero l (some (n, p)) h =
    let z : l % 64 ≡ 0 = omega arith in or-true (n == 0) (l % 64 == 0) ((==_iff _ _).1 z)
padded-text (suc k) l (some (zero, p)) h =
    ap is_text (scans-AreAscii p (replicate (suc k) 0x20) (AreAscii-spaces (suc k))) ∙ refl
padded-text (suc k) l (some (suc n, p)) h =
    ap is_text
      (scans-suc-AreAscii n p (replicate (suc k) 0x20) (omega arith) (AreAscii-spaces (suc k)))
    ∙ not_cut n (l % 64) (omega arith)

-- On every input of bytes, the run of `check_utf8` over the blocks of 64 bytes, the last padded
-- with spaces, finds no error exactly if the input is UTF-8 one byte after another: no overlong
-- sequence, no surrogate, nothing above U+10FFFF. An input that fills its last block may end
-- within a character.
pub passes_utf8-accepts_utf8 :
    (input : List ℕ) → AreBytes input → passes_utf8 input ≡ accepts_utf8 input
unfolding passes_utf8 accepts_utf8
passes_utf8-accepts_utf8 input b =
    let k = (64 - length input % 64) % 64 in
    let whole : length (padded input) ≡ 64 * block_count input =
      omega (arith, length-append input (replicate k 0x20), length-replicate {A = ℕ} k 0x20) in
    let t =
      utf8_run-Tracks (block_count input) (some (0, 0)) clean (padded input)
        (AreBytes-padded input b) whole unprocessed-Tracks in
    tracked (scans 0 0 (padded input)) _ _ t
    ∙ (ap is_text (scans-append 0 0 input (replicate k 0x20))
        ∙ padded-text k (length input) (scans 0 0 input) refl)
