-- ===== src/Stage1/Encoding.antt =====
-- src/stage1.rs, `check_utf8`: the check of a block against UTF-8, one byte after another.
use simdjson_rs.Prelude.{
  ℕ, suc, ◌<◌, Bool, true, false, ◌&&◌, Option, none, some, List, [], ◌∷◌, ◌++◌, length, ◌≡◌, refl,
  subst, arith, AreBytes, bit_and, bit_or, ◌==◌, ltb, ltb→lt, if◌then◌else◌,
}
use simdjson_rs.Prelude.Bits.{bit_or_lt, le-bit_or}
use simdjson_rs.Prelude.Table.{all_below, all_below_sound}
use simdjson_rs.Utf8Check.{lanes}
use simdjson_rs.Utf8Check.Sequences.{is_continuation, follows, bytes_behind, lacks_behind}
use simdjson_rs.Utf8Check.Runs.{scans}
use simdjson_rs.Utf8Check.Vectors.{byte_behind}
use simdjson_rs.Utf8Check.Tracks.{scans_on}
use simdjson_rs.Stage1.{testz}
use simdjson_rs.Stage1.Ascii.{AreAscii}

-- Pieces of a text.
pub scans-append : (n p : ℕ) (a b : List ℕ) → scans n p (a ++ b) ≡ scans_on (scans n p a) b
scans-append n p [] b = refl
scans-append n p (c ∷ a) b = after (lacks_behind n p c) (λ m. scans-append m c a b)
  where
    after :
        (o : Option ℕ)
        → ((m : ℕ) → scans m c (a ++ b) ≡ scans_on (scans m c a) b)
        → elim o [ none ↦ none | some m ↦ scans m c (a ++ b) ]
          ≡ scans_on (elim o [ none ↦ none | some m ↦ scans m c a ]) b
    after none again = refl
    after (some m) again = again m

pub scans_on-append :
    (o : Option (ℕ × ℕ)) (a b : List ℕ) → scans_on o (a ++ b) ≡ scans_on (scans_on o a) b
scans_on-append none a b = refl
scans_on-append (some (n, p)) a b = scans-append n p a b

-- ASCII behind a text.
bytes_behind-ascii : (c : ℕ) → c < 128 → bytes_behind c ≡ some 0
unfolding bytes_behind
bytes_behind-ascii c h = ground arith

follows-ascii : (p c : ℕ) → c < 128 → follows p c ≡ false
unfolding follows is_continuation
follows-ascii p c h = ground arith

pub scans-AreAscii : (p : ℕ) (s : List ℕ) → AreAscii s → scans 0 p s ≡ some (0, byte_behind p s)
scans-AreAscii p [] a = refl
scans-AreAscii p (c ∷ s) (h, a) = rw (scans, bytes_behind-ascii c h) (scans-AreAscii c s a)

pub scans-suc-AreAscii :
    (n p : ℕ) (s : List ℕ) → 0 < length s → AreAscii s → scans (suc n) p s ≡ none
scans-suc-AreAscii n p [] l a = absurd (omega arith)
scans-suc-AreAscii n p (c ∷ s) l (h, a) = rw (scans, follows-ascii p c h) refl

high_table : all_below 256 (λ c. if bit_and c 0x80 == 0 then ltb c 128 else true) ≡ true
unfolding all_below
high_table = refl

both : (a b : Bool) → (a && b) ≡ true → (a ≡ true) × (b ≡ true)
both true b h = (refl, h)
both false b h = cc

pub testz-ascii :
    (a b : List ℕ)
    → length a ≡ length b
    → AreBytes a
    → AreBytes b
    → testz 0x80 (lanes bit_or a b) ≡ true
    → AreAscii a × AreAscii b
testz-ascii [] [] n i j h = (tt, tt)
testz-ascii [] (y ∷ b) n i j h = absurd (omega arith)
testz-ascii (x ∷ a) [] n i j h = absurd (omega arith)
testz-ascii (x ∷ a) (y ∷ b) n (l, i) (m, j) h =
    let (first, rest) = both (bit_and (bit_or x y) 0x80 == 0) (testz 0x80 (lanes bit_or a b)) h in
    let (u, w) = testz-ascii a b (omega arith) i j rest in
    let row : ltb (bit_or x y) 128 ≡ true =
      subst (λ q. (if q then ltb (bit_or x y) 128 else true) ≡ true) first
        (all_below_sound 256 _ high_table (bit_or x y) (bit_or_lt 8 x y l m)) in
    let below : bit_or x y < 128 = ltb→lt _ _ row in
    ((omega (arith, le-bit_or x y), u), (omega (arith, le-bit_or x y), w))
