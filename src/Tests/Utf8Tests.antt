-- ===== src/Tests/Utf8Tests.antt =====
-- The UTF-8 check of src/utf8check.rs and src/stage1.rs at concrete inputs.
use simdjson_rs.Prelude.{
  ℕ, ◌≡◌, refl, true, false, ◌&&◌, some, List, [], ◌∷◌, ◌++◌, replicate, arith,
}
use simdjson_rs.Utf8Check.{set1, unprocessed, avxcheck_utf8_bytes}
use simdjson_rs.Utf8Check.Sequences.{follows, bytes_behind, is_continuation}
use simdjson_rs.Utf8Check.Runs.{scans, is_text, all_zero}
use simdjson_rs.Utf8Check.Vectors.{IsState}
use simdjson_rs.Utf8Check.States.{avxcheck_utf8_bytes-scans}
use simdjson_rs.Stage1.Rounds.{passes_utf8}
use simdjson_rs.Stage1.Utf8.{unprocessed-Tracks, accepts_utf8, passes_utf8-accepts_utf8}

-- 29 letters and three of the four bytes of U+1F4A9.
abbrev cut : List ℕ
cut = replicate 29 b'a' ++ (0xf0 ∷ 0x9f ∷ 0x92 ∷ [])

avxcheck_utf8_bytes-scans_example :
    (all_zero (avxcheck_utf8_bytes cut unprocessed (set1 0)).1
      ≡ (all_zero (set1 0) && is_text (scans 0 0 cut)))
    × ((r : ℕ × ℕ)
        → scans 0 0 cut ≡ some r
        → IsState r.0 r.1 (avxcheck_utf8_bytes cut unprocessed (set1 0)).0)
avxcheck_utf8_bytes-scans_example =
    avxcheck_utf8_bytes-scans 0 0 cut (set1 0) unprocessed (omega arith) refl refl
      unprocessed-Tracks.2

passes_utf8-accepts_utf8_example : passes_utf8 cut ≡ accepts_utf8 cut
passes_utf8-accepts_utf8_example = passes_utf8-accepts_utf8 cut (omega arith)

-- One byte is lacking, and the input does not fill its block.
refused : accepts_utf8 cut ≡ false
unfolding accepts_utf8 follows bytes_behind is_continuation
refused = refl

complete : accepts_utf8 (cut ++ 0xa9 ∷ []) ≡ true
unfolding accepts_utf8 follows bytes_behind is_continuation
complete = refl

-- The same at the end of a whole block.
not_seen : accepts_utf8 (replicate 32 b'a' ++ cut) ≡ true
unfolding accepts_utf8 follows bytes_behind is_continuation
not_seen = refl
