-- ===== src/Stage1/Ascii.antt =====
-- src/stage1.rs: ASCII, which takes the short way through `check_utf8`, and the state before the first
-- block.
use simdjson_rs.Prelude.{ℕ, zero, suc, ◌<◌, List, [], ◌∷◌, ◌++◌, replicate, arith}
use simdjson_rs.Utf8Check.{set1, unprocessed}
use simdjson_rs.Stage1.{Utf8State}

abbrev pub AreAscii : List ℕ → Type 0
AreAscii [] = Unit
AreAscii (c ∷ s) = (c < 128) × AreAscii s

pub AreAscii-append : (s t : List ℕ) → AreAscii s → AreAscii t → AreAscii (s ++ t)
AreAscii-append [] t a b = b
AreAscii-append (c ∷ s) t a b = (a.0, AreAscii-append s t a.1 b)

pub AreAscii-spaces : (n : ℕ) → AreAscii (replicate n 0x20)
AreAscii-spaces zero = tt
AreAscii-spaces (suc n) = (omega arith, AreAscii-spaces n)

abbrev pub clean : Utf8State
clean = record { has_error = set1 0; previous = unprocessed }
