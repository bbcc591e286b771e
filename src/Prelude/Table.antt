-- ===== src/Prelude/Table.antt =====
-- A statement about every number below a bound, from a test of each.
use Prim.Native.Nat.{ℕ, zero, suc, ◌<◌}
use mathlib.Core.Path.{◌≡◌, refl}
use mathlib.Core.Bool.{Bool, true, false, ◌&&◌}
use simdjson_rs.Prelude.Tests.{if◌then◌else◌}
use native.Mathlib.Omega.{arith}

unfoldable pub all_below : ℕ → (ℕ → Bool) → Bool
all_below zero p = true
all_below (suc n) p = p n && all_below n p

pub all_below_sound : (n : ℕ) (p : ℕ → Bool) → all_below n p ≡ true → (x : ℕ) → x < n → p x ≡ true
unfolding all_below
all_below_sound zero p h x lt = absurd (omega arith)
all_below_sound (suc n) p h x lt = ground (arith, all_below_sound n p (ground arith) x)

-- Two tests that give the same digit are the same.
pub same_test : (a b : Bool) → ◌≡◌ {A = ℕ} (if a then 1 else 0) (if b then 1 else 0) → a ≡ b
same_test true true h = refl
same_test true false h = absurd (omega arith)
same_test false true h = absurd (omega arith)
same_test false false h = refl
