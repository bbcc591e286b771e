-- ===== src/Prelude/Lists.antt =====
-- Lists measured and indexed by native numbers, under the library's names.
use Prim.Native.Nat.{ℕ, zero, suc, ◌+◌, ◌-◌, ◌<◌, ◌≤◌}
use Prim.Native.Char.{code}
use Prim.Native.String.{String}
use mathlib.Core.Path.{◌≡◌, refl, ap, ◌∙◌}
use mathlib.Core.List.{List, [], ◌∷◌, ◌++◌}
use mathlib.Core.Option.{Option, none, some}
use native.Mathlib.Omega.{arith}

-- The bytes of an ASCII text.
abbrev pub codes : String → List ℕ
codes String.[] = []
codes (String.◌∷◌ c s) = code c ∷ codes s

abbrev pub AreBytes : List ℕ → Type 0
AreBytes [] = Unit
AreBytes (ch ∷ s) = (ch < 256) × AreBytes s

pub suc_add : (a b : ℕ) → suc a + b ≡ suc (a + b)
suc_add a b = omega arith

module _ {ℓ} {A : Type ℓ} where
  abbrev pub length : List A → ℕ
  length [] = 0
  length (x ∷ xs) = suc (length xs)

  abbrev pub get_elem? : List A → ℕ → Option A
  get_elem? [] i = none
  get_elem? (x ∷ xs) zero = some x
  get_elem? (x ∷ xs) (suc i) = get_elem? xs i

  abbrev pub get_or : List A → ℕ → A → A
  get_or [] i d = d
  get_or (x ∷ xs) zero d = x
  get_or (x ∷ xs) (suc i) d = get_or xs i d

  -- A write out of bounds changes nothing.
  abbrev pub set : List A → ℕ → A → List A
  set [] i v = []
  set (x ∷ xs) zero v = v ∷ xs
  set (x ∷ xs) (suc i) v = x ∷ set xs i v

  abbrev pub drop : ℕ → List A → List A
  drop zero xs = xs
  drop (suc n) [] = []
  drop (suc n) (x ∷ xs) = drop n xs

  abbrev pub take : ℕ → List A → List A
  take zero xs = []
  take (suc n) [] = []
  take (suc n) (x ∷ xs) = x ∷ take n xs

  -- `xs` with the front of it replaced by `ys`, as far as it goes.
  abbrev pub overwrite : List A → List A → List A
  overwrite xs [] = xs
  overwrite [] (y ∷ ys) = []
  overwrite (x ∷ xs) (y ∷ ys) = y ∷ overwrite xs ys

  -- The same from position `i` on.
  abbrev pub overwrite_at : ℕ → List A → List A → List A
  overwrite_at zero xs ys = overwrite xs ys
  overwrite_at (suc i) [] ys = []
  overwrite_at (suc i) (x ∷ xs) ys = x ∷ overwrite_at i xs ys

  abbrev pub replicate : ℕ → A → List A
  replicate zero a = []
  replicate (suc n) a = a ∷ replicate n a

  pub length-append : (xs ys : List A) → length (xs ++ ys) ≡ length xs + length ys
  length-append [] ys = omega arith
  length-append (x ∷ xs) ys = omega (arith, length-append xs ys)

  pub get_elem?-some : (xs : List A) (i : ℕ) → i < length xs → (a : A) × (get_elem? xs i ≡ some a)
  get_elem?-some [] i h = elim h [ ]
  get_elem?-some (x ∷ xs) zero h = (x, refl)
  get_elem?-some (x ∷ xs) (suc i) h = get_elem?-some xs i (omega arith)

  pub length-set : (xs : List A) (i : ℕ) (v : A) → length (set xs i v) ≡ length xs
  length-set [] i v = refl
  length-set (x ∷ xs) zero v = refl
  length-set (x ∷ xs) (suc i) v = ap suc (length-set xs i v)

  pub get_elem?-set_self :
      (xs : List A) (i : ℕ) (v : A) → i < length xs → get_elem? (set xs i v) i ≡ some v
  get_elem?-set_self [] i v h = elim h [ ]
  get_elem?-set_self (x ∷ xs) zero v h = refl
  get_elem?-set_self (x ∷ xs) (suc i) v h = get_elem?-set_self xs i v (omega arith)

  pub get_elem?-set_lt :
      (xs : List A) (i j : ℕ) (v : A) → j < i → get_elem? (set xs i v) j ≡ get_elem? xs j
  get_elem?-set_lt [] i j v h = refl
  get_elem?-set_lt (x ∷ xs) zero j v h = elim h [ ]
  get_elem?-set_lt (x ∷ xs) (suc i) zero v h = refl
  get_elem?-set_lt (x ∷ xs) (suc i) (suc j) v h = get_elem?-set_lt xs i j v (omega arith)

  pub length-replicate : (n : ℕ) (a : A) → length (replicate n a) ≡ n
  length-replicate zero a = refl
  length-replicate (suc n) a = ap suc (length-replicate n a)

  pub drop-add : (a b : ℕ) (s : List A) → drop (a + b) s ≡ drop b (drop a s)
  drop-add zero b s = ap (λ n. drop n s) (omega arith)
  drop-add (suc a) zero [] = ap (λ n. drop n []) (suc_add a 0)
  drop-add (suc a) (suc b) [] = ap (λ n. drop n []) (suc_add a (suc b))
  drop-add (suc a) b (c ∷ s) = ap (λ n. drop n (c ∷ s)) (suc_add a b) ∙ drop-add a b s

  pub take-add : (a b : ℕ) (s : List A) → take (a + b) s ≡ take a s ++ take b (drop a s)
  take-add zero b s = ap (λ n. take n s) (omega arith)
  take-add (suc a) zero [] = ap (λ n. take n []) (suc_add a 0)
  take-add (suc a) (suc b) [] = ap (λ n. take n []) (suc_add a (suc b))
  take-add (suc a) b (c ∷ s) =
      ap (λ n. take n (c ∷ s)) (suc_add a b) ∙ ap (λ t. c ∷ t) (take-add a b s)

  pub length-take : (k : ℕ) (s : List A) → k ≤ length s → length (take k s) ≡ k
  length-take zero s h = refl
  length-take (suc k) [] h = absurd (omega arith)
  length-take (suc k) (a ∷ s) h = ap suc (length-take k s (omega arith))

  pub length-drop : (k : ℕ) (s : List A) → length (drop k s) ≡ length s - k
  length-drop zero s = omega arith
  length-drop (suc k) [] = omega arith
  length-drop (suc k) (a ∷ s) = omega (arith, length-drop k s)

  pub take-drop : (n : ℕ) (s : List A) → take n s ++ drop n s ≡ s
  take-drop zero s = refl
  take-drop (suc n) [] = refl
  take-drop (suc n) (c ∷ s) = ap (λ r. c ∷ r) (take-drop n s)

  pub take_all : (s : List A) → take (length s) s ≡ s
  take_all [] = refl
  take_all (c ∷ s) = ap (λ r. c ∷ r) (take_all s)

pub AreBytes-drop : (n : ℕ) (s : List ℕ) → AreBytes s → AreBytes (drop n s)
AreBytes-drop zero s b = b
AreBytes-drop (suc n) [] b = tt
AreBytes-drop (suc n) (ch ∷ s) b = AreBytes-drop n s b.1

pub AreBytes-take : (n : ℕ) (s : List ℕ) → AreBytes s → AreBytes (take n s)
AreBytes-take zero s b = tt
AreBytes-take (suc n) [] b = tt
AreBytes-take (suc n) (ch ∷ s) b = (b.0, AreBytes-take n s b.1)

pub AreBytes-append : (s t : List ℕ) → AreBytes s → AreBytes t → AreBytes (s ++ t)
AreBytes-append [] t b c = c
AreBytes-append (ch ∷ s) t b c = (b.0, AreBytes-append s t b.1 c)

pub AreBytes-replicate : (n c : ℕ) → c < 256 → AreBytes (replicate n c)
AreBytes-replicate zero c h = tt
AreBytes-replicate (suc n) c h = (h, AreBytes-replicate n c h)
