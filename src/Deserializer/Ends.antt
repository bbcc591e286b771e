-- ===== src/Deserializer/Ends.antt =====
-- src/lib.rs and src/value/owned.rs, the cursor of the deserializer: a step ends, and does not move
-- back.
use simdjson_rs.Prelude.{
  ℕ, zero, suc, ◌+◌, ◌-◌, ◌<◌, ◌≤◌, Bool, true, false, Option, none, some, List, [], ◌∷◌, get_elem?,
  length, if◌then◌else◌, ◌≡◌, refl, arith,
}
use simdjson_rs.Error.{Error, Outcome, ok, err, fault, out_of_fuel, ◌>>=◌}
use simdjson_rs.Error.Settles.{Settles, has_value, has_error, has_fault}
use simdjson_rs.ParseStr.{parse_str_}
use simdjson_rs.ParseStr.Ends.{parse_str_-Settles}
use simdjson_rs.Deserializer.{
  Deserializer, unchecked, skip, next_, count_elements, parse_str, error,
}

-- The run ends, and a value satisfies `Q`.
pub data Keeps {A : Type 0} (Q : A → Type 0) : Outcome Error A → Type 0 where
  with_value : {a : A} → Q a → Keeps Q (ok a)
  with_error : {e : Error} → Keeps Q (err e)
  with_fault : Keeps Q fault

module _ {A : Type 0} where
  pub Keeps-bind :
      {B : Type 0} {Q : A → Type 0} {R : B → Type 0} {f : A → Outcome Error B} (o : Outcome Error A)
      → Keeps Q o
      → ((a : A) → Q a → Keeps R (f a))
      → Keeps R (o >>= f)
  Keeps-bind (ok a) (with_value q) h = h a q
  Keeps-bind (err e) k h = with_error
  Keeps-bind fault k h = with_fault
  Keeps-bind out_of_fuel k h = elim k [ ]

  pub Keeps-if :
      {Q : A → Type 0} (b : Bool) {x y : Outcome Error A}
      → Keeps Q x
      → Keeps Q y
      → Keeps Q (if b then x else y)
  Keeps-if true p q = p
  Keeps-if false p q = q

  pub Keeps-Settles : (o : Outcome Error A) → Settles o → Keeps (λ _. Unit) o
  Keeps-Settles (ok a) h = with_value tt
  Keeps-Settles (err e) h = with_error
  Keeps-Settles fault h = with_fault
  Keeps-Settles out_of_fuel h = elim h [ ]

  pub Settles-Keeps : {Q : A → Type 0} {o : Outcome Error A} → Keeps Q o → Settles o
  Settles-Keeps (with_value q) = has_value
  Settles-Keeps with_error = has_error
  Settles-Keeps with_fault = has_fault

-- The structural indexes from that at the cursor on.
unfoldable pub left : Deserializer → ℕ
left d = length d.structural_indexes - d.idx

inside : (xs : List ℕ) (i a : ℕ) → get_elem? xs i ≡ some a → i < length xs
inside [] i a h = cc
inside (x ∷ xs) zero a h = omega arith
inside (x ∷ xs) (suc i) a h = omega (arith, inside xs i a h)

pub weaken :
    {A : Type 0} (a b : ℕ) {o : Outcome Error (A × Deserializer)}
    → a ≤ b
    → Keeps (λ p. left p.1 ≤ a) o
    → Keeps (λ p. left p.1 ≤ b) o
weaken a b h (with_value q) = with_value (omega arith)
weaken a b h with_error = with_error
weaken a b h with_fault = with_fault

-- The cursor moves on.
pub skip-Keeps : (d : Deserializer) → Keeps (λ d'. left d' < left d) (skip d)
unfolding skip left
skip-Keeps d = go (get_elem? d.structural_indexes (d.idx + 1)) refl
  where
    go :
        (o : Option ℕ)
        → get_elem? d.structural_indexes (d.idx + 1) ≡ o
        → Keeps
            (λ (d' : Deserializer).
              length d'.structural_indexes - d'.idx < length d.structural_indexes - d.idx)
            (unchecked o >>= λ iidx. ok (record {
              input = d.input;
              structural_indexes = d.structural_indexes;
              idx = d.idx + 1;
              counts = d.counts;
              iidx = iidx;
            }))
    go none e = with_fault
    go (some a) e = with_value (omega (arith, inside d.structural_indexes (d.idx + 1) a e))

unchecked-Keeps : {A : Type 0} (o : Option A) → Keeps (λ _. Unit) (unchecked o)
unchecked-Keeps none = with_fault
unchecked-Keeps (some a) = with_value tt

pub next_-Keeps : (d : Deserializer) → Keeps (λ p. left p.1 < left d) (next_ d)
unfolding next_
next_-Keeps d = Keeps-bind (skip d) (skip-Keeps d) λ d' h.
    Keeps-bind (unchecked (get_elem? d'.input d'.iidx)) (unchecked-Keeps _) λ b _. with_value h

pub count_elements-Keeps : (d : Deserializer) → Keeps (λ _. Unit) (count_elements d)
unfolding count_elements
count_elements-Keeps d =
    Keeps-bind (unchecked (get_elem? d.counts d.idx)) (unchecked-Keeps _) λ o _. unchecked-Keeps o

pub parse_str-Keeps : (d : Deserializer) → Keeps (λ p. left p.1 ≤ left d) (parse_str d)
unfolding parse_str left
parse_str-Keeps d =
    Keeps-bind (parse_str_ (error d) d.input d.iidx)
      (Keeps-Settles _ (parse_str_-Settles (error d) d.input d.iidx))
      λ p _. with_value (omega arith)
