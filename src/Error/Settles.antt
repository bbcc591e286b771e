-- ===== src/Error/Settles.antt =====
-- Runs of the model that do not use up their fuel.
use simdjson_rs.Prelude.{Bool, true, false, if◌then◌else◌, ◌≡◌, refl}
use simdjson_rs.Error.{Outcome, ok, err, fault, out_of_fuel, ◌>>=◌}

-- The run ends: with a value, an error or a fault.
pub data Settles {E A : Type 0} : Outcome E A → Type 0 where
  has_value : {a : A} → Settles (ok a)
  has_error : {e : E} → Settles (err e)
  has_fault : Settles fault

pub Settles-bind :
    {E A B : Type 0} {o : Outcome E A} {f : A → Outcome E B}
    → Settles o
    → ((a : A) → Settles (f a))
    → Settles (o >>= f)
Settles-bind (has_value {a}) h = h a
Settles-bind has_error h = has_error
Settles-bind has_fault h = has_fault

-- What follows a value knows that it was the value.
pub Settles-then :
    {E A B : Type 0} (o : Outcome E A) {f : A → Outcome E B}
    → Settles o
    → ((a : A) → o ≡ ok a → Settles (f a))
    → Settles (o >>= f)
Settles-then (ok a) s h = h a refl
Settles-then (err e) s h = has_error
Settles-then fault s h = has_fault
Settles-then out_of_fuel s h = absurd (never s)
  where
    never : {E A : Type 0} → Settles {E = E} {A = A} out_of_fuel → ⊥
    never s = elim s [ ]

pub Settles-if :
    {E A : Type 0} (b : Bool) {x y : Outcome E A}
    → Settles x
    → Settles y
    → Settles (if b then x else y)
Settles-if true p q = p
Settles-if false p q = q
