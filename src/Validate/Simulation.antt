-- ===== src/Validate/Simulation.antt =====
-- Each round of `validate` of src/stage2.rs does what the automaton does with the tokens that it
-- reads, and stays inside of its vectors.
pub mod Reads
pub mod Rounds
pub mod Steps
use simdjson_rs.Prelude.{
  ℕ, suc, ◌+◌, ◌≤◌, ◌<◌, ◌≡◌, refl, Bool, true, false, Option, none, some, List, [], ◌∷◌, map,
  get_elem?, length, if◌then◌else◌,
}
use simdjson_rs.Error.{Error, Outcome, ok, err, fault, out_of_fuel}
use simdjson_rs.Validate.{
  Input, State, object_key, scope_end, main_array_switch, StackState, array, Frame, Machine, Flow,
  goto, return, Counts,
}
use simdjson_rs.Validate.Automaton.{
  Token, token, classify, Config, key_colon, read_value, close, accepts, accepts_from,
}

-- The frames of the stack, the top one first; `n` is the length of both vectors.
abbrev pub Holds : ℕ → List (Option Frame) → List Frame → Type 0
Holds n stack [] = Unit
Holds n stack (f ∷ fs) =
    (get_elem? stack (length fs) ≡ some (some f)) × (f.last_start < n) × Holds n stack fs

abbrev pub Inside : Input → List ℕ → Type 0
Inside input [] = Unit
Inside input (p ∷ ps) = (p < length input.bytes) × Inside input ps

abbrev pub states : List Frame → List StackState
states = map (λ f. f.state)

abbrev pub tokens : Input → List ℕ → List Token
tokens input = map (token input)

-- Between two rounds.
pub record Inv (input : Input) (n : ℕ) (m : Machine) (fs : List Frame) : Type 0 where
  pub depth_is : m.depth ≡ length fs
  pub held : Holds n m.stack fs
  pub stack_is : length m.stack ≡ n
  pub counts_is : length m.counts ≡ n
  pub room : m.depth + length m.si < n
  pub seen : m.i + length m.si < n
  pub open_at : m.last_start < n
  pub inside : Inside input m.si

-- A token has just been read at `idx`.
pub record Ready (input : Input) (n : ℕ) (m : Machine) : Type 0 where
  pub space : suc (m.depth + length m.si) < n
  pub at : m.idx < length input.bytes

-- What the automaton says of the rest of the input.
abbrev pub accepts_at : Input → State → Machine → List Frame → Bool
accepts_at input object_key m fs = accepts (tokens input m.si) key_colon (states fs)
accepts_at input scope_end m fs = accepts_from (tokens input m.si) (close (states fs))
accepts_at input main_array_switch m fs =
    accepts_from (tokens input m.si) (read_value array (states fs) (classify input m.idx m.c))

abbrev pub ReadyFor : Input → ℕ → State → Machine → Type 0
ReadyFor input n main_array_switch m = Ready input n m
ReadyFor input n _ m = Unit

-- A round agrees with the verdict `b` of the automaton: it returns only if that accepts, is an
-- error only if that refuses, faults never, and leaves less than `limit` indexes if it goes on.
pub data Simulates (input : Input) (n limit : ℕ) : Outcome Error Flow → Bool → Type 0 where
  returns : {counts : Counts} {b : Bool} → b ≡ true → Simulates input n limit (ok (return counts)) b
  Goes-on :
      {s : State} {m : Machine} {b : Bool} (fs : List Frame)
      → Inv input n m fs
      → ReadyFor input n s m
      → b ≡ accepts_at input s m fs
      → length m.si < limit
      → Simulates input n limit (ok (goto s m)) b
  refuses : {e : Error} {b : Bool} → b ≡ false → Simulates input n limit (err e) b

module _ {input : Input} {n limit : ℕ} where
  pub Simulates-if :
      (t : Bool) {x y : Outcome Error Flow} {b : Bool}
      → (t ≡ true → Simulates input n limit x b)
      → (t ≡ false → Simulates input n limit y b)
      → Simulates input n limit (if t then x else y) b
  Simulates-if true h k = h refl
  Simulates-if false h k = k refl

  -- The round and the automaton make the same test.
  pub Simulates-if_both :
      (t : Bool) {x y : Outcome Error Flow} {u v : Token} (f : Token → Bool)
      → (t ≡ true → Simulates input n limit x (f u))
      → (t ≡ false → Simulates input n limit y (f v))
      → Simulates input n limit (if t then x else y) (f (if t then u else v))
  Simulates-if_both true f h k = h refl
  Simulates-if_both false f h k = k refl
