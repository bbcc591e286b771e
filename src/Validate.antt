-- ===== src/Validate.antt =====
-- src/stage2.rs, `Deserializer::validate`: the second stage, over the structural indexes.
pub mod Automaton
pub mod Simulation
pub mod Refinement
pub mod Grammar
pub mod Parses
pub mod Counted
pub mod Scans
pub mod Leads
pub mod Ends
pub mod Reads
pub mod Scopes
pub mod Walks
pub mod Counting
use simdjson_rs.Prelude.{
  ℕ, zero, suc, ◌+◌, ◌-◌, Bool, true, false, ◌&&◌, ◌||◌, not, Option, none, some, List, [], ◌∷◌,
  ◌++◌, get_elem?, set, drop, replicate, length, ltb, leb, ◌==◌, if◌then◌else◌,
}
use simdjson_rs.Error.{
  Error, ErrorType, generic, new, Outcome, ok, err, fault, out_of_fuel, ◌>>=◌, syntax,
  internal_error, expected_array_content, expected_object_content, expected_object_key,
  expected_object_colon, expected_boolean, expected_null, trailing_characters,
}
use simdjson_rs.Atoms.{is_valid_true_atom, is_valid_false_atom, is_valid_null_atom}

-- The slice `input`, and the bytes that can be read behind its end.
pub record Input : Type 0 where
  pub bytes : List ℕ
  pub behind : List ℕ

pub data State : Type 0 where
  object_key scope_end main_array_switch : State

pub data StackState : Type 0 where
  start object array : StackState

-- An entry of `stack`.
pub record Frame : Type 0 where
  pub state : StackState
  pub last_start : ℕ
  pub cnt : ℕ

-- The variables of `validate`. An entry of a vector is `none` before it is written.
pub record Machine : Type 0 where
  pub si : List ℕ
  pub i : ℕ
  pub idx : ℕ
  pub c : ℕ
  pub depth : ℕ
  pub last_start : ℕ
  pub cnt : ℕ
  pub stack : List (Option Frame)
  pub counts : List (Option ℕ)

abbrev pub Counts : Type 0
Counts = List (Option ℕ)

-- `goto!`, or `return Ok(counts)`.
pub data Flow : Type 0 where
  goto : State → Machine → Flow
  return : Counts → Flow

-- size_of::<__m256i>()
abbrev pub simdjson_padding : ℕ
simdjson_padding = 32

abbrev pub is_integer_start : ℕ → Bool
is_integer_start c = c == b'-' || leb b'0' c && leb c b'9'

abbrev pub fail {ℓ} : {A : Type ℓ} → Machine → ErrorType → Outcome Error A
fail m t = err (new m.i m.idx m.c t)

abbrev pub saved : StackState → Machine → Frame
saved s m = record { state = s; last_start = m.last_start; cnt = m.cnt }

abbrev pub pushed : StackState → Machine → Machine
pushed s m = record m {
  stack = set m.stack m.depth (some (saved s m));
  depth = m.depth + 1;
  last_start = m.i;
  cnt = 1;
}

module _ (input : Input) where
  -- `c = *input.get_unchecked(idx)`.
  abbrev pub arrive : Machine → ℕ → List ℕ → Option ℕ → Outcome Error Machine
  arrive m p r none = fault
  arrive m p r (some b) = ok (record m { si = r; i = m.i + 1; idx = p; c = b })

  next_structural : Machine → List ℕ → Outcome Error Machine
  next_structural m [] = err (generic syntax)
  next_structural m (p ∷ r) = arrive m p r (get_elem? input.bytes p)

  unfoldable pub update_char : Machine → Outcome Error Machine
  unfolding next_structural
  update_char m = next_structural m m.si

  -- The memory from `idx` on.
  abbrev pub memory : ℕ → List ℕ
  memory p = drop p (input.bytes ++ input.behind)

  -- `if !is_valid_…_atom(…) { fail!(t) }`
  abbrev pub check_atom :
      Machine → ErrorType → Option Bool → Outcome Error Flow → Outcome Error Flow
  check_atom m t none k = fault
  check_atom m t (some valid) k = if valid then k else fail m t

  unfoldable pub array_continue : Machine → Outcome Error Flow
  array_continue m = update_char m >>= λ m.
      if m.c == b','
      then (update_char (record m { cnt = m.cnt + 1 }) >>= λ m. ok (goto main_array_switch m))
      else if m.c == b']'
      then ok (goto scope_end m)
      else fail m expected_array_content

  unfoldable pub object_continue : Machine → Outcome Error Flow
  object_continue m = update_char m >>= λ m.
      if m.c == b','
      then (update_char (record m { cnt = m.cnt + 1 }) >>= λ m.
          if m.c == b'"' then ok (goto object_key m) else fail m expected_object_key)
      else if m.c == b'}'
      then ok (goto scope_end m)
      else fail m expected_object_content

  unfoldable pub array_begin : Machine → Outcome Error Flow
  array_begin m = update_char m >>= λ m.
      if m.c == b']'
      then ok (goto scope_end (record m { cnt = 0 }))
      else ok (goto main_array_switch m)

  unfoldable pub object_begin : Machine → Outcome Error Flow
  object_begin m = update_char m >>= λ m.
      if m.c == b'"'
      then ok (goto object_key m)
      else if m.c == b'}'
      then ok (goto scope_end (record m { cnt = 0 }))
      else fail m expected_object_content

  -- The lines that open a scope: `stack[depth] = (state, last_start, cnt)` and what follows.
  unfoldable pub push_scope : StackState → Machine → Outcome Error Machine
  push_scope s m = if ltb m.depth (length m.stack) then ok (pushed s m) else fault

  -- The value at `c`, inside of an array or an object; `continue` goes on behind a scalar.
  unfoldable pub scan_value :
      StackState → (Machine → Outcome Error Flow) → Machine → Outcome Error Flow
  unfolding push_scope array_begin object_begin
  scan_value s continue m =
      if m.c == b'"'
      then continue m
      else if m.c == b't'
      then check_atom m expected_boolean (is_valid_true_atom (memory m.idx)) (continue m)
      else if m.c == b'f'
      then check_atom m expected_boolean (is_valid_false_atom (memory m.idx)) (continue m)
      else if m.c == b'n'
      then check_atom m expected_null (is_valid_null_atom (memory m.idx)) (continue m)
      else if is_integer_start m.c
      then continue m
      else if m.c == b'{'
      then (push_scope s m >>= object_begin)
      else if m.c == b'['
      then (push_scope s m >>= array_begin)
      else fail m internal_error

  object_key_step : Machine → Outcome Error Flow
  unfolding scan_value object_continue
  object_key_step m = update_char m >>= λ m.
      if not (m.c == b':')
      then fail m expected_object_colon
      else (update_char m >>= scan_value object object_continue)

  main_array_step : Machine → Outcome Error Flow
  unfolding scan_value array_continue
  main_array_step m = scan_value array array_continue m

  -- `if si.next().is_none() { return Ok(counts) } else { fail!(t) }`
  unfoldable pub finish : Machine → ErrorType → List ℕ → Outcome Error Flow
  finish m t [] = ok (return m.counts)
  finish m t (_ ∷ _) = fail m t

  -- The `match &a_state`, behind the assignments from the popped frame.
  unfoldable pub resume : StackState → Machine → Outcome Error Flow
  unfolding object_continue array_continue finish
  resume object m = object_continue m
  resume array m = array_continue m
  resume start m = finish m internal_error m.si

  -- `stack.get_unchecked(depth)`; an entry that was never written is a fault.
  pop_scope : Machine → Option (Option Frame) → Outcome Error Flow
  unfolding resume
  pop_scope m none = fault
  pop_scope m (some none) = fault
  pop_scope m (some (some f)) = resume f.state (record m { last_start = f.last_start; cnt = f.cnt })

  scope_end_step : Machine → Outcome Error Flow
  unfolding pop_scope
  scope_end_step m =
      if m.depth == 0
      then err (generic syntax)
      else if ltb m.last_start (length m.counts)
      then (let m = record m {
        depth = m.depth - 1;
        counts = set m.counts m.last_start (some m.cnt);
      } in
          pop_scope m (get_elem? m.stack m.depth))
      else fault

  -- One round of `loop { match state { … } }`.
  unfoldable pub step : State → Machine → Outcome Error Flow
  unfolding object_key_step main_array_step scope_end_step
  step object_key m = object_key_step m
  step main_array_switch m = main_array_step m
  step scope_end m = scope_end_step m

  -- The copy of the input with 32 zeros behind it, from `idx` on.
  abbrev pub padded : ℕ → List ℕ
  padded p = drop p (input.bytes ++ replicate simdjson_padding 0)

  abbrev root_atom : Machine → Option Bool → Outcome Error Flow
  root_atom m valid = check_atom m expected_null valid (finish m trailing_characters m.si)

  -- The first structural character, before the loop.
  unfoldable pub start_step : Machine → Outcome Error Flow
  unfolding push_scope object_begin array_begin finish
  start_step m = update_char m >>= λ m.
      if m.c == b'{'
      then (push_scope start m >>= object_begin)
      else if m.c == b'['
      then (push_scope start m >>= array_begin)
      else if m.c == b'"'
      then finish m trailing_characters m.si
      else if m.c == b't'
      then root_atom m (is_valid_true_atom (padded m.idx))
      else if m.c == b'f'
      then root_atom m (is_valid_false_atom (padded m.idx))
      else if m.c == b'n'
      then root_atom m (is_valid_null_atom (padded m.idx))
      else if is_integer_start m.c
      then finish m trailing_characters m.si
      else fail m internal_error

  -- The loop: each round uses one unit of fuel.
  pub follow : ℕ → Flow → Outcome Error Counts
  follow fuel (return counts) = ok counts
  follow zero (goto s m) = out_of_fuel
  follow (suc fuel) (goto s m) = step s m >>= follow fuel

  -- The variables before the first `update_char!`; `idx` and `c` have no value yet.
  unfoldable pub initial : List ℕ → Machine
  initial structural_indexes = record {
    si = drop 1 structural_indexes;
    i = 0;
    idx = 0;
    c = 0;
    depth = 0;
    last_start = 1;
    cnt = 0;
    stack = replicate (length structural_indexes) none;
    counts = replicate (length structural_indexes) none;
  }

  unfoldable pub validate : List ℕ → Outcome Error Counts
  unfolding start_step follow initial
  validate structural_indexes =
      start_step (initial structural_indexes) >>= follow (length structural_indexes)
