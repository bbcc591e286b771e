-- ===== src/Validate/Simulation/Steps.antt =====
-- A whole round of `validate`, and the loop: the outcome is that of the automaton.
use simdjson_rs.Prelude.{
  ℕ, ◌-◌, ◌≤◌, ◌≡◌, not, refl, ◌∙◌, ap, arith, Bool, true, false, some, List, [], ◌∷◌, get_elem?,
  set, length, length-set, if◌then◌else◌, lt→ltb, ◌==◌,
}
use simdjson_rs.Error.{Error, ErrorType, Outcome}
use simdjson_rs.Validate.{
  Input, State, StackState, start, object, array, Frame, Machine, Flow, object_key, scope_end,
  main_array_switch, array_continue, object_continue, array_begin, object_begin, scan_value,
  object_key_step, main_array_step, scope_end_step, pop_scope, resume, finish, step,
  is_integer_start,
}
use simdjson_rs.Validate.Automaton.{
  Token, classify, bad, comma, colon, close_array, close_object, delta, accepts, accepts_from,
  value, after, key_colon, close, read_value,
}
use simdjson_rs.Validate.Simulation.{
  tokens, states, Inv, Ready, ReadyFor, accepts_at, Simulates, returns, Goes-on, refuses,
  Simulates-if, Simulates-if_both,
}
use simdjson_rs.Validate.Simulation.Reads.{
  update_char-Simulates, check_atom-Simulates, push_scope-Simulates, answers_at,
}
use simdjson_rs.Validate.Simulation.Rounds.{
  class_colon, not_colon, refuses_colon, verdict, verdict_end, change, at_token, turned_down,
  array_continue-Simulates, object_continue-Simulates, array_begin-Simulates,
  object_begin-Simulates,
}

-- What is no value is refused where one is wanted.
pub no_value :
    (ts : List Token) (k : StackState) (ks : List StackState) (a b c d : Bool)
    → accepts_from ts (
        read_value k ks (
          if a
          then close_object
          else if b
          then close_array
          else if c
          then comma
          else if d
          then colon
          else bad))
      ≡ false
no_value ts k ks true b c d = refl
no_value ts k ks false true c d = refl
no_value ts k ks false false true d = refl
no_value ts k ks false false false true = refl
no_value ts k ks false false false false = refl

module _ (input : Input) (n : ℕ) (behind : 8 ≤ length input.behind) where
  pub weaken :
      {limit limit' : ℕ} {o : Outcome Error Flow} {b : Bool}
      → limit ≤ limit'
      → Simulates input n limit o b
      → Simulates input n limit' o b
  weaken h (returns e) = returns e
  weaken h (Goes-on fs inv ready e lt) = Goes-on fs inv ready e (omega arith)
  weaken h (refuses e) = refuses e

  -- A value inside of an array or an object.
  scan_value-Simulates :
      {m : Machine} {fs : List Frame} (k : StackState) (continue : Machine → Outcome Error Flow)
      → Inv input n m fs
      → Ready input n m
      → Simulates input n
          (length m.si)
          (continue m)
          (accepts (tokens input m.si) (after k) (states fs))
      → Simulates input n
          (length m.si)
          (scan_value input k continue m)
          (accepts_from (tokens input m.si) (read_value k (states fs) (classify input m.idx m.c)))
  unfolding scan_value classify
  scan_value-Simulates {m} {fs} k continue inv ready h =
      let verdict_of =
        λ (t : Token). accepts_from (tokens input m.si) (read_value k (states fs) t) in
      let (t, f, z) = answers_at input n behind m.idx ready.at in
      Simulates-if_both (m.c == b'"') verdict_of (λ _. h)
        λ _.
          Simulates-if_both (m.c == b't') verdict_of
            (λ _. check_atom-Simulates input n m _ _ _ (continue m) verdict_of t refl h)
            λ _.
              Simulates-if_both (m.c == b'f') verdict_of
                (λ _. check_atom-Simulates input n m _ _ _ (continue m) verdict_of f refl h)
                λ _.
                  Simulates-if_both (m.c == b'n') verdict_of
                    (λ _. check_atom-Simulates input n m _ _ _ (continue m) verdict_of z refl h)
                    λ _.
                      Simulates-if_both (is_integer_start m.c) verdict_of (λ _. h)
                        λ _.
                          Simulates-if_both (m.c == b'{') verdict_of
                            (λ _.
                              push_scope-Simulates input n k inv ready _ _ (object_begin input)
                                (object_begin-Simulates input n))
                            λ _.
                              Simulates-if_both (m.c == b'[') verdict_of
                                (λ _.
                                  push_scope-Simulates input n k inv ready _ _ (array_begin input)
                                    (array_begin-Simulates input n))
                                λ _. refuses (
                                  no_value (tokens input m.si) k (states fs) (m.c == b'}')
                                    (m.c == b']') (m.c == b',') (m.c == b':'))

  -- A key has been read: the colon, and the value.
  object_key-Simulates :
      {m : Machine} {fs : List Frame}
      → Inv input n m fs
      → Simulates input n
          (length m.si)
          (object_key_step input m)
          (accepts (tokens input m.si) key_colon (states fs))
  unfolding object_key_step delta
  object_key-Simulates {m} {fs} inv =
      update_char-Simulates input n inv _ _ _ (verdict_end input m.si _ _ refl)
        λ p r c e g inv₁ ready₁. change input n (verdict input m.si p r c _ _ e g) (
          Simulates-if (not (c == b':'))
            (λ t.
              turned_down input n (tokens input r) (
                refuses_colon (classify input p c) (states fs)
                  (not_colon input p c (ground arith))))
            λ t.
              at_token input n (tokens input r) key_colon (states fs)
                (class_colon input p c (ground arith))
                (update_char-Simulates input n inv₁ _ _ _ (verdict_end input r _ _ refl)
                  λ p' r' c' e' g' inv₂ ready₂.
                    change input n (verdict input r p' r' c' (value object) _ e' g') (
                      weaken (omega (arith, ap length e, ap length e')) (
                        scan_value-Simulates object (object_continue input) inv₂ ready₂
                          (object_continue-Simulates input n inv₂)))))

  -- The end of the root value, or of the input.
  pub finish-Simulates :
      (m : Machine) (t : ErrorType) (s : List ℕ) (limit : ℕ) (ks : List StackState)
      → Simulates input n limit (finish input m t s) (accepts (tokens input s) (after start) ks)
  unfolding finish accepts delta
  finish-Simulates m t [] limit ks = returns refl
  finish-Simulates m t (p ∷ r) limit ks = refuses refl

  resume-Simulates :
      {m : Machine} {fs : List Frame} (s : StackState)
      → Inv input n m fs
      → Simulates input n
          (length m.si)
          (resume input s m)
          (accepts (tokens input m.si) (after s) (states fs))
  unfolding resume
  resume-Simulates object inv = object_continue-Simulates input n inv
  resume-Simulates array inv = array_continue-Simulates input n inv
  resume-Simulates {m} {fs} start inv = finish-Simulates m _ m.si _ (states fs)

  pub popped-Inv :
      {m : Machine} {f : Frame} {fs : List Frame}
      → Inv input n m (f ∷ fs)
      → Inv input n
          (record m {
            depth = m.depth - 1;
            counts = set m.counts m.last_start (some m.cnt);
            last_start = f.last_start;
            cnt = f.cnt;
          })
          fs
  popped-Inv {m} {f} {fs} inv = record {
    depth_is = omega (arith, inv.depth_is);
    held = inv.held.2;
    stack_is = inv.stack_is;
    counts_is = length-set m.counts m.last_start (some m.cnt) ∙ inv.counts_is;
    room = omega (arith, inv.room);
    seen = inv.seen;
    open_at = inv.held.1;
    inside = inv.inside;
  }

  scope_end-Simulates :
      {m : Machine} (fs : List Frame)
      → Inv input n m fs
      → Simulates input n
          (length m.si)
          (scope_end_step input m)
          (accepts_from (tokens input m.si) (close (states fs)))
  unfolding scope_end_step pop_scope
  scope_end-Simulates {m} [] inv =
      Simulates-if (m.depth == 0) (λ t. refuses refl) λ t. absurd (ground (arith, inv.depth_is))
  scope_end-Simulates {m} (f ∷ fs) inv =
      Simulates-if (m.depth == 0) (λ t. absurd (ground (arith, inv.depth_is)))
        λ t.
          rw
            (
              lt→ltb m.last_start (length m.counts) (omega (arith, inv.counts_is, inv.open_at)),
              (let e : m.depth - 1 ≡ length fs = omega (arith, inv.depth_is) in
                  ap (get_elem? m.stack) e ∙ inv.held.0),
            )
            (resume-Simulates f.state (popped-Inv inv))

  pub step-Simulates :
      (s : State) {m : Machine} {fs : List Frame}
      → Inv input n m fs
      → ReadyFor input n s m
      → Simulates input n (length m.si) (step input s m) (accepts_at input s m fs)
  unfolding step main_array_step
  step-Simulates object_key inv ready = object_key-Simulates inv
  step-Simulates scope_end {m} {fs} inv ready = scope_end-Simulates fs inv
  step-Simulates main_array_switch inv ready =
      scan_value-Simulates array (array_continue input) inv ready
        (array_continue-Simulates input n inv)
