-- ===== src/Validate/Refinement.antt =====
-- `validate` of src/stage2.rs as a whole: it always returns, and accepts what the automaton accepts.
use simdjson_rs.Prelude.{
  ℕ, zero, suc, ◌+◌, ◌≤◌, ◌<◌, ◌≡◌, refl, ◌∙◌, sym, ap, subst, arith, Bool, true, false, none, some,
  List, [], ◌∷◌, get_elem?, drop, replicate, length, length-replicate, ◌==◌,
}
use simdjson_rs.Error.{Error, Outcome, ok, err, ◌>>=◌, Returns, is_ok, trailing_characters}
use simdjson_rs.Validate.{
  Input, State, start, Frame, Machine, Flow, Counts, goto, object_begin, array_begin, update_char,
  follow, is_integer_start, start_step, simdjson_padding, initial, validate,
}
use simdjson_rs.Validate.Automaton.{
  Token, token, classify, open_array, open_object, delta, accepts_from, value, read_value,
}
use simdjson_rs.Validate.Simulation.{
  Inside, tokens, Inv, ReadyFor, accepts_at, Simulates, returns, Goes-on, refuses, Simulates-if,
  Simulates-if_both,
}
use simdjson_rs.Validate.Simulation.Reads.{
  update_char-Simulates, check_atom-Simulates, push_scope-Simulates, answers_at,
}
use simdjson_rs.Validate.Simulation.Rounds.{
  change, at_token, array_begin-Simulates, object_begin-Simulates,
}
use simdjson_rs.Validate.Simulation.Steps.{no_value, weaken, finish-Simulates, step-Simulates}

-- The outcome of a run against a verdict: no fault, and enough fuel.
pub data Agrees : Outcome Error Counts → Bool → Type 0 where
  accepted : {counts : Counts} {b : Bool} → b ≡ true → Agrees (ok counts) b
  rejected : {e : Error} {b : Bool} → b ≡ false → Agrees (err e) b

-- The root value is tested in a copy of the input that is padded with zeros.
abbrev pub rooted : Input → Input
rooted input = record { bytes = input.bytes; behind = replicate simdjson_padding 0 }

-- The verdict of the automaton on all structural indexes but the first, which is an extra root.
unfoldable pub accepts_document : Input → List ℕ → Bool
accepts_document input [] = false
accepts_document input (p ∷ r) =
    accepts_from (tokens input r) (read_value start [] (token (rooted input) p))

module _ (input : Input) (p c : ℕ) where
  class_open_object : (c == b'{') ≡ true → classify input p c ≡ open_object
  unfolding classify
  class_open_object h = ground arith

  class_open_array : (c == b'[') ≡ true → classify input p c ≡ open_array
  unfolding classify
  class_open_array h = ground arith

-- The verdict on the document behind its first token.
document_verdict :
    (input : Input) (s : List ℕ) (p : ℕ) (r : List ℕ) (c : ℕ)
    → s ≡ p ∷ r
    → get_elem? input.bytes p ≡ some c
    → accepts_document input s
      ≡ accepts_from (tokens input r) (delta (value start) [] (classify (rooted input) p c))
unfolding accepts_document token delta
document_verdict input s p r c e g = ap (accepts_document input) e ∙ rw g

module _ (input : Input) (n : ℕ) (behind : 8 ≤ length input.behind) where
  abbrev FollowAgrees : ℕ → Type 0
  FollowAgrees fuel =
      (s : State) (m : Machine) (fs : List Frame)
      → Inv input n m fs
      → ReadyFor input n s m
      → length m.si < fuel
      → Agrees (follow input fuel (goto s m)) (accepts_at input s m fs)

  -- What follows a round that agrees with the automaton.
  rounds_Agrees :
      {limit : ℕ} {o : Outcome Error Flow} {b : Bool} (fuel : ℕ)
      → limit ≤ fuel
      → FollowAgrees fuel
      → Simulates input n limit o b
      → Agrees (o >>= follow input fuel) b
  unfolding follow
  rounds_Agrees fuel h rest (returns e) = accepted e
  rounds_Agrees fuel h rest (Goes-on {s} {m} fs inv ready e lt) =
      subst (λ b. Agrees (follow input fuel (goto s m)) b) (sym e)
        (rest s m fs inv ready (omega arith))
  rounds_Agrees fuel h rest (refuses e) = rejected e

  -- The fuel is enough if it exceeds the indexes that are left: each round reads one at least.
  follow_Agrees : (fuel : ℕ) → FollowAgrees fuel
  unfolding follow
  follow_Agrees zero s m fs inv ready h = absurd (omega arith)
  follow_Agrees (suc fuel) s m fs inv ready h =
      rounds_Agrees fuel (omega arith) (follow_Agrees fuel)
        (step-Simulates input n behind s inv ready)

  -- The first structural character.
  start-Simulates :
      {m : Machine}
      → Inv input n m []
      → Simulates input n (length m.si) (start_step input m) (accepts_document input m.si)
  unfolding start_step accepts_document delta classify
  start-Simulates {m} inv =
      update_char-Simulates input n inv _ _ _ (λ e. ap (accepts_document input) e)
        λ p r c e g inv₁ ready₁.
          let verdict_of = λ (t : Token). accepts_from (tokens input r) (read_value start [] t) in
          let m₁ = record m { si = r; i = m.i + 1; idx = p; c = c } in
          let shorter : length r ≤ length m.si = omega (arith, ap length e) in
          let scalar = finish-Simulates input n behind m₁ trailing_characters r (length m.si) [] in
          let (t, f, z) = answers_at (rooted input) n (omega arith) p ready₁.at in
          change input n (document_verdict input m.si p r c e g) (
            Simulates-if (c == b'{')
              (λ a.
                at_token input n (tokens input r) (value start) []
                  (class_open_object (rooted input) p c a)
                  (push_scope-Simulates input n start inv₁ ready₁ _ _ (object_begin input)
                    λ inv₂. weaken input n behind shorter (object_begin-Simulates input n inv₂)))
              λ a.
                Simulates-if (c == b'[')
                  (λ b.
                    at_token input n (tokens input r) (value start) []
                      (class_open_array (rooted input) p c b)
                      (push_scope-Simulates input n start inv₁ ready₁ _ _ (array_begin input)
                        λ inv₂. weaken input n behind shorter (array_begin-Simulates input n inv₂)))
                  λ b.
                    Simulates-if_both (c == b'"') verdict_of (λ _. scalar)
                      λ _.
                        Simulates-if_both (c == b't') verdict_of
                          (λ _. check_atom-Simulates input n m₁ _ _ _ _ verdict_of t refl scalar)
                          λ _.
                            Simulates-if_both (c == b'f') verdict_of
                              (λ _.
                                check_atom-Simulates input n m₁ _ _ _ _ verdict_of f refl scalar)
                              λ _.
                                Simulates-if_both (c == b'n') verdict_of
                                  (λ _.
                                    check_atom-Simulates input n m₁ _ _ _ _ verdict_of z refl
                                      scalar)
                                  λ _.
                                    Simulates-if_both (is_integer_start c) verdict_of (λ _. scalar)
                                      λ _. refuses (
                                        rw (a, b)
                                          (no_value (tokens input r) start [] (c == b'}')
                                            (c == b']') (c == b',') (c == b':'))))

  pub initial-Inv :
      (x y : ℕ) (r : List ℕ)
      → suc (suc (length r)) ≡ n
      → Inside input (y ∷ r)
      → Inv input n (initial input (x ∷ y ∷ r)) []
  unfolding initial
  initial-Inv x y r e inside = record {
    depth_is = refl;
    held = tt;
    stack_is = ap suc (ap suc (length-replicate (length r) none)) ∙ e;
    counts_is = ap suc (ap suc (length-replicate (length r) none)) ∙ e;
    room = omega arith;
    seen = omega arith;
    open_at = omega arith;
    inside = inside;
  }

  run_Agrees :
      (structural_indexes : List ℕ)
      → length structural_indexes ≡ n
      → Inside input (drop 1 structural_indexes)
      → Agrees
          (validate input structural_indexes)
          (accepts_document input (drop 1 structural_indexes))
  unfolding validate start_step update_char accepts_document
  run_Agrees [] e inside = rejected refl
  run_Agrees (x ∷ []) e inside = rejected refl
  run_Agrees (x ∷ y ∷ r) e inside =
      rounds_Agrees (suc (suc (length r))) (omega arith) (follow_Agrees _)
        (start-Simulates (initial-Inv x y r e inside))

-- With structural indexes inside of the input and eight readable bytes behind it, every run of
-- `validate` returns a value or an error: it reads nothing outside of the input and these eight
-- bytes, accesses nothing outside of its stack and of its counts, pops no frame that was not
-- pushed, and the loop ends. Reads of the eight bytes are not excluded.
pub validate-Returns :
    (input : Input) (structural_indexes : List ℕ)
    → 8 ≤ length input.behind
    → Inside input (drop 1 structural_indexes)
    → Returns (validate input structural_indexes)
validate-Returns input structural_indexes behind inside =
    ends (run_Agrees input _ behind structural_indexes refl inside)
  where
    ends : {o : Outcome Error Counts} {b : Bool} → Agrees o b → Returns o
    ends (accepted e) = tt
    ends (rejected e) = tt

-- Under the same conditions `validate` returns counts exactly if the automaton accepts the tokens
-- at the structural indexes behind the first.
pub is_ok-validate :
    (input : Input) (structural_indexes : List ℕ)
    → 8 ≤ length input.behind
    → Inside input (drop 1 structural_indexes)
    → is_ok (validate input structural_indexes) ≡ accepts_document input (drop 1 structural_indexes)
is_ok-validate input structural_indexes behind inside =
    same (run_Agrees input _ behind structural_indexes refl inside)
  where
    same : {o : Outcome Error Counts} {b : Bool} → Agrees o b → is_ok o ≡ b
    same (accepted e) = sym e
    same (rejected e) = sym e
