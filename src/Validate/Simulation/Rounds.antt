-- ===== src/Validate/Simulation/Rounds.antt =====
-- The rounds of `validate` against the automaton, state by state.
use simdjson_rs.Prelude.{
  ℕ, suc, ◌+◌, ◌≡◌, ◌≢◌, refl, ◌∙◌, sym, ap, subst, arith, Bool, true, false, Option, none, some,
  List, [], ◌∷◌, get_elem?, length, ◌==◌,
}
use simdjson_rs.Error.{Error, Outcome, err}
use simdjson_rs.Validate.{
  Input, StackState, object, array, Frame, Machine, Flow, array_continue, object_continue,
  array_begin, object_begin,
}
use simdjson_rs.Validate.Automaton.{
  Token, token, classify, quote, comma, colon, close_array, close_object, delta, is_final, accepts,
  accepts_from, Mode, value, after, first_element, first_key, next_key, key_colon,
}
use simdjson_rs.Validate.Simulation.{tokens, states, Inv, Simulates, Goes-on, refuses, Simulates-if}
use simdjson_rs.Validate.Simulation.Reads.{update_char-Simulates}

module _ (input : Input) (p c : ℕ) where
  class_comma : (c == b',') ≡ true → classify input p c ≡ comma
  unfolding classify
  class_comma h = ground arith

  class_quote : (c == b'"') ≡ true → classify input p c ≡ quote
  unfolding classify
  class_quote h = ground arith

  pub class_colon : (c == b':') ≡ true → classify input p c ≡ colon
  unfolding classify
  class_colon h = ground arith

  pub class_close_array : (c == b']') ≡ true → classify input p c ≡ close_array
  unfolding classify
  class_close_array h = ground arith

  class_close_object : (c == b'}') ≡ true → classify input p c ≡ close_object
  unfolding classify
  class_close_object h = ground arith

  pub not_comma : (c == b',') ≡ false → classify input p c ≢ comma
  unfolding classify
  not_comma h = ground arith

  pub not_quote : (c == b'"') ≡ false → classify input p c ≢ quote
  unfolding classify
  not_quote h = ground arith

  pub not_colon : (c == b':') ≡ false → classify input p c ≢ colon
  unfolding classify
  not_colon h = ground arith

  pub not_close_array : (c == b']') ≡ false → classify input p c ≢ close_array
  unfolding classify
  not_close_array h = ground arith

  pub not_close_object : (c == b'}') ≡ false → classify input p c ≢ close_object
  unfolding classify
  not_close_object h = ground arith

-- What the automaton refuses.
refuses_array :
    (t : Token) (ks : List StackState)
    → t ≢ comma
    → t ≢ close_array
    → delta (after array) ks t ≡ none
unfolding delta
refuses_array t ks h g = ground arith

refuses_object :
    (t : Token) (ks : List StackState)
    → t ≢ comma
    → t ≢ close_object
    → delta (after object) ks t ≡ none
unfolding delta
refuses_object t ks h g = ground arith

refuses_first_key :
    (t : Token) (ks : List StackState) → t ≢ quote → t ≢ close_object → delta first_key ks t ≡ none
unfolding delta
refuses_first_key t ks h g = ground arith

refuses_next_key : (t : Token) (ks : List StackState) → t ≢ quote → delta next_key ks t ≡ none
unfolding delta
refuses_next_key t ks h = ground arith

pub refuses_colon : (t : Token) (ks : List StackState) → t ≢ colon → delta key_colon ks t ≡ none
unfolding delta
refuses_colon t ks h = ground arith

first_is_value :
    (t : Token) (ks : List StackState)
    → t ≢ close_array
    → delta first_element ks t ≡ delta (value array) ks t
unfolding delta
first_is_value t ks h = ground arith

module _ (input : Input) where
  -- The verdict of the automaton behind the next token, and at the end.
  pub verdict :
      (s : List ℕ) (p : ℕ) (r : List ℕ) (c : ℕ) (mode : Mode) (ks : List StackState)
      → s ≡ p ∷ r
      → get_elem? input.bytes p ≡ some c
      → accepts (tokens input s) mode ks
        ≡ accepts_from (tokens input r) (delta mode ks (classify input p c))
  unfolding accepts token
  verdict s p r c mode ks e g = ap (λ s. accepts (tokens input s) mode ks) e ∙ rw g

  pub verdict_end :
      (s : List ℕ) (mode : Mode) (ks : List StackState)
      → is_final mode ≡ false
      → s ≡ []
      → accepts (tokens input s) mode ks ≡ false
  unfolding accepts
  verdict_end s mode ks f e = ap (λ s. accepts (tokens input s) mode ks) e ∙ f

module _ (input : Input) (n : ℕ) where
  pub Inv-cnt :
      {m : Machine} {fs : List Frame} (k : ℕ)
      → Inv input n m fs
      → Inv input n (record m { cnt = k }) fs
  Inv-cnt k inv = record {
    depth_is = inv.depth_is;
    held = inv.held;
    stack_is = inv.stack_is;
    counts_is = inv.counts_is;
    room = inv.room;
    seen = inv.seen;
    open_at = inv.open_at;
    inside = inv.inside;
  }

  pub change :
      {limit : ℕ} {o : Outcome Error Flow} {b b' : Bool}
      → b ≡ b'
      → Simulates input n limit o b'
      → Simulates input n limit o b
  change {limit} {o} e h = subst (λ b. Simulates input n limit o b) (sym e) h

  -- The same for the token that the automaton reads, and for one that it refuses.
  pub at_token :
      {limit : ℕ} {o : Outcome Error Flow} {t t' : Token} (ts : List Token) (mode : Mode)
      (ks : List StackState)
      → t ≡ t'
      → Simulates input n limit o (accepts_from ts (delta mode ks t'))
      → Simulates input n limit o (accepts_from ts (delta mode ks t))
  at_token ts mode ks e = change (ap (λ t. accepts_from ts (delta mode ks t)) e)

  pub turned_down :
      {limit : ℕ} {x : Error} (ts : List Token) {o : Option (Mode × List StackState)}
      → o ≡ none
      → Simulates input n limit (err x) (accepts_from ts o)
  turned_down ts e = refuses (ap (accepts_from ts) e)

  module _ {m : Machine} {fs : List Frame} (inv : Inv input n m fs) where
    pub array_continue-Simulates :
        Simulates input n
          (length m.si)
          (array_continue input m)
          (accepts (tokens input m.si) (after array) (states fs))
    unfolding array_continue delta
    array_continue-Simulates =
        update_char-Simulates input n inv _ _ _ (verdict_end input m.si _ _ refl)
          λ p r c e g inv₁ ready₁.
            let shorter : length m.si ≡ suc (length r) = ap length e in
            change (verdict input m.si p r c _ _ e g) (
              Simulates-if (c == b',')
                (λ t.
                  at_token (tokens input r) (after array) (states fs) (class_comma input p c t) (
                    update_char-Simulates input n (Inv-cnt (m.cnt + 1) inv₁) _ _ _
                      (verdict_end input r _ _ refl)
                      λ p' r' c' e' g' inv₂ ready₂.
                        Goes-on fs inv₂ ready₂
                          (verdict input r p' r' c' (value array) (states fs) e' g')
                          (omega (arith, ap length e'))))
                λ t.
                  Simulates-if (c == b']')
                    (λ u.
                      at_token (tokens input r) (after array) (states fs)
                        (class_close_array input p c u) (Goes-on fs inv₁ tt refl (omega arith)))
                    λ u. turned_down (tokens input r) (
                      refuses_array (classify input p c) (states fs) (not_comma input p c t)
                        (not_close_array input p c u)))

    pub object_continue-Simulates :
        Simulates input n
          (length m.si)
          (object_continue input m)
          (accepts (tokens input m.si) (after object) (states fs))
    unfolding object_continue delta
    object_continue-Simulates =
        update_char-Simulates input n inv _ _ _ (verdict_end input m.si _ _ refl)
          λ p r c e g inv₁ ready₁.
            let shorter : length m.si ≡ suc (length r) = ap length e in
            change (verdict input m.si p r c _ _ e g) (
              Simulates-if (c == b',')
                (λ t.
                  at_token (tokens input r) (after object) (states fs) (class_comma input p c t) (
                    update_char-Simulates input n (Inv-cnt (m.cnt + 1) inv₁) _ _ _
                      (verdict_end input r _ _ refl)
                      λ p' r' c' e' g' inv₂ ready₂. change (verdict input r p' r' c' _ _ e' g') (
                        Simulates-if (c' == b'"')
                          (λ u.
                            at_token (tokens input r') next_key (states fs)
                              (class_quote input p' c' u)
                              (Goes-on fs inv₂ tt refl (omega (arith, ap length e'))))
                          λ u. turned_down (tokens input r') (
                            refuses_next_key (classify input p' c') (states fs)
                              (not_quote input p' c' u)))))
                λ t.
                  Simulates-if (c == b'}')
                    (λ u.
                      at_token (tokens input r) (after object) (states fs)
                        (class_close_object input p c u) (Goes-on fs inv₁ tt refl (omega arith)))
                    λ u. turned_down (tokens input r) (
                      refuses_object (classify input p c) (states fs) (not_comma input p c t)
                        (not_close_object input p c u)))

    pub array_begin-Simulates :
        Simulates input n
          (length m.si)
          (array_begin input m)
          (accepts (tokens input m.si) first_element (states fs))
    unfolding array_begin delta
    array_begin-Simulates =
        update_char-Simulates input n inv _ _ _ (verdict_end input m.si _ _ refl)
          λ p r c e g inv₁ ready₁.
            let shorter : length m.si ≡ suc (length r) = ap length e in
            change (verdict input m.si p r c _ _ e g) (
              Simulates-if (c == b']')
                (λ u.
                  at_token (tokens input r) first_element (states fs)
                    (class_close_array input p c u)
                    (Goes-on fs (Inv-cnt 0 inv₁) tt refl (omega arith)))
                λ u.
                  Goes-on fs inv₁ ready₁
                    (ap (accepts_from (tokens input r)) (
                      first_is_value (classify input p c) (states fs)
                        (not_close_array input p c u)))
                    (omega arith))

    pub object_begin-Simulates :
        Simulates input n
          (length m.si)
          (object_begin input m)
          (accepts (tokens input m.si) first_key (states fs))
    unfolding object_begin delta
    object_begin-Simulates =
        update_char-Simulates input n inv _ _ _ (verdict_end input m.si _ _ refl)
          λ p r c e g inv₁ ready₁.
            let shorter : length m.si ≡ suc (length r) = ap length e in
            change (verdict input m.si p r c _ _ e g) (
              Simulates-if (c == b'"')
                (λ u.
                  at_token (tokens input r) first_key (states fs) (class_quote input p c u)
                    (Goes-on fs inv₁ tt refl (omega arith)))
                λ u.
                  Simulates-if (c == b'}')
                    (λ w.
                      at_token (tokens input r) first_key (states fs)
                        (class_close_object input p c w)
                        (Goes-on fs (Inv-cnt 0 inv₁) tt refl (omega arith)))
                    λ w. turned_down (tokens input r) (
                      refuses_first_key (classify input p c) (states fs) (not_quote input p c u)
                        (not_close_object input p c w)))
