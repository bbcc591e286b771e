-- ===== src/Validate/Leads.antt =====
-- The rounds of `validate` of src/stage2.rs forwards: what is read when the tokens are known.
use simdjson_rs.Prelude.{
  ℕ, zero, suc, ◌+◌, ◌≡◌, ◌≢◌, refl, sym, ap, subst, ◌∙◌, arith, Bool, true, false, some, List, [],
  ◌∷◌, get_elem?, length, ◌==◌, inl, inr, Bool-cases, get_elem?-some,
}
use simdjson_rs.Error.{Error, Outcome, ok, ◌>>=◌, Returns}
use simdjson_rs.Validate.{
  Input, State, Frame, Machine, Flow, Counts, goto, return, update_char, next_structural, arrive,
  step, follow,
}
use simdjson_rs.Validate.Automaton.{
  Token, token, classify, classified, quote, comma, colon, open_array, close_array, open_object,
  close_object,
}
use simdjson_rs.Validate.Simulation.{Inside, tokens, Inv, Ready}
use simdjson_rs.Validate.Simulation.Rounds.{
  class_close_array, not_comma, not_quote, not_colon, not_close_array, not_close_object,
}

-- The byte of a token.
module _ (input : Input) (p c : ℕ) where
  byte_of :
      {t : Token} (b : Bool)
      → (b ≡ false → classify input p c ≢ t)
      → classify input p c ≡ t
      → b ≡ true
  byte_of true h e = refl
  byte_of false h e = absurd (h refl e)

  pub comma_byte : classify input p c ≡ comma → (c == b',') ≡ true
  comma_byte = byte_of (c == b',') (not_comma input p c)

  pub colon_byte : classify input p c ≡ colon → (c == b':') ≡ true
  colon_byte = byte_of (c == b':') (not_colon input p c)

  pub quote_byte : classify input p c ≡ quote → (c == b'"') ≡ true
  quote_byte = byte_of (c == b'"') (not_quote input p c)

  pub close_array_byte : classify input p c ≡ close_array → (c == b']') ≡ true
  close_array_byte = byte_of (c == b']') (not_close_array input p c)

  pub close_object_byte : classify input p c ≡ close_object → (c == b'}') ≡ true
  close_object_byte = byte_of (c == b'}') (not_close_object input p c)

  not_open_array : (c == b'[') ≡ false → classify input p c ≢ open_array
  unfolding classify
  not_open_array h = ground arith

  not_open_object : (c == b'{') ≡ false → classify input p c ≢ open_object
  unfolding classify
  not_open_object h = ground arith

  pub open_array_byte : classify input p c ≡ open_array → (c == b'[') ≡ true
  open_array_byte = byte_of (c == b'[') not_open_array

  pub open_object_byte : classify input p c ≡ open_object → (c == b'{') ≡ true
  open_object_byte = byte_of (c == b'{') not_open_object

  -- A token that begins a value closes no array.
  pub value_byte : classify input p c ≢ close_array → (c == b']') ≡ false
  value_byte h = elim (Bool-cases (c == b']')) [
    | inl e ↦ absurd (h (class_close_array input p c e))
    | inr n ↦ n
  ]

-- Two tests of a byte are not both passed.
pub only : (c a b : ℕ) → (c == a) ≡ true → (a == b) ≡ false → (c == b) ≡ false
only c a b h k = ground arith

-- A structural character is read of which the token is known.
pub record Read (input : Input) (n : ℕ) (m : Machine) (fs : List Frame) (t : Token)
    (ts : List Token) : Type 0 where
  pub p : ℕ
  pub r : List ℕ
  pub c : ℕ
  pub reads : update_char input m ≡ ok (record m { si = r; i = m.i + 1; idx = p; c = c })
  pub si_is : m.si ≡ p ∷ r
  pub found : get_elem? input.bytes p ≡ some c
  pub token_is : classify input p c ≡ t
  pub rest : tokens input r ≡ ts
  pub left : length m.si ≡ suc (length r)
  pub inv : Inv input n (record m { si = r; i = m.i + 1; idx = p; c = c }) fs
  pub ready : Ready input n (record m { si = r; i = m.i + 1; idx = p; c = c })

module _ (input : Input) (n : ℕ) where
  head_of : {t u : Token} {ts us : List Token} → t ∷ ts ≡ u ∷ us → t ≡ u
  head_of h = cc

  tail_of : {t u : Token} {ts us : List Token} → t ∷ ts ≡ u ∷ us → ts ≡ us
  tail_of h = cc

  module _ {m : Machine} {fs : List Frame} (inv : Inv input n m fs) where
    read_next :
        {t : Token} {ts : List Token} (s : List ℕ)
        → m.si ≡ s
        → tokens input s ≡ t ∷ ts
        → Read input n m fs t ts
    unfolding token update_char next_structural
    read_next [] e h = absurd (the_end h)
      where
        the_end : {t : Token} {ts : List Token} → ([] ≡ t ∷ ts) → ⊥
        the_end h = cc
    read_next (p ∷ r) e h =
        let within : Inside input (p ∷ r) = subst (Inside input) e inv.inside in
        let (c, g) = get_elem?-some input.bytes p within.0 in
        let shorter : length m.si ≡ suc (length r) = ap length e in
        record {
          p = p;
          r = r;
          c = c;
          reads = ap (next_structural input m) e ∙ ap (arrive input m p r) g;
          si_is = e;
          found = g;
          token_is = sym (ap (classified input p) g) ∙ head_of h;
          rest = tail_of h;
          left = shorter;
          inv = record {
            depth_is = inv.depth_is;
            held = inv.held;
            stack_is = inv.stack_is;
            counts_is = inv.counts_is;
            room = omega (arith, inv.room, shorter);
            seen = omega (arith, inv.seen, shorter);
            open_at = inv.open_at;
            inside = within.1;
          };
          ready = record { space = omega (arith, inv.room, shorter); at = within.0 };
        }

    pub read : {t : Token} {ts : List Token} → tokens input m.si ≡ t ∷ ts → Read input n m fs t ts
    read h = read_next m.si refl h

-- The rounds from one outcome to another.
pub data Leads (input : Input) : Outcome Error Flow → Outcome Error Flow → Type 0 where
  here : {o : Outcome Error Flow} → Leads input o o
  round :
      {s : State} {m : Machine} {o : Outcome Error Flow}
      → Leads input (step input s m) o
      → Leads input (ok (goto s m)) o

module _ {input : Input} where
  pub Leads-same : {a b : Outcome Error Flow} → a ≡ b → Leads input a b
  Leads-same {a} e = subst (Leads input a) e here

  pub Leads-round :
      {a : Outcome Error Flow} {s : State} {m : Machine}
      → a ≡ ok (goto s m)
      → Leads input a (step input s m)
  Leads-round {s = s} {m = m} e = subst (λ b. Leads input b (step input s m)) (sym e) (round here)

  pub Leads-trans :
      {a b c : Outcome Error Flow} → Leads input a b → Leads input b c → Leads input a c
  Leads-trans here h = h
  Leads-trans (round g) h = round (Leads-trans g h)

  -- A run that ends has the counts to which its rounds lead.
  pub Leads-follow :
      {o : Outcome Error Flow} {counts : Counts} (fuel : ℕ)
      → Leads input o (ok (return counts))
      → Returns (o >>= follow input fuel)
      → (o >>= follow input fuel) ≡ ok counts
  unfolding follow
  Leads-follow fuel here r = refl
  Leads-follow zero (round h) r = absurd r
  Leads-follow (suc fuel) (round h) r = Leads-follow fuel h r
