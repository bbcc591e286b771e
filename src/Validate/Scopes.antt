-- ===== src/Validate/Scopes.antt =====
-- `validate` of src/stage2.rs: a scope from its opening to its closing bracket.
use simdjson_rs.Prelude.{
  ℕ, ◌+◌, ◌≤◌, ◌≡◌, ◌≢◌, refl, sym, ap, subst, ◌∙◌, arith, List, ◌∷◌, length, lt→ltb,
}
use simdjson_rs.Error.{Error, Outcome, ok, ◌>>=◌}
use simdjson_rs.Validate.{
  Input, object_key, scope_end, main_array_switch, StackState, Frame, Machine, Flow, Counts, goto,
  array_begin, object_begin, push_scope, saved, pushed, resume, step,
}
use simdjson_rs.Validate.Automaton.{
  Token, classify, quote, literal, colon, open_array, open_object, close_array, close_object,
}
use simdjson_rs.Validate.Grammar.{
  IsValue, Elements, Members, string, scalar, empty_array, full_array, empty_object, full_object,
  last_element, more_elements, last_member, more_members,
}
use simdjson_rs.Validate.Simulation.{tokens, Inv, Ready}
use simdjson_rs.Validate.Simulation.Reads.{pushed-Inv}
use simdjson_rs.Validate.Simulation.Rounds.{Inv-cnt}
use simdjson_rs.Validate.Counted.{
  size, elements_size, members_size, element_commas, member_commas, HoldsCount, Counted,
  CountedElements, CountedMembers, CountedElements-kept, CountedMembers-kept,
}
use simdjson_rs.Validate.Leads.{Leads, Leads-same, Leads-round, Read, read}
use simdjson_rs.Validate.Ends.{Ends, Ends-from, Ends-map, Ends-scope}
use simdjson_rs.Validate.Reads.{
  arrived, array_is_empty, array_begins, object_is_empty, object_begins,
}

-- The first token of elements and of members.
pub IsValue-head :
    {ts r : List Token}
    → IsValue ts r
    → (t : Token) × (us : List Token) × (ts ≡ t ∷ us) × (t ≢ close_array)
IsValue-head (string {r}) = (quote, r, refl, λ e. cc)
IsValue-head (scalar {r}) = (literal, r, refl, λ e. cc)
IsValue-head (empty_array {r}) = (open_array, close_array ∷ r, refl, λ e. cc)
IsValue-head (full_array {ts} es) = (open_array, ts, refl, λ e. cc)
IsValue-head (empty_object {r}) = (open_object, close_object ∷ r, refl, λ e. cc)
IsValue-head (full_object {ts} ms) = (open_object, ts, refl, λ e. cc)

pub Elements-head :
    {ts r : List Token}
    → Elements ts r
    → (t : Token) × (us : List Token) × (ts ≡ t ∷ us) × (t ≢ close_array)
Elements-head (last_element v) = IsValue-head v
Elements-head (more_elements v es) = IsValue-head v

pub Members-head : {ts r : List Token} → Members ts r → (us : List Token) × (ts ≡ quote ∷ us)
Members-head (last_member {ts} v) = (colon ∷ ts, refl)
Members-head (more_members {ts} v ms) = (colon ∷ ts, refl)

module _ (input : Input) (n : ℕ) (behind : 8 ≤ length input.behind) where
  -- The token at the machine, and those behind it.
  abbrev pub Stands : Machine → List Token → Type 0
  Stands m ts = classify input m.idx m.c ∷ tokens input m.si ≡ ts

  abbrev pub WalkElements : {ts r : List Token} → Elements ts r → Type 0
  WalkElements {ts} {r} es =
      (m : Machine) (fs : List Frame)
      → Inv input n m fs
      → Ready input n m
      → Stands m ts
      → Ends input n (step input main_array_switch m) m fs r (elements_size es)
          (m.cnt + element_commas es) (CountedElements es m.i) (λ x. ok (goto scope_end x))

  abbrev pub WalkMembers : {ts r : List Token} → Members ts r → Type 0
  WalkMembers {ts} {r} ms =
      (m : Machine) (fs : List Frame)
      → Inv input n m fs
      → Stands m ts
      → Ends input n (step input object_key m) m fs r (members_size ms) (m.cnt + member_commas ms)
          (CountedMembers ms m.i) (λ x. ok (goto scope_end x))

  module _ (k : StackState) {m : Machine} {fs : List Frame} (inv : Inv input n m fs)
      (ready : Ready input n m) where
    push_scope-pushed : push_scope input k m ≡ ok (pushed k m)
    unfolding push_scope
    push_scope-pushed =
        rw (lt→ltb m.depth (length m.stack) (omega (arith, inv.stack_is, inv.room))) refl

    pushed_scope-Inv : Inv input n (pushed k m) (saved k m ∷ fs)
    pushed_scope-Inv = pushed-Inv input n k inv ready

    -- Nothing has been read yet.
    pub stays :
        {o : Outcome Error Flow} {P : Counts → Type 0}
        → Leads input o (resume input k m)
        → P m.counts
        → Ends input n o m fs (tokens input m.si) 1 m.cnt P (resume input k)
    stays lead h = record {
      last = m;
      leads = lead;
      inv = inv;
      rest = refl;
      at = omega arith;
      opened = refl;
      cnt_is = refl;
      counted = h;
      kept = λ j b. refl;
    }

    pub walk_full_array :
        {ts r : List Token} (es : Elements ts r)
        → WalkElements es
        → tokens input m.si ≡ ts
        → Ends input n
            (push_scope input k m >>= array_begin input)
            m
            fs
            r
            (size (full_array es))
            m.cnt
            (Counted (full_array es) m.i)
            (resume input k)
    unfolding size Counted
    walk_full_array es walk h =
        let (t, us, e, opens) = Elements-head es in
        let next = read input n pushed_scope-Inv (h ∙ e) in
        let y = arrived input n next in
        let begins : (push_scope input k m >>= array_begin input) ≡ ok (goto main_array_switch y) =
          ap (λ o. o >>= array_begin input) push_scope-pushed ∙ array_begins input n next opens in
        let walked =
          Ends-from (Leads-round begins)
            (walk y (saved k m ∷ fs) next.inv next.ready (rw (next.token_is, next.rest) (sym e))) in
        Ends-map refl refl (λ cs p. (p.0, subst (λ i. CountedElements es i cs) (omega arith) p.1))
          (Ends-scope behind k refl refl refl (CountedElements-kept es y.i)
            (Ends-map refl (omega arith) (λ cs p. p) walked))

    pub walk_full_object :
        {ts r : List Token} (ms : Members ts r)
        → WalkMembers ms
        → tokens input m.si ≡ ts
        → Ends input n
            (push_scope input k m >>= object_begin input)
            m
            fs
            r
            (size (full_object ms))
            m.cnt
            (Counted (full_object ms) m.i)
            (resume input k)
    unfolding size Counted
    walk_full_object ms walk h =
        let (us, e) = Members-head ms in
        let next = read input n pushed_scope-Inv (h ∙ e) in
        let y = arrived input n next in
        let begins : (push_scope input k m >>= object_begin input) ≡ ok (goto object_key y) =
          ap (λ o. o >>= object_begin input) push_scope-pushed ∙ object_begins input n next in
        let walked =
          Ends-from (Leads-round begins)
            (walk y (saved k m ∷ fs) next.inv (rw (next.token_is, next.rest) (sym e))) in
        Ends-map refl refl (λ cs p. (p.0, subst (λ i. CountedMembers ms i cs) (omega arith) p.1))
          (Ends-scope behind k refl refl refl (CountedMembers-kept ms y.i)
            (Ends-map refl (omega arith) (λ cs p. p) walked))

    -- A scope of which the closing bracket is the next token.
    walk_empty :
        {o : Outcome Error Flow} {t : Token} {r : List Token}
        (next : Read input n (pushed k m) (saved k m ∷ fs) t r)
        → o ≡ ok (goto scope_end (record (arrived input n next) { cnt = 0 }))
        → Ends input n o m fs r 2 m.cnt (λ cs. HoldsCount cs m.i 0) (resume input k)
    walk_empty next closes =
        let y = record (arrived input n next) { cnt = 0 } in
        Ends-map refl refl (λ cs p. p.0)
          (Ends-scope {y = y} {w = 1} {c = 0} {P = λ _. Unit} behind k refl refl refl
            (λ _ _ _ _. tt)
            (record {
              last = y;
              leads = Leads-same closes;
              inv = Inv-cnt input n 0 next.inv;
              rest = next.rest;
              at = omega arith;
              opened = refl;
              cnt_is = refl;
              counted = tt;
              kept = λ j b. refl;
            }))

    pub walk_empty_array :
        {r : List Token}
        → tokens input m.si ≡ close_array ∷ r
        → Ends input n
            (push_scope input k m >>= array_begin input)
            m
            fs
            r
            2
            m.cnt
            (λ cs. HoldsCount cs m.i 0)
            (resume input k)
    walk_empty_array h =
        let next = read input n pushed_scope-Inv h in
        walk_empty next
          (ap (λ o. o >>= array_begin input) push_scope-pushed ∙ array_is_empty input n next)

    pub walk_empty_object :
        {r : List Token}
        → tokens input m.si ≡ close_object ∷ r
        → Ends input n
            (push_scope input k m >>= object_begin input)
            m
            fs
            r
            2
            m.cnt
            (λ cs. HoldsCount cs m.i 0)
            (resume input k)
    walk_empty_object h =
        let next = read input n pushed_scope-Inv h in
        walk_empty next
          (ap (λ o. o >>= object_begin input) push_scope-pushed ∙ object_is_empty input n next)
