-- ===== src/Validate/Walks.antt =====
-- `validate` of src/stage2.rs walks over a value of the grammar and writes its counts.
use simdjson_rs.Prelude.{ℕ, suc, ◌+◌, ◌≤◌, ◌≡◌, refl, sym, subst, ◌∙◌, arith, List, ◌∷◌, length}
use simdjson_rs.Validate.{
  Input, object_key, StackState, array, object, Frame, Machine, scan_value, main_array_step, resume,
  step,
}
use simdjson_rs.Validate.Automaton.{Token, classify, quote, colon}
use simdjson_rs.Validate.Grammar.{
  IsValue, Elements, Members, string, scalar, empty_array, full_array, empty_object, full_object,
  last_element, more_elements, last_member, more_members,
}
use simdjson_rs.Validate.Simulation.{Inv, Ready}
use simdjson_rs.Validate.Simulation.Rounds.{Inv-cnt}
use simdjson_rs.Validate.Counted.{
  size, elements_size, members_size, element_commas, member_commas, Counted, CountedElements,
  CountedMembers, Counted-kept,
}
use simdjson_rs.Validate.Leads.{Leads-same, Leads-round, read}
use simdjson_rs.Validate.Scans.{Scanned, scan_value-Scans}
use simdjson_rs.Validate.Ends.{Ends, Ends-from, Ends-map, Ends-behind, Ends-before, Ends-then}
use simdjson_rs.Validate.Reads.{
  arrived, array_closes, object_closes, array_goes_on, object_goes_on, key_goes_on,
}
use simdjson_rs.Validate.Scopes.{
  IsValue-head, Elements-head, Members-head, Stands, WalkElements, WalkMembers, walk_full_array,
  walk_full_object, walk_empty_array, walk_empty_object, stays,
}

module _ (input : Input) (n : ℕ) (behind : 8 ≤ length input.behind) where
  head_of : {t u : Token} {ts us : List Token} → t ∷ ts ≡ u ∷ us → t ≡ u
  head_of h = cc

  tail_of : {t u : Token} {ts us : List Token} → t ∷ ts ≡ u ∷ us → ts ≡ us
  tail_of h = cc

  Scanned-as_token :
      (k : StackState) (m : Machine) {t : Token}
      → classify input m.idx m.c ≡ t
      → Scanned input k (resume input k) m (scan_value input k (resume input k) m) t
  Scanned-as_token k m e =
      subst (Scanned input k (resume input k) m (scan_value input k (resume input k) m)) e
        (scan_value-Scans input k (resume input k) m).scanned

  -- A key, the colon and the value.
  walk_key :
      {ts r : List Token} (v : IsValue ts r)
      → ((m : Machine) (fs : List Frame)
          → Inv input n m fs
          → Ready input n m
          → Stands input n behind m ts
          → Ends input n
              (scan_value input object (resume input object) m)
              m
              fs
              r
              (size v)
              m.cnt
              (Counted v m.i)
              (resume input object))
      → (m : Machine) (fs : List Frame) → Inv input n m fs
      → Stands input n behind m (quote ∷ colon ∷ ts)
      → Ends input n
          (step input object_key m)
          m
          fs
          r
          (2 + size v)
          m.cnt
          (Counted v (2 + m.i))
          (resume input object)
  unfolding resume
  walk_key v walk m fs inv h =
      let (t, us, e, _) = IsValue-head v in
      let of_colon = read input n inv (tail_of h) in
      let of_value = read input n of_colon.inv (of_colon.rest ∙ e) in
      let y = arrived input n of_value in
      Ends-behind m 2 (omega arith) refl refl (Leads-same (key_goes_on input n of_colon of_value)) (
        Ends-map refl refl (λ cs p. subst (λ i. Counted v i cs) (omega arith) p)
          (walk y fs of_value.inv of_value.ready (rw (of_value.token_is, of_value.rest) (sym e))))

  mutual
    unfolding size Counted elements_size CountedElements element_commas members_size CountedMembers
        member_commas step main_array_step resume

    walk_value :
        (k : StackState) {ts r : List Token} (v : IsValue ts r) (m : Machine) (fs : List Frame)
        → Inv input n m fs
        → Ready input n m
        → Stands input n behind m ts
        → Ends input n
            (scan_value input k (resume input k) m)
            m
            fs
            r
            (size v)
            m.cnt
            (Counted v m.i)
            (resume input k)
    walk_value k (string {r}) m fs inv ready h =
        subst
          (λ r.
            Ends input n (scan_value input k (resume input k) m) m fs r 1 m.cnt (λ _. Unit)
              (resume input k))
          (tail_of h)
          (stays input n behind k inv ready (Leads-same (Scanned-as_token k m (head_of h))) tt)
    walk_value k (scalar {r}) m fs inv ready h =
        subst
          (λ r.
            Ends input n (scan_value input k (resume input k) m) m fs r 1 m.cnt (λ _. Unit)
              (resume input k))
          (tail_of h)
          (stays input n behind k inv ready (Leads-same (Scanned-as_token k m (head_of h))) tt)
    walk_value k empty_array m fs inv ready h =
        Ends-from (Leads-same (Scanned-as_token k m (head_of h)))
          (walk_empty_array input n behind k inv ready (tail_of h))
    walk_value k (full_array es) m fs inv ready h =
        Ends-from (Leads-same (Scanned-as_token k m (head_of h)))
          (walk_full_array input n behind k inv ready es (walk_elements es) (tail_of h))
    walk_value k empty_object m fs inv ready h =
        Ends-from (Leads-same (Scanned-as_token k m (head_of h)))
          (walk_empty_object input n behind k inv ready (tail_of h))
    walk_value k (full_object ms) m fs inv ready h =
        Ends-from (Leads-same (Scanned-as_token k m (head_of h)))
          (walk_full_object input n behind k inv ready ms (walk_members ms) (tail_of h))

    pub walk_elements : {ts r : List Token} (es : Elements ts r) → WalkElements input n behind es
    walk_elements (last_element v) m fs inv ready h =
        let e = walk_value array v m fs inv ready h in
        let next = read input n e.inv e.rest in
        Ends-before (m.cnt + 0) e (arrived input n next) (omega arith) refl refl
          (e.cnt_is ∙ omega arith) next.inv next.rest (Leads-same (array_closes input n next))
    walk_elements (more_elements v es) m fs inv ready h =
        let e = walk_value array v m fs inv ready h in
        let of_comma = read input n e.inv e.rest in
        let (t, us, first, _) = Elements-head es in
        let next =
          read input n (Inv-cnt input n (e.last.cnt + 1) of_comma.inv) (of_comma.rest ∙ first) in
        let y = arrived input n next in
        let e' =
          walk_elements es y fs next.inv next.ready (rw (next.token_is, next.rest) (sym first)) in
        let place : y.i ≡ suc (m.i + size v) = omega (arith, e.at) in
        Ends-map refl (omega (arith, e.cnt_is)) (λ cs p. p)
          (Ends-then (CountedElements (more_elements v es) m.i) e y (omega arith) refl refl
            (Leads-round (array_goes_on input n of_comma next)) e'
            λ same p. (
              Counted-kept v m.i e.last.counts e'.last.counts (λ j a b. same j b) e.counted,
              subst (λ i. CountedElements es i e'.last.counts) place p,
            ))

    pub walk_members : {ts r : List Token} (ms : Members ts r) → WalkMembers input n behind ms
    walk_members (last_member v) m fs inv h =
        let e = walk_key v (walk_value object v) m fs inv h in
        let next = read input n e.inv e.rest in
        Ends-map (omega arith) refl (λ cs p. p)
          (Ends-before (m.cnt + 0) e (arrived input n next) (omega arith) refl refl
            (e.cnt_is ∙ omega arith) next.inv next.rest (Leads-same (object_closes input n next)))
    walk_members (more_members v ms) m fs inv h =
        let e = walk_key v (walk_value object v) m fs inv h in
        let of_comma = read input n e.inv e.rest in
        let (us, first) = Members-head ms in
        let next =
          read input n (Inv-cnt input n (e.last.cnt + 1) of_comma.inv) (of_comma.rest ∙ first) in
        let y = arrived input n next in
        let e' = walk_members ms y fs next.inv (rw (next.token_is, next.rest) (sym first)) in
        let place : y.i ≡ suc (2 + m.i + size v) = omega (arith, e.at) in
        Ends-map (omega arith) (omega (arith, e.cnt_is)) (λ cs p. p)
          (Ends-then (CountedMembers (more_members v ms) m.i) e y (omega arith) refl refl
            (Leads-round (object_goes_on input n of_comma next)) e'
            λ same p. (
              Counted-kept v (2 + m.i) e.last.counts e'.last.counts (λ j a b. same j (omega arith))
                  e.counted,
              subst (λ i. CountedMembers ms i e'.last.counts) place p,
            ))
