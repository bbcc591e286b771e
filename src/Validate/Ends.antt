-- ===== src/Validate/Ends.antt =====
-- `validate` of src/stage2.rs: what is known when a part of the tokens has been read.
use simdjson_rs.Prelude.{
  ℕ, zero, suc, ◌+◌, ◌-◌, ◌<◌, ◌≤◌, ◌≡◌, refl, sym, ap, subst, ◌∙◌, arith, false, Option, some,
  List, [], ◌∷◌, get_elem?, set, length, ◌==◌, ◌⊎◌, inl, inr, lt→ltb, get_elem?-set_self,
}
use simdjson_rs.Error.{Error, Outcome, ok}
use simdjson_rs.Validate.{
  Input, scope_end, StackState, Frame, Machine, Flow, Counts, goto, saved, scope_end_step,
  pop_scope, resume, step,
}
use simdjson_rs.Validate.Automaton.{Token}
use simdjson_rs.Validate.Simulation.{tokens, Inv}
use simdjson_rs.Validate.Simulation.Steps.{popped-Inv}
use simdjson_rs.Validate.Counted.{HoldsCount, SameFrom}
use simdjson_rs.Validate.Leads.{Leads, here, round, Leads-trans}

-- From the outcome `o`, `width` tokens from that at `m` on are read, with the same scopes open, and
-- `r` is what follows them. Nothing is written to the counts of other tokens.
pub record Ends (input : Input) (n : ℕ) (o : Outcome Error Flow) (m : Machine) (fs : List Frame)
    (r : List Token) (width c : ℕ) (P : Counts → Type 0) (next : Machine → Outcome Error Flow)
    : Type 0 where
  pub last : Machine
  pub leads : Leads input o (next last)
  pub inv : Inv input n last fs
  pub rest : tokens input last.si ≡ r
  pub at : suc last.i ≡ m.i + width
  pub opened : last.last_start ≡ m.last_start
  pub cnt_is : last.cnt ≡ c
  pub counted : P last.counts
  pub kept :
      (j : ℕ) → (j < m.i) ⊎ (m.i + width ≤ j) → get_elem? last.counts j ≡ get_elem? m.counts j

get_elem?-set_other :
    (cs : Counts) (i j : ℕ) (v : Option ℕ)
    → (j < i) ⊎ (i < j)
    → get_elem? (set cs i v) j ≡ get_elem? cs j
get_elem?-set_other [] i j v h = refl
get_elem?-set_other (c ∷ cs) zero zero v (inl h) = absurd (omega arith)
get_elem?-set_other (c ∷ cs) zero zero v (inr h) = absurd (omega arith)
get_elem?-set_other (c ∷ cs) zero (suc j) v h = refl
get_elem?-set_other (c ∷ cs) (suc i) zero v h = refl
get_elem?-set_other (c ∷ cs) (suc i) (suc j) v (inl h) =
    get_elem?-set_other cs i j v (inl (omega arith))
get_elem?-set_other (c ∷ cs) (suc i) (suc j) v (inr h) =
    get_elem?-set_other cs i j v (inr (omega arith))

module _ {input : Input} {n : ℕ} where
  pub Ends-from :
      {o o' : Outcome Error Flow} {m : Machine} {fs : List Frame} {r : List Token} {w c : ℕ}
      {P : Counts → Type 0} {next : Machine → Outcome Error Flow}
      → Leads input o' o
      → Ends input n o m fs r w c P next
      → Ends input n o' m fs r w c P next
  Ends-from lead e = record {
    last = e.last;
    leads = Leads-trans lead e.leads;
    inv = e.inv;
    rest = e.rest;
    at = e.at;
    opened = e.opened;
    cnt_is = e.cnt_is;
    counted = e.counted;
    kept = e.kept;
  }

  pub Ends-map :
      {o : Outcome Error Flow} {m : Machine} {fs : List Frame} {r : List Token} {w w' c c' : ℕ}
      {P Q : Counts → Type 0} {next : Machine → Outcome Error Flow}
      → w ≡ w'
      → c ≡ c'
      → ((cs : Counts) → P cs → Q cs)
      → Ends input n o m fs r w c P next
      → Ends input n o m fs r w' c' Q next
  Ends-map {m = m} hw hc f e = record {
    last = e.last;
    leads = e.leads;
    inv = e.inv;
    rest = e.rest;
    at = e.at ∙ ap (λ w. m.i + w) hw;
    opened = e.opened;
    cnt_is = e.cnt_is ∙ hc;
    counted = f e.last.counts e.counted;
    kept = λ j h. e.kept j (subst (λ w. (j < m.i) ⊎ (m.i + w ≤ j)) (sym hw) h);
  }

  -- Tokens in front of it, `g` of them.
  pub Ends-behind :
      {o o' : Outcome Error Flow} {y : Machine} {fs : List Frame} {r : List Token} {w c : ℕ}
      {P : Counts → Type 0} {next : Machine → Outcome Error Flow} (m : Machine) (g : ℕ)
      → y.i ≡ m.i + g
      → y.counts ≡ m.counts
      → y.last_start ≡ m.last_start
      → Leads input o' o
      → Ends input n o y fs r w c P next
      → Ends input n o' m fs r (g + w) c P next
  Ends-behind {y = y} {w = w} m g hi hc hl lead e = record {
    last = e.last;
    leads = Leads-trans lead e.leads;
    inv = e.inv;
    rest = e.rest;
    at = omega (arith, e.at);
    opened = e.opened ∙ hl;
    cnt_is = e.cnt_is;
    counted = e.counted;
    kept = λ j h. e.kept j (before j h) ∙ ap (λ cs. get_elem? cs j) hc;
  }
    where
      before : (j : ℕ) → (j < m.i) ⊎ (m.i + (g + w) ≤ j) → (j < y.i) ⊎ (y.i + w ≤ j)
      before j (inl a) = inl (omega arith)
      before j (inr b) = inr (omega arith)

  -- A token behind it.
  pub Ends-before :
      {o : Outcome Error Flow} {m : Machine} {fs : List Frame} {r r' : List Token} {w c : ℕ}
      {P : Counts → Type 0} {next next' : Machine → Outcome Error Flow} (c' : ℕ)
      (e : Ends input n o m fs r w c P next) (x : Machine)
      → x.i ≡ suc e.last.i
      → x.counts ≡ e.last.counts
      → x.last_start ≡ e.last.last_start
      → x.cnt ≡ c'
      → Inv input n x fs
      → tokens input x.si ≡ r'
      → Leads input (next e.last) (next' x)
      → Ends input n o m fs r' (w + 1) c' P next'
  Ends-before {m = m} {w = w} {P = P} c' e x hi hc hl hn inv h lead = record {
    last = x;
    leads = Leads-trans e.leads lead;
    inv = inv;
    rest = h;
    at = omega (arith, e.at);
    opened = hl ∙ e.opened;
    cnt_is = hn;
    counted = subst P (sym hc) e.counted;
    kept = λ j b. ap (λ cs. get_elem? cs j) hc ∙ e.kept j (before j b);
  }
    where
      before : (j : ℕ) → (j < m.i) ⊎ (m.i + (w + 1) ≤ j) → (j < m.i) ⊎ (m.i + w ≤ j)
      before j (inl a) = inl a
      before j (inr b) = inr (omega arith)

  -- Two parts with a token between them.
  pub Ends-then :
      {o o' : Outcome Error Flow} {m : Machine} {fs : List Frame} {r r' : List Token}
      {w w' c c' : ℕ} {P P' : Counts → Type 0} {next next' : Machine → Outcome Error Flow}
      (Q : Counts → Type 0) (e : Ends input n o m fs r w c P next) (y : Machine)
      → y.i ≡ suc (suc e.last.i)
      → y.counts ≡ e.last.counts
      → y.last_start ≡ e.last.last_start
      → Leads input (next e.last) o'
      → (e' : Ends input n o' y fs r' w' c' P' next')
      → (((j : ℕ) → j < m.i + w → get_elem? e'.last.counts j ≡ get_elem? e.last.counts j)
          → P' e'.last.counts
          → Q e'.last.counts)
      → Ends input n o m fs r' (w + suc w') c' Q next'
  Ends-then {m = m} {w = w} {w' = w'} Q e y hi hc hl lead e' both = record {
    last = e'.last;
    leads = Leads-trans e.leads (Leads-trans lead e'.leads);
    inv = e'.inv;
    rest = e'.rest;
    at = omega (arith, e.at, e'.at);
    opened = e'.opened ∙ (hl ∙ e.opened);
    cnt_is = e'.cnt_is;
    counted =
        both (λ j b. e'.kept j (inl (omega (arith, e.at))) ∙ ap (λ cs. get_elem? cs j) hc)
          e'.counted;
    kept = λ j h. e'.kept j (behind j h) ∙ (ap (λ cs. get_elem? cs j) hc ∙ e.kept j (before j h));
  }
    where
      before : (j : ℕ) → (j < m.i) ⊎ (m.i + (w + suc w') ≤ j) → (j < m.i) ⊎ (m.i + w ≤ j)
      before j (inl a) = inl a
      before j (inr b) = inr (omega arith)

      behind : (j : ℕ) → (j < m.i) ⊎ (m.i + (w + suc w') ≤ j) → (j < y.i) ⊎ (y.i + w' ≤ j)
      behind j (inl a) = inl (omega (arith, e.at))
      behind j (inr b) = inr (omega (arith, e.at))

  scope_closes :
      (m x : Machine) (fs : List Frame) (k : StackState)
      → Inv input n x (saved k m ∷ fs)
      → Leads input (scope_end_step input x) (
          resume input k (record x {
            depth = x.depth - 1;
            counts = set x.counts x.last_start (some x.cnt);
            last_start = m.last_start;
            cnt = m.cnt;
          }))
  unfolding scope_end_step pop_scope
  scope_closes m x fs k inv =
      let deep : (x.depth == 0) ≡ false = ground (arith, inv.depth_is) in
      let below : x.depth - 1 ≡ length fs = omega (arith, inv.depth_is) in
      rw
        (
          deep,
          lt→ltb x.last_start (length x.counts) (omega (arith, inv.counts_is, inv.open_at)),
          ap (get_elem? x.stack) below ∙ inv.held.0,
        )
        here

  -- The end of a scope: the count is written, and the frame below is that in front of the scope.
  pub Ends-scope :
      {o : Outcome Error Flow} {m y : Machine} {fs : List Frame} {r : List Token} {w c : ℕ}
      {P : Counts → Type 0} (behind : 8 ≤ length input.behind) (k : StackState)
      → y.i ≡ m.i + 1
      → y.counts ≡ m.counts
      → y.last_start ≡ m.i
      → ((cs cs' : Counts) → SameFrom y.i w cs cs' → P cs → P cs')
      → Ends input n o y (saved k m ∷ fs) r w c P (λ x. ok (goto scope_end x))
      → Ends input n o m fs r (suc w) m.cnt (λ cs. HoldsCount cs m.i c × P cs) (resume input k)
  unfolding step scope_end_step pop_scope
  Ends-scope {m = m} {y = y} {fs = fs} {w = w} {c = c} {P = P} behind k hi hc hl stable e =
      let x = e.last in
      let opened : x.last_start ≡ m.i = e.opened ∙ hl in
      let written : Counts = set x.counts x.last_start (some x.cnt) in
      let elsewhere : (j : ℕ) → (j < m.i) ⊎ (m.i < j) → get_elem? written j ≡ get_elem? x.counts j =
        λ j h.
          get_elem?-set_other x.counts x.last_start j (some x.cnt)
            (subst (λ p. (j < p) ⊎ (p < j)) (sym opened) h) in
      record {
        last = record x {
          depth = x.depth - 1;
          counts = written;
          last_start = m.last_start;
          cnt = m.cnt;
        };
        leads = Leads-trans e.leads (round (scope_closes m x fs k e.inv));
        inv = popped-Inv input n behind e.inv;
        rest = e.rest;
        at = omega (arith, e.at);
        opened = refl;
        cnt_is = refl;
        counted = (
          subst (λ p. get_elem? written p ≡ some (some c)) opened
              (get_elem?-set_self x.counts x.last_start (some x.cnt)
                  (omega (arith, e.inv.open_at, e.inv.counts_is))
                ∙ ap (λ c. some (some c)) e.cnt_is),
          stable x.counts written (λ j a b. elsewhere j (inr (omega arith))) e.counted,
        );
        kept = λ j h.
            elsewhere j (outside j h) ∙ (e.kept j (inside j h) ∙ ap (λ cs. get_elem? cs j) hc);
      }
    where
      outside : (j : ℕ) → (j < m.i) ⊎ (m.i + suc w ≤ j) → (j < m.i) ⊎ (m.i < j)
      outside j (inl a) = inl a
      outside j (inr b) = inr (omega arith)

      inside : (j : ℕ) → (j < m.i) ⊎ (m.i + suc w ≤ j) → (j < y.i) ⊎ (y.i + w ≤ j)
      inside j (inl a) = inl (omega (arith, hi))
      inside j (inr b) = inr (omega (arith, hi))
