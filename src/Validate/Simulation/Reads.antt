-- ===== src/Validate/Simulation/Reads.antt =====
-- The parts of a round of `validate`: reading a structural character, testing an atom, opening a
-- scope.
use simdjson_rs.Prelude.{
  ℕ, zero, suc, ◌+◌, ◌-◌, ◌*◌, ◌≤◌, ◌<◌, ◌≡◌, ◌≢◌, refl, ◌∙◌, ap, subst, arith, Bool, true, false,
  Option, none, some, List, [], ◌∷◌, ◌++◌, get_elem?, set, length, drop, length-append, length-set,
  get_elem?-some, get_elem?-set_self, get_elem?-set_lt, lt→ltb,
}
use simdjson_rs.Error.{Error, ErrorType, Outcome, ◌>>=◌}
use simdjson_rs.Atoms.{load, is_valid_true_atom, is_valid_false_atom, is_valid_null_atom}
use simdjson_rs.Validate.{
  Input, StackState, Frame, Machine, Flow, next_structural, update_char, memory, check_atom,
  push_scope, saved, pushed,
}
use simdjson_rs.Validate.Automaton.{Token, literal, bad, atom}
use simdjson_rs.Validate.Simulation.{Holds, Inside, Inv, Ready, Simulates, refuses}

-- Eight bytes that can be read are loaded.
load-some : (k : ℕ) (s : List ℕ) → k ≤ length s → (v : ℕ) × (load k s ≡ some v)
unfolding load
load-some zero s h = (0, refl)
load-some (suc k) [] h = absurd (omega arith)
load-some (suc k) (b ∷ s) h = let (v, e) = load-some k s (omega arith) in (b + 256 * v, rw e)

-- A test of an atom in readable memory has an answer.
abbrev HasVerdict : Option Bool → Type 0
HasVerdict v = (valid : Bool) × (v ≡ some valid)

not_none : (o : Option Bool) → o ≢ none → HasVerdict o
not_none none h = absurd (h refl)
not_none (some b) h = (b, refl)

module _ (s : List ℕ) {v c d : ℕ} (loaded : load 8 s ≡ some v) (fifth : get_elem? s 4 ≡ some c)
    (sixth : get_elem? s 5 ≡ some d) where
  true_answers : is_valid_true_atom s ≢ none
  unfolding is_valid_true_atom
  true_answers = rw (loaded, fifth) (cc)

  false_answers : is_valid_false_atom s ≢ none
  unfolding is_valid_false_atom
  false_answers = rw (loaded, sixth) (cc)

  null_answers : is_valid_null_atom s ≢ none
  unfolding is_valid_null_atom
  null_answers = rw (loaded, fifth) (cc)

answers :
    (s : List ℕ)
    → 8 ≤ length s
    → HasVerdict (is_valid_true_atom s)
      × HasVerdict (is_valid_false_atom s)
      × HasVerdict (is_valid_null_atom s)
answers s h =
    let (v, e) = load-some 8 s h in
    let (c, g) = get_elem?-some s 4 (omega arith) in
    let (d, k) = get_elem?-some s 5 (omega arith) in
    (
      not_none _ (true_answers s e g k),
      not_none _ (false_answers s e g k),
      not_none _ (null_answers s e g k),
    )

length-drop : (k : ℕ) (s : List ℕ) → length (drop k s) ≡ length s - k
length-drop zero s = omega arith
length-drop (suc k) [] = omega arith
length-drop (suc k) (x ∷ s) = omega (arith, length-drop k s)

module _ (input : Input) (n : ℕ) where
  pub answers_at :
      8 ≤ length input.behind
      → (p : ℕ) → p < length input.bytes
      → HasVerdict (is_valid_true_atom (memory input p))
        × HasVerdict (is_valid_false_atom (memory input p))
        × HasVerdict (is_valid_null_atom (memory input p))
  answers_at behind p h = answers _ (
      omega (
        arith,
        length-drop p (input.bytes ++ input.behind),
        length-append {0} input.bytes input.behind,
      ))

  module _ {m : Machine} {fs : List Frame} (inv : Inv input n m fs) where
    -- Reading a structural character.
    next-Simulates :
        (s : List ℕ) (limit : ℕ) (b : Bool) (k : Machine → Outcome Error Flow)
        → m.si ≡ s
        → (m.si ≡ [] → b ≡ false)
        → ((p : ℕ) (r : List ℕ) (c : ℕ)
            → m.si ≡ p ∷ r
            → get_elem? input.bytes p ≡ some c
            → let m' = record m { si = r; i = m.i + 1; idx = p; c = c } in
              Inv input n m' fs → Ready input n m' → Simulates input n limit (k m') b)
        → Simulates input n limit (next_structural input m s >>= k) b
    unfolding next_structural
    next-Simulates [] limit b k e at_end more = refuses (at_end e)
    next-Simulates (p ∷ r) limit b k e at_end more =
        let at : Inside input (p ∷ r) = subst (Inside input) e inv.inside in
        let (c, g) = get_elem?-some input.bytes p at.0 in
        let shorter : length m.si ≡ suc (length r) = ap length e in
        rw g (
          more p r c e g
            (record {
              depth_is = inv.depth_is;
              held = inv.held;
              stack_is = inv.stack_is;
              counts_is = inv.counts_is;
              room = omega (arith, inv.room, shorter);
              seen = omega (arith, inv.seen, shorter);
              open_at = inv.open_at;
              inside = at.1;
            })
            (record { space = omega (arith, inv.room, shorter); at = at.0 }))

    pub update_char-Simulates :
        (limit : ℕ) (b : Bool) (k : Machine → Outcome Error Flow)
        → (m.si ≡ [] → b ≡ false)
        → ((p : ℕ) (r : List ℕ) (c : ℕ)
            → m.si ≡ p ∷ r
            → get_elem? input.bytes p ≡ some c
            → let m' = record m { si = r; i = m.i + 1; idx = p; c = c } in
              Inv input n m' fs → Ready input n m' → Simulates input n limit (k m') b)
        → Simulates input n limit (update_char input m >>= k) b
    unfolding update_char
    update_char-Simulates limit b k = next-Simulates m.si limit b k refl

  -- The test of an atom.
  pub check_atom-Simulates :
      (m : Machine) (t : ErrorType) (limit : ℕ) (v : Option Bool) (k : Outcome Error Flow)
      (f : Token → Bool)
      → HasVerdict v
      → f bad ≡ false
      → Simulates input n limit k (f literal)
      → Simulates input n limit (check_atom input m t v k) (f (atom v))
  check_atom-Simulates m t limit none k f (valid, e) fails h = absurd (ground (arith, e))
  check_atom-Simulates m t limit (some true) k f _ fails h = h
  check_atom-Simulates m t limit (some false) k f _ fails h = refuses fails

  -- Opening a scope.
  Holds-set :
      (stack : List (Option Frame)) (d : ℕ) (f : Frame) (fs : List Frame)
      → length fs ≤ d
      → Holds n stack fs
      → Holds n (set stack d (some f)) fs
  Holds-set stack d f [] h held = tt
  Holds-set stack d f (g ∷ gs) h held = (
    get_elem?-set_lt stack d (length gs) (some f) (omega arith) ∙ held.0,
    held.1,
    Holds-set stack d f gs (omega arith) held.2,
  )

  module _ {m : Machine} {fs : List Frame} (s : StackState) (inv : Inv input n m fs)
      (ready : Ready input n m) where
    pub pushed-Inv : Inv input n (pushed s m) (saved s m ∷ fs)
    pushed-Inv = record {
      depth_is = omega (arith, inv.depth_is);
      held = (
        subst (λ d. get_elem? (set m.stack m.depth (some (saved s m))) d ≡ some (some (saved s m)))
            inv.depth_is
            (get_elem?-set_self m.stack m.depth (some (saved s m))
              (omega (arith, inv.stack_is, inv.room))),
        inv.open_at,
        Holds-set m.stack m.depth (saved s m) fs (omega (arith, inv.depth_is)) inv.held,
      );
      stack_is = length-set m.stack m.depth (some (saved s m)) ∙ inv.stack_is;
      counts_is = inv.counts_is;
      room = omega (arith, ready.space);
      seen = inv.seen;
      open_at = omega (arith, inv.seen);
      inside = inv.inside;
    }

    pub push_scope-Simulates :
        (limit : ℕ) (b : Bool) (k : Machine → Outcome Error Flow)
        → (Inv input n (pushed s m) (saved s m ∷ fs) → Simulates input n limit (k (pushed s m)) b)
        → Simulates input n limit (push_scope input s m >>= k) b
    unfolding push_scope
    push_scope-Simulates limit b k h =
        rw (lt→ltb m.depth (length m.stack) (omega (arith, inv.stack_is, inv.room))) (h pushed-Inv)
