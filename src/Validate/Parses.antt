-- ===== src/Validate/Parses.antt =====
-- `validate` of src/stage2.rs accepts JSON: the automaton reads the grammar, and nothing else.
use simdjson_rs.Prelude.{ℕ, ◌≤◌, ◌≡◌, ◌↔◌, refl, ◌∙◌, sym, subst, true, List, [], ◌∷◌, drop, length}
use simdjson_rs.Error.{is_ok}
use simdjson_rs.Validate.{Input, StackState, start, object, array, validate}
use simdjson_rs.Validate.Automaton.{
  Token, token, quote, literal, comma, colon, bad, open_array, close_array, open_object,
  close_object, Mode, value, after, first_element, first_key, next_key, key_colon, delta, accepts,
}
use simdjson_rs.Validate.Simulation.{tokens, Inside}
use simdjson_rs.Validate.Refinement.{rooted, accepts_document, is_ok-validate}
use simdjson_rs.Validate.Grammar.{
  IsValue, Elements, Members, string, scalar, empty_array, full_array, empty_object, full_object,
  last_element, more_elements, last_member, more_members, value_read,
}

abbrev Tokens : Type 0
Tokens = List Token

-- The token lists that may follow a value, by the scopes that are open: the elements or members
-- of the innermost scope end, and so on outwards.
After : StackState → List StackState → Tokens → Type 0
After start fs ts = ts ≡ []
After array [] ts = ⊥
After array (k ∷ fs) ts = (u : Tokens) × ((v : Tokens) → IsValue v ts → Elements v u) × After k fs u
After object [] ts = ⊥
After object (k ∷ fs) ts =
    (u : Tokens) × ((v : Tokens) → IsValue v ts → Members (quote ∷ colon ∷ v) u) × After k fs u

-- What is left to read in each mode.
Left : Mode → List StackState → Tokens → Type 0
unfolding After
Left (value k) fs ts = (u : Tokens) × IsValue ts u × After k fs u
Left (after k) fs ts = After k fs ts
Left first_element [] ts = ⊥
Left first_element (k ∷ fs) ts = (u : Tokens) × IsValue (open_array ∷ ts) u × After k fs u
Left first_key [] ts = ⊥
Left first_key (k ∷ fs) ts = (u : Tokens) × IsValue (open_object ∷ ts) u × After k fs u
Left next_key [] ts = ⊥
Left next_key (k ∷ fs) ts = (u : Tokens) × Members ts u × After k fs u
Left key_colon [] ts = ⊥
Left key_colon (k ∷ fs) ts = (u : Tokens) × Members (quote ∷ ts) u × After k fs u

abbrev OnlyGrammar : Tokens → Type 0
OnlyGrammar ts = (mode : Mode) (fs : List StackState) → accepts ts mode fs ≡ true → Left mode fs ts

value_sound :
    (t : Token) (ts : Tokens) (k : StackState) (fs : List StackState)
    → OnlyGrammar ts
    → accepts (t ∷ ts) (value k) fs ≡ true
    → Left (value k) fs (t ∷ ts)
unfolding Left accepts delta
value_sound quote ts k fs rest h = (ts, string, rest (after k) fs h)
value_sound literal ts k fs rest h = (ts, scalar, rest (after k) fs h)
value_sound open_array ts k fs rest h = rest first_element (k ∷ fs) h
value_sound open_object ts k fs rest h = rest first_key (k ∷ fs) h
value_sound _ ts k fs rest h = cc

-- An element inside of an array that is not closed at once.
element_sound :
    (ts : Tokens) (fs : List StackState) → Left (value array) fs ts → Left first_element fs ts
unfolding Left
element_sound ts [] (u, isv, r) = r
element_sound ts (k ∷ fs) (u, isv, (w, items, r)) = (w, full_array (items _ isv), r)

first_element_sound :
    (t : Token) (ts : Tokens) (fs : List StackState)
    → OnlyGrammar ts
    → accepts (t ∷ ts) first_element fs ≡ true
    → Left first_element fs (t ∷ ts)
unfolding Left accepts delta
first_element_sound close_array ts [] rest h = cc
first_element_sound close_array ts (k ∷ fs) rest h = (ts, empty_array, rest (after k) fs h)
first_element_sound quote ts fs rest h = element_sound _ fs (value_sound quote ts array fs rest h)
first_element_sound literal ts fs rest h =
    element_sound _ fs (value_sound literal ts array fs rest h)
first_element_sound open_array ts fs rest h =
    element_sound _ fs (value_sound open_array ts array fs rest h)
first_element_sound open_object ts fs rest h =
    element_sound _ fs (value_sound open_object ts array fs rest h)
first_element_sound comma ts fs rest h = cc
first_element_sound colon ts fs rest h = cc
first_element_sound bad ts fs rest h = cc
first_element_sound close_object ts fs rest h = cc

-- A key: its members begin with the quote.
key_sound :
    (ts : Tokens) (fs : List StackState) → Left key_colon fs ts → Left next_key fs (quote ∷ ts)
unfolding Left
key_sound ts [] h = h
key_sound ts (k ∷ fs) h = h

first_key_sound :
    (t : Token) (ts : Tokens) (fs : List StackState)
    → OnlyGrammar ts
    → accepts (t ∷ ts) first_key fs ≡ true
    → Left first_key fs (t ∷ ts)
unfolding Left accepts delta
first_key_sound quote ts [] rest h = rest key_colon [] h
first_key_sound quote ts (k ∷ fs) rest h =
    let (u, members, r) = rest key_colon (k ∷ fs) h in (u, full_object members, r)
first_key_sound close_object ts [] rest h = cc
first_key_sound close_object ts (k ∷ fs) rest h = (ts, empty_object, rest (after k) fs h)
first_key_sound _ ts fs rest h = cc

next_key_sound :
    (t : Token) (ts : Tokens) (fs : List StackState)
    → OnlyGrammar ts
    → accepts (t ∷ ts) next_key fs ≡ true
    → Left next_key fs (t ∷ ts)
unfolding Left accepts delta
next_key_sound quote ts fs rest h = key_sound ts fs (rest key_colon fs h)
next_key_sound _ ts fs rest h = cc

key_colon_sound :
    (t : Token) (ts : Tokens) (fs : List StackState)
    → OnlyGrammar ts
    → accepts (t ∷ ts) key_colon fs ≡ true
    → Left key_colon fs (t ∷ ts)
unfolding Left accepts delta
key_colon_sound colon ts [] rest h = let (u, isv, r) = rest (value object) [] h in r
key_colon_sound colon ts (k ∷ fs) rest h =
    let (u, isv, (w, members, r)) = rest (value object) (k ∷ fs) h in (w, members _ isv, r)
key_colon_sound _ ts fs rest h = cc

after_array_sound :
    (t : Token) (ts : Tokens) (fs : List StackState)
    → OnlyGrammar ts
    → accepts (t ∷ ts) (after array) fs ≡ true
    → Left (after array) fs (t ∷ ts)
unfolding Left accepts delta
after_array_sound close_array ts [] rest h = cc
after_array_sound close_array ts (k ∷ fs) rest h =
    (ts, (λ v isv. last_element isv), rest (after k) fs h)
after_array_sound comma ts [] rest h = let (u, isv, r) = rest (value array) [] h in r
after_array_sound comma ts (k ∷ fs) rest h =
    let (u, isv, (w, items, r)) = rest (value array) (k ∷ fs) h in
    (w, (λ v first. more_elements first (items _ isv)), r)
after_array_sound _ ts fs rest h = cc

after_object_sound :
    (t : Token) (ts : Tokens) (fs : List StackState)
    → OnlyGrammar ts
    → accepts (t ∷ ts) (after object) fs ≡ true
    → Left (after object) fs (t ∷ ts)
unfolding Left accepts delta
after_object_sound close_object ts [] rest h = cc
after_object_sound close_object ts (k ∷ fs) rest h =
    (ts, (λ v isv. last_member isv), rest (after k) fs h)
after_object_sound comma ts [] rest h = rest next_key [] h
after_object_sound comma ts (k ∷ fs) rest h =
    let (u, members, r) = rest next_key (k ∷ fs) h in
    (u, (λ v first. more_members first members), r)
after_object_sound _ ts fs rest h = cc

token_sound : (t : Token) (ts : Tokens) → OnlyGrammar ts → OnlyGrammar (t ∷ ts)
unfolding accepts delta
token_sound t ts rest (value k) fs h = value_sound t ts k fs rest h
token_sound t ts rest (after start) fs h = cc
token_sound t ts rest (after array) fs h = after_array_sound t ts fs rest h
token_sound t ts rest (after object) fs h = after_object_sound t ts fs rest h
token_sound t ts rest first_element fs h = first_element_sound t ts fs rest h
token_sound t ts rest first_key fs h = first_key_sound t ts fs rest h
token_sound t ts rest next_key fs h = next_key_sound t ts fs rest h
token_sound t ts rest key_colon fs h = key_colon_sound t ts fs rest h

end_sound : OnlyGrammar []
unfolding Left accepts
end_sound (after start) fs h = refl
end_sound (after array) fs h = cc
end_sound (after object) fs h = cc
end_sound (value k) fs h = cc
end_sound _ fs h = cc

accepts_sound : (ts : Tokens) → OnlyGrammar ts
accepts_sound [] = end_sound
accepts_sound (t ∷ ts) = token_sound t ts (accepts_sound ts)

-- The tokens at structural indexes are one value and nothing else; the first is looked up in the
-- padded copy.
abbrev pub IsDocument : Input → List ℕ → Type 0
IsDocument input [] = ⊥
IsDocument input (p ∷ r) = IsValue (token (rooted input) p ∷ tokens input r) []

whole : {ts : Tokens} → Left (value start) [] ts → IsValue ts []
unfolding Left After
whole {ts} (u, isv, e) = subst (IsValue ts) e isv

accepts_document_iff :
    (input : Input) (s : List ℕ) → (accepts_document input s ≡ true) ↔ IsDocument input s
unfolding accepts_document accepts delta Left After
accepts_document_iff input [] = (λ h. cc, λ d. absurd d)
accepts_document_iff input (p ∷ r) = (
  λ h. whole (accepts_sound (token (rooted input) p ∷ tokens input r) (value start) [] h),
  λ d. value_read start [] d,
)

-- With structural indexes inside of the input and eight readable bytes behind it, `validate`
-- returns counts exactly if the tokens at the structural indexes behind the first are one JSON
-- value and nothing else; a number is judged by its first byte here.
pub validate_iff :
    (input : Input) (structural_indexes : List ℕ)
    → 8 ≤ length input.behind
    → Inside input (drop 1 structural_indexes)
    → (is_ok (validate input structural_indexes) ≡ true)
      ↔ IsDocument input (drop 1 structural_indexes)
validate_iff input s behind inside =
    let same = is_ok-validate input s behind inside in
    (
      (λ h. (accepts_document_iff input (drop 1 s)).0 (sym same ∙ h)),
      (λ d. same ∙ (accepts_document_iff input (drop 1 s)).1 d),
    )
