-- ===== src/Validate/Grammar.antt =====
-- The grammar of JSON over tokens, and the automaton of `validate` (src/stage2.rs) as its parser.
use simdjson_rs.Prelude.{◌≡◌, refl, ◌∙◌, List, ◌∷◌}
use simdjson_rs.Validate.{StackState, object, array}
use simdjson_rs.Validate.Automaton.{
  Token, quote, literal, comma, colon, open_array, close_array, open_object, close_object, value,
  after, first_element, first_key, next_key, delta, accepts,
}

abbrev Tokens : Type 0
Tokens = List Token

-- The first tokens are a value, or the items of an array or an object up to its bracket; the
-- second list is what follows.
mutual
  pub data IsValue : List Token → List Token → Type 0 where
    string : {r : List Token} → IsValue (quote ∷ r) r
    scalar : {r : List Token} → IsValue (literal ∷ r) r
    empty_array : {r : List Token} → IsValue (open_array ∷ close_array ∷ r) r
    full_array : {ts r : List Token} → Elements ts r → IsValue (open_array ∷ ts) r
    empty_object : {r : List Token} → IsValue (open_object ∷ close_object ∷ r) r
    full_object : {ts r : List Token} → Members ts r → IsValue (open_object ∷ ts) r

  pub data Elements : List Token → List Token → Type 0 where
    last_element : {ts r : List Token} → IsValue ts (close_array ∷ r) → Elements ts r
    more_elements : {ts us r : List Token} → IsValue ts (comma ∷ us) → Elements us r → Elements ts r

  pub data Members : List Token → List Token → Type 0 where
    last_member :
        {ts r : List Token} → IsValue ts (close_object ∷ r) → Members (quote ∷ colon ∷ ts) r
    more_members :
        {ts us r : List Token}
        → IsValue ts (comma ∷ us)
        → Members us r
        → Members (quote ∷ colon ∷ ts) r

-- A value behind a bracket is read as any element is.
first_element_value :
    {ts r : Tokens} (fs : List StackState)
    → IsValue ts r
    → accepts ts first_element fs ≡ accepts ts (value array) fs
unfolding accepts delta
first_element_value fs string = refl
first_element_value fs scalar = refl
first_element_value fs empty_array = refl
first_element_value fs (full_array h) = refl
first_element_value fs empty_object = refl
first_element_value fs (full_object h) = refl

mutual
  unfolding accepts delta

  pub value_read :
      {ts r : Tokens} (k : StackState) (fs : List StackState)
      → IsValue ts r
      → accepts ts (value k) fs ≡ accepts r (after k) fs
  value_read k fs string = refl
  value_read k fs scalar = refl
  value_read k fs empty_array = refl
  value_read k fs (full_array h) = first_of_array k fs h ∙ array_read k fs h
  value_read k fs empty_object = refl
  value_read k fs (full_object h) = object_read k fs h

  first_of_array :
      {ts r : Tokens} (k : StackState) (fs : List StackState)
      → Elements ts r
      → accepts ts first_element (k ∷ fs) ≡ accepts ts (value array) (k ∷ fs)
  first_of_array k fs (last_element h) = first_element_value (k ∷ fs) h
  first_of_array k fs (more_elements h hs) = first_element_value (k ∷ fs) h

  array_read :
      {ts r : Tokens} (k : StackState) (fs : List StackState)
      → Elements ts r
      → accepts ts (value array) (k ∷ fs) ≡ accepts r (after k) fs
  array_read k fs (last_element h) = value_read array (k ∷ fs) h
  array_read k fs (more_elements h hs) = value_read array (k ∷ fs) h ∙ array_read k fs hs

  object_read :
      {ts r : Tokens} (k : StackState) (fs : List StackState)
      → Members ts r
      → accepts ts first_key (k ∷ fs) ≡ accepts r (after k) fs
  object_read k fs (last_member h) = value_read object (k ∷ fs) h
  object_read k fs (more_members h hs) = value_read object (k ∷ fs) h ∙ next_keys_read k fs hs

  next_keys_read :
      {ts r : Tokens} (k : StackState) (fs : List StackState)
      → Members ts r
      → accepts ts next_key (k ∷ fs) ≡ accepts r (after k) fs
  next_keys_read k fs (last_member h) = value_read object (k ∷ fs) h
  next_keys_read k fs (more_members h hs) = value_read object (k ∷ fs) h ∙ next_keys_read k fs hs
