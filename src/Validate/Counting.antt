-- ===== src/Validate/Counting.antt =====
-- The counts that `validate` of src/stage2.rs returns.
use simdjson_rs.Prelude.{ℕ, ◌≤◌, ◌≡◌, refl, sym, subst, ◌∙◌, true, List, [], ◌∷◌, drop, length}
use simdjson_rs.Error.{Error, Outcome, ok, err, fault, out_of_fuel, ◌>>=◌, is_ok}
use simdjson_rs.Validate.{
  Input, start, Machine, Flow, Counts, return, push_scope, array_begin, object_begin, start_step,
  initial, finish, resume, validate,
}
use simdjson_rs.Validate.Automaton.{Token, token, classify, classified, open_array, open_object}
use simdjson_rs.Validate.Grammar.{
  IsValue, string, scalar, empty_array, full_array, empty_object, full_object,
}
use simdjson_rs.Validate.Simulation.{Inside, tokens}
use simdjson_rs.Validate.Refinement.{rooted, initial-Inv, validate-Returns}
use simdjson_rs.Validate.Parses.{IsDocument, validate_iff}
use simdjson_rs.Validate.Counted.{size, Counted}
use simdjson_rs.Validate.Leads.{
  Leads-same, Leads-trans, Leads-follow, Read, read, open_array_byte, open_object_byte, only,
}
use simdjson_rs.Validate.Ends.{Ends}
use simdjson_rs.Validate.Reads.{arrived}
use simdjson_rs.Validate.Scopes.{
  walk_full_array, walk_full_object, walk_empty_array, walk_empty_object,
}
use simdjson_rs.Validate.Walks.{walk_elements, walk_members}

-- `validate` returns counts, and they are those of the value.
abbrev CountsAre : {ts r : List Token} → Input → List ℕ → IsValue ts r → Type 0
CountsAre input s v = (counts : Counts) × (validate input s ≡ ok counts) × Counted v 1 counts

returned : (o : Outcome Error Counts) → is_ok o ≡ true → (counts : Counts) × (o ≡ ok counts)
returned (ok counts) h = (counts, refl)
returned (err e) h = cc
returned fault h = cc
returned out_of_fuel h = cc

first_of : {p q : ℕ} {r s : List ℕ} → p ∷ r ≡ q ∷ s → p ≡ q
first_of h = cc

rest_of : {p q : ℕ} {r s : List ℕ} → p ∷ r ≡ q ∷ s → r ≡ s
rest_of h = cc

token_of : {t u : Token} {ts us : List Token} → t ∷ ts ≡ u ∷ us → t ≡ u
token_of h = cc

tokens_of : {t u : Token} {ts us : List Token} → t ∷ ts ≡ u ∷ us → ts ≡ us
tokens_of h = cc

module _ (input : Input) (x y : ℕ) (r : List ℕ) (behind : 8 ≤ length input.behind)
    (inside : Inside input (y ∷ r)) where
  abbrev s : List ℕ
  s = x ∷ y ∷ r

  abbrev n : ℕ
  n = length s

  first : Read input n (initial input s) [] (token input y) (tokens input r)
  unfolding initial
  first = read input n (initial-Inv input n behind x y r refl inside) refl

  no_tokens : (si : List ℕ) → tokens input si ≡ [] → si ≡ []
  no_tokens [] h = refl
  no_tokens (p ∷ ps) h = cc

  finishes : (m : Machine) → tokens input m.si ≡ [] → resume input start m ≡ ok (return m.counts)
  unfolding resume finish
  finishes m h = rw (no_tokens m.si h) refl

  ends_at :
      {o : Outcome Error Flow} {w c : ℕ} {ts : List Token} (v : IsValue ts [])
      → start_step input (initial input s) ≡ o
      → Ends input n o (arrived input n first) [] [] w c (Counted v 1) (resume input start)
      → CountsAre input s v
  unfolding validate
  ends_at v e walked =
      let leads =
        Leads-trans (Leads-same e)
          (Leads-trans walked.leads (Leads-same (finishes walked.last walked.rest))) in
      (
        walked.last.counts,
        Leads-follow n leads (validate-Returns input s behind inside),
        walked.counted,
      )

  -- The token of the root is looked up in the padded copy.
  root_token :
      {t : Token} → token (rooted input) y ≡ t → classify (rooted input) first.p first.c ≡ t
  unfolding token initial
  root_token {t} e =
      let there : token (rooted input) first.p ≡ t =
        subst (λ q. token (rooted input) q ≡ t) (first_of first.si_is) e in
      subst (λ o. classified (rooted input) first.p o ≡ t) first.found there

  array_starts :
      token (rooted input) y ≡ open_array
      → start_step input (initial input s)
        ≡ (push_scope input start (arrived input n first) >>= array_begin input)
  unfolding start_step
  array_starts e =
      let byte = open_array_byte (rooted input) first.p first.c (root_token e) in
      rw (first.reads, only first.c b'[' b'{' byte refl, byte) refl

  object_starts :
      token (rooted input) y ≡ open_object
      → start_step input (initial input s)
        ≡ (push_scope input start (arrived input n first) >>= object_begin input)
  unfolding start_step
  object_starts e =
      let byte = open_object_byte (rooted input) first.p first.c (root_token e) in
      rw (first.reads, byte) refl

  document_counts :
      {ts : List Token} (v : IsValue ts [])
      → ts ≡ token (rooted input) y ∷ tokens input r
      → is_ok (validate input s) ≡ true
      → CountsAre input s v
  unfolding Counted size initial
  document_counts string e accepted =
      let (counts, same) = returned (validate input s) accepted in (counts, same, tt)
  document_counts scalar e accepted =
      let (counts, same) = returned (validate input s) accepted in (counts, same, tt)
  document_counts empty_array e accepted =
      ends_at empty_array (array_starts (sym (token_of e))) (
        walk_empty_array input n behind start first.inv first.ready
          (first.rest ∙ sym (tokens_of e)))
  document_counts (full_array es) e accepted =
      ends_at (full_array es) (array_starts (sym (token_of e))) (
        walk_full_array input n behind start first.inv first.ready es
          (walk_elements input n behind es) (first.rest ∙ sym (tokens_of e)))
  document_counts empty_object e accepted =
      ends_at empty_object (object_starts (sym (token_of e))) (
        walk_empty_object input n behind start first.inv first.ready
          (first.rest ∙ sym (tokens_of e)))
  document_counts (full_object ms) e accepted =
      ends_at (full_object ms) (object_starts (sym (token_of e))) (
        walk_full_object input n behind start first.inv first.ready ms
          (walk_members input n behind ms) (first.rest ∙ sym (tokens_of e)))

-- The tokens at the structural indexes are one value: its counts.
abbrev pub CountsOf : (input : Input) (s : List ℕ) → IsDocument input s → Counts → Type 0
CountsOf input [] d counts = ⊥
CountsOf input (p ∷ r) d counts = Counted d 1 counts

-- With structural indexes inside of the input and eight readable bytes behind it, where the tokens
-- at the structural indexes behind the first are one JSON value and nothing else, `validate`
-- returns counts in which the entry at the number of the structural index of each opening bracket
-- is the number of the elements of that array or the members of that object.
pub validate-Counted :
    (input : Input) (structural_indexes : List ℕ)
    → 8 ≤ length input.behind
    → Inside input (drop 1 structural_indexes)
    → (document : IsDocument input (drop 1 structural_indexes))
    → (counts : Counts) × (validate input structural_indexes ≡ ok counts)
      × CountsOf input (drop 1 structural_indexes) document counts
validate-Counted input [] behind inside d = absurd d
validate-Counted input (x ∷ []) behind inside d = absurd d
validate-Counted input (x ∷ y ∷ r) behind inside d =
    document_counts input x y r behind inside d refl
      ((validate_iff input (x ∷ y ∷ r) behind inside).1 d)
