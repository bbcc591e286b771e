-- ===== src/Validate/Counted.antt =====
-- What `validate` of src/stage2.rs is to write to `counts`, by the grammar: for each array and object
-- the number of its elements or members, at the place of its bracket.
use simdjson_rs.Prelude.{ℕ, suc, ◌+◌, ◌≤◌, ◌<◌, some, List, get_elem?, ◌≡◌, ◌∙◌, arith}
use simdjson_rs.Validate.{Counts}
use simdjson_rs.Validate.Automaton.{Token}
use simdjson_rs.Validate.Grammar.{
  IsValue, Elements, Members, string, scalar, empty_array, full_array, empty_object, full_object,
  last_element, more_elements, last_member, more_members,
}

-- The number of tokens; the closing bracket is one of those of the elements or members.
unfoldable mutual
  pub size : {ts r : List Token} → IsValue ts r → ℕ
  size string = 1
  size scalar = 1
  size empty_array = 2
  size (full_array es) = suc (elements_size es)
  size empty_object = 2
  size (full_object ms) = suc (members_size ms)

  pub elements_size : {ts r : List Token} → Elements ts r → ℕ
  elements_size (last_element v) = size v + 1
  elements_size (more_elements v es) = size v + suc (elements_size es)

  pub members_size : {ts r : List Token} → Members ts r → ℕ
  members_size (last_member v) = 2 + (size v + 1)
  members_size (more_members v ms) = 2 + (size v + suc (members_size ms))

-- The commas between the elements or members.
unfoldable pub element_commas : {ts r : List Token} → Elements ts r → ℕ
element_commas (last_element v) = 0
element_commas (more_elements v es) = suc (element_commas es)

unfoldable pub member_commas : {ts r : List Token} → Members ts r → ℕ
member_commas (last_member v) = 0
member_commas (more_members v ms) = suc (member_commas ms)

abbrev pub HoldsCount : Counts → ℕ → ℕ → Type 0
HoldsCount counts i n = get_elem? counts i ≡ some (some n)

-- The first token stands at the structural index number `i`.
unfoldable mutual
  pub Counted : {ts r : List Token} → IsValue ts r → ℕ → Counts → Type 0
  Counted string i counts = Unit
  Counted scalar i counts = Unit
  Counted empty_array i counts = HoldsCount counts i 0
  Counted (full_array es) i counts =
      HoldsCount counts i (suc (element_commas es)) × CountedElements es (suc i) counts
  Counted empty_object i counts = HoldsCount counts i 0
  Counted (full_object ms) i counts =
      HoldsCount counts i (suc (member_commas ms)) × CountedMembers ms (suc i) counts

  pub CountedElements : {ts r : List Token} → Elements ts r → ℕ → Counts → Type 0
  CountedElements (last_element v) i counts = Counted v i counts
  CountedElements (more_elements v es) i counts =
      Counted v i counts × CountedElements es (suc (i + size v)) counts

  pub CountedMembers : {ts r : List Token} → Members ts r → ℕ → Counts → Type 0
  CountedMembers (last_member v) i counts = Counted v (2 + i) counts
  CountedMembers (more_members v ms) i counts =
      Counted v (2 + i) counts × CountedMembers ms (suc (2 + i + size v)) counts

-- No entry from `i` on, of `n`, differs.
abbrev pub SameFrom : ℕ → ℕ → Counts → Counts → Type 0
SameFrom i n counts counts' = (j : ℕ) → i ≤ j → j < i + n → get_elem? counts' j ≡ get_elem? counts j

mutual
  unfolding Counted size

  pub Counted-kept :
      {ts r : List Token} (v : IsValue ts r) (i : ℕ) (cs cs' : Counts)
      → SameFrom i (size v) cs cs'
      → Counted v i cs
      → Counted v i cs'
  Counted-kept string i cs cs' same h = tt
  Counted-kept scalar i cs cs' same h = tt
  Counted-kept empty_array i cs cs' same h = same i (omega arith) (omega arith) ∙ h
  Counted-kept (full_array es) i cs cs' same (h, k) = (
    same i (omega arith) (omega arith) ∙ h,
    CountedElements-kept es (suc i) cs cs' (λ j a b. same j (omega arith) (omega arith)) k,
  )
  Counted-kept empty_object i cs cs' same h = same i (omega arith) (omega arith) ∙ h
  Counted-kept (full_object ms) i cs cs' same (h, k) = (
    same i (omega arith) (omega arith) ∙ h,
    CountedMembers-kept ms (suc i) cs cs' (λ j a b. same j (omega arith) (omega arith)) k,
  )

  pub CountedElements-kept :
      {ts r : List Token} (es : Elements ts r) (i : ℕ) (cs cs' : Counts)
      → SameFrom i (elements_size es) cs cs'
      → CountedElements es i cs
      → CountedElements es i cs'
  CountedElements-kept (last_element v) i cs cs' same h =
      Counted-kept v i cs cs' (λ j a b. same j (omega arith) (omega arith)) h
  CountedElements-kept (more_elements v es) i cs cs' same (h, k) = (
    Counted-kept v i cs cs' (λ j a b. same j (omega arith) (omega arith)) h,
    CountedElements-kept es (suc (i + size v)) cs cs' (λ j a b. same j (omega arith) (omega arith))
        k,
  )

  pub CountedMembers-kept :
      {ts r : List Token} (ms : Members ts r) (i : ℕ) (cs cs' : Counts)
      → SameFrom i (members_size ms) cs cs'
      → CountedMembers ms i cs
      → CountedMembers ms i cs'
  CountedMembers-kept (last_member v) i cs cs' same h =
      Counted-kept v (2 + i) cs cs' (λ j a b. same j (omega arith) (omega arith)) h
  CountedMembers-kept (more_members v ms) i cs cs' same (h, k) = (
    Counted-kept v (2 + i) cs cs' (λ j a b. same j (omega arith) (omega arith)) h,
    CountedMembers-kept ms (suc (2 + i + size v)) cs cs'
        (λ j a b. same j (omega arith) (omega arith)) k,
  )
