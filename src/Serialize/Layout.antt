-- ===== src/Serialize/Layout.antt =====
-- src/value/owned/serialize.rs: the text of a value as a function of the value, by a layout, and the
-- values that are printed within the fuel.
use simdjson_rs.Prelude.{
  ℕ, zero, suc, ◌*◌, ◌%◌, ◌^◌, true, false, List, [], ◌∷◌, ◌++◌, codes, replicate, AreBytes,
}
use simdjson_rs.Value.{
  Value, null, bool, int, float, string, array, object, Values, nil, cons, Map, new, insert,
}
use simdjson_rs.Generator.Escaped.{escape_bytes}
use simdjson_rs.Serialize.{Texts}

-- The text between a key and its value, and that of a new line at a depth.
pub record Layout : Type 0 where
  pub separator : List ℕ
  pub line : ℕ → List ℕ

abbrev pub compact : Layout
compact = record { separator = codes ":"; line = λ _. [] }

-- The indentation is a `u16`.
abbrev pub indented : ℕ → Layout
indented spaces = record {
  separator = codes ": ";
  line = λ n. 0x0a ∷ replicate ((n % 2 ^ 16 * spaces) % 2 ^ 16) b' ';
}

abbrev pub quoted : List ℕ → List ℕ
quoted s = b'"' ∷ (escape_bytes s ++ b'"' ∷ [])

module _ (l : Layout) (n : ℕ) where
  -- A comma and a line in front of each text.
  unfoldable pub behind : List (List ℕ) → List ℕ
  behind [] = []
  behind (s ∷ ss) = b',' ∷ (l.line n ++ (s ++ behind ss))

-- The texts one depth further in, between brackets.
unfoldable pub bracketed : Layout → ℕ → ℕ → ℕ → List (List ℕ) → List ℕ
unfolding behind
bracketed l n open_bracket close_bracket [] = open_bracket ∷ close_bracket ∷ []
bracketed l n open_bracket close_bracket (s ∷ ss) =
    open_bracket
    ∷ (l.line (suc n) ++ (s ++ (behind l (suc n) ss ++ (l.line n ++ close_bracket ∷ []))))

module _ {F : Type 0} where
  unfoldable pub item_texts : (Value F → List ℕ) → Values F → List (List ℕ)
  item_texts f nil = []
  item_texts f (cons v vs) = f v ∷ item_texts f vs

  unfoldable pub entry_texts : Layout → (Value F → List ℕ) → Map F → List (List ℕ)
  entry_texts l f new = []
  entry_texts l f (insert key v m) = (quoted key ++ (l.separator ++ f v)) ∷ entry_texts l f m

  abbrev pub Every : (Value F → Type 0) → Values F → Type 0
  Every P nil = Unit
  Every P (cons v vs) = P v × Every P vs

  abbrev pub EveryEntry : (List ℕ → Value F → Type 0) → Map F → Type 0
  EveryEntry P new = Unit
  EveryEntry P (insert key v m) = P key v × EveryEntry P m

  -- The nesting is less than `fuel`, and the strings are bytes.
  unfoldable pub Fits : ℕ → Value F → Type 0
  Fits zero v = ⊥
  Fits (suc fuel) (string s) = AreBytes s
  Fits (suc fuel) (array vs) = Every (Fits fuel) vs
  Fits (suc fuel) (object m) = EveryEntry (λ key v. AreBytes key × Fits fuel v) m
  Fits (suc fuel) _ = Unit

  -- The iteration over a map yields entries of the map.
  abbrev pub YieldsEntries : Texts F → Type 1
  YieldsEntries t =
      (P : List ℕ → Value F → Type 0) (m : Map F) → EveryEntry P m → EveryEntry P (t.iter m)

-- The text of a value at depth `n`.
unfoldable pub text : {F : Type 0} → Texts F → Layout → ℕ → ℕ → Value F → List ℕ
unfolding bracketed item_texts entry_texts
text t l zero n v = []
text t l (suc fuel) n null = codes "null"
text t l (suc fuel) n (bool true) = codes "true"
text t l (suc fuel) n (bool false) = codes "false"
text t l (suc fuel) n (int i) = t.itoa i
text t l (suc fuel) n (float x) = t.ryu x
text t l (suc fuel) n (string s) = quoted s
text t l (suc fuel) n (array vs) = bracketed l n b'[' b']' (item_texts (text t l fuel (suc n)) vs)
text t l (suc fuel) n (object m) =
    bracketed l n b'{' b'}' (entry_texts l (text t l fuel (suc n)) (t.iter m))
