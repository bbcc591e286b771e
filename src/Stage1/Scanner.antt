-- ===== src/Stage1/Scanner.antt =====
-- What stage 1 looks for, one byte after another: the specification of src/stage1.rs.
use simdjson_rs.Prelude.{ℕ, Bool, true, false, not, ◌&&◌, ◌||◌, List, [], ◌∷◌, leb, ◌==◌}

abbrev pub xor : Bool → Bool → Bool
xor false b = b
xor true b = not b

-- `{`, `}`, `[`, `]`, `:` and `,`.
unfoldable pub is_structural : ℕ → Bool
is_structural c = c == b'{' || c == b'}' || c == b'[' || c == b']' || c == b':' || c == b','

unfoldable pub is_whitespace : ℕ → Bool
is_whitespace c = c == b' ' || c == 0x0a || c == 0x09 || c == 0x0d

-- What stands in front of a byte: an odd number of backslashes, an open quote, and something that a
-- scalar may begin behind.
pub record Context : Type 0 where
  pub escaped : Bool
  pub inside : Bool
  pub boundary : Bool

-- A quote that opens or closes a string.
abbrev pub is_quote : Context → ℕ → Bool
is_quote k c = c == b'"' && not k.escaped

-- The byte belongs to a string, its opening quote included.
abbrev pub in_string : Context → ℕ → Bool
in_string k c = xor k.inside (is_quote k c)

abbrev pub ends_scalar : Context → ℕ → Bool
ends_scalar k c = is_structural c && not (in_string k c) || is_quote k c

-- A token begins at the byte: a structural character, an opening quote, or the first byte of a
-- scalar.
abbrev pub begins_token : Context → ℕ → Bool
begins_token k c =
    (ends_scalar k c || k.boundary && not (is_whitespace c) && not (in_string k c))
    && not (is_quote k c && not (in_string k c))

-- A control character in a string.
abbrev pub is_forbidden : Context → ℕ → Bool
is_forbidden k c = in_string k c && leb c 0x1f

abbrev pub next : Context → ℕ → Context
next k c = record {
  escaped = c == 0x5c && not k.escaped;
  inside = in_string k c;
  boundary = ends_scalar k c || is_whitespace c;
}

abbrev pub context_behind : Context → List ℕ → Context
context_behind k [] = k
context_behind k (c ∷ s) = context_behind (next k c) s

abbrev pub tokens_at : Context → List ℕ → List Bool
tokens_at k [] = []
tokens_at k (c ∷ s) = begins_token k c ∷ tokens_at (next k c) s

abbrev pub has_forbidden : Context → List ℕ → Bool
has_forbidden k [] = false
has_forbidden k (c ∷ s) = is_forbidden k c || has_forbidden (next k c) s

abbrev pub outset : Context
outset = record { escaped = false; inside = false; boundary = true }
