-- ===== src/Validate/Automaton.antt =====
-- The abstract view of `validate` of src/stage2.rs: tokens instead of bytes, and an automaton
-- with a stack that reads one token at a time.
use simdjson_rs.Prelude.{
  ℕ, Bool, true, false, Option, none, some, List, [], ◌∷◌, get_elem?, leb, ◌==◌, ◌&&◌, ◌||◌,
  if◌then◌else◌,
}
use simdjson_rs.Atoms.{is_valid_true_atom, is_valid_false_atom, is_valid_null_atom}
use simdjson_rs.Validate.{Input, StackState, start, object, array, memory}

-- `bad` stands for what is no token: an unknown character, a misspelt atom, a position outside.
pub data Token : Type 0 where
  quote literal comma colon bad : Token
  open_array close_array open_object close_object : Token

abbrev pub atom : Option Bool → Token
atom none = bad
atom (some valid) = if valid then literal else bad

unfoldable pub classify : Input → ℕ → ℕ → Token
classify input p c =
    if c == b'"'
    then quote
    else if c == b't'
    then atom (is_valid_true_atom (memory input p))
    else if c == b'f'
    then atom (is_valid_false_atom (memory input p))
    else if c == b'n'
    then atom (is_valid_null_atom (memory input p))
    else if c == b'-' || leb b'0' c && leb c b'9'
    then literal
    else if c == b'{'
    then open_object
    else if c == b'['
    then open_array
    else if c == b'}'
    then close_object
    else if c == b']'
    then close_array
    else if c == b','
    then comma
    else if c == b':'
    then colon
    else bad

abbrev pub classified : Input → ℕ → Option ℕ → Token
classified input p none = bad
classified input p (some c) = classify input p c

-- The token at a structural index.
unfoldable pub token : Input → ℕ → Token
token input p = classified input p (get_elem? input.bytes p)

-- What is read next: a value in a context, what follows one, the first item behind a bracket, a
-- key behind a comma, or the colon behind a key.
pub data Mode : Type 0 where
  value after : StackState → Mode
  first_element first_key next_key key_colon : Mode

abbrev pub Config : Type 0
Config = Mode × List StackState

-- A value in a context: a bracket opens a scope inside of it.
abbrev pub read_value : StackState → List StackState → Token → Option Config
read_value k fs quote = some (after k, fs)
read_value k fs literal = some (after k, fs)
read_value k fs open_array = some (first_element, k ∷ fs)
read_value k fs open_object = some (first_key, k ∷ fs)
read_value k fs _ = none

-- The scope that ends was a value of the context on the stack.
abbrev pub close : List StackState → Option Config
close [] = none
close (k ∷ fs) = some (after k, fs)

unfoldable pub delta : Mode → List StackState → Token → Option Config
delta (value k) fs t = read_value k fs t
delta first_element fs close_array = close fs
delta first_element fs t = read_value array fs t
delta first_key fs quote = some (key_colon, fs)
delta first_key fs close_object = close fs
delta first_key fs _ = none
delta next_key fs quote = some (key_colon, fs)
delta next_key fs _ = none
delta key_colon fs colon = some (value object, fs)
delta key_colon fs _ = none
delta (after array) fs comma = some (value array, fs)
delta (after array) fs close_array = close fs
delta (after array) fs _ = none
delta (after object) fs comma = some (next_key, fs)
delta (after object) fs close_object = close fs
delta (after object) fs _ = none
delta (after start) fs t = none

-- The root value is read, and nothing is left.
abbrev pub is_final : Mode → Bool
is_final (after start) = true
is_final _ = false

-- `accepts` goes on from a configuration, if there is one.
abbrev pub go_on : (Mode → List StackState → Bool) → Option Config → Bool
go_on rest none = false
go_on rest (some (mode, fs)) = rest mode fs

unfoldable pub accepts : List Token → Mode → List StackState → Bool
accepts [] mode fs = is_final mode
accepts (t ∷ ts) mode fs = go_on (accepts ts) (delta mode fs t)

abbrev pub accepts_from : List Token → Option Config → Bool
accepts_from ts = go_on (accepts ts)
