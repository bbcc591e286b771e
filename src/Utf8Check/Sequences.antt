-- ===== src/Utf8Check/Sequences.antt =====
-- The byte sequences of UTF-8, one byte after another: the specification of src/utf8check.rs.
use simdjson_rs.Prelude.{
  ℕ, zero, suc, Bool, true, false, not, ◌&&◌, ◌||◌, Option, none, some, ltb, leb, ◌==◌,
  if◌then◌else◌,
}

-- The bytes 0x80 to 0xbf.
unfoldable pub is_continuation : ℕ → Bool
is_continuation c = leb 0x80 c && ltb c 0xc0

-- The byte `c` may stand behind `p` in a character.
unfoldable pub follows : ℕ → ℕ → Bool
follows p c =
    if not (is_continuation c)
    then false
    else if p == 0xc0 || p == 0xc1
    then false
    else if p == 0xe0
    then leb 0xa0 c
    else if p == 0xed
    then leb c 0x9f
    else if p == 0xf0
    then leb 0x90 c
    else if p == 0xf4
    then leb c 0x8f
    else true

-- How many bytes a character has behind its first.
unfoldable pub bytes_behind : ℕ → Option ℕ
bytes_behind c =
    if ltb c 0x80
    then some 0
    else if ltb c 0xc0
    then none
    else if ltb c 0xe0
    then some 1
    else if ltb c 0xf0
    then some 2
    else if leb c 0xf4
    then some 3
    else none

-- The number of bytes that the character lacks behind `c`, where it lacked `n` behind `p`.
abbrev pub lacks_behind : ℕ → ℕ → ℕ → Option ℕ
lacks_behind zero p c = bytes_behind c
lacks_behind (suc n) p c = if follows p c then some n else none
