-- ===== src/Generator/RoundTrip.antt =====
-- src/value/generator.rs and src/lib.rs: a text that `write_string` writes is read back.
use simdjson_rs.Prelude.{
  AreBytes, drop-add, some, ℕ, ◌+◌, ◌/◌, ◌%◌, ◌<◌, Bool, true, false, not, ◌&&◌, ◌||◌, List, [],
  ◌∷◌, ◌++◌, drop, get_or, length, ltb, ◌==◌, if◌then◌else◌, ◌≡◌, ◌≢◌, refl, sym, ap, subst, ◌∙◌,
  arith, inl, inr, Bool-cases, append_assoc,
}
use simdjson_rs.Prelude.Table.{all_below, all_below_sound}
use simdjson_rs.Error.{Error, ErrorType, ok}
use simdjson_rs.CharUtils.{codepoint_to_utf8}
use simdjson_rs.CharUtils.Hex.{hex_digit}
use simdjson_rs.StringParse.{escape_map}
use simdjson_rs.StringParse.Codepoint.{Spells, handle_unicode_codepoint_plain}
use simdjson_rs.ParseStr.{escape_at, parse_str_}
use simdjson_rs.ParseStr.Text.{Text, close, plain, escape}
use simdjson_rs.ParseStr.Whole.{parse_str_-Text, text_of}
use simdjson_rs.Generator.{escaped, hex_character, hex4, write_string}
use simdjson_rs.Generator.Escaped.{escape_bytes}
use simdjson_rs.Generator.Writes.{drop-front, write_string-escape_bytes}

-- What the table says of a byte, and what the parser's table makes of it.
class : ℕ → ℕ → Bool
class ch x =
    if x == 0
    then not (ch == b'"' || ch == b'\\')
    else if x == b'u'
    then ltb ch 0x20
    else get_or escape_map x 0 == ch && not (ch == 0)

class_table : all_below 256 (λ ch. class ch (escaped ch)) ≡ true
unfolding all_below class
class_table = refl

class-plain :
    (ch x : ℕ) → class ch x ≡ true → (x == 0) ≡ true → (ltb 0 x ≡ false) × (ch ≢ b'"') × (ch ≢ 0x5c)
unfolding class
class-plain ch x h e = (ground arith, ground arith, ground arith)

positive : (x : ℕ) → (x == 0) ≡ false → ltb 0 x ≡ true
positive x h = ground arith

class-u : (ch x : ℕ) → class ch x ≡ true → (x == 0) ≡ false → (x == b'u') ≡ true → ch < 0x20
unfolding class
class-u ch x h n e =
    let test : ltb ch 0x20 ≡ true =
      subst (λ b. (if b then ltb ch 0x20 else get_or escape_map x 0 == ch && not (ch == 0)) ≡ true)
        e
        (subst
          (λ b.
            (if b
              then not (ch == b'"' || ch == b'\\')
              else if x == b'u'
              then ltb ch 0x20
              else get_or escape_map x 0 == ch && not (ch == 0))
            ≡ true)
          n h) in
    ground arith

split_test : (a ch : ℕ) → (a == ch && not (ch == 0)) ≡ true → (a ≡ ch) × ((ch == 0) ≡ false)
split_test a ch h = (ground arith, ground arith)

class-simple :
    (ch x : ℕ)
    → class ch x ≡ true
    → (x == 0) ≡ false
    → (x == b'u') ≡ false
    → (get_or escape_map x 0 ≡ ch) × ((ch == 0) ≡ false)
unfolding class
class-simple ch x h n m =
    let test : (get_or escape_map x 0 == ch && not (ch == 0)) ≡ true =
      subst (λ b. (if b then ltb ch 0x20 else get_or escape_map x 0 == ch && not (ch == 0)) ≡ true)
        m
        (subst
          (λ b.
            (if b
              then not (ch == b'"' || ch == b'\\')
              else if x == b'u'
              then ltb ch 0x20
              else get_or escape_map x 0 == ch && not (ch == 0))
            ≡ true)
          n h) in
    split_test (get_or escape_map x 0) ch test

hex_digit-hex_character : (x : ℕ) → x < 16 → hex_digit (hex_character x) ≡ some x
hex_digit-hex_character x h = ground arith

hex4-Spells :
    (ch : ℕ) → ch < 0x20 → Spells b'0' b'0' (hex_character (ch / 16)) (hex_character (ch % 16)) ch
hex4-Spells ch h = record {
  v = 0;
  w = 0;
  x = ch / 16;
  y = ch % 16;
  first = refl;
  second = refl;
  third = hex_digit-hex_character (ch / 16) (omega arith);
  fourth = hex_digit-hex_character (ch % 16) (omega arith);
  value = omega arith;
}

ascii : (ch : ℕ) → ch < 0x80 → codepoint_to_utf8 ch ≡ ch ∷ []
unfolding codepoint_to_utf8
ascii ch h = ground arith

module _ (error : ErrorType → Error) where
  -- The escape of a byte spells the byte.
  escape_at-u :
      (ch : ℕ) (tail : List ℕ)
      → ch < 0x20
      → escape_at error (b'\\' ∷ b'u' ∷ (hex4 ch ++ tail)) ≡ ok (ch ∷ [], 6)
  unfolding escape_at
  escape_at-u ch tail h =
      rw
        (
          handle_unicode_codepoint_plain tail (hex4-Spells ch h) (inl (omega arith)),
          ascii ch (omega arith),
        )
        refl

  escape_at-simple :
      (ch x : ℕ) (tail : List ℕ)
      → (x == b'u') ≡ false
      → get_or escape_map x 0 ≡ ch
      → (ch == 0) ≡ false
      → escape_at error (b'\\' ∷ x ∷ tail) ≡ ok (ch ∷ [], 2)
  unfolding escape_at
  escape_at-simple ch x tail n e z = rw (n, e, z) refl

  byte-Text :
      (ch : ℕ) (s t : List ℕ)
      → ch < 256
      → Text error (escape_bytes s ++ t) (ok s)
      → Text error (escape_bytes (ch ∷ s) ++ t) (ok (ch ∷ s))
  unfolding escape_bytes
  byte-Text ch s t h text =
      let tail = escape_bytes s ++ t in
      let known : class ch (escaped ch) ≡ true = all_below_sound 256 _ class_table ch h in
      elim (Bool-cases (escaped ch == 0)) [
        | inl e ↦
            let (passes, no_quote, no_backslash) = class-plain ch (escaped ch) known e in
            rw passes (plain ch no_quote no_backslash text)
        | inr n ↦
            let escapes = positive (escaped ch) n in
            elim (Bool-cases (escaped ch == b'u')) [
              | inl u ↦
                  let low = class-u ch (escaped ch) known n u in
                  rw (escapes, u)
                    (escape {bytes = ch ∷ []} {n = 6} (escape_at-u ch tail low) (omega arith) text)
              | inr m ↦
                  let (back, some_byte) = class-simple ch (escaped ch) known n m in
                  rw (escapes, m)
                    (escape {bytes = ch ∷ []} {n = 2}
                      (escape_at-simple ch (escaped ch) tail m back some_byte) (omega arith) text)
            ]
      ]

  escape_bytes-Text :
      (s rest : List ℕ) → AreBytes s → Text error (escape_bytes s ++ b'"' ∷ rest) (ok s)
  unfolding escape_bytes
  escape_bytes-Text [] rest b = close rest
  escape_bytes-Text (ch ∷ s) rest b =
      byte-Text ch s (b'"' ∷ rest) b.0 (escape_bytes-Text s rest b.1)

  -- The text behind its quoted form, read back.
  pub read_back :
      (front s rest : List ℕ)
      → AreBytes s
      → text_of error (
          parse_str_ error
            (front ++ (b'"' ∷ ((escape_bytes s ++ b'"' ∷ []) ++ rest)))
            (length front))
        ≡ ok s
  read_back front s rest b =
      let body = escape_bytes s ++ b'"' ∷ [] in
      let input = front ++ (b'"' ∷ body ++ rest) in
      let behind : drop (length front + 1) input ≡ escape_bytes s ++ b'"' ∷ rest =
        drop-add (length front) 1 input
        ∙ (ap (drop 1) (drop-front front (b'"' ∷ body ++ rest))
            ∙ append_assoc (escape_bytes s) (b'"' ∷ []) rest) in
      let text : Text error (drop (length front + 1) input) (ok s) =
        subst (λ u. Text error u (ok s)) (sym behind) (escape_bytes-Text s rest b) in
      parse_str_-Text error input (length front) (ok s) text

  -- For every text of bytes, `write_string` returns a quoted text, and `parse_str_` at the place
  -- of its first quote returns the text, whatever stands in front of the quoted text and behind
  -- it.
  pub parse_str_-write_string :
      (front s rest : List ℕ)
      → AreBytes s
      → (quoted : List ℕ) × (write_string s ≡ ok quoted)
        × (text_of error (parse_str_ error (front ++ (quoted ++ rest)) (length front)) ≡ ok s)
  parse_str_-write_string front s rest b = (
    b'"' ∷ (escape_bytes s ++ b'"' ∷ []),
    write_string-escape_bytes s b,
    read_back front s rest b,
  )
