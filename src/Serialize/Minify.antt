-- ===== src/Serialize/Minify.antt =====
-- src/value/owned/serialize.rs: white space outside of strings, and what is left of a string.
use simdjson_rs.Prelude.{
  ℕ, Bool, true, false, ◌||◌, ◌==◌, if◌then◌else◌, List, [], ◌∷◌, ◌++◌, ltb, ◌≡◌, refl, sym, ap,
  ◌∙◌, AreBytes, append_assoc,
}
use simdjson_rs.Prelude.Table.{all_below, all_below_sound}
use simdjson_rs.Generator.{escaped, escape}
use simdjson_rs.Generator.Escaped.{escape_bytes}

-- Outside of a string, in a string, and behind a backslash in a string.
pub data Place : Type 0 where
  outside in_string behind_backslash : Place

abbrev pub is_space : ℕ → Bool
is_space ch = ch == b' ' || ch == 0x0a

-- Where the byte behind `ch` stands.
abbrev pub moves : Place → ℕ → Place
moves outside ch = if ch == b'"' then in_string else outside
moves in_string ch =
    if ch == b'"' then outside else if ch == b'\\' then behind_backslash else in_string
moves behind_backslash ch = in_string

-- What is left of a byte.
abbrev pub kept : Place → ℕ → List ℕ
kept outside ch = if is_space ch then [] else ch ∷ []
kept _ ch = ch ∷ []

-- The text without the white space outside of its strings.
unfoldable pub minify : Place → List ℕ → List ℕ
minify p [] = []
minify p (ch ∷ s) = kept p ch ++ minify (moves p ch) s

-- A byte of a string as it is written.
abbrev written : ℕ → List ℕ
written ch = if ltb 0 (escaped ch) then escape ch else ch ∷ []

-- The text is a part of a string up to its end.
stays : Place → List ℕ → Bool
stays outside s = false
stays in_string [] = true
stays behind_backslash [] = false
stays in_string (ch ∷ s) = stays (moves in_string ch) s
stays behind_backslash (ch ∷ s) = stays in_string s

minify-stays :
    (p : Place) (s rest : List ℕ)
    → stays p s ≡ true
    → minify p (s ++ rest) ≡ s ++ minify in_string rest
unfolding minify stays
minify-stays outside s rest h = cc
minify-stays in_string [] rest h = refl
minify-stays behind_backslash [] rest h = cc
minify-stays in_string (ch ∷ s) rest h =
    ap (λ u. ch ∷ u) (minify-stays (moves in_string ch) s rest h)
minify-stays behind_backslash (ch ∷ s) rest h = ap (λ u. ch ∷ u) (minify-stays in_string s rest h)

written_table : all_below 256 (λ ch. stays in_string (written ch)) ≡ true
unfolding all_below stays
written_table = refl

pub minify-escape_bytes :
    (s rest : List ℕ)
    → AreBytes s
    → minify in_string (escape_bytes s ++ rest) ≡ escape_bytes s ++ minify in_string rest
unfolding escape_bytes
minify-escape_bytes [] rest b = refl
minify-escape_bytes (ch ∷ s) rest (h, b) =
    ap (minify in_string) (append_assoc (written ch) (escape_bytes s) rest)
    ∙ (minify-stays in_string (written ch) (escape_bytes s ++ rest)
          (all_below_sound 256 _ written_table ch h)
        ∙ (ap (λ u. written ch ++ u) (minify-escape_bytes s rest b)
            ∙ sym (append_assoc (written ch) (escape_bytes s) (minify in_string rest))))
