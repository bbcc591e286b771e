-- ===== src/CharUtils/Classes.antt =====
-- The byte classes of src/charutils.rs against the characters that they name.
use simdjson_rs.Prelude.{ℕ, ◌<◌, ◌≡◌, refl, Bool, true, ◌||◌, ◌==◌, if◌then◌else◌, ==_iff}
use simdjson_rs.Prelude.Table.{all_below, all_below_sound}
use simdjson_rs.CharUtils.{is_not_structural_or_whitespace, is_structural_or_whitespace}

-- Whitespace, a structural character, or the byte 0 that pads a copy.
unfoldable pub ends_token : ℕ → Bool
ends_token c =
    c == 0
    || c == 0x09
    || c == 0x0a
    || c == 0x0d
    || c == b' '
    || c == b','
    || c == b':'
    || c == b'['
    || c == b']'
    || c == b'{'
    || c == b'}'

positive_table :
    all_below 256 (λ c. is_structural_or_whitespace c == (if ends_token c then 1 else 0)) ≡ true
unfolding all_below is_structural_or_whitespace ends_token
positive_table = refl

negative_table :
    all_below 256 (λ c. is_not_structural_or_whitespace c == (if ends_token c then 0 else 1)) ≡ true
unfolding all_below is_not_structural_or_whitespace ends_token
negative_table = refl

pub is_structural_or_whitespace_lem :
    (c : ℕ) → c < 256 → is_structural_or_whitespace c ≡ (if ends_token c then 1 else 0)
is_structural_or_whitespace_lem c h = (==_iff _ _).0 (all_below_sound 256 _ positive_table c h)

pub is_not_structural_or_whitespace_lem :
    (c : ℕ) → c < 256 → is_not_structural_or_whitespace c ≡ (if ends_token c then 0 else 1)
is_not_structural_or_whitespace_lem c h = (==_iff _ _).0 (all_below_sound 256 _ negative_table c h)
