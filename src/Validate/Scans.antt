-- ===== src/Validate/Scans.antt =====
-- `validate` of src/stage2.rs, the `match` on a byte that begins a value: what it does by the token.
use simdjson_rs.Prelude.{◌≡◌, refl, Bool, true, false, Option, none, some, ◌==◌, if◌then◌else◌}
use simdjson_rs.Error.{Error, ErrorType, Outcome, ◌>>=◌}
use simdjson_rs.Validate.{
  Input, StackState, Machine, Flow, array_begin, object_begin, push_scope, check_atom,
  is_integer_start, scan_value,
}
use simdjson_rs.Validate.Automaton.{
  Token, classify, atom, quote, literal, comma, colon, bad, open_array, close_array, open_object,
  close_object,
}

module _ (input : Input) (k : StackState) (continue : Machine → Outcome Error Flow)
    (m : Machine) where
  -- What follows the tokens that begin a value.
  abbrev pub Scanned : Outcome Error Flow → Token → Type 0
  Scanned o quote = o ≡ continue m
  Scanned o literal = o ≡ continue m
  Scanned o open_array = o ≡ (push_scope input k m >>= array_begin input)
  Scanned o open_object = o ≡ (push_scope input k m >>= object_begin input)
  Scanned o _ = Unit

  pub record Scans (o : Outcome Error Flow) (t : Token) : Type 0 where
    pub scanned : Scanned o t

  same_test :
      (b : Bool) {x y : Outcome Error Flow} {t u : Token}
      → Scans x t
      → Scans y u
      → Scans (if b then x else y) (if b then t else u)
  same_test true g h = g
  same_test false g h = h

  atom_scanned :
      (t : ErrorType) (v : Option Bool) → Scans (check_atom input m t v (continue m)) (atom v)
  atom_scanned t none = record { scanned = tt }
  atom_scanned t (some true) = record { scanned = refl }
  atom_scanned t (some false) = record { scanned = tt }

  no_value :
      (o : Outcome Error Flow) (a b c d : Bool)
      → Scans o (
          if a
          then close_object
          else if b
          then close_array
          else if c
          then comma
          else if d
          then colon
          else bad)
  no_value o true b c d = record { scanned = tt }
  no_value o false true c d = record { scanned = tt }
  no_value o false false true d = record { scanned = tt }
  no_value o false false false true = record { scanned = tt }
  no_value o false false false false = record { scanned = tt }

  pub scan_value-Scans : Scans (scan_value input k continue m) (classify input m.idx m.c)
  unfolding scan_value classify
  scan_value-Scans =
      same_test (m.c == b'"') (record { scanned = refl })
        (same_test (m.c == b't') (atom_scanned _ _) (
          same_test (m.c == b'f') (atom_scanned _ _) (
            same_test (m.c == b'n') (atom_scanned _ _) (
              same_test (is_integer_start m.c) (record { scanned = refl })
                (same_test (m.c == b'{') (record { scanned = refl })
                  (same_test (m.c == b'[') (record { scanned = refl })
                    (no_value _ (m.c == b'}') (m.c == b']') (m.c == b',') (m.c == b':'))))))))
