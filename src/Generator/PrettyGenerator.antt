-- ===== src/Generator/PrettyGenerator.antt =====
-- src/value/generator.rs, `PrettyGenerator`.
use simdjson_rs.Prelude.{ℕ, ◌++◌, List, [], ◌∷◌}
use simdjson_rs.Error.{ErrorType}
use simdjson_rs.Generator.Generators.{
  Io, done, BaseGenerator, extend_from_slice, push_spaces, width, deeper, shallower,
}

pub record State : Type 0 where
  pub code : List ℕ
  pub dent : ℕ
  pub spaces_per_indent : ℕ

unfoldable pub new : ℕ → State
new spaces = record { code = []; dent = 0; spaces_per_indent = spaces }

abbrev pub new_line : State → Io ErrorType State
new_line g =
    done (record g { code = push_spaces (width g.dent g.spaces_per_indent) (g.code ++ 0x0a ∷ []) })

unfoldable pub generator : BaseGenerator ErrorType
unfolding extend_from_slice push_spaces
generator = record {
  G = State;
  write_text = λ s g. done (record g { code = g.code ++ s });
  write_fmt = λ s g. done (record g { code = g.code ++ s });
  write = λ slice g. done (record g { code = extend_from_slice g.code slice });
  write_char = λ ch g. done (record g { code = g.code ++ ch ∷ [] });
  write_min = λ slice _ g. done (record g { code = extend_from_slice g.code slice });
  new_line = new_line;
  indent = λ g. record g { dent = deeper g.dent };
  dedent = λ g. record g { dent = shallower g.dent };
}
