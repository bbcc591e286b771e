-- ===== src/Generator/DumpGenerator.antt =====
-- src/value/generator.rs, `DumpGenerator`.
use simdjson_rs.Prelude.{ℕ, ◌++◌, List, [], ◌∷◌}
use simdjson_rs.Error.{ErrorType}
use simdjson_rs.Generator.Generators.{done, BaseGenerator, extend_from_slice}

pub record State : Type 0 where
  pub code : List ℕ

unfoldable pub new : State
new = record { code = [] }

unfoldable pub generator : BaseGenerator ErrorType
unfolding extend_from_slice
generator = record {
  G = State;
  write_text = λ s g. done (record { code = g.code ++ s });
  write_fmt = λ s g. done (record { code = g.code ++ s });
  write = λ slice g. done (record { code = extend_from_slice g.code slice });
  write_char = λ ch g. done (record { code = g.code ++ ch ∷ [] });
  write_min = λ _ least g. done (record { code = g.code ++ least ∷ [] });
  new_line = λ g. done g;
  indent = λ g. g;
  dedent = λ g. g;
}
