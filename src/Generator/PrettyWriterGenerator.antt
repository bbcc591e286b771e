-- ===== src/Generator/PrettyWriterGenerator.antt =====
-- src/value/generator.rs, `PrettyWriterGenerator`.
use simdjson_rs.Prelude.{ℕ, zero, suc, List, [], ◌∷◌}
use simdjson_rs.Generator.Generators.{
  Io, done, ◌>>=◌, through, Write, BaseGenerator, width, deeper, shallower,
}

module _ (w : Write) where
  pub record State : Type 0 where
    pub writer : w.W
    pub dent : ℕ
    pub spaces_per_indent : ℕ

  unfoldable pub new : w.W → ℕ → State
  new writer spaces_per_indent = record {
    writer = writer;
    dent = 0;
    spaces_per_indent = spaces_per_indent;
  }

  abbrev pub on_writer : List ℕ → State → Io w.E State
  on_writer s g = through (λ v. record g { writer = v }) (w.write_all s g.writer)

  abbrev fmt_on_writer : List ℕ → State → Io w.E State
  fmt_on_writer s g = through (λ v. record g { writer = v }) (w.write_fmt s g.writer)

  -- `stry!(self.write_char(b' '))`, `n` times.
  unfoldable pub write_spaces : ℕ → State → Io w.E State
  write_spaces zero g = done g
  write_spaces (suc n) g = on_writer (b' ' ∷ []) g >>= write_spaces n

  unfoldable pub new_line : State → Io w.E State
  unfolding write_spaces
  new_line g =
      on_writer (0x0a ∷ []) g >>= λ g'. write_spaces (width g'.dent g'.spaces_per_indent) g'

  unfoldable pub generator : BaseGenerator w.E
  unfolding new_line
  generator = record {
    G = State;
    write_text = on_writer;
    write_fmt = fmt_on_writer;
    write = on_writer;
    write_char = λ ch. on_writer (ch ∷ []);
    write_min = λ slice _. on_writer slice;
    new_line = new_line;
    indent = λ g. record g { dent = deeper g.dent };
    dedent = λ g. record g { dent = shallower g.dent };
  }
