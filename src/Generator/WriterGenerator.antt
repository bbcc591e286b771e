-- ===== src/Generator/WriterGenerator.antt =====
-- src/value/generator.rs, `WriterGenerator`.
use simdjson_rs.Prelude.{ℕ, List, [], ◌∷◌}
use simdjson_rs.Generator.Generators.{Io, done, through, Write, BaseGenerator}

module _ (w : Write) where
  pub record State : Type 0 where
    pub writer : w.W

  unfoldable pub new : w.W → State
  new writer = record { writer = writer }

  -- `self.get_writer().write_all(…)`, and `write!(self.get_writer(), …)`.
  abbrev pub on_writer : List ℕ → State → Io w.E State
  on_writer s g = through (λ v. record { writer = v }) (w.write_all s g.writer)

  abbrev fmt_on_writer : List ℕ → State → Io w.E State
  fmt_on_writer s g = through (λ v. record { writer = v }) (w.write_fmt s g.writer)

  unfoldable pub generator : BaseGenerator w.E
  generator = record {
    G = State;
    write_text = on_writer;
    write_fmt = fmt_on_writer;
    write = on_writer;
    write_char = λ ch. on_writer (ch ∷ []);
    write_min = λ _ least. on_writer (least ∷ []);
    new_line = λ g. done g;
    indent = λ g. g;
    dedent = λ g. g;
  }
