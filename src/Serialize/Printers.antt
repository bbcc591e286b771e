-- ===== src/Serialize/Printers.antt =====
-- src/value/owned/serialize.rs: the four generators under `to_string`, `to_string_pp`, `write` and
-- `write_pp`.
use simdjson_rs.Prelude.{
  ℕ, zero, suc, ◌%◌, ◌^◌, List, [], ◌∷◌, ◌++◌, replicate, ◌≡◌, refl, sym, ap, ◌∙◌, arith,
  append_assoc, append-nil, codes,
}
use simdjson_rs.Error.{ok}
use simdjson_rs.Value.{Value}
use simdjson_rs.Generator.Generators.{
  Io, done, failed, stuck, through, TakesPart, Write, Raised, extend_from_slice, push_spaces, width,
  deeper, shallower,
}
use simdjson_rs.Generator.DumpGenerator
use simdjson_rs.Generator.PrettyGenerator
use simdjson_rs.Generator.WriterGenerator
use simdjson_rs.Generator.PrettyWriterGenerator
use simdjson_rs.Serialize.{Texts, consume, to_string, to_string_pp, write, write_pp}
use simdjson_rs.Serialize.Layout.{compact, indented, Fits, YieldsEntries, text}
use simdjson_rs.Serialize.Emits.{Emits, Emits-through, Lays}
use simdjson_rs.Serialize.Writes.{write_json-Puts}
use simdjson_rs.Serialize.Writers.{
  error_of_fmt, Plain, Anywhere, all-Emits, PrettyWriterAt, taken_by, on_writer-Emits,
  new_line-Emits,
}

push_spaces-append : (n : ℕ) (code : List ℕ) → push_spaces n code ≡ code ++ replicate n b' '
unfolding push_spaces
push_spaces-append zero code = sym (append-nil code)
push_spaces-append (suc n) code =
    push_spaces-append n (code ++ b' ' ∷ []) ∙ append_assoc code (b' ' ∷ []) (replicate n b' ')

deeper_lem : (n dent : ℕ) → dent ≡ n % 2 ^ 16 → deeper dent ≡ suc n % 2 ^ 16
deeper_lem n dent e = omega (arith, e)

shallower_lem : (n dent : ℕ) → dent ≡ suc n % 2 ^ 16 → shallower dent ≡ n % 2 ^ 16
shallower_lem n dent e = omega (arith, e)

dump_Lays : Lays DumpGenerator.generator compact
unfolding DumpGenerator.generator extend_from_slice
dump_Lays = record {
  out = λ g. g.code;
  Raises = λ _. ⊥;
  IsAt = λ _ _. Unit;
  text_Emits = λ s n x at. (refl, tt);
  fmt_Emits = λ s n x at. (refl, tt);
  write_Emits = λ s n x at. (refl, tt);
  char_Emits = λ ch n x at. (refl, tt);
  separator_Emits = λ n x at. (refl, tt);
  line_Emits = λ n x at. (sym (append-nil x.code), tt);
  indents = λ n x at. (refl, tt);
  dedents = λ n x at. (refl, tt);
}

module _ (spaces : ℕ) where
  abbrev PrettyAt : ℕ → PrettyGenerator.State → Type 0
  PrettyAt n x = (x.dent ≡ n % 2 ^ 16) × (x.spaces_per_indent ≡ spaces)

  pretty_Lays : Lays PrettyGenerator.generator (indented spaces)
  unfolding PrettyGenerator.generator extend_from_slice
  pretty_Lays = record {
    out = λ g. g.code;
    Raises = λ _. ⊥;
    IsAt = PrettyAt;
    text_Emits = λ s n x at. (refl, at);
    fmt_Emits = λ s n x at. (refl, at);
    write_Emits = λ s n x at. (refl, at);
    char_Emits = λ ch n x at. (refl, at);
    separator_Emits = λ n x at. (refl, at);
    line_Emits = λ n x at. (
      push_spaces-append (width x.dent x.spaces_per_indent) (x.code ++ 0x0a ∷ [])
          ∙ rw (at.0, at.1) (append_assoc x.code (0x0a ∷ []) _),
      at,
    );
    indents = λ n x at. (refl, (deeper_lem n x.dent at.0, at.1));
    dedents = λ n x at. (refl, (shallower_lem n x.dent at.0, at.1));
  }

module _ (w : Write) where
  writer_Lays : Lays (WriterGenerator.generator w) compact
  unfolding WriterGenerator.generator
  writer_Lays = record {
    out = λ g. w.accepted g.writer;
    Raises = Raised w;
    IsAt = Anywhere w;
    text_Emits = all-Emits w;
    fmt_Emits = λ s n x at.
        Emits-through (λ (g : Plain w). w.accepted g.writer) (Raised w) (Anywhere w) w.accepted n
          (λ v. record { writer = v }) s x.writer (w.write_fmt s x.writer)
          (w.write_fmt-Takes s x.writer) (error_of_fmt w s x.writer) (λ y. (refl, at));
    write_Emits = all-Emits w;
    char_Emits = λ ch. all-Emits w (ch ∷ []);
    separator_Emits = all-Emits w (codes ":");
    line_Emits = λ n x at. (sym (append-nil (w.accepted x.writer)), tt);
    indents = λ n x at. (refl, tt);
    dedents = λ n x at. (refl, tt);
  }

  module _ (spaces : ℕ) where
    pretty_writer_Lays : Lays (PrettyWriterGenerator.generator w) (indented spaces)
    unfolding PrettyWriterGenerator.generator
    pretty_writer_Lays = record {
      out = taken_by w spaces;
      Raises = Raised w;
      IsAt = PrettyWriterAt w spaces;
      text_Emits = on_writer-Emits w spaces;
      fmt_Emits = λ s n x at.
          Emits-through (taken_by w spaces) (Raised w) (PrettyWriterAt w spaces) w.accepted n
            (λ v. record x { writer = v }) s x.writer (w.write_fmt s x.writer)
            (w.write_fmt-Takes s x.writer) (error_of_fmt w s x.writer) (λ y. (refl, at));
      write_Emits = on_writer-Emits w spaces;
      char_Emits = λ ch. on_writer-Emits w spaces (ch ∷ []);
      separator_Emits = on_writer-Emits w spaces (codes ": ");
      line_Emits = new_line-Emits w spaces;
      indents = λ n x at. (refl, (deeper_lem n x.dent at.0, at.1));
      dedents = λ n x at. (refl, (shallower_lem n x.dent at.0, at.1));
    }

-- A run that writes the text `s` to a writer: the writer has taken all of it, or a call of the writer
-- failed, its error is returned, and the writer has taken a part of the text.
abbrev pub Delivers : (w : Write) → List ℕ → w.W → Io w.E w.W → Type 0
Delivers w s x (done y) = w.accepted y ≡ w.accepted x ++ s
Delivers w s x (failed e y) = Raised w e × TakesPart (w.accepted x) s (w.accepted y)
Delivers w s x stuck = ⊥

Delivers-through :
    {G : Type 0} (w : Write) (f : G → w.W) (IsAt : ℕ → G → Type 0) (n : ℕ) (s : List ℕ) (x : w.W)
    (r : Io w.E G)
    → Emits (λ g. w.accepted (f g)) (Raised w) IsAt (w.accepted x) s r n
    → Delivers w s x (through f r)
Delivers-through w f IsAt n s x (done y) h = h.0
Delivers-through w f IsAt n s x (failed e y) h = h
Delivers-through w f IsAt n s x stuck h = absurd h

-- A run over a `Vec<u8>`.
consume_lem :
    {E G : Type 0} (out : G → List ℕ) (IsAt : ℕ → G → Type 0) (n : ℕ) (s : List ℕ) (r : Io E G)
    → Emits out (λ _. ⊥) IsAt [] s r n
    → consume out r ≡ ok s
consume_lem out IsAt n s (done x) h = ap (λ v. ok v) h.0
consume_lem out IsAt n s (failed e x) h = absurd h.0
consume_lem out IsAt n s stuck h = absurd h

module _ {F : Type 0} (t : Texts F) (yields : YieldsEntries t) (fuel : ℕ) (v : Value F)
    (fits : Fits fuel v) where
  pub to_string-text : to_string t fuel v ≡ ok (text t compact fuel 0 v)
  unfolding to_string DumpGenerator.new dump_Lays
  to_string-text =
      consume_lem (λ (g : DumpGenerator.State). g.code) dump_Lays.IsAt 0 _ _
        ((write_json-Puts t DumpGenerator.generator compact dump_Lays yields fuel 0 v fits).puts
          DumpGenerator.new tt)

  pub to_string_pp-text : to_string_pp t fuel v ≡ ok (text t (indented 2) fuel 0 v)
  unfolding to_string_pp PrettyGenerator.new pretty_Lays
  to_string_pp-text =
      consume_lem (λ (g : PrettyGenerator.State). g.code) (PrettyAt 2) 0 _ _
        ((write_json-Puts t PrettyGenerator.generator (indented 2) (pretty_Lays 2) yields fuel 0 v
            fits).puts
          (PrettyGenerator.new 2) (refl, refl))

  write-text : (w : Write) (x : w.W) → Delivers w (text t compact fuel 0 v) x (write t fuel v w x)
  unfolding write WriterGenerator.new writer_Lays
  write-text w x =
      Delivers-through w (λ (g : WriterGenerator.State w). g.writer) (λ _ _. Unit) 0 _ x _
        ((write_json-Puts t (WriterGenerator.generator w) compact (writer_Lays w) yields fuel 0 v
            fits).puts
          (WriterGenerator.new w x) tt)

  write_pp-text :
      (w : Write) (x : w.W) → Delivers w (text t (indented 2) fuel 0 v) x (write_pp t fuel v w x)
  unfolding write_pp PrettyWriterGenerator.new pretty_writer_Lays
  write_pp-text w x =
      Delivers-through w (λ (g : PrettyWriterGenerator.State w). g.writer) (PrettyWriterAt w 2) 0 _
        x _
        ((write_json-Puts t (PrettyWriterGenerator.generator w) (indented 2)
            (pretty_writer_Lays w 2) yields fuel 0 v fits).puts
          (PrettyWriterGenerator.new w x 2) (refl, refl))

  -- For a value whose nesting is below the fuel and whose strings are bytes, where the iteration
  -- over a map yields entries of the map: `to_string` and `to_string_pp` return the text of the
  -- value in one line and with two spaces for each depth, as a function of the value gives it.
  -- `write` and `write_pp` to a writer end, either with no error and the writer has taken exactly
  -- that text, or with an error that a call of the writer returned, and the writer has taken a
  -- part of that text up to some byte. Each call of the writer is assumed to take all of its own
  -- text, or to fail and to have taken a part of it. At a depth from 2^15 on the number of spaces
  -- wraps around.
  pub write_json-text :
      (w : Write) (x : w.W)
      → (to_string t fuel v ≡ ok (text t compact fuel 0 v))
        × Delivers w (text t compact fuel 0 v) x (write t fuel v w x)
        × (to_string_pp t fuel v ≡ ok (text t (indented 2) fuel 0 v))
        × Delivers w (text t (indented 2) fuel 0 v) x (write_pp t fuel v w x)
  write_json-text w x = (to_string-text, write-text w x, to_string_pp-text, write_pp-text w x)
