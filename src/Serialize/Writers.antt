-- ===== src/Serialize/Writers.antt =====
-- src/value/generator.rs: the two generators over a type with `io::Write`, call by call.
use simdjson_rs.Prelude.{
  ℕ, zero, suc, ◌%◌, ◌^◌, List, [], ◌∷◌, replicate, ◌≡◌, refl, sym, subst, append-nil,
}
use simdjson_rs.Generator.Generators.{Io, failed, Write, Raised, by_write_all, by_write_fmt, width}
use simdjson_rs.Generator.WriterGenerator
use simdjson_rs.Generator.PrettyWriterGenerator
use simdjson_rs.Serialize.Emits.{Emits, Emits-then, Emits-through}

-- A line break and the spaces.
abbrev pub line_text : ℕ → ℕ → List ℕ
line_text dent spaces = 0x0a ∷ replicate (width dent spaces) b' '

-- The errors of a writer, as `Emits-through` asks for them.
pub error_of_all :
    (w : Write) (s : List ℕ) (x : w.W) (e : w.E) (y : w.W)
    → w.write_all s x ≡ failed e y
    → Raised w e
error_of_all w s x e y h = by_write_all s x y h

pub error_of_fmt :
    (w : Write) (s : List ℕ) (x : w.W) (e : w.E) (y : w.W)
    → w.write_fmt s x ≡ failed e y
    → Raised w e
error_of_fmt w s x e y h = by_write_fmt s x y h

module _ (w : Write) where
  abbrev pub Plain : Type 0
  Plain = WriterGenerator.State w

  abbrev pub Anywhere : ℕ → Plain → Type 0
  Anywhere n x = Unit

  pub all-Emits :
      (s : List ℕ) (n : ℕ) (x : Plain)
      → Anywhere n x
      → Emits
          (λ (g : Plain). w.accepted g.writer)
          (Raised w)
          Anywhere
          (w.accepted x.writer)
          s
          (WriterGenerator.on_writer w s x)
          n
  all-Emits s n x at =
      Emits-through (λ (g : Plain). w.accepted g.writer) (Raised w) Anywhere w.accepted n
        (λ v. record { writer = v }) s x.writer (w.write_all s x.writer)
        (w.write_all-Takes s x.writer) (error_of_all w s x.writer) (λ y. (refl, at))

  module _ (spaces : ℕ) where
    abbrev pub Pretty : Type 0
    Pretty = PrettyWriterGenerator.State w

    abbrev pub PrettyWriterAt : ℕ → Pretty → Type 0
    PrettyWriterAt n x = (x.dent ≡ n % 2 ^ 16) × (x.spaces_per_indent ≡ spaces)

    abbrev pub taken_by : Pretty → List ℕ
    taken_by g = w.accepted g.writer

    abbrev PrettyEmits : List ℕ → List ℕ → Io w.E Pretty → ℕ → Type 0
    PrettyEmits = Emits taken_by (Raised w) PrettyWriterAt

    pub on_writer-Emits :
        (s : List ℕ) (n : ℕ) (x : Pretty)
        → PrettyWriterAt n x
        → PrettyEmits (taken_by x) s (PrettyWriterGenerator.on_writer w s x) n
    on_writer-Emits s n x at =
        Emits-through taken_by (Raised w) PrettyWriterAt w.accepted n (λ v. record x { writer = v })
          s x.writer (w.write_all s x.writer) (w.write_all-Takes s x.writer)
          (error_of_all w s x.writer) (λ y. (refl, at))

    write_spaces-Emits :
        (k n : ℕ) (x : Pretty)
        → PrettyWriterAt n x
        → PrettyEmits (taken_by x) (replicate k b' ') (PrettyWriterGenerator.write_spaces w k x) n
    unfolding PrettyWriterGenerator.write_spaces
    write_spaces-Emits zero n x at = (sym (append-nil (taken_by x)), at)
    write_spaces-Emits (suc k) n x at =
        Emits-then taken_by (Raised w) PrettyWriterAt n n _ (taken_by x) (b' ' ∷ [])
          (replicate k b' ') _ (on_writer-Emits (b' ' ∷ []) n x at) (write_spaces-Emits k n)

    pub new_line-Emits :
        (n : ℕ) (x : Pretty)
        → PrettyWriterAt n x
        → PrettyEmits
            (taken_by x)
            (line_text (n % 2 ^ 16) spaces)
            (PrettyWriterGenerator.new_line w x)
            n
    unfolding PrettyWriterGenerator.new_line
    new_line-Emits n x at =
        Emits-then taken_by (Raised w) PrettyWriterAt n n _ (taken_by x) (0x0a ∷ [])
          (replicate (width (n % 2 ^ 16) spaces) b' ') _ (on_writer-Emits (0x0a ∷ []) n x at)
          λ y h.
            subst
              (λ k.
                PrettyEmits (taken_by y) (replicate (width (n % 2 ^ 16) spaces) b' ')
                  (PrettyWriterGenerator.write_spaces w k y) n)
              (sym (width_lem y h)) (write_spaces-Emits (width (n % 2 ^ 16) spaces) n y h)
      where
        width_lem :
            (y : Pretty)
            → PrettyWriterAt n y
            → width y.dent y.spaces_per_indent ≡ width (n % 2 ^ 16) spaces
        width_lem y h = rw (h.0, h.1) refl
