-- ===== src/Serialize/Puts.antt =====
-- src/value/generator.rs: runs of a generator that write a text.
use simdjson_rs.Prelude.{ℕ, suc, List, [], ◌∷◌, ◌++◌, codes, ◌≡◌, sym, subst, append-nil}
use simdjson_rs.Generator.Generators.{Io, done, ◌>>=◌, BaseGenerator}
use simdjson_rs.Serialize.Layout.{Layout}
use simdjson_rs.Serialize.Emits.{Emits, Emits-then, Lays}

module _ {E : Type 0} (g : BaseGenerator E) (l : Layout) (lays : Lays g l) where
  open g use {G}

  -- From depth `n` to depth `m` it writes `d`.
  pub record Puts (f : G → Io E G) (n m : ℕ) (d : List ℕ) : Type 0 where
    pub puts : (x : G) → lays.IsAt n x → Emits lays.out lays.Raises lays.IsAt (lays.out x) d (f x) m

  pub Puts-then :
      {n m k : ℕ} {f h : G → Io E G} {a b : List ℕ}
      → Puts f n m a
      → Puts h m k b
      → Puts (λ x. f x >>= h) n k (a ++ b)
  Puts-then {m} {k} {f} {h} {a} {b} p q = record {
    puts = λ x at.
        Emits-then lays.out lays.Raises lays.IsAt m k h (lays.out x) a b (f x) (p.puts x at) q.puts;
  }

  pub Puts-same :
      {n m : ℕ} {f h : G → Io E G} {d : List ℕ}
      → ((x : G) → f x ≡ h x)
      → Puts h n m d
      → Puts f n m d
  Puts-same {m} {d} e p = record {
    puts = λ x at.
        subst (λ r. Emits lays.out lays.Raises lays.IsAt (lays.out x) d r m) (sym (e x))
          (p.puts x at);
  }

  pub Puts-char : (ch n : ℕ) → Puts (g.write_char ch) n n (ch ∷ [])
  Puts-char ch n = record { puts = lays.char_Emits ch n }

  pub Puts-line : (n : ℕ) → Puts g.new_line n n (l.line n)
  Puts-line n = record { puts = lays.line_Emits n }

  pub Puts-indent_line : (n : ℕ) → Puts (λ x. g.new_line (g.indent x)) n (suc n) (l.line (suc n))
  Puts-indent_line n = record {
    puts = λ x at.
        let (e, h) = lays.indents n x at in
        subst
          (λ u.
            Emits lays.out lays.Raises lays.IsAt u (l.line (suc n)) (g.new_line (g.indent x))
              (suc n))
          e (lays.line_Emits (suc n) (g.indent x) h);
  }

  pub Puts-dedent_line : (n : ℕ) → Puts (λ x. g.new_line (g.dedent x)) (suc n) n (l.line n)
  Puts-dedent_line n = record {
    puts = λ x at.
        let (e, h) = lays.dedents n x at in
        subst (λ u. Emits lays.out lays.Raises lays.IsAt u (l.line n) (g.new_line (g.dedent x)) n) e
          (lays.line_Emits n (g.dedent x) h);
  }

  pub Puts-nothing : (n : ℕ) → Puts (λ x. done x) n n []
  Puts-nothing n = record { puts = λ x at. (sym (append-nil (lays.out x)), at) }

  pub Puts-write : (s : List ℕ) (n : ℕ) → Puts (g.write s) n n s
  Puts-write s n = record { puts = lays.write_Emits s n }

  pub Puts-text : (s : List ℕ) (n : ℕ) → Puts (g.write_text s) n n s
  Puts-text s n = record { puts = lays.text_Emits s n }

  pub Puts-fmt : (s : List ℕ) (n : ℕ) → Puts (g.write_fmt s) n n s
  Puts-fmt s n = record { puts = lays.fmt_Emits s n }

  pub Puts-separator : (n : ℕ) → Puts (g.write_min (codes ": ") b':') n n l.separator
  Puts-separator n = record { puts = lays.separator_Emits n }
