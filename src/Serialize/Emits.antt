-- ===== src/Serialize/Emits.antt =====
-- src/value/owned/serialize.rs: what a generator promises of its operations.
use simdjson_rs.Prelude.{ℕ, suc, List, [], ◌∷◌, ◌++◌, codes, ◌≡◌, refl, sym, ap, ◌∙◌, append_assoc}
use simdjson_rs.Generator.Generators.{
  Io, done, failed, stuck, ◌>>=◌, through, Takes, TakesPart, BaseGenerator,
}
use simdjson_rs.Serialize.Layout.{Layout}

module _ {E G : Type 0} (out : G → List ℕ) (Raises : E → Type 0) (IsAt : ℕ → G → Type 0) where
  -- A run of a generator in front of which `u` was written: behind it `d` is written too, and the
  -- generator is at depth `n`; or a call failed, and a part of `d` is written.
  abbrev pub Emits : List ℕ → List ℕ → Io E G → ℕ → Type 0
  Emits u d (done x) n = (out x ≡ u ++ d) × IsAt n x
  Emits u d (failed e x) n = Raises e × TakesPart u d (out x)
  Emits u d stuck n = ⊥

  -- What was written in front is part of the text.
  Emits-behind :
      (n : ℕ) (u a b v : List ℕ) (r : Io E G) → v ≡ u ++ a → Emits v b r n → Emits u (a ++ b) r n
  Emits-behind n u a b v (done x) e (h, at) = (h ∙ (ap (λ s. s ++ b) e ∙ append_assoc u a b), at)
  Emits-behind n u a b v (failed f x) e (raised, p) = (
    raised,
    record {
      taken = a ++ p.taken;
      rest = p.rest;
      split = ap (λ s. a ++ s) p.split ∙ sym (append_assoc a p.taken p.rest);
      is_taken = p.is_taken ∙ (ap (λ s. s ++ p.taken) e ∙ append_assoc u a p.taken);
    },
  )
  Emits-behind n u a b v stuck e h = absurd h

  pub Emits-then :
      (n m : ℕ) (f : G → Io E G) (u a b : List ℕ) (r : Io E G)
      → Emits u a r n
      → ((x : G) → IsAt n x → Emits (out x) b (f x) m)
      → Emits u (a ++ b) (r >>= f) m
  Emits-then n m f u a b (done x) (e, at) k = Emits-behind m u a b (out x) (f x) e (k x at)
  Emits-then n m f u a b (failed e x) (raised, p) k = (
    raised,
    record {
      taken = p.taken;
      rest = p.rest ++ b;
      split = ap (λ s. s ++ b) p.split ∙ append_assoc p.taken p.rest b;
      is_taken = p.is_taken;
    },
  )
  Emits-then n m f u a b stuck h k = absurd h

  -- A call of the writer under a generator.
  pub Emits-through :
      {W : Type 0} (accepted : W → List ℕ) (n : ℕ) (f : W → G) (s : List ℕ) (w : W) (r : Io E W)
      → Takes accepted s w r
      → ((e : E) (y : W) → r ≡ failed e y → Raises e)
      → ((y : W) → (out (f y) ≡ accepted y) × IsAt n (f y))
      → Emits (accepted w) s (through f r) n
  Emits-through accepted n f s w (done y) h raised k = ((k y).0 ∙ h, (k y).1)
  Emits-through accepted n f s w (failed e y) h raised k = (
    raised e y refl,
    record { taken = h.taken; rest = h.rest; split = h.split; is_taken = (k y).0 ∙ h.is_taken },
  )
  Emits-through accepted n f s w stuck h raised k = absurd h

-- What a generator promises of its operations, by a layout.
pub record Lays {E : Type 0} (g : BaseGenerator E) (l : Layout) : Type 1 where
  pub out : g.G → List ℕ
  pub Raises : E → Type 0
  pub IsAt : ℕ → g.G → Type 0
  pub text_Emits :
      (s : List ℕ) (n : ℕ) (x : g.G)
      → IsAt n x
      → Emits out Raises IsAt (out x) s (g.write_text s x) n
  pub fmt_Emits :
      (s : List ℕ) (n : ℕ) (x : g.G)
      → IsAt n x
      → Emits out Raises IsAt (out x) s (g.write_fmt s x) n
  pub write_Emits :
      (s : List ℕ) (n : ℕ) (x : g.G) → IsAt n x → Emits out Raises IsAt (out x) s (g.write s x) n
  pub char_Emits :
      (ch n : ℕ) (x : g.G)
      → IsAt n x
      → Emits out Raises IsAt (out x) (ch ∷ []) (g.write_char ch x) n
  pub separator_Emits :
      (n : ℕ) (x : g.G)
      → IsAt n x
      → Emits out Raises IsAt (out x) l.separator (g.write_min (codes ": ") b':' x) n
  pub line_Emits :
      (n : ℕ) (x : g.G) → IsAt n x → Emits out Raises IsAt (out x) (l.line n) (g.new_line x) n
  pub indents :
      (n : ℕ) (x : g.G) → IsAt n x → (out (g.indent x) ≡ out x) × IsAt (suc n) (g.indent x)
  pub dedents :
      (n : ℕ) (x : g.G) → IsAt (suc n) x → (out (g.dedent x) ≡ out x) × IsAt n (g.dedent x)
