-- ===== src/Generator/Generators.antt =====
-- src/value/generator.rs: the operations of the trait `BaseGenerator` that its implementations
-- define or write over. A `u16` wraps around, as in a release build.
use simdjson_rs.Prelude.{ℕ, zero, suc, ◌+◌, ◌-◌, ◌*◌, ◌%◌, ◌^◌, List, [], ◌∷◌, ◌++◌, ◌≡◌}

-- `io::Result<()>`, and what `self` is after the call. `stuck` is a run of the model that has no
-- result: the fuel is used up.
pub data Io (E S : Type 0) : Type 0 where
  done : S → Io E S
  failed : E → S → Io E S
  stuck : Io E S

module _ {E S : Type 0} where
  infixl 5 ◌>>=◌
  -- `stry!(…)` and what follows it.
  abbrev pub ◌>>=◌ : Io E S → (S → Io E S) → Io E S
  done s >>= f = f s
  failed e s >>= f = failed e s
  stuck >>= f = stuck

-- A call through a part of the state.
abbrev pub through : {E S T : Type 0} → (S → T) → Io E S → Io E T
through f (done s) = done (f s)
through f (failed e s) = failed e (f s)
through f stuck = stuck

-- The writer took a part of the text, up to some byte.
pub record TakesPart (before text after : List ℕ) : Type 0 where
  pub taken : List ℕ
  pub rest : List ℕ
  pub split : text ≡ taken ++ rest
  pub is_taken : after ≡ before ++ taken

-- What a call that writes a text does to the bytes that the writer has taken: all of the text, or,
-- with an error, a part of it.
abbrev pub Takes : {E W : Type 0} → (W → List ℕ) → List ℕ → W → Io E W → Type 0
Takes accepted s w (done w') = accepted w' ≡ accepted w ++ s
Takes accepted s w (failed e w') = TakesPart (accepted w) s (accepted w')
Takes accepted s w stuck = ⊥

-- A type with `io::Write` is a parameter. `accepted` are the bytes that the writer has taken so far,
-- which it may keep in a buffer or pass on. `write_fmt` gets the text that the arguments of `write!`
-- format to.
pub record Write : Type 1 where
  pub W : Type 0
  pub E : Type 0
  pub accepted : W → List ℕ
  pub write_all : List ℕ → W → Io E W
  pub write_fmt : List ℕ → W → Io E W
  pub write_all-Takes : (s : List ℕ) (w : W) → Takes accepted s w (write_all s w)
  pub write_fmt-Takes : (s : List ℕ) (w : W) → Takes accepted s w (write_fmt s w)

-- An error that a call of the writer returns.
pub data Raised (w : Write) : w.E → Type 0 where
  by_write_all : {e : w.E} (s : List ℕ) (x y : w.W) → w.write_all s x ≡ failed e y → Raised w e
  by_write_fmt : {e : w.E} (s : List ℕ) (x y : w.W) → w.write_fmt s x ≡ failed e y → Raised w e

-- `write_text` is `get_writer().write_all`, `write_fmt` is `write!(self.get_writer(), …)`.
pub record BaseGenerator (E : Type 0) : Type 1 where
  pub G : Type 0
  pub write_text : List ℕ → G → Io E G
  pub write_fmt : List ℕ → G → Io E G
  pub write : List ℕ → G → Io E G
  pub write_char : ℕ → G → Io E G
  pub write_min : List ℕ → ℕ → G → Io E G
  pub new_line : G → Io E G
  pub indent : G → G
  pub dedent : G → G

-- The copy behind the end of `dst`.
unfoldable pub extend_from_slice : List ℕ → List ℕ → List ℕ
extend_from_slice dst src = dst ++ src

-- `push(b' ')`, `n` times.
unfoldable pub push_spaces : ℕ → List ℕ → List ℕ
push_spaces zero code = code
push_spaces (suc n) code = push_spaces n (code ++ b' ' ∷ [])

-- `dent * spaces_per_indent`, `dent += 1` and `dent -= 1`.
abbrev pub width : ℕ → ℕ → ℕ
width dent spaces_per_indent = (dent * spaces_per_indent) % 2 ^ 16

abbrev pub deeper : ℕ → ℕ
deeper dent = (dent + 1) % 2 ^ 16

abbrev pub shallower : ℕ → ℕ
shallower dent = (dent + (2 ^ 16 - 1)) % 2 ^ 16
