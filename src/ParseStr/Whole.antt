-- ===== src/ParseStr/Whole.antt =====
-- src/lib.rs, `Deserializer::parse_str_`: the whole function against a reading byte by byte.
use simdjson_rs.Prelude.{
  suc_add, take-add, drop-add, length-drop, ℕ, zero, suc, ◌+◌, ◌-◌, ◌≤◌, ◌<◌, true, List, [], ◌∷◌,
  ◌++◌, take, drop, subst, length, overwrite, overwrite_at, replicate, leb, ◌≡◌, refl, sym, ap, ◌∙◌,
  arith, length-append,
}
use simdjson_rs.Error.{Error, ErrorType, Outcome, ok, err, fault, out_of_fuel, ◌>>=◌}
use simdjson_rs.ParseStr.{
  Special, at_quote, at_backslash, nothing, find_special, load_chunk, Plain, closed, escaped,
  plain_loop, escaped_loop, string_text, parse_str_,
}
use simdjson_rs.ParseStr.Escape.{escape_at-size}
use simdjson_rs.ParseStr.Chunk.{first_special, find_special_lem}
use simdjson_rs.ParseStr.Text.{
  Text, close, plain, escape, refuse, prepend, prepend-nil, prepend-append, Found, Behind, Loaded,
  load_chunk-Loaded, first_special-Found, escaped_loop-Text,
}

take-overwrite : (s t : List ℕ) → length t ≤ length s → take (length t) (overwrite s t) ≡ t
take-overwrite s [] h = refl
take-overwrite [] (b ∷ t) h = absurd (omega arith)
take-overwrite (a ∷ s) (b ∷ t) h = ap (λ u. b ∷ u) (take-overwrite s t (omega arith))

-- A text that is written at `m` into what is behind `idx`, read back with the bytes in front of it.
written_front :
    (m : ℕ) (s t : List ℕ)
    → length t ≤ length s - m
    → m ≤ length s
    → take (m + length t) (overwrite_at m s t) ≡ take m s ++ t
written_front zero s t h g =
    ap (λ n. take n (overwrite s t)) (omega arith) ∙ take-overwrite s t (omega arith)
written_front (suc m) [] t h g = absurd (omega arith)
written_front (suc m) (a ∷ s) t h g =
    ap (λ n. take n (a ∷ overwrite_at m s t)) (suc_add m (length t))
    ∙ ap (λ u. a ∷ u) (written_front m s t (omega arith) (omega arith))

overwrite_at-nil : (m : ℕ) (t : List ℕ) → overwrite_at m [] t ≡ []
overwrite_at-nil zero [] = refl
overwrite_at-nil zero (b ∷ t) = refl
overwrite_at-nil (suc m) t = refl

drop-overwrite_at :
    (idx m : ℕ) (s t : List ℕ)
    → drop idx (overwrite_at (idx + m) s t) ≡ overwrite_at m (drop idx s) t
drop-overwrite_at zero m s t = ap (λ n. overwrite_at n s t) (omega arith)
drop-overwrite_at (suc idx) m [] t =
    ap (drop (suc idx)) (overwrite_at-nil (suc idx + m) t) ∙ sym (overwrite_at-nil m t)
drop-overwrite_at (suc idx) m (a ∷ s) t =
    ap (λ n. drop (suc idx) (overwrite_at n (a ∷ s) t)) (suc_add idx m)
    ∙ drop-overwrite_at idx m s t

module _ (error : ErrorType → Error) where
  -- What the first loop ends with: where it stands in `src`, and what is spelled from there on.
  abbrev Ending : List ℕ → Outcome Error (List ℕ) → Plain → Type 0
  Ending src r (closed m) = (m ≤ length src) × (r ≡ ok (take m src))
  Ending src r (escaped m s padding) =
      (m ≤ length src)
      × (s ≡ drop m src)
      × (length padding ≡ 32)
      × ((r' : Outcome Error (List ℕ)) × Text error s r' × (r ≡ prepend (take m src) r'))

  moved :
      (a b : ℕ) (src : List ℕ) (r r' r'' : Outcome Error (List ℕ))
      → r ≡ prepend (take a src) r'
      → r' ≡ prepend (take b (drop a src)) r''
      → r ≡ prepend (take (a + b) src) r''
  moved a b src r r' r'' g f =
      g
      ∙ (ap (prepend (take a src)) f
          ∙ (sym (prepend-append (take a src) (take b (drop a src)) r'')
              ∙ ap (λ t. prepend t r'') (sym (take-add a b src))))

  plain_loop-Ending :
      (fuel : ℕ) (padding src : List ℕ) (len : ℕ) (r r' : Outcome Error (List ℕ))
      → length src - len < fuel
      → len ≤ length src
      → length padding ≡ 32
      → Text error (drop len src) r'
      → r ≡ prepend (take len src) r'
      → (p : Plain) × (plain_loop fuel padding (drop len src) len ≡ ok p) × Ending src r p
  unfolding plain_loop
  plain_loop-Ending zero padding src len r r' h i p text e = absurd (omega arith)
  plain_loop-Ending (suc fuel) padding src len r r' h i p text g =
      let s = drop len src in
      let size : length s ≡ length src - len = length-drop len src in
      let loaded : Loaded s (load_chunk padding s) = load_chunk-Loaded padding s p in
      let v = (load_chunk padding s).0 in
      let padding' = (load_chunk padding s).1 in
      let special : find_special v ≡ first_special v =
        find_special_lem v (omega (arith, loaded.0)) in
      let step : (sp : Special)
          → Found error v s r' sp
          → first_special v ≡ sp
          → (p : Plain) × (plain_loop (suc fuel) padding s len ≡ ok p) × Ending src r p =
        elim [
          | at_quote k ↦ λ (inside, front, f) e.
              let reaches : leb k (length s) ≡ true = ground arith in
              (
                closed (len + k),
                rw (plain_loop, special, e, reaches) refl,
                (
                  omega (arith, size),
                  g ∙ (ap (prepend (take len src)) f ∙ ap ok (sym (take-add len k src))),
                ),
              )
          | at_backslash k ↦ λ (inside, front, (r'', text', f), (s', d)) e.
              let reaches : leb k (length s) ≡ true = ground arith in
              let spelled : r ≡ prepend (take (len + k) src) r'' = moved len k src r r' r'' g f in
              (
                escaped (len + k) (drop k s) padding',
                rw (plain_loop, special, e, reaches) refl,
                (omega (arith, size), sym (drop-add len k src), loaded.1, (r'', text', spelled)),
              )
          | nothing ↦ λ found e.
              let whole : (32 ≤ length s) × (take 32 v ≡ take 32 s) × Behind error 32 s r' =
                subst (λ m. (m ≤ length s) × (take m v ≡ take m s) × Behind error m s r') loaded.0
                  found in
              let reaches : leb 32 (length s) ≡ true = ground arith in
              let r'' = whole.2.0 in
              let there : drop (len + 32) src ≡ drop 32 s = drop-add len 32 src in
              let spelled : r ≡ prepend (take (len + 32) src) r'' =
                moved len 32 src r r' r'' g whole.2.2 in
              let go =
                plain_loop-Ending fuel padding' src (len + 32) r r'' (omega (arith, size, whole.0))
                  (omega (arith, size, whole.0)) loaded.1
                  (subst (λ u. Text error u r'') (sym there) whole.2.1) spelled in
              let (q, runs, ending) = go in
              (
                q,
                rw (plain_loop, special, e, reaches)
                    (subst (λ u. plain_loop fuel padding' u (len + 32) ≡ ok q) there runs),
                ending,
              )
        ] in
      step (first_special v) (first_special-Found error v s r' loaded.2 text) refl

  -- A text is no longer than what spells it.
  Fits : ℕ → Outcome Error (List ℕ) → Type 0
  Fits n (ok t) = length t ≤ n
  Fits n (err e) = Unit
  Fits n fault = Unit
  Fits n out_of_fuel = Unit

  Fits-prepend :
      (m n : ℕ) (bytes : List ℕ) (r : Outcome Error (List ℕ))
      → length bytes + m ≤ n
      → Fits m r
      → Fits n (prepend bytes r)
  unfolding Fits
  Fits-prepend m n bytes (ok t) h f = omega (arith, length-append bytes t)
  Fits-prepend m n bytes (err e) h f = tt
  Fits-prepend m n bytes fault h f = tt
  Fits-prepend m n bytes out_of_fuel h f = tt

  Text-Fits : {s : List ℕ} {r : Outcome Error (List ℕ)} → Text error s r → Fits (length s) r
  unfolding Fits
  Text-Fits (close rest) = omega arith
  Text-Fits (plain c {s = s} {r = r} n m text) =
      Fits-prepend (length s) (suc (length s)) (c ∷ []) r (omega arith) (Text-Fits text)
  Text-Fits (escape {s = s} {bytes = bytes} {n = n} {r = r} e h text) =
      Fits-prepend (length (drop n (0x5c ∷ s))) (suc (length s)) bytes r
        (omega (arith, length-drop n (0x5c ∷ s), escape_at-size error (0x5c ∷ s) bytes n e))
        (Text-Fits text)
  Text-Fits (refuse e) = tt

  Fits-ok : (n : ℕ) (t : List ℕ) → Fits n (ok t) → length t ≤ n
  unfolding Fits
  Fits-ok n t f = f

  -- The text that `parse_str_` returns.
  abbrev pub text_of : Outcome Error (List ℕ × List ℕ) → Outcome Error (List ℕ)
  text_of o = o >>= λ (t, input). ok t

  string_text-Ending :
      (fuel : ℕ) (input : List ℕ) (idx : ℕ) (r : Outcome Error (List ℕ)) (p : Plain)
      → length (drop idx input) < fuel
      → Ending (drop idx input) r p
      → text_of (string_text error fuel input idx p) ≡ r
  unfolding string_text
  string_text-Ending fuel input idx r (closed m) h (i, e) = sym e
  string_text-Ending fuel input idx r (escaped m s padding) h (i, d, l, (r', text, g)) =
      let src = drop idx input in
      let short : length s ≡ length src - m = ap length d ∙ length-drop m src in
      let runs : escaped_loop error fuel padding s [] ≡ r' =
        escaped_loop-Text error fuel padding s [] r' (omega arith) l text ∙ prepend-nil r' in
      let write : (r' : Outcome Error (List ℕ))
          → Fits (length s) r'
          → escaped_loop error fuel padding s [] ≡ r'
          → text_of (string_text error fuel input idx (escaped m s padding))
            ≡ prepend (take m src) r' =
        elim [
          | ok t ↦ λ f e.
              let room : length t ≤ length src - m = omega (arith, short, Fits-ok (length s) t f) in
              rw e (
                ap (λ u. ok (take (m + length t) u)) (drop-overwrite_at idx m input t)
                ∙ ap ok (written_front m src t room i))
          | err x ↦ λ f e. rw e refl
          | fault ↦ λ f e. rw e refl
          | out_of_fuel ↦ λ f e. rw e refl
        ] in
      write r' (Text-Fits text) runs ∙ sym g

  -- If the bytes behind the opening quote spell a text up to a closing quote, read one byte or one
  -- escape at a time, then `parse_str_` returns that text from its input; if they spell a text up
  -- to an escape that is refused, it returns the error of that escape.
  pub parse_str_-Text :
      (input : List ℕ) (iidx : ℕ) (r : Outcome Error (List ℕ))
      → Text error (drop (iidx + 1) input) r
      → text_of (parse_str_ error input iidx) ≡ r
  unfolding parse_str_
  parse_str_-Text input iidx r text =
      let src = drop (iidx + 1) input in
      let (p, runs, ending) =
        plain_loop-Ending (suc (length src)) (replicate 32 0) src 0 r r (omega arith) (omega arith)
          refl text (sym (prepend-nil r)) in
      rw runs (string_text-Ending (suc (length src)) input (iidx + 1) r p (omega arith) ending)
