-- ===== src/ParseStr/Text.antt =====
-- src/lib.rs, `Deserializer::parse_str_`: the loops over 32 bytes against a reading byte by byte.
use simdjson_rs.Prelude.{
  length-take, length-drop, subst, ℕ, zero, suc, ◌≤◌, ◌<◌, true, false, List, [], ◌∷◌, ◌++◌, take,
  drop, length, overwrite, leb, ◌==◌, ◌≡◌, ◌≢◌, refl, sym, ap, ◌∙◌, arith, Bool-cases, inl, inr,
  append_assoc,
}
use simdjson_rs.Error.{Error, ErrorType, Outcome, ok, err, fault, out_of_fuel, ◌>>=◌}
use simdjson_rs.ParseStr.{
  Special, at_quote, at_backslash, nothing, find_special, load_chunk, advance, escape_at,
  escaped_loop,
}
use simdjson_rs.ParseStr.Escape.{escape_at-size}
use simdjson_rs.ParseStr.Chunk.{later, first_special, find_special_lem}

-- More text in front.
abbrev pub prepend : List ℕ → Outcome Error (List ℕ) → Outcome Error (List ℕ)
prepend bytes r = r >>= λ t. ok (bytes ++ t)

pub prepend-nil : (r : Outcome Error (List ℕ)) → prepend [] r ≡ r
prepend-nil (ok t) = refl
prepend-nil (err e) = refl
prepend-nil fault = refl
prepend-nil out_of_fuel = refl

pub prepend-append :
    (a b : List ℕ) (r : Outcome Error (List ℕ)) → prepend (a ++ b) r ≡ prepend a (prepend b r)
prepend-append a b (ok t) = ap ok (append_assoc a b t)
prepend-append a b (err e) = refl
prepend-append a b fault = refl
prepend-append a b out_of_fuel = refl

-- `v` and `s` agree as far as both go.
abbrev pub Matches : List ℕ → List ℕ → Type 0
Matches [] s = Unit
Matches (a ∷ v) [] = Unit
Matches (a ∷ v) (b ∷ s) = (a ≡ b) × Matches v s

Matches-take : (k : ℕ) (s : List ℕ) → Matches (take k s) s
Matches-take zero s = tt
Matches-take (suc k) [] = tt
Matches-take (suc k) (a ∷ s) = (refl, Matches-take k s)

Matches-overwrite : (p s : List ℕ) → length s ≤ length p → Matches (overwrite p s) s
Matches-overwrite [] [] h = tt
Matches-overwrite (a ∷ p) [] h = tt
Matches-overwrite [] (b ∷ s) h = absurd (omega arith)
Matches-overwrite (a ∷ p) (b ∷ s) h = (refl, Matches-overwrite p s (omega arith))

length-overwrite : (p s : List ℕ) → length (overwrite p s) ≡ length p
length-overwrite [] [] = refl
length-overwrite [] (b ∷ s) = refl
length-overwrite (a ∷ p) [] = refl
length-overwrite (a ∷ p) (b ∷ s) = ap suc (length-overwrite p s)

-- The 32 bytes begin as the source does, and the padding keeps its length.
abbrev pub Loaded : List ℕ → List ℕ × List ℕ → Type 0
Loaded s (v, padding') = (length v ≡ 32) × (length padding' ≡ 32) × Matches v s

pub load_chunk-Loaded : (padding s : List ℕ) → length padding ≡ 32 → Loaded s (load_chunk padding s)
unfolding load_chunk
load_chunk-Loaded padding s h = elim (Bool-cases (leb 32 (length s))) [
  | inl e ↦ rw e (length-take 32 s (ground arith), h, Matches-take 32 s)
  | inr n ↦ rw n (
    length-overwrite padding s ∙ h,
    length-overwrite padding s ∙ h,
    Matches-overwrite padding s (ground arith),
  )
]

module _ (error : ErrorType → Error) where
  -- What the bytes behind an opening quote spell, one byte or one escape at a time, up to the
  -- closing quote or to the first escape that is refused.
  pub data Text : List ℕ → Outcome Error (List ℕ) → Type 0 where
    close : (rest : List ℕ) → Text (b'"' ∷ rest) (ok [])
    plain :
        (c : ℕ) {s : List ℕ} {r : Outcome Error (List ℕ)}
        → c ≢ b'"'
        → c ≢ 0x5c
        → Text s r
        → Text (c ∷ s) (prepend (c ∷ []) r)
    escape :
        {s bytes : List ℕ} {n : ℕ} {r : Outcome Error (List ℕ)}
        → escape_at error (0x5c ∷ s) ≡ ok (bytes, n)
        → n ≤ suc (length s)
        → Text (drop n (0x5c ∷ s)) r
        → Text (0x5c ∷ s) (prepend bytes r)
    refuse : {s : List ℕ} {e : Error} → escape_at error (0x5c ∷ s) ≡ err e → Text (0x5c ∷ s) (err e)

  abbrev pub Behind : ℕ → List ℕ → Outcome Error (List ℕ) → Type 0
  Behind k s r = (r' : Outcome Error (List ℕ)) × Text (drop k s) r' × (r ≡ prepend (take k s) r')

  -- What the first special byte of the 32 says about the text.
  abbrev pub Found : List ℕ → List ℕ → Outcome Error (List ℕ) → Special → Type 0
  Found v s r (at_quote k) = (k ≤ length s) × (take k v ≡ take k s) × (r ≡ ok (take k s))
  Found v s r (at_backslash k) =
      (k ≤ length s)
      × (take k v ≡ take k s)
      × Behind k s r
      × ((s' : List ℕ) × (drop k s ≡ 0x5c ∷ s'))
  Found v s r nothing =
      (length v ≤ length s) × (take (length v) v ≡ take (length v) s) × Behind (length v) s r

  -- A byte that is neither in front of what was found.
  Found-later :
      (c : ℕ) (v s : List ℕ) (r : Outcome Error (List ℕ)) (sp : Special)
      → Found v s r sp
      → Found (c ∷ v) (c ∷ s) (prepend (c ∷ []) r) (later sp)
  Found-later c v s r (at_quote k) (h, e, g) =
      (omega arith, ap (λ t. c ∷ t) e, ap (prepend (c ∷ [])) g)
  Found-later c v s r (at_backslash k) (h, e, (r', text, g), b) = (
    omega arith,
    ap (λ t. c ∷ t) e,
    (r', text, ap (prepend (c ∷ [])) g ∙ sym (prepend-append (c ∷ []) (take k s) r')),
    b,
  )
  Found-later c v s r nothing (h, e, (r', text, g)) = (
    omega arith,
    ap (λ t. c ∷ t) e,
    (r', text, ap (prepend (c ∷ [])) g ∙ sym (prepend-append (c ∷ []) (take (length v) s) r')),
  )

  pub first_special-Found :
      (v s : List ℕ) (r : Outcome Error (List ℕ))
      → Matches v s
      → Text s r
      → Found v s r (first_special v)
  first_special-Found [] s r m text = (omega arith, refl, (r, text, sym (prepend-nil r)))
  first_special-Found (a ∷ v) [] r m text = elim text [ ]
  first_special-Found (a ∷ v) (b ∷ s) r (e, m) (close rest) = rw e (omega arith, refl, refl)
  first_special-Found (a ∷ v) (b ∷ s) r (e, m) (plain c n n' text) =
      let no_quote : (b == b'"') ≡ false = ground arith in
      let no_backslash : (b == 0x5c) ≡ false = ground arith in
      rw (e, no_quote, no_backslash)
        (Found-later b v s _ (first_special v) (first_special-Found v s _ m text))
  first_special-Found (a ∷ v) (b ∷ s) r (e, m) (escape g h text) =
      rw e (omega arith, refl, (_, escape g h text, sym (prepend-nil _)), (s, refl))
  first_special-Found (a ∷ v) (b ∷ s) r (e, m) (refuse g) =
      rw e (omega arith, refl, (_, refuse g, refl), (s, refl))

  -- The escape at a backslash, where the loop goes on behind it with what it spells.
  after_escape :
      (next : List ℕ → List ℕ → Outcome Error (List ℕ)) (s dst front : List ℕ)
      (r : Outcome Error (List ℕ))
      → Text (0x5c ∷ s) r
      → ((n : ℕ) (dst' : List ℕ) (r' : Outcome Error (List ℕ))
          → 0 < n
          → Text (drop n (0x5c ∷ s)) r'
          → next (drop n (0x5c ∷ s)) dst' ≡ prepend dst' r')
      → (escape_at error (0x5c ∷ s) >>= λ (bytes, n).
          advance n (0x5c ∷ s) (λ s''. next s'' (dst ++ (front ++ bytes))))
        ≡ prepend dst (prepend front r)
  after_escape next s dst front r (plain c n m text) go = absurd (m refl)
  after_escape next s dst front r (escape {bytes = bytes} {n = n} {r = r'} e h text) go =
      let inside : leb n (suc (length s)) ≡ true = ground arith in
      rw (e, inside)
        (go n (dst ++ (front ++ bytes)) r' (escape_at-size error (0x5c ∷ s) bytes n e).0 text
          ∙ (prepend-append dst (front ++ bytes) r'
              ∙ ap (prepend dst) (prepend-append front bytes r')))
  after_escape next s dst front r (refuse e) go = rw e refl

  -- The second loop gives what the bytes spell, behind the bytes that it has written.
  pub escaped_loop-Text :
      (fuel : ℕ) (padding s dst : List ℕ) (r : Outcome Error (List ℕ))
      → length s < fuel
      → length padding ≡ 32
      → Text s r
      → escaped_loop error fuel padding s dst ≡ prepend dst r
  unfolding escaped_loop
  escaped_loop-Text zero padding s dst r h p text = absurd (omega arith)
  escaped_loop-Text (suc fuel) padding s dst r h p text =
      let loaded : Loaded s (load_chunk padding s) = load_chunk-Loaded padding s p in
      let v = (load_chunk padding s).0 in
      let padding' = (load_chunk padding s).1 in
      let special : find_special v ≡ first_special v =
        find_special_lem v (omega (arith, loaded.0)) in
      let step : (sp : Special)
          → Found v s r sp
          → first_special v ≡ sp
          → escaped_loop error (suc fuel) padding s dst ≡ prepend dst r =
        elim [
          | at_quote k ↦ λ (inside, front, g) e.
              let reaches : leb k (length s) ≡ true = ground arith in
              rw (escaped_loop, special, e, reaches, front, g) refl
          | at_backslash k ↦ λ (inside, front, (r', text', g), (s', d)) e.
              let reaches : leb k (length s) ≡ true = ground arith in
              let go : (n : ℕ) (dst' : List ℕ) (r'' : Outcome Error (List ℕ))
                  → 0 < n
                  → Text (drop n (0x5c ∷ s')) r''
                  → escaped_loop error fuel padding' (drop n (0x5c ∷ s')) dst' ≡ prepend dst' r'' =
                λ n dst' r'' pos t.
                  escaped_loop-Text fuel padding' (drop n (0x5c ∷ s')) dst' r''
                    (omega (arith, length-drop n (0x5c ∷ s'), length-drop k s, ap length d))
                    loaded.1 t in
              rw (escaped_loop, special, e, reaches, d, front, g)
                (after_escape (escaped_loop error fuel padding') s' dst (take k s) r'
                  (subst (λ t. Text t r') d text') go)
          | nothing ↦ λ found e.
              let whole : (32 ≤ length s) × (take 32 v ≡ take 32 s) × Behind 32 s r =
                subst (λ m. (m ≤ length s) × (take m v ≡ take m s) × Behind m s r) loaded.0 found in
              let reaches : leb 32 (length s) ≡ true = ground arith in
              let r' = whole.2.0 in
              rw (escaped_loop, special, e, reaches, whole.1, whole.2.2)
                (escaped_loop-Text fuel padding' (drop 32 s) (dst ++ take 32 s) r'
                    (omega (arith, length-drop 32 s, whole.0)) loaded.1 whole.2.1
                  ∙ prepend-append dst (take 32 s) r')
        ] in
      step (first_special v) (first_special-Found v s r loaded.2 text) refl
