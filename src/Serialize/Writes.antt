-- ===== src/Serialize/Writes.antt =====
-- src/value/owned/serialize.rs: `write_json` over any generator writes the text of the value.
use simdjson_rs.Prelude.{
  ℕ, zero, suc, true, false, List, [], ◌∷◌, ◌++◌, codes, ◌≡◌, refl, subst, append_assoc, AreBytes,
}
use simdjson_rs.Value.{
  Value, null, bool, int, float, string, array, object, Values, nil, cons, Map, new, insert,
}
use simdjson_rs.Generator.Generators.{Io, BaseGenerator}
use simdjson_rs.Serialize.{
  Texts, entry, more_entries, more_items, write_object, write_array, write_json,
}
use simdjson_rs.Serialize.Layout.{
  Layout, quoted, behind, bracketed, item_texts, entry_texts, Every, EveryEntry, Fits,
  YieldsEntries, text,
}
use simdjson_rs.Serialize.Emits.{Lays}
use simdjson_rs.Serialize.Puts.{
  Puts, Puts-then, Puts-char, Puts-line, Puts-indent_line, Puts-dedent_line, Puts-nothing,
  Puts-write, Puts-text, Puts-separator,
}
use simdjson_rs.Serialize.Strings.{Puts-string}

regroup : (a b c d : List ℕ) → ((a ++ b) ++ c) ++ d ≡ a ++ (b ++ (c ++ d))
regroup a b c d = rw (append_assoc (a ++ b) c d, append_assoc a b (c ++ d)) refl

regroup_brackets :
    (a b c d e f : List ℕ) → ((((a ++ b) ++ c) ++ d) ++ e) ++ f ≡ a ++ (b ++ (c ++ (d ++ (e ++ f))))
regroup_brackets a b c d e f =
    rw (append_assoc (((a ++ b) ++ c) ++ d) e f, append_assoc ((a ++ b) ++ c) d (e ++ f))
      (regroup a b c (d ++ (e ++ f)))

module _ {F : Type 0} (t : Texts F) {E : Type 0} (g : BaseGenerator E) (l : Layout)
    (lays : Lays g l) where
  open g use {G}

  -- The texts of what stands inside.
  module _ (print : Value F → G → Io E G) (written : Value F → List ℕ) (n : ℕ) where
    abbrev Printed : Value F → Type 0
    Printed v = Puts g l lays (print v) n n (written v)

    Puts-entry :
        (key : List ℕ) (v : Value F)
        → AreBytes key
        → Printed v
        → Puts g l lays (entry t g print key v) n n (quoted key ++ (l.separator ++ written v))
    Puts-entry key v b p =
        subst (Puts g l lays (entry t g print key v) n n)
          (append_assoc (quoted key) l.separator (written v))
          (Puts-then g l lays
            (Puts-then g l lays (Puts-string g l lays n key b) (Puts-separator g l lays n)) p)

    Puts-more_items :
        (vs : Values F)
        → Every Printed vs
        → Puts g l lays (more_items t g print vs) n n (behind l n (item_texts written vs))
    unfolding behind item_texts
    Puts-more_items nil h = Puts-nothing g l lays n
    Puts-more_items (cons v vs) (p, h) =
        subst (Puts g l lays (more_items t g print (cons v vs)) n n)
          (regroup (b',' ∷ []) (l.line n) (written v) (behind l n (item_texts written vs)))
          (Puts-then g l lays
            (Puts-then g l lays
              (Puts-then g l lays (Puts-char g l lays b',' n) (Puts-line g l lays n)) p)
            (Puts-more_items vs h))

    Puts-more_entries :
        (m : Map F)
        → EveryEntry (λ key v. AreBytes key × Printed v) m
        → Puts g l lays (more_entries t g print m) n n (behind l n (entry_texts l written m))
    unfolding behind entry_texts
    Puts-more_entries new h = Puts-nothing g l lays n
    Puts-more_entries (insert key v m) ((b, p), h) =
        subst (Puts g l lays (more_entries t g print (insert key v m)) n n)
          (regroup (b',' ∷ []) (l.line n) (quoted key ++ (l.separator ++ written v))
            (behind l n (entry_texts l written m)))
          (Puts-then g l lays
            (Puts-then g l lays
              (Puts-then g l lays (Puts-char g l lays b',' n) (Puts-line g l lays n))
              (Puts-entry key v b p))
            (Puts-more_entries m h))

  module _ (print : Value F → G → Io E G) (written : Value F → List ℕ) (n : ℕ) where
    Puts-write_array :
        (vs : Values F)
        → Every (Printed print written (suc n)) vs
        → Puts g l lays
            (write_array t g print vs)
            n
            n
            (bracketed l n b'[' b']' (item_texts written vs))
    unfolding write_array bracketed item_texts
    Puts-write_array nil h =
        Puts-then g l lays (Puts-char g l lays b'[' n) (Puts-char g l lays b']' n)
    Puts-write_array (cons v vs) (p, h) =
        subst (Puts g l lays (write_array t g print (cons v vs)) n n)
          (regroup_brackets (b'[' ∷ []) (l.line (suc n)) (written v)
            (behind l (suc n) (item_texts written vs)) (l.line n) (b']' ∷ []))
          (Puts-then g l lays
            (Puts-then g l lays
              (Puts-then g l lays
                (Puts-then g l lays
                  (Puts-then g l lays (Puts-char g l lays b'[' n) (Puts-indent_line g l lays n)) p)
                (Puts-more_items print written (suc n) vs h))
              (Puts-dedent_line g l lays n))
            (Puts-char g l lays b']' n))

    Puts-write_object :
        (m : Map F)
        → EveryEntry (λ key v. AreBytes key × Printed print written (suc n) v) m
        → Puts g l lays
            (write_object t g print m)
            n
            n
            (bracketed l n b'{' b'}' (entry_texts l written m))
    unfolding write_object bracketed entry_texts
    Puts-write_object new h =
        Puts-then g l lays (Puts-char g l lays b'{' n) (Puts-char g l lays b'}' n)
    Puts-write_object (insert key v m) ((b, p), h) =
        subst (Puts g l lays (write_object t g print (insert key v m)) n n)
          (regroup_brackets (b'{' ∷ []) (l.line (suc n)) (quoted key ++ (l.separator ++ written v))
            (behind l (suc n) (entry_texts l written m)) (l.line n) (b'}' ∷ []))
          (Puts-then g l lays
            (Puts-then g l lays
              (Puts-then g l lays
                (Puts-then g l lays
                  (Puts-then g l lays (Puts-char g l lays b'{' n) (Puts-indent_line g l lays n))
                  (Puts-entry print written (suc n) key v b p))
                (Puts-more_entries print written (suc n) m h))
              (Puts-dedent_line g l lays n))
            (Puts-char g l lays b'}' n))

  module _ (yields : YieldsEntries t) where
    Every-map :
        {P Q : Value F → Type 0} (f : (v : Value F) → P v → Q v) (vs : Values F)
        → Every P vs
        → Every Q vs
    Every-map f nil h = tt
    Every-map f (cons v vs) (p, h) = (f v p, Every-map f vs h)

    EveryEntry-map :
        {P Q : Value F → Type 0} (f : (v : Value F) → P v → Q v) (m : Map F)
        → EveryEntry (λ key v. AreBytes key × P v) m
        → EveryEntry (λ key v. AreBytes key × Q v) m
    EveryEntry-map f new h = tt
    EveryEntry-map f (insert key v m) ((b, p), h) = ((b, f v p), EveryEntry-map f m h)

    pub write_json-Puts :
        (fuel n : ℕ) (v : Value F)
        → Fits fuel v
        → Puts g l lays (write_json t g fuel v) n n (text t l fuel n v)
    unfolding write_json text Fits
    write_json-Puts zero n v h = absurd h
    write_json-Puts (suc fuel) n null h = Puts-write g l lays (codes "null") n
    write_json-Puts (suc fuel) n (bool true) h = Puts-write g l lays (codes "true") n
    write_json-Puts (suc fuel) n (bool false) h = Puts-write g l lays (codes "false") n
    write_json-Puts (suc fuel) n (int i) h = Puts-text g l lays (t.itoa i) n
    write_json-Puts (suc fuel) n (float y) h = Puts-text g l lays (t.ryu y) n
    write_json-Puts (suc fuel) n (string s) h = Puts-string g l lays n s h
    write_json-Puts (suc fuel) n (array vs) h =
        Puts-write_array (write_json t g fuel) (text t l fuel (suc n)) n vs
          (Every-map (write_json-Puts fuel (suc n)) vs h)
    write_json-Puts (suc fuel) n (object m) h =
        Puts-write_object (write_json t g fuel) (text t l fuel (suc n)) n (t.iter m)
          (EveryEntry-map (write_json-Puts fuel (suc n)) (t.iter m) (yields _ m h))
