-- ===== src/Utf8Check/States.antt =====
-- src/utf8check.rs, `avxcheck_utf8_bytes`: the check of a vector against UTF-8, one byte after another.
use simdjson_rs.Prelude.{
  ℕ, ◌<◌, ◌&&◌, some, List, [], ◌∷◌, length, get_or, ◌≡◌, sym, ap, ◌∙◌, subst, arith, AreBytes,
}
use simdjson_rs.Utf8Check.{AvxProcessedUtfBytes, avxcheck_utf8_bytes}
use simdjson_rs.Utf8Check.Walk.{nibbles, carries}
use simdjson_rs.Utf8Check.Pushes.{avxcheck_utf8_bytes-errors}
use simdjson_rs.Utf8Check.Carries.{Knows}
use simdjson_rs.Utf8Check.Runs.{scans, is_text, all_zero, errors_test}
use simdjson_rs.Utf8Check.Vectors.{
  IsState, AreLast, AreLast-Knows, vector-Leaves, pair_behind, get_or-pair_behind,
  get_or-byte_behind, scans-same, scans-last, length-carries, nibble_at,
}

same_scans : (n p q : ℕ) (v : List ℕ) → 0 < length v → (0 < n → q ≡ p) → scans n q v ≡ scans n p v
same_scans n p q [] h e = absurd (omega arith)
same_scans n p q (c ∷ v) h e = scans-same n p q c v e

-- The state that a vector leaves.
module _ (n p : ℕ) (u : AvxProcessedUtfBytes) (i : IsState n p u) (v : List ℕ) (bytes : AreBytes v)
    (h : length v ≡ 32) where
  abbrev l : ℕ
  l = get_or u.carried_continuations 31 0

  abbrev s : ℕ
  s = get_or u.carried_continuations 30 0

  abbrev q : ℕ
  q = get_or u.rawbytes 31 0

  abbrev left : AvxProcessedUtfBytes
  left = record { rawbytes = v; high_nibbles = nibbles v; carried_continuations = carries l s l v }

  knows : Knows n l s l
  knows = AreLast-Knows n s l i.last

  left-IsState : (r : ℕ × ℕ) → scans n p v ≡ some r → IsState r.0 r.1 left
  left-IsState r e =
      let e' : scans n q v ≡ some r = same_scans n p q v (omega arith) i.lead ∙ e in
      let (last, small, low, byte) = vector-Leaves v n l s q r (omega arith) bytes knows e' in
      let c = length-carries l s l v ∙ h in
      let (a, b) = get_or-pair_behind 30 0 0 (carries l s l v) c in
      let raw : get_or v 31 0 ≡ r.1 = get_or-byte_behind 31 q v h ∙ scans-last v n q r e' in
      record {
        nibble = nibble_at v 31;
        full = c;
        last =
            subst (λ x. AreLast r.0 (x, get_or (carries l s l v) 31 0)) (sym a)
              (subst (λ y. AreLast r.0 ((pair_behind 0 0 (carries l s l v)).0, y)) (sym b) last);
        small = small;
        lead = λ _. raw;
        byte = subst (λ x. x < 256) (sym raw) byte;
        low = λ z. subst (λ x. x < 192) (sym raw) (low z);
      }

-- Where the state of the check is that behind a text which lacks `n` bytes of a character,
-- `avxcheck_utf8_bytes` of a vector finds no error exactly if none was found before and the vector
-- goes on with the text as UTF-8, and its state is then that behind the longer text.
pub avxcheck_utf8_bytes-scans :
    (n p : ℕ) (v e : List ℕ) (previous : AvxProcessedUtfBytes)
    → AreBytes v
    → length v ≡ 32
    → length e ≡ 32
    → IsState n p previous
    → (all_zero (avxcheck_utf8_bytes v previous e).1 ≡ (all_zero e && is_text (scans n p v)))
      × ((r : ℕ × ℕ) → scans n p v ≡ some r → IsState r.0 r.1 (avxcheck_utf8_bytes v previous e).0)
avxcheck_utf8_bytes-scans n p v e previous bytes h g i =
    let run = avxcheck_utf8_bytes-errors v e previous bytes h i.nibble in
    let l = get_or previous.carried_continuations 31 0 in
    let s = get_or previous.carried_continuations 30 0 in
    let q = get_or previous.rawbytes 31 0 in
    (
      ap (λ x. all_zero x.1) run
          ∙ (errors_test e v n l s l q (g ∙ sym h) bytes i.byte (AreLast-Knows n s l i.last) i.low
              ∙ ap (λ o. all_zero e && is_text o) (same_scans n p q v (omega arith) i.lead)),
      λ r t. subst (λ x. IsState r.0 r.1 x.0) (sym run) (left-IsState n p previous i v bytes h r t),
    )
