-- ===== src/Validate/Reads.antt =====
-- `validate` of src/stage2.rs: what follows the tokens between and around the values of a scope.
use simdjson_rs.Prelude.{ℕ, ◌+◌, ◌≡◌, ◌≢◌, refl, sym, ◌∙◌, List}
use simdjson_rs.Error.{ok}
use simdjson_rs.Validate.{
  Input, object_key, scope_end, main_array_switch, object, Frame, Machine, goto, array_continue,
  object_continue, array_begin, object_begin, scan_value, object_key_step, step,
}
use simdjson_rs.Validate.Automaton.{Token, quote, comma, colon, close_array, close_object}
use simdjson_rs.Validate.Leads.{
  comma_byte, colon_byte, quote_byte, close_array_byte, close_object_byte, value_byte, only, Read,
}

module _ (input : Input) (n : ℕ) where
  -- The machine behind a structural character.
  abbrev pub arrived :
      {m : Machine} {fs : List Frame} {t : Token} {ts : List Token}
      → Read input n m fs t ts
      → Machine
  arrived {m} r = record m { si = r.r; i = m.i + 1; idx = r.p; c = r.c }

  abbrev pub counted_on : Machine → Machine
  counted_on m = record m { cnt = m.cnt + 1 }

  module _ {m : Machine} {fs : List Frame} {ts : List Token} where
    pub array_closes :
        (r : Read input n m fs close_array ts)
        → array_continue input m ≡ ok (goto scope_end (arrived r))
    unfolding array_continue
    array_closes r =
        let byte = close_array_byte input r.p r.c r.token_is in
        rw (r.reads, only r.c b']' b',' byte refl, byte) refl

    pub object_closes :
        (r : Read input n m fs close_object ts)
        → object_continue input m ≡ ok (goto scope_end (arrived r))
    unfolding object_continue
    object_closes r =
        let byte = close_object_byte input r.p r.c r.token_is in
        rw (r.reads, only r.c b'}' b',' byte refl, byte) refl

    pub array_goes_on :
        {t : Token} {us : List Token} (r : Read input n m fs comma us)
        (r' : Read input n (counted_on (arrived r)) fs t ts)
        → array_continue input m ≡ ok (goto main_array_switch (arrived r'))
    unfolding array_continue
    array_goes_on r r' = rw (r.reads, comma_byte input r.p r.c r.token_is, r'.reads) refl

    pub object_goes_on :
        {us : List Token} (r : Read input n m fs comma us)
        (r' : Read input n (counted_on (arrived r)) fs quote ts)
        → object_continue input m ≡ ok (goto object_key (arrived r'))
    unfolding object_continue
    object_goes_on r r' =
        rw
          (
            r.reads,
            comma_byte input r.p r.c r.token_is,
            r'.reads,
            quote_byte input r'.p r'.c r'.token_is,
          )
          refl

    pub array_is_empty :
        (r : Read input n m fs close_array ts)
        → array_begin input m ≡ ok (goto scope_end (record (arrived r) { cnt = 0 }))
    unfolding array_begin
    array_is_empty r = rw (r.reads, close_array_byte input r.p r.c r.token_is) refl

    pub array_begins :
        {t : Token} (r : Read input n m fs t ts)
        → t ≢ close_array
        → array_begin input m ≡ ok (goto main_array_switch (arrived r))
    unfolding array_begin
    array_begins r h = rw (r.reads, value_byte input r.p r.c (λ e. h (sym r.token_is ∙ e))) refl

    pub object_is_empty :
        (r : Read input n m fs close_object ts)
        → object_begin input m ≡ ok (goto scope_end (record (arrived r) { cnt = 0 }))
    unfolding object_begin
    object_is_empty r =
        let byte = close_object_byte input r.p r.c r.token_is in
        rw (r.reads, only r.c b'}' b'"' byte refl, byte) refl

    pub object_begins :
        (r : Read input n m fs quote ts) → object_begin input m ≡ ok (goto object_key (arrived r))
    unfolding object_begin
    object_begins r = rw (r.reads, quote_byte input r.p r.c r.token_is) refl

    pub key_goes_on :
        {t : Token} {us : List Token} (r : Read input n m fs colon us)
        (r' : Read input n (arrived r) fs t ts)
        → step input object_key m ≡ scan_value input object (object_continue input) (arrived r')
    unfolding step object_key_step
    key_goes_on r r' = rw (r.reads, colon_byte input r.p r.c r.token_is, r'.reads) refl
