-- ===== src/Lunix/Protocol/Field.antt =====
-- The loop of `lunix_protocol_parse_state` on one field of a packet.
use c_development_on_linux.Base.{
  ◌∙◌, ◌&&◌, ℕ, ◌+◌, Bool, false, List, [], ◌∷◌, ◌≡◌, ◌≢◌, inl, inr, refl, arith, ltb, ◌==◌,
  Bool-cases, ◌↔◌,
}
use c_development_on_linux.Base.Bytes.{AreBytes}
use c_development_on_linux.Lunix.Protocol.{
  ProtocolState, Parsed, complete, failed, max_packet_len, take_byte, at_end, parse_loop,
  parse_state,
}
use c_development_on_linux.Lunix.Protocol.Layout.{Inv, pos-le, take_byte-Inv, state-take_byte}

-- What the parsing of one field from `s` leaves behind.
pub record FieldRead (debug : Bool) (s : ProtocolState) (out : ProtocolState × List ℕ × Parsed)
    : Type 0 where
  pub layout : Inv out.0
  pub same_field : out.0.state ≡ s.state
  pub left : AreBytes out.1
  pub done : out.2 ≡ complete → out.0.bytes_read ≡ out.0.bytes_to_read
  pub whole : debug ≡ false → out.0.bytes_read ≡ out.0.bytes_to_read → out.2 ≡ complete
  pub sound : debug ≡ false → out.2 ≢ failed

stopped :
    (debug : Bool) (s : ProtocolState) (buf : List ℕ)
    → Inv s
    → AreBytes buf
    → FieldRead debug s (s, buf, at_end s)
stopped debug s buf h p = record {
  layout = h;
  same_field = refl;
  left = p;
  done = λ e. ground arith;
  whole = λ _ e. ground arith;
  sound = λ _ e. ground arith;
}

carried :
    (debug : Bool) (s t : ProtocolState) (out : ProtocolState × List ℕ × Parsed)
    → t.state ≡ s.state
    → FieldRead debug t out
    → FieldRead debug s out
carried debug s t out e f = record {
  layout = f.layout;
  same_field = f.same_field ∙ e;
  left = f.left;
  done = f.done;
  whole = f.whole;
  sound = f.sound;
}

full : (s : ProtocolState) → Inv s → (s.pos == max_packet_len) ≡ false
full s h = ground (arith, pos-le s h)

parse_loop-FieldRead :
    (debug sp : Bool) (iter : ℕ) (s : ProtocolState) (buf : List ℕ)
    → Inv s
    → AreBytes buf
    → FieldRead debug s (parse_loop debug sp iter s buf)
unfolding parse_loop
parse_loop-FieldRead debug sp iter s [] h p = stopped debug s [] h p
parse_loop-FieldRead debug sp iter s (b ∷ rest) h p =
    elim (Bool-cases (ltb s.bytes_read s.bytes_to_read)) [
      | inr over ↦ rw over (stopped debug s (b ∷ rest) h p)
      | inl more ↦ elim (Bool-cases (debug && (iter + 1 == 50))) [
        | inl oops ↦
            rw (more, oops)
              (record {
                layout = h;
                same_field = refl;
                left = p;
                done = λ e. cc;
                whole = λ e _. ground arith;
                sound = λ e. ground arith;
              })
        | inr quiet ↦
            rw (more, quiet, full s h)
              (carried debug s (take_byte sp s b) _ (state-take_byte sp s b) (
                parse_loop-FieldRead debug sp (iter + 1) (take_byte sp s b) rest
                  (take_byte-Inv sp s b h (ground arith) p.0) p.1))
      ]
    ]

pub parse_state-FieldRead :
    (debug sp : Bool) (s : ProtocolState) (buf : List ℕ)
    → Inv s
    → AreBytes buf
    → FieldRead debug s (parse_state debug sp s buf)
unfolding parse_state
parse_state-FieldRead debug sp s buf = parse_loop-FieldRead debug sp 0 s buf

-- Compiled without LUNIX_DEBUG, the parsing of a field never gives up: the packet buffer is never
-- full, and the call returns 1 exactly if the field was read to its end.
parse_state_never_fails :
    (sp : Bool) (s : ProtocolState) (buf : List ℕ)
    → Inv s
    → AreBytes buf
    → let (t, rest, r) = parse_state false sp s buf in
      (r ≢ failed) × ((r ≡ complete) ↔ (t.bytes_read ≡ t.bytes_to_read))
parse_state_never_fails sp s buf h p =
    let r = parse_state-FieldRead false sp s buf h p in (r.sound refl, (r.done, r.whole refl))
