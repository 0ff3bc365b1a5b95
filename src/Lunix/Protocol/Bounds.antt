-- ===== src/Lunix/Protocol/Bounds.antt =====
-- `lunix_protocol_received_buf` keeps the layout of the packet that is being received.
use c_development_on_linux.Base.{
  ℕ, ◌+◌, ◌-◌, ◌≤◌, Bool, true, false, List, [], ◌∷◌, ◌≡◌, inl, inr, refl, sym, arith, ◌==◌,
  if◌then◌else◌, length, get_or, Bool-cases, Option-cases, All, ==_iff, subst, some,
}
use c_development_on_linux.Base.Bytes.{AreBytes}
use c_development_on_linux.Lunix.Protocol.{
  ProtocolState, Driver, Parsed, complete, partial, failed, max_packet_len, parse_state, advance,
  read_fields, set_state, init, update_sensors, received_buf, end_packet, receive_all,
  seeking_end_byte, is_complete,
}
use c_development_on_linux.Lunix.Protocol.Layout.{Inv, pos-le, payload_of, offset, quota}
use c_development_on_linux.Lunix.Protocol.Field.{FieldRead, parse_state-FieldRead}

-- What a statement of `received_buf` passes on.
abbrev pub Passed : ProtocolState × List ℕ → Type 0
Passed (s, buf) = Inv s × AreBytes buf

-- The next field begins where the last one ends.
pub record Follows (from next : ℕ) (btr : ProtocolState → ℕ) : Type 0 where
  begins : (n : ℕ) → offset next n ≡ offset from n + quota from n
  wants :
      (s : ProtocolState)
      → Inv s
      → s.state ≡ from
      → s.bytes_read ≡ s.bytes_to_read
      → btr s ≡ quota next (payload_of s.packet)
  is_state : (1 ≤ next) × (next ≤ 9)

set_state-Inv :
    {from next : ℕ} {btr : ProtocolState → ℕ} (s : ProtocolState)
    → Follows from next btr
    → Inv s
    → s.state ≡ from
    → s.bytes_read ≡ s.bytes_to_read
    → Inv (set_state s next (btr s) 0)
unfolding set_state
set_state-Inv {from} {next} {btr} s f h e full = record {
  size = h.size;
  bytes = h.bytes;
  first = f.is_state.0;
  last = f.is_state.1;
  placed = ground (arith, h, f.begins (payload_of s.packet));
  wanted = f.wants s h e full;
  within = omega arith;
}

moved_on :
    (debug : Bool) (s : ProtocolState) {next : ℕ} {btr : ProtocolState → ℕ}
    (out : ProtocolState × List ℕ × Parsed)
    → Follows s.state next btr
    → FieldRead debug s out
    → Inv (if is_complete out.2 then set_state out.0 next (btr out.0) 0 else out.0)
moved_on debug s (t, rest, complete) f r = set_state-Inv t f r.layout r.same_field (r.done refl)
moved_on debug s (t, rest, partial) f r = r.layout
moved_on debug s (t, rest, failed) f r = r.layout

pub advance-Passed :
    (debug : Bool) (from : ℕ) (sp : Bool) (next : ℕ) (btr : ProtocolState → ℕ)
    (c : ProtocolState × List ℕ)
    → Follows from next btr
    → Passed c
    → Passed (advance debug from sp next btr c)
unfolding advance
advance-Passed debug from sp next btr (s, buf) f (h, p) = elim (Bool-cases (s.state == from)) [
  | inr other ↦ rw other (h, p)
  | inl here ↦
      let r = parse_state-FieldRead debug sp s buf h p in
      rw here (
        moved_on debug s _ (subst (λ k. Follows k next btr) (sym ((==_iff _ _).0 here)) f) r,
        r.left,
      )
]

-- a field whose length is fixed
fixed :
    (from next k : ℕ)
    → ((n : ℕ) → (offset next n ≡ offset from n + quota from n) × (k ≡ quota next n))
    → (1 ≤ next) × (next ≤ 9)
    → Follows from next (λ _. k)
fixed from next k e l = record {
  begins = λ n. (e n).0;
  wants = λ s _ _ _. (e (payload_of s.packet)).1;
  is_state = l;
}

pub start_byte-Follows : Follows 1 2 (λ _. 1)
start_byte-Follows = fixed 1 2 1 (λ n. omega arith) (omega arith)

pub packet_type-Follows : Follows 2 3 (λ _. 2)
packet_type-Follows = fixed 2 3 2 (λ n. omega arith) (omega arith)

pub destination-Follows : Follows 3 4 (λ _. 1)
destination-Follows = fixed 3 4 1 (λ n. omega arith) (omega arith)

pub am_type-Follows : Follows 4 5 (λ _. 1)
am_type-Follows = fixed 4 5 1 (λ n. omega arith) (omega arith)

pub am_group-Follows : Follows 5 6 (λ _. 1)
am_group-Follows = fixed 5 6 1 (λ n. omega arith) (omega arith)

pub payload-Follows : Follows 7 8 (λ _. 2)
payload-Follows = fixed 7 8 2 (λ n. omega arith) (omega arith)

pub crc-Follows : Follows 8 9 (λ _. 1)
crc-Follows = fixed 8 9 1 (λ n. omega arith) (omega arith)

pub length_byte-Follows : Follows 6 7 (λ t. get_or t.packet (t.pos - 1) 0)
length_byte-Follows = record {
  begins = λ n. omega arith;
  wants = λ t v e whole. let at : t.pos - 1 ≡ 6 = ground arith in rw at;
  is_state = omega arith;
}

pub read_fields-Passed :
    (debug : Bool) (s : ProtocolState) (buf : List ℕ)
    → Inv s
    → AreBytes buf
    → Passed (read_fields debug s buf)
unfolding read_fields
read_fields-Passed debug s buf h p =
    (advance-Passed debug 8 true 9 (λ _. 1) _ crc-Follows
      (advance-Passed debug 7 true 8 (λ _. 2) _ payload-Follows
        (advance-Passed debug 6 true 7 (λ t. get_or t.packet (t.pos - 1) 0) _ length_byte-Follows
          (advance-Passed debug 5 true 6 (λ _. 1) _ am_group-Follows
            (advance-Passed debug 4 true 5 (λ _. 1) _ am_type-Follows
              (advance-Passed debug 3 true 4 (λ _. 1) _ destination-Follows
                (advance-Passed debug 2 false 3 (λ _. 2) _ packet_type-Follows
                  (advance-Passed debug 1 false 2 (λ _. 1) _ start_byte-Follows (h, p)))))))))

init-Inv : (s : ProtocolState) → length s.packet ≡ max_packet_len → AreBytes s.packet → Inv (init s)
unfolding init set_state
init-Inv s l b = record {
  size = l;
  bytes = b;
  first = omega arith;
  last = omega arith;
  placed = refl;
  wanted = refl;
  within = omega arith;
}

end_packet-Inv :
    (now : ℕ) (d : Driver) (out : ProtocolState × List ℕ × Parsed) {e : Driver}
    → Inv out.0
    → end_packet now d out ≡ some e
    → Inv e.protocol
unfolding end_packet
end_packet-Inv now d (s, _, complete) {e} h eq = elim (Option-cases (update_sensors now s d)) [
  | inl fault ↦ absurd (ground arith)
  | inr (d', done) ↦
      let same : init s ≡ e.protocol = ground arith in rw (← same) (init-Inv s h.size h.bytes)
]
end_packet-Inv now d (s, _, partial) {e} h eq =
    let same : s ≡ e.protocol = ground arith in rw (← same) h
end_packet-Inv now d (s, _, failed) {e} h eq =
    let same : s ≡ e.protocol = ground arith in rw (← same) h

received_buf-Inv :
    (debug : Bool) (now : ℕ) (d : Driver) (buf : List ℕ) {e : Driver}
    → Inv d.protocol
    → AreBytes buf
    → received_buf debug now d buf ≡ some e
    → Inv e.protocol
unfolding received_buf
received_buf-Inv debug now d buf {e} h p eq =
    let c = read_fields-Passed debug d.protocol buf h p in
    let t = (read_fields debug d.protocol buf).0 in
    elim (Bool-cases (t.state == seeking_end_byte)) [
      | inr other ↦ let same : t ≡ e.protocol = ground arith in rw (← same) c.0
      | inl last ↦
          end_packet-Inv now d (parse_state debug false t (read_fields debug d.protocol buf).1)
            (parse_state-FieldRead debug false t (read_fields debug d.protocol buf).1 c.0
              c.1).layout
            (rw last at eq)
    ]

abbrev pub AreReceived : List (ℕ × List ℕ) → Type 0
AreReceived calls = All (λ c. AreBytes c.1) calls

-- Whatever bytes arrive, cut into buffers in whatever way, in either build: the fields lie in
-- `packet[]` where the layout puts them, and the next byte is written at index 265 at the latest.
pub receive_all-Inv :
    (debug : Bool) (d : Driver) (calls : List (ℕ × List ℕ)) {e : Driver}
    → Inv d.protocol
    → AreReceived calls
    → receive_all debug d calls ≡ some e
    → Inv e.protocol × (e.protocol.pos ≤ 265)
unfolding receive_all
receive_all-Inv debug d [] {e} h p eq =
    let same : d ≡ e = ground arith in rw (← same) (h, pos-le d.protocol h)
receive_all-Inv debug d ((now, buf) ∷ more) h p eq =
    elim (Option-cases (received_buf debug now d buf)) [
      | inl fault ↦ absurd (ground arith)
      | inr (d', done) ↦
          receive_all-Inv debug d' more (received_buf-Inv debug now d buf h p.0 done) p.1
            (rw done at eq)
    ]
