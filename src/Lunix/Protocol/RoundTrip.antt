-- ===== src/Lunix/Protocol/RoundTrip.antt =====
-- A packet that is sent is the packet that reaches the sensors.
use c_development_on_linux.Base.{
  ℕ, suc, ◌+◌, ◌-◌, ◌≤◌, ◌<◌, ◌*◌, false, ◌&&◌, List, [], ◌∷◌, ◌++◌, ◌≡◌, refl, inl, inr, Option,
  some, ◌∙◌, ap₂, arith, ◌==◌, ltb, leb, if◌then◌else◌, length, get_or, get_elem?, length-append,
  get_or-append_left, Bool-cases, ==_iff,
}
use c_development_on_linux.Lunix.Sensors.{sensor_update, ◌>>=◌}
use c_development_on_linux.Lunix.Protocol.{
  ProtocolState, Driver, complete, init, uint16_from_packet, parse_state, update_sensors,
  end_packet, received_buf,
}
use c_development_on_linux.Lunix.Protocol.Stuffing.{store_all, After, stored, loop_raw}
use c_development_on_linux.Lunix.Protocol.Frames.{
  Frame, IsFrame, wire, contents, IsIdle, read_back, read_fields-wire,
}

-- The measurements of a packet, by their places in the payload.
abbrev pub node_of : Frame → ℕ
node_of f = uint16_from_packet f.payload 2

-- What a packet is to do: one that reports measurements sets those of its sensor, if there is one.
unfoldable pub deliver : ℕ → Frame → Driver → Option Driver
deliver now f d =
    if f.am_type == 0x0B
    then (if ltb 0 (node_of f) && leb (node_of f) d.sensor_cnt then measured else some d)
    else some d
  where
    measured : Option Driver
    measured = do
      sensor ← get_elem? d.sensors (node_of f - 1)
      m ←
          sensor_update now sensor (uint16_from_packet f.payload 11)
            (uint16_from_packet f.payload 13) (uint16_from_packet f.payload 15) d.pages
      some (record d { pages = m; woken = (node_of f - 1) ∷ d.woken })

-- a packet that was read up to its end byte
abbrev Read : Frame → ProtocolState → Type 0
Read f t = After 9 (contents f ++ f.stop ∷ []) t

payload_byte :
    (f : Frame) (t : ProtocolState) (i j : ℕ)
    → Read f t
    → i < length f.payload
    → j ≡ i + 7
    → get_or t.packet j 0 ≡ get_or f.payload i 0
payload_byte f t i j a h e =
    let p = f.payload in
    let crc = f.crc_low ∷ f.crc_high ∷ [] in
    let e' : j ≡ suc (suc (suc (suc (suc (suc (suc i)))))) = omega arith in
    rw e' (
      read_back 9 _ t _ a
        (omega (arith, length-append (p ++ crc) (f.stop ∷ []), length-append p crc))
      ∙ get_or-append_left (p ++ crc) (f.stop ∷ []) i 0 (omega (arith, length-append p crc))
      ∙ get_or-append_left p crc i 0 h)

payload_word :
    (f : Frame) (t : ProtocolState) (i j : ℕ)
    → Read f t
    → suc i < length f.payload
    → j ≡ i + 7
    → uint16_from_packet t.packet j ≡ uint16_from_packet f.payload i
payload_word f t i j a h e =
    ap₂ (λ x y. x + 256 * y) (payload_byte f t i j a (omega arith) e)
      (payload_byte f t (i + 1) (j + 1) a (omega arith) (omega arith))

am_type_byte : (f : Frame) (t : ProtocolState) → Read f t → get_or t.packet 4 0 ≡ f.am_type
am_type_byte f t a = read_back 9 _ t 4 a (omega arith)

-- A report has a payload that reaches up to the measurements.
abbrev pub IsReport : Frame → Type 0
IsReport f = f.am_type ≡ 0x0B → 17 ≤ length f.payload

update_sensors-deliver :
    (now : ℕ) (f : Frame) (t : ProtocolState) (d : Driver)
    → Read f t
    → IsReport f
    → update_sensors now t d ≡ deliver now f d
unfolding update_sensors deliver
update_sensors-deliver now f t d a r = elim (Bool-cases (f.am_type == 0x0B)) [
  | inr other ↦ rw (am_type_byte f t a, other)
  | inl report ↦
      let long = r ((==_iff _ _).0 report) in
      rw (
        am_type_byte f t a,
        report,
        payload_word f t 2 9 a (omega arith) refl,
        payload_word f t 11 18 a (omega arith) refl,
        payload_word f t 13 20 a (omega arith) refl,
        payload_word f t 15 22 a (omega arith) refl,
      )
]

init-IsIdle : (f : Frame) (t : ProtocolState) → Read f t → IsIdle (init t)
unfolding init
init-IsIdle f t a = record {
  state_is = refl;
  wanted = refl;
  none_read = refl;
  no_mark = refl;
  at = refl;
  so_far = refl;
  size = a.size;
}

end_packet-deliver :
    (now : ℕ) (f : Frame) (t : ProtocolState) (rest : List ℕ) (d : Driver)
    → Read f t
    → IsReport f
    → end_packet now d (t, rest, complete)
      ≡ (deliver now f d >>= λ d'. some (record d' { protocol = init t }))
unfolding end_packet
end_packet-deliver now f t rest d a r = rw (update_sensors-deliver now f t d a r)

-- Round trip. A well-formed packet that an idle parser receives in one buffer is delivered to its
-- sensor exactly as it was sent, stuffed bytes included, and the parser is idle again. Bytes behind
-- the packet in the same buffer have no effect.
pub received_buf-wire :
    (now : ℕ) (f : Frame) (rest : List ℕ) (d : Driver)
    → IsFrame f
    → IsReport f
    → IsIdle d.protocol
    → (s : ProtocolState) × IsIdle s
      × (received_buf false now d (wire f rest)
          ≡ (deliver now f d >>= λ d'. some (record d' { protocol = s })))
unfolding received_buf
received_buf-wire now f rest d v r h =
    let (t, sent, before) = read_fields-wire f rest d.protocol v h in
    let u = store_all t (f.stop ∷ []) in
    let done : parse_state false false t (f.stop ∷ rest) ≡ (u, rest, complete) =
      unfold parse_state in
      loop_raw 0 t (f.stop ∷ []) rest (omega (arith, before))
        (omega (arith, before, v.fits, length-append f.payload (f.crc_low ∷ f.crc_high ∷ []))) in
    let a : Read f u =
      stored 9 1 (contents f) (f.stop ∷ []) t before
        (omega (arith, v.fits, length-append f.payload (f.crc_low ∷ f.crc_high ∷ []))) in
    (
      init u,
      init-IsIdle f u a,
      rw (sent, (==_iff t.state 9).1 before.state_is, done) (end_packet-deliver now f u rest d a r),
    )
