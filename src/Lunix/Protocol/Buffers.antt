-- ===== src/Lunix/Protocol/Buffers.antt =====
-- How the terminal cuts the bytes of a packet into buffers makes no difference: whole buffers.
use c_development_on_linux.Base.{
  ℕ, ◌-◌, true, false, List, [], ◌∷◌, ◌++◌, Option, none, some, ◌≡◌, refl, ◌∙◌, ap, inl, inr, arith,
  ◌==◌, ◌&&◌, ltb, leb, get_or, get_elem?, Bool-cases, Option-cases, ==_iff, sym,
}
use c_development_on_linux.Base.Bytes.{AreBytes}
use c_development_on_linux.Lunix.Sensors.{◌>>=◌, Pages}
use c_development_on_linux.Lunix.Protocol.{
  ProtocolState, Driver, Parsed, init, parse_state, parse_loop, is_complete, read_fields,
  update_sensors, update_sensor, uint16_from_packet, end_packet, received_buf,
}
use c_development_on_linux.Lunix.Protocol.Layout.{Inv}
use c_development_on_linux.Lunix.Protocol.Bounds.{
  start_byte-Follows, packet_type-Follows, destination-Follows, am_type-Follows, am_group-Follows,
  payload-Follows, crc-Follows, length_byte-Follows,
}
use c_development_on_linux.Lunix.Protocol.Chunks.{
  Wants, Step, Track, start-Track, advance-Track, ahead, stopped,
}

-- the statements of `received_buf` for the fields
abbrev fields : Step
fields = λ c. read_fields false c.0 c.1

-- Between two calls the end byte, if it is sought, has not come yet.
abbrev pub IsBetween : ProtocolState → Type 0
IsBetween s = s.state ≡ 9 → Wants s

pub read_fields-Track :
    (b : List ℕ) (s : ProtocolState) (a : List ℕ)
    → Inv s
    → AreBytes a
    → IsBetween s
    → Track b fields 8 s a
unfolding read_fields
read_fields-Track b s a h p nine =
    advance-Track b _ 7 true (λ _. 1) s a crc-Follows
      (advance-Track b _ 6 true (λ _. 2) s a payload-Follows
        (advance-Track b _ 5 true (λ t. get_or t.packet (t.pos - 1) 0) s a length_byte-Follows
          (advance-Track b _ 4 true (λ _. 1) s a am_group-Follows
            (advance-Track b _ 3 true (λ _. 1) s a am_type-Follows
              (advance-Track b _ 2 true (λ _. 1) s a destination-Follows
                (advance-Track b _ 1 false (λ _. 2) s a packet_type-Follows
                  (advance-Track b (λ c. c) 0 false (λ _. 1) s a start_byte-Follows
                    (start-Track b s a h p nine))))))))

-- A buffer that the fields use up: what is left to do after it is what two buffers at once do.
pub record UsedUp (b : List ℕ) (s t : ProtocolState) (a : List ℕ) : Type 0 where
  pub layout : Inv t
  pub between : IsBetween t
  pub same : read_fields false s a ≡ (t, [])
  pub again : read_fields false s (a ++ b) ≡ read_fields false t b

pub read_fields-UsedUp :
    (b : List ℕ) (s : ProtocolState) (a : List ℕ)
    → Inv s
    → AreBytes a
    → IsBetween s
    → (read_fields false s a).1 ≡ []
    → UsedUp b s (read_fields false s a).0 a
read_fields-UsedUp b s a h p nine e =
    let track = read_fields-Track b s a h p nine in
    let t = (read_fields false s a).0 in
    let same : read_fields false s a ≡ (t, []) = ap (λ l. (t, l)) e in
    elim track.behind [
      | ahead past wants f ↦ record {
        layout = track.passed.0;
        between = wants;
        same = same;
        again = f ∙ ap (λ l. (t, l ++ b)) e ∙ sym (track.skips t b past);
      }
      | stopped u low wants f ↦ record {
        layout = track.passed.0;
        between = λ _. wants;
        same = same;
        again = f;
      }
    ]

-- The driver with another parser
abbrev pub with : Driver → ProtocolState → Driver
with d t = record d { protocol = t }

-- The parser that the driver had does not show once it gets another.
pages-with :
    (d : Driver) (i : ℕ) (t u : ProtocolState) (x : Option Pages)
    → ((x >>= λ m. some (record d { protocol = t; pages = m; woken = i ∷ d.woken })) >>= λ e.
        some (with e u))
      ≡ ((x >>= λ m. some (record d { pages = m; woken = i ∷ d.woken })) >>= λ e. some (with e u))
pages-with d i t u none = refl
pages-with d i t u (some m) = refl

update_sensor-with :
    (now : ℕ) (p : List ℕ) (i : ℕ) (d : Driver) (t u : ProtocolState)
    → (update_sensor now p i (with d t) >>= λ e. some (with e u))
      ≡ (update_sensor now p i d >>= λ e. some (with e u))
unfolding update_sensor
update_sensor-with now p i d t u = elim (Option-cases (get_elem? d.sensors i)) [
  | inl e ↦ rw e refl
  | inr (s, e) ↦ rw e (pages-with d i t u _)
]

update_sensors-with :
    (now : ℕ) (s : ProtocolState) (d : Driver) (t u : ProtocolState)
    → (update_sensors now s (with d t) >>= λ e. some (with e u))
      ≡ (update_sensors now s d >>= λ e. some (with e u))
unfolding update_sensors
update_sensors-with now s d t u = elim (Bool-cases (get_or s.packet 4 0 == 0x0B)) [
  | inr other ↦ rw other refl
  | inl report ↦
      let n = uint16_from_packet s.packet 9 in
      rw report (elim (Bool-cases (ltb 0 n && leb n d.sensor_cnt)) [
        | inl found ↦ rw found (update_sensor-with now s.packet (n - 1) d t u)
        | inr unknown ↦ rw unknown refl
      ])
]

end_packet-with :
    (now : ℕ) (d : Driver) (t : ProtocolState) (out : ProtocolState × List ℕ × Parsed)
    → end_packet now (with d t) out ≡ end_packet now d out
unfolding end_packet
end_packet-with now d t (s, rest, r) = elim (Bool-cases (is_complete r)) [
  | inl done ↦ rw done (update_sensors-with now s d t (init s))
  | inr more ↦ rw more refl
]

end_packet-partial :
    (now : ℕ) (d : Driver) (t : ProtocolState)
    → Wants t
    → end_packet now d (parse_state false false t []) ≡ some (with d t)
unfolding end_packet parse_state parse_loop
end_packet-partial now d t w =
    let more : (t.bytes_read == t.bytes_to_read) ≡ false = ground (arith, w) in rw more refl

-- A buffer that the fields use up leaves the parser that is to read the next one.
module _ (now : ℕ) (d : Driver) (a b : List ℕ) (t : ProtocolState)
    (u : UsedUp b d.protocol t a) where
  pub received_buf-used : received_buf false now d a ≡ some (with d t)
  unfolding received_buf
  received_buf-used = rw u.same (elim (Bool-cases (t.state == 9)) [
    | inl nine ↦ rw nine (end_packet-partial now d t (u.between ((==_iff _ _).0 nine)))
    | inr not_nine ↦ rw not_nine refl
  ])

  pub received_buf-again : received_buf false now d (a ++ b) ≡ received_buf false now (with d t) b
  unfolding received_buf
  received_buf-again = rw u.again (elim (Bool-cases ((read_fields false t b).0.state == 9)) [
    | inl nine ↦ rw nine (sym (end_packet-with now d t _))
    | inr not_nine ↦ rw not_nine refl
  ])
