-- ===== src/Lunix/Protocol.antt =====
-- lunix-protocol.c and lunix-protocol.h: the state machine that takes XMesh packets apart.
-- The bytes `data[*i .. length)` that a call has still to read are a list.
pub mod Layout
pub mod Field
pub mod Bounds
pub mod Stuffing
pub mod Frames
pub mod Builds
pub mod Chunks
pub mod Buffers
pub mod Arrivals
pub mod Sessions
pub mod RoundTrip
use c_development_on_linux.Base.{
  ℕ, ◌+◌, ◌-◌, ◌*◌, bit_xor, Bool, true, false, ◌&&◌, ◌||◌, List, [], ◌∷◌, Option, some, ltb, leb,
  ◌==◌, if◌then◌else◌, get_or, set, get_elem?,
}
use c_development_on_linux.Lunix.Sensors.{Sensor, Pages, sensor_update, ◌>>=◌}

abbrev pub max_packet_len : ℕ
max_packet_len = 300

abbrev pub packet_signature_offset : ℕ
packet_signature_offset = 4

abbrev pub node_offset : ℕ
node_offset = 9

abbrev pub vref_offset : ℕ
vref_offset = 18

abbrev pub temperature_offset : ℕ
temperature_offset = 20

abbrev pub light_offset : ℕ
light_offset = 22

abbrev pub seeking_start_byte : ℕ
seeking_start_byte = 1

abbrev pub seeking_packet_type : ℕ
seeking_packet_type = 2

abbrev pub seeking_destination_address : ℕ
seeking_destination_address = 3

abbrev pub seeking_am_type : ℕ
seeking_am_type = 4

abbrev pub seeking_am_group : ℕ
seeking_am_group = 5

abbrev pub seeking_payload_length : ℕ
seeking_payload_length = 6

abbrev pub seeking_payload : ℕ
seeking_payload = 7

abbrev pub seeking_crc : ℕ
seeking_crc = 8

abbrev pub seeking_end_byte : ℕ
seeking_end_byte = 9

-- `struct lunix_protocol_state_struct`
pub record ProtocolState : Type 0 where
  pub state : ℕ
  pub bytes_read : ℕ
  pub bytes_to_read : ℕ
  pub pos : ℕ
  pub next_is_special : ℕ
  pub payload_length : ℕ
  pub packet : List ℕ

-- `uint16_from_packet`: two bytes at an offset, the low one first
abbrev pub uint16_from_packet : List ℕ → ℕ → ℕ
uint16_from_packet p i = get_or p i 0 + 256 * get_or p (i + 1) 0

unfoldable pub set_state : ProtocolState → ℕ → ℕ → ℕ → ProtocolState
set_state s st btr br = record s { state = st; bytes_to_read = btr; bytes_read = br }

unfoldable pub init : ProtocolState → ProtocolState
unfolding set_state
init s = set_state (record s { pos = 0; next_is_special = 0 }) seeking_start_byte 1 0

-- `packet[pos] = b; ++pos; ++bytes_read; ++(*i)`
abbrev pub store : ProtocolState → ℕ → ProtocolState
store s b = record s {
  packet = set s.packet s.pos b;
  pos = s.pos + 1;
  bytes_read = s.bytes_read + 1;
}

-- one round of the loop, past its guards
unfoldable pub take_byte : Bool → ProtocolState → ℕ → ProtocolState
take_byte use_specials s b =
    if use_specials
    then if s.next_is_special == 0
      then if b == 0x7E || b == 0x7D then record s { next_is_special = b } else store s b
      else record (store s b) {
        packet =
            if s.next_is_special == 0x7E
            then set s.packet s.pos b
            else if s.next_is_special == 0x7D
            then set s.packet s.pos (bit_xor b 0x20)
            else s.packet;
        next_is_special = 0;
      }
    else store s b

-- what `lunix_protocol_parse_state` returns: 1, 0 and -1
pub data Parsed : Type 0 where
  complete partial failed : Parsed

abbrev pub is_complete : Parsed → Bool
is_complete complete = true
is_complete partial = false
is_complete failed = false

abbrev pub at_end : ProtocolState → Parsed
at_end s = if s.bytes_read == s.bytes_to_read then complete else partial

-- The loop, with `iter` as it stands at the top of a round. `debug` tells whether the code is
-- compiled with LUNIX_DEBUG, whose guard gives up in round 50.
unfoldable pub parse_loop :
    Bool → Bool → ℕ → ProtocolState → List ℕ → ProtocolState × List ℕ × Parsed
parse_loop debug use_specials iter s [] = (s, [], at_end s)
parse_loop debug use_specials iter s (b ∷ rest) =
    let next = parse_loop debug use_specials (iter + 1) (take_byte use_specials s b) rest in
    if ltb s.bytes_read s.bytes_to_read
    then if debug && (iter + 1 == 50)
      then (s, b ∷ rest, failed)
      else if s.pos == max_packet_len
      then (record s { pos = 0 }, b ∷ rest, failed)
      else next
    else (s, b ∷ rest, at_end s)

unfoldable pub parse_state : Bool → Bool → ProtocolState → List ℕ → ProtocolState × List ℕ × Parsed
unfolding parse_loop
parse_state debug use_specials s buf = parse_loop debug use_specials 0 s buf

-- `if (state->state == from) if (parse_state(...) == 1) set_state(state, next, quota, 0)`
unfoldable pub advance :
    Bool → ℕ → Bool → ℕ → (ProtocolState → ℕ) → ProtocolState × List ℕ → ProtocolState × List ℕ
unfolding parse_state set_state
advance debug from use_specials next quota (s, buf) =
    if s.state == from
    then (let (s', rest, r) = parse_state debug use_specials s buf in
        (if is_complete r then set_state s' next (quota s') 0 else s', rest))
    else (s, buf)

-- The statements of `lunix_protocol_received_buf` up to the one for the end byte.
unfoldable pub read_fields : Bool → ProtocolState → List ℕ → ProtocolState × List ℕ
unfolding advance
read_fields debug s buf =
    let c = advance debug seeking_start_byte false seeking_packet_type (λ _. 1) (s, buf) in
    let c = advance debug seeking_packet_type false seeking_destination_address (λ _. 2) c in
    let c = advance debug seeking_destination_address true seeking_am_type (λ _. 1) c in
    let c = advance debug seeking_am_type true seeking_am_group (λ _. 1) c in
    let c = advance debug seeking_am_group true seeking_payload_length (λ _. 1) c in
    let c =
      advance debug seeking_payload_length true seeking_payload
        (λ s'. get_or s'.packet (s'.pos - 1) 0) c in
    let c = advance debug seeking_payload true seeking_crc (λ _. 2) c in
    advance debug seeking_crc true seeking_end_byte (λ _. 1) c

-- The driver's global data (lunix-module.c) that this file works on; `woken` lists the sensors
-- whose sleepers were woken.
pub record Driver : Type 0 where
  pub protocol : ProtocolState
  pub sensor_cnt : ℕ
  pub sensors : List Sensor
  pub pages : Pages
  pub woken : List ℕ

-- `lunix_sensor_update(&lunix_sensors[i], ...)` on the fields of a packet
unfoldable pub update_sensor : ℕ → List ℕ → ℕ → Driver → Option Driver
update_sensor now p i d = do
  sensor ← get_elem? d.sensors i
  m ←
      sensor_update now sensor (uint16_from_packet p vref_offset)
        (uint16_from_packet p temperature_offset) (uint16_from_packet p light_offset) d.pages
  some (record d { pages = m; woken = i ∷ d.woken })

-- `lunix_protocol_update_sensors`
unfoldable pub update_sensors : ℕ → ProtocolState → Driver → Option Driver
unfolding update_sensor
update_sensors now s d =
    let p = s.packet in
    let nodeid = uint16_from_packet p node_offset in
    if get_or p packet_signature_offset 0 == 0x0B
    then (if ltb 0 nodeid && leb nodeid d.sensor_cnt
        then update_sensor now p (nodeid - 1) d
        else some d)
    else some d

-- what is done once the end byte has been read, or not
unfoldable pub end_packet : ℕ → Driver → ProtocolState × List ℕ × Parsed → Option Driver
end_packet now d (s, _, r) =
    if is_complete r
    then (update_sensors now s d >>= λ d'. some (record d' { protocol = init s }))
    else some (record d { protocol = s })

-- `lunix_protocol_received_buf`; `now` is the time that `get_seconds` returns.
unfoldable pub received_buf : Bool → ℕ → Driver → List ℕ → Option Driver
received_buf debug now d buf =
    let (s, rest) = read_fields debug d.protocol buf in
    if s.state == seeking_end_byte
    then end_packet now d (parse_state debug false s rest)
    else some (record d { protocol = s })

-- The calls of the TTY layer in their order, each with its time.
unfoldable pub receive_all : Bool → Driver → List (ℕ × List ℕ) → Option Driver
receive_all debug d [] = some d
receive_all debug d ((now, buf) ∷ more) =
    received_buf debug now d buf >>= λ d'. receive_all debug d' more
