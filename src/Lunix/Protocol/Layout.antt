-- ===== src/Lunix/Protocol/Layout.antt =====
-- Where the parser of lunix-protocol.c writes: the fields of a packet follow one another in
-- `packet[]`, and the longest packet fits.
use c_development_on_linux.Base.{
  ◌||◌, ℕ, ◌+◌, ◌-◌, ◌≤◌, ◌<◌, bit_xor, Bool, true, false, List, ◌≡◌, inl, inr, refl, arith, ltb,
  ◌==◌, if◌then◌else◌, length, get_or, set, length-set, get_or-set_ne, All-set, All-get_or,
  Bool-cases,
}
use c_development_on_linux.Base.Bytes.{IsByte, AreBytes, flip_lem}
use c_development_on_linux.Lunix.Protocol.{ProtocolState, max_packet_len, take_byte, store}

-- the payload length, once it is read
abbrev pub payload_of : List ℕ → ℕ
payload_of p = get_or p 6 0

-- where the field that a state seeks begins, and how many bytes it has
abbrev pub offset : ℕ → ℕ → ℕ
offset st n =
    if ltb st 3
    then st - 1
    else if st == 3
    then 2
    else if ltb st 8
    then st
    else if st == 8
    then 7 + n
    else 9 + n

abbrev pub quota : ℕ → ℕ → ℕ
quota st n = if st == 3 then 2 else if st == 7 then n else if st == 8 then 2 else 1

pub record Inv (s : ProtocolState) : Type 0 where
  pub size : length s.packet ≡ max_packet_len
  pub bytes : AreBytes s.packet
  pub first : 1 ≤ s.state
  pub last : s.state ≤ 9
  pub placed : s.pos ≡ offset s.state (payload_of s.packet) + s.bytes_read
  pub wanted : s.bytes_to_read ≡ quota s.state (payload_of s.packet)
  pub within : s.bytes_read ≤ s.bytes_to_read

fields_fit : (st n : ℕ) → 1 ≤ st → st ≤ 9 → n < 256 → offset st n + quota st n ≤ 265
fields_fit st n h k l = ground arith

payload_byte : (s : ProtocolState) → Inv s → payload_of s.packet < 256
payload_byte s v = All-get_or IsByte s.packet 6 0 (omega arith) v.bytes

-- The parser never stands past the 265 bytes of the longest packet.
pub pos-le : (s : ProtocolState) → Inv s → s.pos ≤ 265
pos-le s v =
    omega (arith, fields_fit s.state (payload_of s.packet) v.first v.last (payload_byte s v), v)

early_offset : (st m n : ℕ) → st ≤ 6 → (offset st m ≡ offset st n) × (quota st m ≡ quota st n)
early_offset st m n h = ground arith

late_pos : (st n : ℕ) → 6 < st → 7 ≤ offset st n
late_pos st n h = ground arith

-- A write of the field that is being read leaves the layout as it was.
layout-set :
    (s : ProtocolState) (v : ℕ)
    → Inv s
    → (offset s.state (payload_of (set s.packet s.pos v)) ≡ offset s.state (payload_of s.packet))
      × (quota s.state (payload_of (set s.packet s.pos v)) ≡ quota s.state (payload_of s.packet))
layout-set s v h = elim (Bool-cases (ltb 6 s.state)) [
  | inl late ↦
      rw
        (get_or-set_ne s.packet s.pos 6 v 0
          (ground (arith, late_pos s.state (payload_of s.packet))))
        (refl, refl)
  | inr early ↦ early_offset s.state _ _ (ground arith)
]

stored-Inv :
    (s : ProtocolState) (v n : ℕ)
    → Inv s
    → s.bytes_read < s.bytes_to_read
    → IsByte v
    → Inv (record (store s v) { next_is_special = n })
stored-Inv s v n h l b = record {
  size = rw length-set h.size;
  bytes = All-set IsByte s.packet s.pos v b h.bytes;
  first = h.first;
  last = h.last;
  placed = omega (arith, layout-set s v h, h.placed);
  wanted = omega (arith, layout-set s v h, h.wanted);
  within = omega arith;
}

skipped-Inv :
    (s : ProtocolState)
    → Inv s
    → s.bytes_read < s.bytes_to_read
    → Inv (record s { pos = s.pos + 1; bytes_read = s.bytes_read + 1; next_is_special = 0 })
skipped-Inv s h l = record {
  size = h.size;
  bytes = h.bytes;
  first = h.first;
  last = h.last;
  placed = omega (arith, h.placed);
  wanted = h.wanted;
  within = omega arith;
}

escaped-Inv : (s : ProtocolState) → Inv s → (n : ℕ) → Inv (record s { next_is_special = n })
escaped-Inv s h n = record {
  size = h.size;
  bytes = h.bytes;
  first = h.first;
  last = h.last;
  placed = h.placed;
  wanted = h.wanted;
  within = h.within;
}

-- One round of the loop keeps the layout.
pub take_byte-Inv :
    (sp : Bool) (s : ProtocolState) (b : ℕ)
    → Inv s
    → s.bytes_read < s.bytes_to_read
    → IsByte b
    → Inv (take_byte sp s b)
unfolding take_byte
take_byte-Inv false s b h l p = stored-Inv s b s.next_is_special h l p
take_byte-Inv true s b h l p = elim (Bool-cases (s.next_is_special == 0)) [
  | inl plain ↦ elim (Bool-cases (b == 0x7E || b == 0x7D)) [
    | inl special ↦ rw (plain, special) (escaped-Inv s h b)
    | inr other ↦ rw (plain, other) (stored-Inv s b s.next_is_special h l p)
  ]
  | inr after ↦ elim (Bool-cases (s.next_is_special == 0x7E)) [
    | inl literal ↦ rw (after, literal) (stored-Inv s b 0 h l p)
    | inr other ↦ elim (Bool-cases (s.next_is_special == 0x7D)) [
      | inl flipped ↦
          rw (after, other, flipped) (stored-Inv s (bit_xor b 0x20) 0 h l ((flip_lem b p).1))
      | inr none ↦ rw (after, other, none) (skipped-Inv s h l)
    ]
  ]
]

pub state-take_byte : (sp : Bool) (s : ProtocolState) (b : ℕ) → (take_byte sp s b).state ≡ s.state
unfolding take_byte
state-take_byte false s b = refl
state-take_byte true s b = ground arith
