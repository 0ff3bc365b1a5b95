-- ===== src/Lunix/Protocol/Frames.antt =====
-- Packets as lunix-protocol.c lays them out, and how an idle parser reads one.
use c_development_on_linux.Base.{
  ℕ, ◌-◌, ◌<◌, false, List, [], ◌∷◌, ◌++◌, ◌≡◌, refl, ◌∙◌, sym, ap, arith, length, get_or,
  get_or-take,
}
use c_development_on_linux.Base.Bytes.{IsByte, AreBytes}
use c_development_on_linux.Lunix.Protocol.{ProtocolState, read_fields}
use c_development_on_linux.Lunix.Protocol.Stuffing.{
  escapes, Before, After, Asks, escaped_field, raw_field,
}

-- A packet as the table in lunix-protocol.c lays it out; the payload length is that of `payload`.
pub record Frame : Type 0 where
  pub start : ℕ
  pub kind : ℕ
  pub destination_low : ℕ
  pub destination_high : ℕ
  pub am_type : ℕ
  pub am_group : ℕ
  pub payload : List ℕ
  pub crc_low : ℕ
  pub crc_high : ℕ
  pub stop : ℕ

pub record IsFrame (f : Frame) : Type 0 where
  pub destination : IsByte f.destination_low × IsByte f.destination_high
  pub am : IsByte f.am_type × IsByte f.am_group
  pub fits : length f.payload < 256
  pub payload : AreBytes f.payload
  pub crc : IsByte f.crc_low × IsByte f.crc_high

-- The bytes of a packet on the line, field by field from its end, before the bytes `rest`.
module _ (f : Frame) (rest : List ℕ) where
  abbrev pub from_crc : List ℕ
  from_crc = escapes (f.crc_low ∷ f.crc_high ∷ []) ++ (f.stop ∷ rest)

  abbrev pub from_payload : List ℕ
  from_payload = escapes f.payload ++ from_crc

  abbrev pub from_length : List ℕ
  from_length = escapes (length f.payload ∷ []) ++ from_payload

  abbrev pub from_am_group : List ℕ
  from_am_group = escapes (f.am_group ∷ []) ++ from_length

  abbrev pub from_am_type : List ℕ
  from_am_type = escapes (f.am_type ∷ []) ++ from_am_group

  abbrev pub from_destination : List ℕ
  from_destination = escapes (f.destination_low ∷ f.destination_high ∷ []) ++ from_am_type

  abbrev pub wire : List ℕ
  wire = f.start ∷ f.kind ∷ from_destination

-- The packet without stuffing and without its end byte.
abbrev pub contents : Frame → List ℕ
contents f =
    f.start
    ∷ f.kind
    ∷ f.destination_low
    ∷ f.destination_high
    ∷ f.am_type
    ∷ f.am_group
    ∷ length f.payload
    ∷ (f.payload ++ f.crc_low ∷ f.crc_high ∷ [])

-- The parser waits for a packet.
abbrev pub IsIdle : ProtocolState → Type 0
IsIdle s = Before 1 1 [] s

-- The stored bytes are read back.
pub read_back :
    (st : ℕ) (w : List ℕ) (t : ProtocolState) (i : ℕ)
    → After st w t
    → i < length w
    → get_or t.packet i 0 ≡ get_or w i 0
read_back st w t i a h =
    sym (get_or-take (length w) t.packet i 0 h) ∙ ap (λ p. get_or p i 0) a.so_far

length_byte :
    (f : Frame)
    → Asks 6
        (f.start
          ∷ f.kind
          ∷ f.destination_low
          ∷ f.destination_high
          ∷ f.am_type
          ∷ f.am_group
          ∷ length f.payload
          ∷ [])
        (λ t. get_or t.packet (t.pos - 1) 0)
        (length f.payload)
length_byte f t a =
    let at : t.pos - 1 ≡ 6 = omega (arith, a.at) in rw at (read_back 6 _ t 6 a (omega arith))

pub read_fields-wire :
    (f : Frame) (rest : List ℕ) (s : ProtocolState)
    → IsFrame f
    → IsIdle s
    → (t : ProtocolState) × (read_fields false s (wire f rest) ≡ (t, f.stop ∷ rest))
      × Before 9 1 (contents f) t
unfolding read_fields
read_fields-wire f rest s v h =
    let b1 =
      raw_field 1 2 1 (λ _. 1) [] (f.start ∷ []) (f.kind ∷ from_destination f rest) s h
        (omega arith) (λ _ _. refl) in
    let b2 =
      raw_field 2 3 2 (λ _. 2) (f.start ∷ []) (f.kind ∷ []) (from_destination f rest) b1.0 b1.2
        (omega arith) (λ _ _. refl) in
    let b3 =
      escaped_field 3 4 1 (λ _. 1) (f.start ∷ f.kind ∷ [])
        (f.destination_low ∷ f.destination_high ∷ []) (from_am_type f rest) b2.0 b2.2
        (v.destination.0, (v.destination.1, tt)) (omega arith) (λ _ _. refl) in
    let b4 =
      escaped_field 4 5 1 (λ _. 1) (f.start ∷ f.kind ∷ f.destination_low ∷ f.destination_high ∷ [])
        (f.am_type ∷ []) (from_am_group f rest) b3.0 b3.2 (v.am.0, tt) (omega arith)
        (λ _ _. refl) in
    let b5 =
      escaped_field 5 6 1 (λ _. 1)
        (f.start ∷ f.kind ∷ f.destination_low ∷ f.destination_high ∷ f.am_type ∷ [])
        (f.am_group ∷ []) (from_length f rest) b4.0 b4.2 (v.am.1, tt) (omega arith) (λ _ _. refl) in
    let b6 =
      escaped_field 6 7 (length f.payload) (λ t. get_or t.packet (t.pos - 1) 0)
        (f.start ∷ f.kind ∷ f.destination_low ∷ f.destination_high ∷ f.am_type ∷ f.am_group ∷ [])
        (length f.payload ∷ []) (from_payload f rest) b5.0 b5.2 (v.fits, tt) (omega arith)
        (length_byte f) in
    let b7 =
      escaped_field 7 8 2 (λ _. 2)
        (f.start
          ∷ f.kind
          ∷ f.destination_low
          ∷ f.destination_high
          ∷ f.am_type
          ∷ f.am_group
          ∷ length f.payload
          ∷ [])
        f.payload (from_crc f rest) b6.0 b6.2 v.payload (omega (arith, v.fits)) (λ _ _. refl) in
    let b8 =
      escaped_field 8 9 1 (λ _. 1)
        (f.start
          ∷ f.kind
          ∷ f.destination_low
          ∷ f.destination_high
          ∷ f.am_type
          ∷ f.am_group
          ∷ length f.payload
          ∷ f.payload)
        (f.crc_low ∷ f.crc_high ∷ []) (f.stop ∷ rest) b7.0 b7.2 (v.crc.0, (v.crc.1, tt))
        (omega (arith, v.fits)) (λ _ _. refl) in
    (b8.0, rw (b1.1, b2.1, b3.1, b4.1, b5.1, b6.1, b7.1, b8.1), b8.2)
