-- ===== src/Lunix/Protocol/Stuffing.antt =====
-- What a sender of the XMesh protocol puts on the line, and what the parser makes of it.
use c_development_on_linux.Base.{
  ℕ, suc, ◌+◌, ◌≤◌, ◌<◌, bit_xor, Bool, true, false, ◌||◌, List, [], ◌∷◌, ◌++◌, ◌≡◌, refl, inl, inr,
  ◌∙◌, sym, ap, arith, ◌==◌, if◌then◌else◌, length, take, length-append, append_assoc, append-nil,
  length-set, take-set, Bool-cases, ==_iff,
}
use c_development_on_linux.Base.Bytes.{IsByte, AreBytes, flip_lem}
use c_development_on_linux.Lunix.Protocol.{
  ProtocolState, complete, max_packet_len, store, take_byte, parse_loop, parse_state, set_state,
  advance,
}

-- Byte stuffing: 0x7D announces a byte with bit 5 flipped.
unfoldable pub escape : ℕ → List ℕ
escape b = if b == 0x7E || b == 0x7D then 0x7D ∷ bit_xor b 0x20 ∷ [] else b ∷ []

unfoldable pub escapes : List ℕ → List ℕ
escapes [] = []
escapes (b ∷ bs) = escape b ++ escapes bs

-- the state after these bytes were stored
abbrev pub store_all : ProtocolState → List ℕ → ProtocolState
store_all s [] = s
store_all s (b ∷ bs) = store_all (store s b) bs

-- the field has its bytes
loop_done :
    (sp : Bool) (iter : ℕ) (s : ProtocolState) (rest : List ℕ)
    → s.bytes_read ≡ s.bytes_to_read
    → parse_loop false sp iter s rest ≡ (s, rest, complete)
unfolding parse_loop
loop_done sp iter s [] h = ground arith
loop_done sp iter s (b ∷ rest) h = ground arith

-- room for one more byte
loop_more :
    (sp : Bool) (iter : ℕ) (s : ProtocolState) (b : ℕ) (rest : List ℕ)
    → s.bytes_read < s.bytes_to_read
    → s.pos < max_packet_len
    → parse_loop false sp iter s (b ∷ rest) ≡ parse_loop false sp (iter + 1) (take_byte sp s b) rest
unfolding parse_loop
loop_more sp iter s b rest h k = ground arith

take_raw : (s : ProtocolState) (b : ℕ) → take_byte false s b ≡ store s b
unfolding take_byte
take_raw s b = refl

pub loop_raw :
    (iter : ℕ) (s : ProtocolState) (bs rest : List ℕ)
    → s.bytes_read + length bs ≡ s.bytes_to_read
    → s.pos + length bs ≤ max_packet_len
    → parse_loop false false iter s (bs ++ rest) ≡ (store_all s bs, rest, complete)
loop_raw iter s [] rest h k = loop_done false iter s rest (omega arith)
loop_raw iter s (b ∷ bs) rest h k =
    loop_more false iter s b (bs ++ rest) (omega arith) (omega arith)
    ∙ rw (take_raw s b) (loop_raw (iter + 1) (store s b) bs rest (omega arith) (omega arith))

take_plain :
    (s : ProtocolState) (b : ℕ)
    → s.next_is_special ≡ 0
    → (b == 0x7E || b == 0x7D) ≡ false
    → take_byte true s b ≡ store s b
unfolding take_byte
take_plain s b z n = ground arith

take_escaped :
    (s : ProtocolState) (b : ℕ)
    → IsByte b
    → s.next_is_special ≡ 0
    → take_byte true (take_byte true s 0x7D) (bit_xor b 0x20) ≡ store s b
unfolding take_byte
take_escaped s b p z = ground (arith, flip_lem b p)

take_mark :
    (s : ProtocolState)
    → s.next_is_special ≡ 0
    → take_byte true s 0x7D ≡ record s { next_is_special = 0x7D }
unfolding take_byte
take_mark s z = ground arith

loop_escaped :
    (iter : ℕ) (s : ProtocolState) (bs rest : List ℕ)
    → AreBytes bs
    → s.next_is_special ≡ 0
    → s.bytes_read + length bs ≡ s.bytes_to_read
    → s.pos + length bs ≤ max_packet_len
    → parse_loop false true iter s (escapes bs ++ rest) ≡ (store_all s bs, rest, complete)
unfolding escapes escape
loop_escaped iter s [] rest p z h k = loop_done true iter s rest (omega arith)
loop_escaped iter s (b ∷ bs) rest p z h k = elim (Bool-cases (b == 0x7E || b == 0x7D)) [
  | inr plain ↦ rw (plain) (
      loop_more true iter s b (escapes bs ++ rest) (omega arith) (omega arith)
      ∙ rw (take_plain s b z plain)
          (loop_escaped (iter + 1) (store s b) bs rest p.1 z (omega arith) (omega arith)))
  | inl special ↦ rw (special) (
      loop_more true iter s 0x7D (bit_xor b 0x20 ∷ (escapes bs ++ rest)) (omega arith) (omega arith)
      ∙ second iter s b bs rest p z h k
          (loop_escaped (iter + 1 + 1) (store s b) bs rest p.1 z (omega arith) (omega arith)))
]
  where
    second :
        (iter : ℕ) (s : ProtocolState) (b : ℕ) (bs rest : List ℕ)
        → AreBytes (b ∷ bs)
        → s.next_is_special ≡ 0
        → s.bytes_read + length (b ∷ bs) ≡ s.bytes_to_read
        → s.pos + length (b ∷ bs) ≤ max_packet_len
        → parse_loop false true (iter + 1 + 1) (store s b) (escapes bs ++ rest)
          ≡ (store_all s (b ∷ bs), rest, complete)
        → parse_loop false true
            (iter + 1)
            (take_byte true s 0x7D)
            (bit_xor b 0x20 ∷ (escapes bs ++ rest))
          ≡ (store_all s (b ∷ bs), rest, complete)
    second iter s b bs rest p z h k later =
        let t : ProtocolState = record s { next_is_special = 0x7D } in
        let marked : take_byte true s 0x7D ≡ t = take_mark s z in
        rw marked (
          loop_more true (iter + 1) t (bit_xor b 0x20) (escapes bs ++ rest) (omega arith)
            (omega arith)
          ∙ rw (← marked, take_escaped s b p.0 z) later)

-- The parser stands at the start of field `st` of `n` bytes, behind the bytes `w` of the packet.
pub record Before (st n : ℕ) (w : List ℕ) (s : ProtocolState) : Type 0 where
  pub state_is : s.state ≡ st
  pub wanted : s.bytes_to_read ≡ n
  pub none_read : s.bytes_read ≡ 0
  pub no_mark : s.next_is_special ≡ 0
  pub at : s.pos ≡ length w
  pub so_far : take (length w) s.packet ≡ w
  pub size : length s.packet ≡ max_packet_len

-- the same, when the field's bytes are stored
pub record After (st : ℕ) (w : List ℕ) (s : ProtocolState) : Type 0 where
  pub state_is : s.state ≡ st
  pub no_mark : s.next_is_special ≡ 0
  pub at : s.pos ≡ length w
  pub so_far : take (length w) s.packet ≡ w
  pub size : length s.packet ≡ max_packet_len

length_snoc : (w : List ℕ) (b : ℕ) → length (w ++ b ∷ []) ≡ suc (length w)
length_snoc w b = omega (arith, length-append w (b ∷ []))

store_all-After :
    (s : ProtocolState) (st : ℕ) (w bs : List ℕ)
    → length w + length bs ≤ max_packet_len
    → After st w s
    → After st (w ++ bs) (store_all s bs)
store_all-After s st w [] l h = rw append-nil h
store_all-After s st w (b ∷ bs) l h = rw (sym (append_assoc w (b ∷ []) bs)) (
    store_all-After (store s b) st (w ++ b ∷ []) bs (omega (arith, length-append w (b ∷ [])))
      (record {
        state_is = h.state_is;
        no_mark = h.no_mark;
        at = omega (arith, length-append w (b ∷ []), h.at);
        so_far =
            rw (length_snoc w b, h.at)
              (take-set s.packet (length w) b (omega (arith, h.size))
                ∙ ap (λ v. v ++ b ∷ []) h.so_far);
        size = rw length-set h.size;
      }))

-- `quota` as it is computed behind the field: `m` bytes for the next one.
abbrev pub Asks : ℕ → List ℕ → (ProtocolState → ℕ) → ℕ → Type 0
Asks st w quota m = (t : ProtocolState) → After st w t → quota t ≡ m

next_field :
    (st next m : ℕ) (quota : ProtocolState → ℕ) (w : List ℕ) (t : ProtocolState)
    → Asks st w quota m
    → After st w t
    → Before next m w (set_state t next (quota t) 0)
unfolding set_state
next_field st next m quota w t q h = record {
  state_is = refl;
  wanted = q t h;
  none_read = refl;
  no_mark = h.no_mark;
  at = h.at;
  so_far = h.so_far;
  size = h.size;
}

pub stored :
    (st n : ℕ) (w bs : List ℕ) (s : ProtocolState)
    → Before st n w s
    → length w + length bs ≤ max_packet_len
    → After st (w ++ bs) (store_all s bs)
stored st n w bs s h l = store_all-After s st w bs l (record {
  state_is = h.state_is;
  no_mark = h.no_mark;
  at = h.at;
  so_far = h.so_far;
  size = h.size;
})

-- One statement of `received_buf` reads one stuffed field, whatever follows it.
pub escaped_field :
    (st next m : ℕ) (quota : ProtocolState → ℕ) (w bs rest : List ℕ) (s : ProtocolState)
    → Before st (length bs) w s
    → AreBytes bs
    → length w + length bs ≤ max_packet_len
    → Asks st (w ++ bs) quota m
    → (t : ProtocolState) × (advance false st true next quota (s, escapes bs ++ rest) ≡ (t, rest))
      × Before next m (w ++ bs) t
unfolding advance parse_state
escaped_field st next m quota w bs rest s h p l q = (
  set_state (store_all s bs) next (quota (store_all s bs)) 0,
  rw (
    (==_iff s.state st).1 h.state_is,
    loop_escaped 0 s bs rest p h.no_mark (omega arith) (omega arith),
  ),
  next_field st next m quota (w ++ bs) (store_all s bs) q (stored st _ w bs s h l),
)

-- The start byte and the packet type are not stuffed.
pub raw_field :
    (st next m : ℕ) (quota : ProtocolState → ℕ) (w bs rest : List ℕ) (s : ProtocolState)
    → Before st (length bs) w s
    → length w + length bs ≤ max_packet_len
    → Asks st (w ++ bs) quota m
    → (t : ProtocolState) × (advance false st false next quota (s, bs ++ rest) ≡ (t, rest))
      × Before next m (w ++ bs) t
unfolding advance parse_state
raw_field st next m quota w bs rest s h l q = (
  set_state (store_all s bs) next (quota (store_all s bs)) 0,
  rw ((==_iff s.state st).1 h.state_is, loop_raw 0 s bs rest (omega arith) (omega arith)),
  next_field st next m quota (w ++ bs) (store_all s bs) q (stored st _ w bs s h l),
)
