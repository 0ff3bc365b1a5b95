-- ===== src/Lunix/Protocol/Builds.antt =====
-- The two builds of lunix-protocol.c, with LUNIX_DEBUG and without it: where its guard on the rounds
-- of a field makes no difference.
use c_development_on_linux.Base.{
  ℕ, ◌+◌, ◌-◌, get_or, ◌<◌, ◌≤◌, Bool, true, false, List, [], ◌∷◌, Option, none, some, ◌≡◌, refl,
  arith, length, All, ltb, ◌==◌, inl, inr, Bool-cases,
}
use c_development_on_linux.Lunix.Sensors.{◌>>=◌}
use c_development_on_linux.Lunix.Protocol.{
  ProtocolState, Driver, max_packet_len, take_byte, parse_loop, parse_state, advance, read_fields,
  received_buf, receive_all,
}

-- Every buffer is short enough for the guard of a build: with LUNIX_DEBUG it has fewer than 50 bytes.
abbrev pub IsShort : Bool → List (ℕ × List ℕ) → Type 0
IsShort true calls = All (λ c. length c.1 < 50) calls
IsShort false calls = Unit

pub bind_cong :
    {A B : Type 0}
    → (x : Option A) (f g : A → Option B) → ((a : A) → f a ≡ g a)
    → (x >>= f) ≡ (x >>= g)
bind_cong none f g h = refl
bind_cong (some a) f g h = h a

parse_loop-builds :
    (sp : Bool) (i : ℕ) (s : ProtocolState) (buf : List ℕ)
    → i + length buf < 50
    → parse_loop true sp i s buf ≡ parse_loop false sp i s buf
unfolding parse_loop
parse_loop-builds sp i s [] h = refl
parse_loop-builds sp i s (b ∷ rest) h =
    let early : (i + 1 == 50) ≡ false = ground (arith, h) in
    rw (early, parse_loop-builds sp (i + 1) (take_byte sp s b) rest (omega (arith, h))) refl

-- What is left of a buffer is no longer than the buffer.
parse_loop-shorter :
    (sp : Bool) (i : ℕ) (s : ProtocolState) (buf : List ℕ)
    → length (parse_loop false sp i s buf).1 ≤ length buf
unfolding parse_loop
parse_loop-shorter sp i s [] = omega arith
parse_loop-shorter sp i s (b ∷ rest) =
    let later = parse_loop-shorter sp (i + 1) (take_byte sp s b) rest in
    elim (Bool-cases (ltb s.bytes_read s.bytes_to_read)) [
      | inr over ↦ rw over (omega arith)
      | inl more ↦ elim (Bool-cases (s.pos == max_packet_len)) [
        | inl full ↦ rw (more, full) (omega arith)
        | inr room ↦ rw (more, room) (omega (arith, later))
      ]
    ]

parse_state-builds :
    (sp : Bool) (s : ProtocolState) (buf : List ℕ)
    → length buf < 50
    → parse_state true sp s buf ≡ parse_state false sp s buf
unfolding parse_state
parse_state-builds sp s buf h = parse_loop-builds sp 0 s buf (omega (arith, h))

-- What the two builds have come to is the same, with few bytes left.
abbrev Alike : ProtocolState × List ℕ → ProtocolState × List ℕ → Type 0
Alike x y = (x ≡ y) × (length y.1 < 50)

advance-builds :
    (from : ℕ) (sp : Bool) (next : ℕ) (q : ProtocolState → ℕ) (x y : ProtocolState × List ℕ)
    → Alike x y
    → Alike (advance true from sp next q x) (advance false from sp next q y)
unfolding advance parse_state
advance-builds from sp next q x (s, buf) (same, short) = elim (Bool-cases (s.state == from)) [
  | inr other ↦ rw (same, other) (refl, short)
  | inl here ↦
      rw (same, here, parse_loop-builds sp 0 s buf (omega (arith, short)))
        (refl, omega (arith, short, parse_loop-shorter sp 0 s buf))
]

read_fields-builds :
    (s : ProtocolState) (buf : List ℕ)
    → length buf < 50
    → Alike (read_fields true s buf) (read_fields false s buf)
unfolding read_fields
read_fields-builds s buf h =
    let k0 = advance-builds 1 false 2 (λ _. 1) (s, buf) (s, buf) (refl, h) in
    let k1 = advance-builds 2 false 3 (λ _. 2) _ _ k0 in
    let k2 = advance-builds 3 true 4 (λ _. 1) _ _ k1 in
    let k3 = advance-builds 4 true 5 (λ _. 1) _ _ k2 in
    let k4 = advance-builds 5 true 6 (λ _. 1) _ _ k3 in
    let k5 = advance-builds 6 true 7 (λ s'. get_or s'.packet (s'.pos - 1) 0) _ _ k4 in
    let k6 = advance-builds 7 true 8 (λ _. 2) _ _ k5 in
    let k7 = advance-builds 8 true 9 (λ _. 1) _ _ k6 in k7

received_buf-builds :
    (now : ℕ) (d : Driver) (buf : List ℕ)
    → length buf < 50
    → received_buf true now d buf ≡ received_buf false now d buf
unfolding received_buf
received_buf-builds now d buf h =
    let (same, short) = read_fields-builds d.protocol buf h in
    let r = read_fields false d.protocol buf in
    rw (same, parse_state-builds false r.0 r.1 short) refl

-- On buffers that are short enough a build does what the one without LUNIX_DEBUG does.
pub receive_all-builds :
    (debug : Bool) (d : Driver) (calls : List (ℕ × List ℕ))
    → IsShort debug calls
    → receive_all debug d calls ≡ receive_all false d calls
unfolding receive_all
receive_all-builds false d calls h = refl
receive_all-builds true d [] h = refl
receive_all-builds true d ((now, buf) ∷ more) h =
    rw (received_buf-builds now d buf h.0)
      (bind_cong (received_buf false now d buf) _ _ (λ e. receive_all-builds true e more h.1))
