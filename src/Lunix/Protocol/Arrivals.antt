-- ===== src/Lunix/Protocol/Arrivals.antt =====
-- Packets that arrive in several buffers, and several packets.
use c_development_on_linux.Base.{
  ℕ, ◌<◌, false, List, [], ◌∷◌, ◌++◌, Option, none, some, ◌≡◌, refl, sym, ◌∙◌, ap, arith,
  All-append, append_assoc, length, length-append,
}
use c_development_on_linux.Base.Bytes.{AreBytes, IsByte}
use c_development_on_linux.Lunix.Sensors.{◌>>=◌}
use c_development_on_linux.Lunix.Protocol.{
  ProtocolState, Driver, read_fields, received_buf, receive_all,
}
use c_development_on_linux.Lunix.Protocol.Layout.{Inv}
use c_development_on_linux.Lunix.Protocol.Bounds.{AreReceived}
use c_development_on_linux.Lunix.Protocol.Chunks.{ahead, stopped}
use c_development_on_linux.Lunix.Protocol.Buffers.{
  IsBetween, read_fields-UsedUp, read_fields-Track, with, received_buf-used, received_buf-again,
}
use c_development_on_linux.Lunix.Protocol.Frames.{Frame, IsFrame, wire, IsIdle, read_fields-wire}
use c_development_on_linux.Lunix.Protocol.RoundTrip.{deliver, IsReport, received_buf-wire}

-- the bytes of some calls
abbrev pub bytes_of : List (ℕ × List ℕ) → List ℕ
bytes_of [] = []
bytes_of ((now, buf) ∷ more) = buf ++ bytes_of more

append_nil : {A : Type 0} → (xs ys : List A) → xs ++ ys ≡ [] → xs ≡ []
append_nil [] ys e = refl
append_nil (x ∷ xs) ys e = absurd cc

-- What two buffers at once leave nothing of, the first alone leaves nothing of.
first_used :
    (s : ProtocolState) (a b : List ℕ)
    → Inv s
    → AreBytes a
    → IsBetween s
    → (read_fields false s (a ++ b)).1 ≡ []
    → (read_fields false s a).1 ≡ []
first_used s a b h p nine e = elim (read_fields-Track b s a h p nine).behind [
  | ahead past wants f ↦ append_nil _ b (sym (ap (λ c. c.1) f) ∙ e)
  | stopped u low wants f ↦ u
]

bind_some : {A : Type 0} → (x : Option A) → (x >>= λ a. some a) ≡ x
bind_some none = refl
bind_some (some a) = refl

-- Buffers whose bytes the fields use up, and one more, do what one buffer with all their bytes does
-- at the time of the last.
pub receive_all-chunks :
    (d : Driver) (chunks : List (ℕ × List ℕ)) (now : ℕ) (last : List ℕ)
    → Inv d.protocol
    → AreReceived chunks
    → IsBetween d.protocol
    → (read_fields false d.protocol (bytes_of chunks)).1 ≡ []
    → receive_all false d (chunks ++ (now, last) ∷ [])
      ≡ received_buf false now d (bytes_of chunks ++ last)
unfolding receive_all
receive_all-chunks d [] now last h p nine e = bind_some (received_buf false now d last)
receive_all-chunks d ((n, a) ∷ more) now last h p nine e =
    let used = first_used d.protocol a (bytes_of more) h p.0 nine e in
    let t = (read_fields false d.protocol a).0 in
    let u = read_fields-UsedUp (bytes_of more) d.protocol a h p.0 nine used in
    let v = read_fields-UsedUp (bytes_of more ++ last) d.protocol a h p.0 nine used in
    let rest =
      receive_all-chunks (with d t) more now last u.layout p.1 u.between
        (sym (ap (λ c. c.1) u.again) ∙ e) in
    rw (received_buf-used n d a (bytes_of more ++ last) t v, append_assoc a (bytes_of more) last)
      (rest ∙ sym (received_buf-again now d a (bytes_of more ++ last) t v))

-- A packet that arrives in some buffers and one more, which has its end byte, with bytes behind it.
pub record Arrival : Type 0 where
  pub frame : Frame
  pub behind : List ℕ
  pub chunks : List (ℕ × List ℕ)
  pub now : ℕ
  pub last : List ℕ

abbrev pub calls : Arrival → List (ℕ × List ℕ)
calls a = a.chunks ++ (a.now, a.last) ∷ []

pub record IsArrival (a : Arrival) : Type 0 where
  pub frame_is : IsFrame a.frame
  pub report_is : IsReport a.frame
  pub received : AreReceived (calls a)
  pub sent : bytes_of a.chunks ++ a.last ≡ wire a.frame a.behind
  pub ends : length a.behind < length a.last

AreReceived-left : (xs ys : List (ℕ × List ℕ)) → AreReceived (xs ++ ys) → AreReceived xs
AreReceived-left [] ys p = tt
AreReceived-left (x ∷ xs) ys p = (p.0, AreReceived-left xs ys p.1)

bytes_of-AreBytes : (xs : List (ℕ × List ℕ)) → AreReceived xs → AreBytes (bytes_of xs)
bytes_of-AreBytes [] p = tt
bytes_of-AreBytes ((n, x) ∷ xs) p = All-append IsByte x (bytes_of xs) p.0 (bytes_of-AreBytes xs p.1)

IsIdle-IsBetween : (s : ProtocolState) → IsIdle s → IsBetween s
IsIdle-IsBetween s h nine = let one = h.state_is in absurd omega (arith, one, nine)

short :
    (xs last rest : List ℕ) (n : ℕ) → xs ++ last ≡ n ∷ rest → length rest < length last → xs ≡ []
short [] last rest n e h = refl
short (x ∷ xs) last rest n e h =
    let k : length ((x ∷ xs) ++ last) ≡ length (n ∷ rest) = ap length e in
    absurd omega (arith, k, h, length-append (x ∷ xs) last)

-- The fields use up what comes before the buffer with the end byte.
before_end :
    (d : Driver) (a : Arrival)
    → IsArrival a
    → IsIdle d.protocol
    → Inv d.protocol
    → (read_fields false d.protocol (bytes_of a.chunks)).1 ≡ []
before_end d a v h i =
    let s = d.protocol in
    let xs = bytes_of a.chunks in
    let p = bytes_of-AreBytes a.chunks (AreReceived-left a.chunks _ v.received) in
    let (t, e, _) = read_fields-wire a.frame a.behind s v.frame_is h in
    elim (read_fields-Track a.last s xs i p (IsIdle-IsBetween s h)).behind [
      | ahead past wants f ↦
          let both : (read_fields false s (xs ++ a.last)).1 ≡ a.frame.stop ∷ a.behind =
            ap (λ l. (read_fields false s l).1) v.sent ∙ ap (λ c. c.1) e in
          short _ a.last a.behind a.frame.stop (sym (ap (λ c. c.1) f) ∙ both) v.ends
      | stopped u low wants f ↦ u
    ]

-- Round trip. A well-formed packet that an idle parser receives, cut into buffers in any way, is
-- delivered to its sensor exactly as it was sent, at the time of the buffer with its end byte, and
-- the parser is idle again. Bytes behind the packet in that buffer have no effect.
pub receive_all-wire :
    (d : Driver) (a : Arrival)
    → IsArrival a
    → IsIdle d.protocol
    → Inv d.protocol
    → (s : ProtocolState) × IsIdle s
      × (receive_all false d (calls a) ≡ (deliver a.now a.frame d >>= λ d'. some (with d' s)))
receive_all-wire d a v h i =
    let (s, idle, e) = received_buf-wire a.now a.frame a.behind d v.frame_is v.report_is h in
    (
      s,
      idle,
      receive_all-chunks d a.chunks a.now a.last i (AreReceived-left a.chunks _ v.received)
            (IsIdle-IsBetween d.protocol h) (before_end d a v h i)
          ∙ ap (received_buf false a.now d) v.sent
          ∙ e,
    )
