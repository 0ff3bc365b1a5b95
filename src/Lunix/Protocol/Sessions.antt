-- ===== src/Lunix/Protocol/Sessions.antt =====
-- Packets one behind the other, cut into buffers in any way.
use c_development_on_linux.Base.{
  ℕ, ◌-◌, Bool, false, List, [], ◌∷◌, ◌++◌, Option, none, some, ◌≡◌, refl, sym, ◌∙◌, inl, inr, All,
  ◌==◌, ◌&&◌, ltb, leb, Bool-cases, Option-cases, get_elem?,
}
use c_development_on_linux.Lunix.Sensors.{◌>>=◌, Pages}
use c_development_on_linux.Lunix.Protocol.{ProtocolState, Driver, receive_all, received_buf}
use c_development_on_linux.Lunix.Protocol.Builds.{IsShort, bind_cong, receive_all-builds}
use c_development_on_linux.Lunix.Protocol.Layout.{Inv}
use c_development_on_linux.Lunix.Protocol.Bounds.{receive_all-Inv}
use c_development_on_linux.Lunix.Protocol.Buffers.{with}
use c_development_on_linux.Lunix.Protocol.Frames.{Frame, IsIdle}
use c_development_on_linux.Lunix.Protocol.RoundTrip.{deliver, node_of}
use c_development_on_linux.Lunix.Protocol.Arrivals.{Arrival, IsArrival, calls, receive_all-wire}

-- The packets are delivered in their order, each at the time of its end byte.
abbrev pub deliver_all : List Arrival → Driver → Option Driver
deliver_all [] d = some d
deliver_all (a ∷ more) d = deliver a.now a.frame d >>= deliver_all more

abbrev pub all_calls : List Arrival → List (ℕ × List ℕ)
all_calls [] = []
all_calls (a ∷ more) = calls a ++ all_calls more

bind_bind :
    {A B C : Type 0}
    → (x : Option A) (f : A → Option B) (g : B → Option C)
    → ((x >>= f) >>= g) ≡ (x >>= λ a. f a >>= g)
bind_bind none f g = refl
bind_bind (some a) f g = refl

receive_all-append :
    (d : Driver) (xs ys : List (ℕ × List ℕ))
    → receive_all false d (xs ++ ys) ≡ (receive_all false d xs >>= λ e. receive_all false e ys)
unfolding receive_all
receive_all-append d [] ys = refl
receive_all-append d ((now, buf) ∷ xs) ys =
    let x = received_buf false now d buf in
    bind_cong x _ _ (λ e. receive_all-append e xs ys) ∙ sym (bind_bind x _ _)

-- The parser plays no part in a delivery.
pages-keep :
    (d : Driver) (i : ℕ) (t : ProtocolState) (x : Option Pages)
    → (x >>= λ m. some (record d { protocol = t; pages = m; woken = i ∷ d.woken }))
      ≡ ((x >>= λ m. some (record d { pages = m; woken = i ∷ d.woken })) >>= λ e. some (with e t))
pages-keep d i t none = refl
pages-keep d i t (some m) = refl

deliver-with :
    (now : ℕ) (f : Frame) (d : Driver) (t : ProtocolState)
    → deliver now f (with d t) ≡ (deliver now f d >>= λ e. some (with e t))
unfolding deliver
deliver-with now f d t = elim (Bool-cases (f.am_type == 0x0B)) [
  | inr other ↦ rw other refl
  | inl report ↦
      let n = node_of f in
      rw report (elim (Bool-cases (ltb 0 n && leb n d.sensor_cnt)) [
        | inr unknown ↦ rw unknown refl
        | inl found ↦ rw found (elim (Option-cases (get_elem? d.sensors (n - 1))) [
          | inl e ↦ rw e refl
          | inr (s, e) ↦ rw e (pages-keep d (n - 1) t _)
        ])
      ])
]

deliver_all-with :
    (more : List Arrival) (d : Driver) (t : ProtocolState)
    → deliver_all more (with d t) ≡ (deliver_all more d >>= λ e. some (with e t))
deliver_all-with [] d t = refl
deliver_all-with (a ∷ more) d t =
    let x = deliver a.now a.frame d in
    rw (deliver-with a.now a.frame d t)
      (bind_bind x _ _ ∙ bind_cong x _ _ (λ e. deliver_all-with more e t) ∙ sym (bind_bind x _ _))

-- the build without LUNIX_DEBUG
receive_all-deliver_all_plain :
    (d : Driver) (more : List Arrival)
    → All IsArrival more
    → IsIdle d.protocol
    → Inv d.protocol
    → (s : ProtocolState) × IsIdle s
      × (receive_all false d (all_calls more) ≡ (deliver_all more d >>= λ d'. some (with d' s)))
receive_all-deliver_all_plain d [] v h i = (d.protocol, h, unfold receive_all in refl)
receive_all-deliver_all_plain d (a ∷ more) v h i =
    let (s, idle, e) = receive_all-wire d a v.0 h i in
    elim (Option-cases (deliver a.now a.frame d)) [
      | inl faults ↦
          (s, idle, receive_all-append d (calls a) (all_calls more) ∙ rw (e, faults) refl)
      | inr (d', goes) ↦
          let got : receive_all false d (calls a) ≡ some (with d' s) = rw (e, goes) refl in
          let kept = receive_all-Inv false d (calls a) i v.0.received got in
          let (t, idle', f) = receive_all-deliver_all_plain (with d' s) more v.1 idle kept.0 in
          (
            t,
            idle',
            receive_all-append d (calls a) (all_calls more)
                ∙ rw (got, goes)
                    (f ∙ rw (deliver_all-with more d' s) (again (deliver_all more d') s t)),
          )
    ]
  where
    again :
        (x : Option Driver) (s t : ProtocolState)
        → ((x >>= λ e. some (with e s)) >>= λ e. some (with e t)) ≡ (x >>= λ e. some (with e t))
    again none s t = refl
    again (some e) s t = refl

-- Refinement, in the build with LUNIX_DEBUG and in the one without it: an idle parser receives
-- well-formed packets one behind the other, those with measurements long enough for them, each cut
-- into buffers in any way, with LUNIX_DEBUG into buffers of fewer than 50 bytes. That does to the
-- driver what the deliveries do in the order of the end bytes, each at the time of the buffer with
-- its end byte, and leaves an idle parser; if a delivery would fault, so does the receipt. Bytes
-- behind an end byte in its buffer have no effect.
pub receive_all-deliver_all :
    (debug : Bool) (d : Driver) (more : List Arrival)
    → IsShort debug (all_calls more)
    → All IsArrival more
    → IsIdle d.protocol
    → Inv d.protocol
    → (s : ProtocolState) × IsIdle s
      × (receive_all debug d (all_calls more) ≡ (deliver_all more d >>= λ d'. some (with d' s)))
receive_all-deliver_all debug d more short v h i =
    let (s, idle, e) = receive_all-deliver_all_plain d more v h i in
    (s, idle, receive_all-builds debug d (all_calls more) short ∙ e)
