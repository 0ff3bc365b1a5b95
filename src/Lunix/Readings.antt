-- ===== src/Lunix/Readings.antt =====
-- The whole way of a measurement through the driver: from the bytes on the line, through
-- lunix-protocol.c and lunix-sensors.c, to the text that a process reads from lunix-chrdev.c.
use c_development_on_linux.Base.{
  sym, ℕ, ◌+◌, ◌-◌, ◌^◌, ◌%◌, ◌≤◌, ◌<◌, ◌≢◌, Bool, false, true, List, [], ◌∷◌, ◌++◌, some, ◌≡◌,
  refl, ◌∙◌, ap, arith, All, length, get_elem?, ◌==◌, ltb, leb, ◌&&◌, ==_of_ne,
}
use c_development_on_linux.Lunix.Sensors.{
  Msr, batt, temp, light, Sensor, Pages, MsrData, fetch, msr_data, ◌>>=◌,
}
use c_development_on_linux.Lunix.Sensors.Laws.{Owns, measured, sensor_update_lem}
use c_development_on_linux.Lunix.Protocol.{Driver, receive_all, uint16_from_packet}
use c_development_on_linux.Lunix.Protocol.Builds.{IsShort, receive_all-builds}
use c_development_on_linux.Lunix.Protocol.Layout.{Inv}
use c_development_on_linux.Lunix.Protocol.Buffers.{with}
use c_development_on_linux.Lunix.Protocol.Frames.{Frame, IsIdle}
use c_development_on_linux.Lunix.Protocol.RoundTrip.{deliver, node_of}
use c_development_on_linux.Lunix.Protocol.Arrivals.{Arrival, IsArrival, calls, receive_all-wire}
use c_development_on_linux.Lunix.Chrdev.{
  ChrdevState, Memory, measurement, state_needs_refresh, wait_event, Env, Lookup, Long, text_of,
}
use c_development_on_linux.Lunix.Chrdev.Copies.{read_all, total}
use c_development_on_linux.Lunix.Chrdev.Reads.{Fresh, read_all-text_of}

-- the measurement of a kind in a packet
abbrev pub value_of : Msr → Frame → ℕ
value_of batt f = uint16_from_packet f.payload 11
value_of temp f = uint16_from_packet f.payload 13
value_of light f = uint16_from_packet f.payload 15

-- The packet reports measurements of the sensor with an index, one that the driver has, with three
-- live pages of its own.
pub record Reports (f : Frame) (d : Driver) (n : ℕ) : Type 0 where
  pub is_report : f.am_type ≡ 0x0B
  pub node : node_of f ≡ n + 1
  pub known : n < d.sensor_cnt
  pub sensor : Sensor
  pub at : get_elem? d.sensors n ≡ some sensor
  pub b : ℕ
  pub t : ℕ
  pub l : ℕ
  pub owns : Owns sensor d.pages b t l
  pub db : MsrData
  pub dt : MsrData
  pub dl : MsrData
  pub live_b : d.pages b ≡ some db
  pub live_t : d.pages t ≡ some dt
  pub live_l : d.pages l ≡ some dl

-- The memory that a read looks at.
abbrev pub memory_of : Driver → Memory
memory_of d = record { sensors = d.sensors; pages = d.pages }

-- What the driver holds after the report: the measurement of each kind, stamped with the time.
pub record Stored (now : ℕ) (f : Frame) (d e : Driver) (n : ℕ) : Type 0 where
  pub same_sensors : e.sensors ≡ d.sensors
  pub woken : e.woken ≡ n ∷ d.woken
  pub stored : (k : Msr) → measurement k n (memory_of e) ≡ some (measured now (value_of k f))

module _ (now : ℕ) (f : Frame) {p : Pages} (s : Sensor) (m : Pages) (b t l : ℕ) (o : Owns s p b t l)
    (in_b : m b ≡ some (measured now (value_of batt f)))
    (in_t : m t ≡ some (measured now (value_of temp f)))
    (in_l : m l ≡ some (measured now (value_of light f))) where
  fetch_kind : (k : Msr) → fetch (msr_data k s) m ≡ some (measured now (value_of k f))
  unfolding fetch
  fetch_kind batt = ap (λ q. fetch q m) o.at_batt ∙ in_b
  fetch_kind temp = ap (λ q. fetch q m) o.at_temp ∙ in_t
  fetch_kind light = ap (λ q. fetch q m) o.at_light ∙ in_l

module _ (now : ℕ) (f : Frame) (d : Driver) (n : ℕ) (r : Reports f d n) where
  deliver-Stored : (e : Driver) × (deliver now f d ≡ some e) × Stored now f d e n
  unfolding deliver measurement
  deliver-Stored =
      let known : ltb 0 (n + 1) && leb (n + 1) d.sensor_cnt ≡ true = ground (arith, r.known) in
      let index : n + 1 - 1 ≡ n = omega arith in
      let (m, goes, in_b, in_t, in_l, _) =
        sensor_update_lem now r.sensor d.pages r.b r.t r.l (value_of batt f) (value_of temp f)
          (value_of light f) r.owns r.live_b r.live_t r.live_l in
      (
        record d { pages = m; woken = n ∷ d.woken },
        rw (r.is_report, r.node, known, index, r.at, goes) refl,
        record {
          same_sensors = refl;
          woken = refl;
          stored = λ k.
              ap (λ x. x >>= λ z. fetch (msr_data k z) m) r.at
              ∙ fetch_kind now f r.sensor m r.b r.t r.l r.owns in_b in_t in_l k;
        },
      )

-- What a read meets when the report has come and nothing else happens.
abbrev pub quiet : Driver → Env
quiet e = record {
  granted = true;
  seen = memory_of e ∷ [];
  relocked = some (λ s. s);
  memory = memory_of e;
  writable = true;
}

module _ (lookup : Lookup) (now : ℕ) (f : Frame) (d e : Driver) (n : ℕ) (v : Stored now f d e n)
    (s : ChrdevState) (x : Long) where
  quiet-Fresh :
      s.sensor ≡ n
      → s.buf_timestamp ≢ now % 2 ^ 32
      → lookup s.type (value_of s.type f) ≡ some x
      → x.magnitude < 2 ^ 31
      → Fresh lookup (quiet e) s (measured now (value_of s.type f)) x
  quiet-Fresh here old looked small =
      let there : measurement s.type s.sensor (memory_of e)
          ≡ some (measured now (value_of s.type f)) =
        ap (λ i. measurement s.type i (memory_of e)) here ∙ v.stored s.type in
      let new : (now % 2 ^ 32 == s.buf_timestamp) ≡ false = ==_of_ne _ _ (λ z. old (sym z)) in
      record {
        granted = refl;
        writable = refl;
        woken = unfold wait_event state_needs_refresh in rw (there, new) refl;
        others = λ s. s;
        relocked = refl;
        same_lock = refl;
        same_sensor = refl;
        same_type = refl;
        measured = there;
        looked_up = looked;
        in_int = small;
      }

-- From the line to the reader, in the build with LUNIX_DEBUG and in the one without it: an idle
-- parser receives a well-formed report, cut into buffers in any way, with LUNIX_DEBUG into buffers of
-- fewer than 50 bytes, on a sensor that the driver has, with three live pages of its own. It wakes
-- the readers of that sensor. Then a process reads an open file of the sensor, whose semaphore is
-- free and whose last measurement has another time, with positive sizes that together ask for at
-- least the text, the last of them for its end, and nothing else happens meanwhile. It gets the text
-- that the table gives for the packet's measurement of the file's kind, if that fits an `int`; the
-- file keeps the time of the buffer with the end byte and the count of its semaphore.
pub receive_all-read_all :
    (debug : Bool) (lookup : Lookup) (d : Driver) (a : Arrival) (n : ℕ) (s : ChrdevState) (x : Long)
    (cs : List ℕ) (c : ℕ)
    → IsShort debug (calls a)
    → IsArrival a
    → IsIdle d.protocol
    → Inv d.protocol
    → Reports a.frame d n
    → s.sensor ≡ n
    → s.buf_timestamp ≢ a.now % 2 ^ 32
    → 0 < s.lock
    → lookup s.type (value_of s.type a.frame) ≡ some x
    → x.magnitude < 2 ^ 31
    → All (λ k. 0 < k) cs
    → total cs < length (text_of x)
    → length (text_of x) ≤ total cs + c
    → (e : Driver) × (receive_all debug d (calls a) ≡ some e)
      × (e.woken ≡ n ∷ d.woken)
      × (t : ChrdevState) × (t.lock ≡ s.lock)
      × (t.buf_timestamp ≡ a.now % 2 ^ 32)
      × (read_all lookup (quiet e) (cs ++ c ∷ []) 1 s ≡ some (1, t, text_of x))
receive_all-read_all debug lookup d a n s x cs c short v h i r here old free looked small positive
      below enough =
    let (p, _, got) = receive_all-wire d a v h i in
    let (e, goes, kept) = deliver-Stored a.now a.frame d n r in
    let again : Stored a.now a.frame d (with e p) n = record {
      same_sensors = kept.same_sensors;
      woken = kept.woken;
      stored = kept.stored;
    } in
    let fresh = quiet-Fresh lookup a.now a.frame d (with e p) n again s x here old looked small in
    let (u, lock, time, text) =
      read_all-text_of lookup (quiet (with e p)) s _ x cs c fresh free positive below enough in
    (
      with e p,
      receive_all-builds debug d (calls a) short ∙ got ∙ rw goes refl,
      kept.woken,
      u,
      lock,
      time,
      text,
    )
