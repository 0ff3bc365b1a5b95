-- ===== src/Lunix/Chrdev/Opens.antt =====
-- What opening a node of lunix-chrdev.c does to its sensor.
use c_development_on_linux.Base.{
  ℕ, ◌/◌, ◌≡◌, ◌≢◌, refl, sym, ap, ◌∙◌, none, some, get_elem?, set, arith,
}
use c_development_on_linux.Lunix.Sensors.{
  MsrData, Pages, Sensor, set_time, Allocator, IsFresh, ready, sensor_init,
}
use c_development_on_linux.Lunix.Sensors.Opening.{sensor_init-Opened}
use c_development_on_linux.Lunix.Sensors.Laws.{
  Owns, View, measured, modify_batt, modify_temp, modify_light,
}
use c_development_on_linux.Lunix.Chrdev.{ChrdevState, Memory, open_node, first_state}

-- The sensor of the node has three new pages, and every page that was live is as before.
pub record Renewed (m : Memory) (minor : ℕ) (s : Sensor) (m' : Memory) : Type 0 where
  pub b : ℕ
  pub t : ℕ
  pub l : ℕ
  pub owns : Owns s m'.pages b t l
  pub stored : m'.sensors ≡ set m.sensors (minor / 8) s
  pub reset :
      (m'.pages b ≡ some (measured 0 0))
      × (m'.pages t ≡ some (measured 0 0))
      × (m'.pages l ≡ some (measured 0 0))
  pub kept : (q : ℕ) (d : MsrData) → m.pages q ≡ some d → m'.pages q ≡ some d

was_free : (m : Pages) (p q : ℕ) (d : MsrData) → m p ≡ none → m q ≡ some d → q ≢ p
was_free m p q d e live same = absurd (ground (arith, sym e ∙ ap m (sym same) ∙ live))

Owns-after : (s : Sensor) (m m' : Pages) {b t l : ℕ} → Owns s m b t l → Owns s m' b t l
Owns-after s m m' o = record {
  at_batt = o.at_batt;
  at_temp = o.at_temp;
  at_light = o.at_light;
  b_ne_t = o.b_ne_t;
  b_ne_l = o.b_ne_l;
  t_ne_l = o.t_ne_l;
}

-- When there is memory, opening a node replaces the pages of its sensor by three new ones with the
-- magic number and time 0 and makes a state with a free semaphore at the first byte. Pages that were
-- live stay live, so those that the sensor had before are lost.
pub open_node-Renewed :
    (pick : Allocator) (blank : ChrdevState) (minor : ℕ) (m : Memory) {old s : Sensor} {p : Pages}
    → IsFresh pick
    → get_elem? m.sensors (minor / 8) ≡ some old
    → sensor_init pick old m.pages ≡ (s, p, ready)
    → (m' : Memory) × (st : ChrdevState) × (open_node pick (some blank) minor m ≡ some (m', 1, st))
      × (st.sensor ≡ minor / 8)
      × (st.lock ≡ 1)
      × Renewed m minor s m'
unfolding open_node first_state
open_node-Renewed pick blank minor m {old} {s} {p} fresh there e =
    let o = sensor_init-Opened pick old m.pages fresh e in
    let mine = Owns-after s p m.pages o.owns in
    let v0 : View m.pages o.b o.t o.l _ _ _ p = record {
      in_batt = o.zero_b;
      in_temp = o.zero_t;
      in_light = o.zero_l;
      elsewhere = o.rest;
    } in
    let (p1, e1, v1) = modify_batt s mine (set_time 0) p v0 in
    let (p2, e2, v2) = modify_light s mine (set_time 0) p1 v1 in
    let (p3, e3, v3) = modify_temp s mine (set_time 0) p2 v2 in
    (
      record { sensors = set m.sensors (minor / 8) s; pages = p3 },
      first_state minor blank,
      rw (there, e, e1, e2, e3) refl,
      refl,
      refl,
      record {
        b = o.b;
        t = o.t;
        l = o.l;
        owns = Owns-after s p p3 o.owns;
        stored = refl;
        reset = (v3.in_batt, v3.in_temp, v3.in_light);
        kept = λ q d live.
            v3.elsewhere q (was_free m.pages o.b q d o.were_free.0 live)
              (was_free m.pages o.t q d o.were_free.1 live)
              (was_free m.pages o.l q d o.were_free.2 live)
            ∙ live;
      },
    )
