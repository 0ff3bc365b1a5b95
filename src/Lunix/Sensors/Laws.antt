-- ===== src/Lunix/Sensors/Laws.antt =====
-- What an update of a sensor does to its pages.
use c_development_on_linux.Base.{ℕ, ◌%◌, ◌^◌, Option, some, ◌≡◌, ◌≢◌, refl, sym, arith, ◌∙◌}
use c_development_on_linux.Lunix.Sensors.{
  MsrData, Pages, Sensor, set_magic, set_value, set_time, msr_magic, put, modify, sensor_update,
}

-- The sensor has three pages of its own, all live.
pub record Owns (s : Sensor) (m : Pages) (b t l : ℕ) : Type 0 where
  pub at_batt : s.batt_page ≡ some b
  pub at_temp : s.temp_page ≡ some t
  pub at_light : s.light_page ≡ some l
  pub b_ne_t : b ≢ t
  pub b_ne_l : b ≢ l
  pub t_ne_l : t ≢ l

-- `m'` differs from `m` at three addresses at most.
abbrev pub SameElsewhere : (b t l : ℕ) → Pages → Pages → Type 0
SameElsewhere b t l m m' = (q : ℕ) → q ≢ b → q ≢ t → q ≢ l → m' q ≡ m q

abbrev pub measured : ℕ → ℕ → MsrData
measured now v = record { magic = msr_magic; last_update = now % 2 ^ 32; value = v }

-- what three pages hold, while all else is as in `m0`
pub record View (m0 : Pages) (b t l : ℕ) (db dt dl : MsrData) (m : Pages) : Type 0 where
  pub in_batt : m b ≡ some db
  pub in_temp : m t ≡ some dt
  pub in_light : m l ≡ some dl
  pub elsewhere : SameElsewhere b t l m0 m

pub put_self : (m : Pages) (p : ℕ) (v : Option MsrData) → put m p v p ≡ v
put_self m p v = ground arith

pub put_ne : (m : Pages) (p q : ℕ) (v : Option MsrData) → p ≢ q → put m p v q ≡ m q
put_ne m p q v h = ground arith

module _ {m0 : Pages} {b t l : ℕ} (s : Sensor) (o : Owns s m0 b t l) where
  pub modify_batt :
      (f : MsrData → MsrData) (m : Pages) {db dt dl : MsrData}
      → View m0 b t l db dt dl m
      → (m' : Pages) × (modify s.batt_page f m ≡ some m') × View m0 b t l (f db) dt dl m'
  unfolding modify
  modify_batt f m {db} v = (
    put m b (some (f db)),
    rw (o.at_batt, v.in_batt),
    record {
      in_batt = put_self m b _;
      in_temp = put_ne m b t _ o.b_ne_t ∙ v.in_temp;
      in_light = put_ne m b l _ o.b_ne_l ∙ v.in_light;
      elsewhere = λ q x y z. put_ne m b q _ (λ e. x (sym e)) ∙ v.elsewhere q x y z;
    },
  )

  pub modify_temp :
      (f : MsrData → MsrData) (m : Pages) {db dt dl : MsrData}
      → View m0 b t l db dt dl m
      → (m' : Pages) × (modify s.temp_page f m ≡ some m') × View m0 b t l db (f dt) dl m'
  unfolding modify
  modify_temp f m {dt} v = (
    put m t (some (f dt)),
    rw (o.at_temp, v.in_temp),
    record {
      in_batt = put_ne m t b _ (λ e. o.b_ne_t (sym e)) ∙ v.in_batt;
      in_temp = put_self m t _;
      in_light = put_ne m t l _ o.t_ne_l ∙ v.in_light;
      elsewhere = λ q x y z. put_ne m t q _ (λ e. y (sym e)) ∙ v.elsewhere q x y z;
    },
  )

  pub modify_light :
      (f : MsrData → MsrData) (m : Pages) {db dt dl : MsrData}
      → View m0 b t l db dt dl m
      → (m' : Pages) × (modify s.light_page f m ≡ some m') × View m0 b t l db dt (f dl) m'
  unfolding modify
  modify_light f m {dl} v = (
    put m l (some (f dl)),
    rw (o.at_light, v.in_light),
    record {
      in_batt = put_ne m l b _ (λ e. o.b_ne_l (sym e)) ∙ v.in_batt;
      in_temp = put_ne m l t _ (λ e. o.t_ne_l (sym e)) ∙ v.in_temp;
      in_light = put_self m l _;
      elsewhere = λ q x y z. put_ne m l q _ (λ e. z (sym e)) ∙ v.elsewhere q x y z;
    },
  )

-- `lunix_sensor_update` on a sensor with three live pages of its own stores each measurement in the
-- page of its kind, stamps all three with the magic number and the same 32-bit time, and writes
-- nowhere else.
pub sensor_update_lem :
    (now : ℕ) (s : Sensor) (m : Pages) (b t l x y z : ℕ) {db dt dl : MsrData}
    → Owns s m b t l
    → m b ≡ some db
    → m t ≡ some dt
    → m l ≡ some dl
    → (m' : Pages) × (sensor_update now s x y z m ≡ some m')
      × (m' b ≡ some (measured now x))
      × (m' t ≡ some (measured now y))
      × (m' l ≡ some (measured now z))
      × SameElsewhere b t l m m'
unfolding sensor_update
sensor_update_lem now s m b t l x y z o hb ht hl =
    let v0 : View m b t l _ _ _ m = record {
      in_batt = hb;
      in_temp = ht;
      in_light = hl;
      elsewhere = λ _ _ _ _. refl;
    } in
    let s1 = modify_batt s o (set_value x) m v0 in
    let s2 = modify_temp s o (set_value y) s1.0 s1.2 in
    let s3 = modify_light s o (set_value z) s2.0 s2.2 in
    let s4 = modify_light s o set_magic s3.0 s3.2 in
    let s5 = modify_temp s o set_magic s4.0 s4.2 in
    let s6 = modify_batt s o set_magic s5.0 s5.2 in
    let s7 = modify_light s o (set_time now) s6.0 s6.2 in
    let s8 = modify_temp s o (set_time now) s7.0 s7.2 in
    let s9 = modify_batt s o (set_time now) s8.0 s8.2 in
    (
      s9.0,
      rw (s1.1, s2.1, s3.1, s4.1, s5.1, s6.1, s7.1, s8.1, s9.1),
      s9.2.in_batt,
      s9.2.in_temp,
      s9.2.in_light,
      s9.2.elsewhere,
    )
