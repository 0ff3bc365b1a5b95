-- ===== src/Lunix/Sensors/Opening.antt =====
-- Where the pages of a sensor come from, and where they go: lunix_sensor_init and
-- lunix_sensor_destroy.
use native.Mathlib.Decide.{ℕ_discrete}
use mathlib.Core.Path.{subst₂}
use c_development_on_linux.Base.{
  ℕ, ◌==◌, Option, none, some, ◌≡◌, ◌≢◌, refl, sym, ap, arith, ◌∙◌, inl, inr, Bool-cases,
  Option-cases,
}
use c_development_on_linux.Lunix.Sensors.{
  MsrData, Pages, Sensor, zeroed, set_magic, put, Allocator, IsFresh, ready, sensor_init,
  sensor_destroy, free_page, InitResult, unset, from_temp, from_light, init_page, Msr, batt, temp,
  light, set_msr_data,
}
use c_development_on_linux.Lunix.Sensors.Laws.{Owns, SameElsewhere, put_self, put_ne}

-- What `lunix_sensor_init` leaves behind when it returns 0.
pub record Opened (m : Pages) (s : Sensor) (m' : Pages) : Type 0 where
  pub b : ℕ
  pub t : ℕ
  pub l : ℕ
  pub owns : Owns s m' b t l
  pub were_free : (m b ≡ none) × (m t ≡ none) × (m l ≡ none)
  pub zero_b : m' b ≡ some (set_magic zeroed)
  pub zero_t : m' t ≡ some (set_magic zeroed)
  pub zero_l : m' l ≡ some (set_magic zeroed)
  pub rest : SameElsewhere b t l m m'

init_page-ready :
    (pick : Allocator) (t : Msr) (more : Sensor → Pages → Sensor × Pages × InitResult) (s : Sensor)
    (m : Pages) {s' : Sensor} {m' : Pages}
    → init_page pick t more s m ≡ (s', m', ready)
    → (p : ℕ) × (pick m ≡ some p)
      × (more (set_msr_data t (some p) s) (put m p (some (set_magic zeroed))) ≡ (s', m', ready))
unfolding init_page
init_page-ready pick t more s m e = elim (Option-cases (pick m)) [
  | inl full ↦ absurd (ground arith)
  | inr (p, got) ↦ (p, got, rw (got, init_page) at e)
]

-- An address that is free in `put m p (some d)` is free in `m`, and is not `p`.
free_before :
    (m : Pages) (p q : ℕ) (d : MsrData) → put m p (some d) q ≡ none → (p ≢ q) × (m q ≡ none)
free_before m p q d h = elim (Bool-cases (p == q)) [
  | inl same ↦ absurd (ground arith)
  | inr other ↦ (ground arith, ground arith)
]

-- If `lunix_sensor_init` succeeds, the sensor has three different pages that were free before, each
-- zeroed but for its magic number, and no other page was touched.
pub sensor_init-Opened :
    (pick : Allocator) (s0 : Sensor) (m : Pages) {s : Sensor} {m' : Pages}
    → IsFresh pick
    → sensor_init pick s0 m ≡ (s, m', ready)
    → Opened m s m'
unfolding sensor_init
sensor_init-Opened pick s0 m fresh e =
    let page : Option MsrData = some (set_magic zeroed) in
    let (b, got_b, e1) = init_page-ready pick batt (from_temp pick) unset m e in
    let m1 = put m b page in
    let s1 = set_msr_data batt (some b) unset in
    let (t, got_t, e2) = init_page-ready pick temp (from_light pick) s1 m1 e1 in
    let m2 = put m1 t page in
    let s2 = set_msr_data temp (some t) s1 in
    let (l, got_l, e3) = init_page-ready pick light (λ s m. (s, m, ready)) s2 m2 e2 in
    let m3 = put m2 l page in
    let (b_t, free_t) = free_before m b t _ (fresh m1 t got_t) in
    let (t_l, l1) = free_before m1 t l _ (fresh m2 l got_l) in
    let (b_l, free_l) = free_before m b l _ l1 in
    subst₂ (Opened m) (ap (λ r. r.0) e3) (ap (λ r. r.1) e3) (record {
      b = b;
      t = t;
      l = l;
      owns = record {
        at_batt = refl;
        at_temp = refl;
        at_light = refl;
        b_ne_t = b_t;
        b_ne_l = b_l;
        t_ne_l = t_l;
      };
      were_free = (fresh m b got_b, free_t, free_l);
      zero_b =
          put_ne m2 l b page (λ h. b_l (sym h))
          ∙ put_ne m1 t b page (λ h. b_t (sym h))
          ∙ put_self m b page;
      zero_t = put_ne m2 l t page (λ h. t_l (sym h)) ∙ put_self m1 t page;
      zero_l = put_self m2 l page;
      rest = λ q x y z.
          put_ne m2 l q page (λ h. z (sym h))
          ∙ put_ne m1 t q page (λ h. y (sym h))
          ∙ put_ne m b q page (λ h. x (sym h));
    })

-- `lunix_sensor_destroy` on a sensor with its own live pages frees them and nothing else.
pub sensor_destroy_lem :
    (s : Sensor) (m : Pages) (b t l : ℕ) {db dt dl : MsrData}
    → Owns s m b t l
    → m b ≡ some db
    → m t ≡ some dt
    → m l ≡ some dl
    → (m' : Pages) × (sensor_destroy s m ≡ some m')
      × (m' b ≡ none)
      × (m' t ≡ none)
      × (m' l ≡ none)
      × SameElsewhere b t l m m'
unfolding sensor_destroy free_page
sensor_destroy_lem s m b t l o hb ht hl =
    let m1 = put m b none in
    let m2 = put m1 t none in
    let m3 = put m2 l none in
    let t1 = put_ne m b t none o.b_ne_t ∙ ht in
    let l2 = put_ne m1 t l none o.t_ne_l ∙ put_ne m b l none o.b_ne_l ∙ hl in
    (
      m3,
      rw (o.at_batt, hb, o.at_temp, t1, o.at_light, l2),
      put_ne m2 l b none (λ h. o.b_ne_l (sym h))
          ∙ put_ne m1 t b none (λ h. o.b_ne_t (sym h))
          ∙ put_self m b none,
      put_ne m2 l t none (λ h. o.t_ne_l (sym h)) ∙ put_self m1 t none,
      put_self m2 l none,
      λ q x y z.
          put_ne m2 l q none (λ h. z (sym h))
          ∙ put_ne m1 t q none (λ h. y (sym h))
          ∙ put_ne m b q none (λ h. x (sym h)),
    )

-- A sensor that `lunix_sensor_init` set up and `lunix_sensor_destroy` took down leaves the memory
-- as it was.
pub sensor_destroy-init :
    (pick : Allocator) (s0 : Sensor) (m : Pages) {s : Sensor} {m' : Pages}
    → IsFresh pick
    → sensor_init pick s0 m ≡ (s, m', ready)
    → (m'' : Pages) × (sensor_destroy s m' ≡ some m'') × ((q : ℕ) → m'' q ≡ m q)
sensor_destroy-init pick s0 m {s} {m'} fresh e =
    let o = sensor_init-Opened pick s0 m fresh e in
    let (m'', gone, b, t, l, rest) =
      sensor_destroy_lem s m' o.b o.t o.l o.owns o.zero_b o.zero_t o.zero_l in
    (
      m'',
      gone,
      λ q. elim (ℕ_discrete q o.b) [
        | yes x ↦ rw x (b ∙ sym o.were_free.0)
        | no x ↦ elim (ℕ_discrete q o.t) [
          | yes y ↦ rw y (t ∙ sym o.were_free.1)
          | no y ↦ elim (ℕ_discrete q o.l) [
            | yes z ↦ rw z (l ∙ sym o.were_free.2)
            | no z ↦ rest q x y z ∙ o.rest q x y z
          ]
        ]
      ],
    )
