-- ===== src/Lunix/Module/Unload.antt =====
-- What is left of the driver of lunix-module.c when it is unloaded or cannot be loaded.
use c_development_on_linux.Base.{
  ℕ, drop, ==_refl, Option, zero, suc, ◌+◌, ◌*◌, true, false, List, [], ◌∷◌, ◌++◌, none, some, ◌≡◌,
  ◌≢◌, ◌⊎◌, refl, ap, ◌∙◌, replicate, append-nil, inl, inr, ==_of_ne, arith,
}
use c_development_on_linux.Lunix.Sensors.{
  Sensor, Pages, Allocator, IsFresh, InitResult, ready, out_of_memory, unset, sensor_init,
  sensor_destroy,
}
use c_development_on_linux.Lunix.Sensors.Opening.{sensor_destroy-init}
use c_development_on_linux.Lunix.Protocol.{init}
use c_development_on_linux.Lunix.Module.{
  ModuleState, Kernel, init_sensors, destroy_back, loaded, fails, module_init, module_cleanup,
  Region, minor_cnt, cdev_del, same_region, chrdev_region, undo_sensors, init_ldisc, init_chrdev,
  chrdev_init, setup_cdevs, unregister, chrdev_destroy, chrdev_major,
}

InitResult-cases : (r : InitResult) → (r ≡ ready) ⊎ (r ≡ out_of_memory)
InitResult-cases ready = inl refl
InitResult-cases out_of_memory = inr refl

ready_ne_out_of_memory : out_of_memory ≢ ready
ready_ne_out_of_memory e = absurd (ground arith)

-- Sensors that were all initialised can be destroyed, and then the memory is as it was.
module _ (pick : Allocator) (fresh : IsFresh pick) where
  sensor_gone :
      (s0 : Sensor) (m : Pages)
      → (sensor_init pick s0 m).2 ≡ ready
      → let r = sensor_init pick s0 m in sensor_destroy r.0 r.1 ≡ some m
  sensor_gone s0 m e =
      let r = sensor_init pick s0 m in
      let (m'', gone, same) = sensor_destroy-init pick s0 m fresh (ap (λ x. (r.0, r.1, x)) e) in
      gone ∙ ap some (λ i q. same q i)

  destroy_back-init_sensors :
      (ss : List Sensor) (m : Pages)
      → (init_sensors pick ss m).3 ≡ ready
      → let r = init_sensors pick ss m in (destroy_back r.0 r.2 ≡ some m) × (r.1 ≡ [])
  unfolding init_sensors destroy_back
  destroy_back-init_sensors [] m e = (refl, refl)
  destroy_back-init_sensors (s ∷ ss) m e = elim (InitResult-cases (sensor_init pick s m).2) [
    | inl here ↦
        let rest =
          destroy_back-init_sensors ss (sensor_init pick s m).1 (rw (init_sensors, here) at e) in
        rw (init_sensors, here, rest.0) (sensor_gone s m here, rest.1)
    | inr full ↦ absurd (ready_ne_out_of_memory (rw (init_sensors, full) at e))
  ]

-- The minor numbers of the sensors, three for each, the newest first.
abbrev pub minors : ℕ → List ℕ
minors zero = []
minors (suc n) = (n * 8 + 2) ∷ (n * 8 + 1) ∷ (n * 8) ∷ minors n

abbrev newest : List ℕ → Option ℕ
newest [] = none
newest (m ∷ ms) = some m

-- the state behind the devices of the first sensors
abbrev with_minors : ℕ → ModuleState → ModuleState
with_minors n d = record d { cdev = newest (minors n); cdevs = minors n ++ d.cdevs }

-- The one device is put behind each number, and holds the last.
setup_cdevs_lem :
    (k : Kernel) (n i : ℕ) (d : ModuleState)
    → ((m : ℕ) → k.adds m ≡ true)
    → setup_cdevs k n i (with_minors i d) ≡ with_minors (i + n) d
unfolding setup_cdevs
setup_cdevs_lem k zero i d all = ap (λ j. with_minors j d) (omega arith)
setup_cdevs_lem k (suc n) i d all =
    let next : i + 1 ≡ suc i = omega arith in
    let later : setup_cdevs k n (i + 1) (with_minors (suc i) d) ≡ with_minors (suc i + n) d =
      rw next (setup_cdevs_lem k n (suc i) d all) in
    rw (all (i * 8), all (i * 8 + 1), all (i * 8 + 2))
      (later ∙ ap (λ j. with_minors j d) (omega arith))

-- Why the driver cannot be loaded although its sensors have their pages.
abbrev pub Refused : Kernel → ℕ → Type 0
Refused k e = (k.ldisc_error ≡ some e) ⊎ ((k.ldisc_error ≡ none) × (k.region_error ≡ some e))

-- Once the kernel grants both registrations, only they and the devices change.
init_granted :
    (k : Kernel) (cnt : ℕ) (sensors : List Sensor) (v w : ModuleState)
    → k.ldisc_error ≡ none
    → k.region_error ≡ none
    → let u : ModuleState = record v {
      available = 1;
      ldisc = true;
      regions = record { major = k.major; base = 0; count = minor_cnt cnt } ∷ v.regions;
      cdev = none;
    } in
      setup_cdevs k cnt 0 u ≡ w → init_ldisc k cnt sensors v ≡ some (loaded, w)
unfolding init_ldisc
init_granted k cnt sensors v w line region e =
    let u : ModuleState = record v { available = 1; ldisc = true } in
    let devices : chrdev_init k cnt u ≡ (loaded, w) =
      unfold chrdev_init in simp (chrdev_init, region) (ap (λ y. (loaded, y)) e) in
    let rest : init_chrdev k cnt sensors u ≡ some (loaded, w) =
      unfold init_chrdev in rw (init_chrdev, devices) (ap (λ p. some (loaded, p.1)) devices) in
    simp (init_ldisc, line) rest

-- The device goes from its last number only.
cdev_del-with_minors :
    (n : ℕ) (d : ModuleState)
    → cdev_del (with_minors n d)
      ≡ record d { cdev = newest (minors n); cdevs = drop 1 (minors n) ++ d.cdevs }
cdev_del-with_minors zero d = refl
cdev_del-with_minors (suc n) d = rw (==_refl (n * 8 + 2)) refl

module _ (k : Kernel) (cnt : ℕ) (d : ModuleState) (memory : k.memory ≡ true)
    (fresh : IsFresh k.pick)
    (served : (init_sensors k.pick (replicate cnt unset) d.pages).3 ≡ ready) where
  -- When the line discipline or the device numbers are refused after all sensors got their pages,
  -- the load fails with that error and leaves nothing behind: the pages, the array and the
  -- registrations are as they were.
  pub module_init-undone :
      (e : ℕ)
      → Refused k e
      → d.ldisc ≡ false
      → (d' : ModuleState) × (module_init k cnt d ≡ some (fails e, d'))
        × (d'.pages ≡ d.pages)
        × (d'.sensors ≡ none)
        × (d'.ldisc ≡ false)
        × (d'.regions ≡ d.regions)
        × (d'.cdevs ≡ d.cdevs)
  unfolding module_init init_ldisc init_chrdev chrdev_init undo_sensors
  module_init-undone e refused off =
      let gone = (destroy_back-init_sensors k.pick fresh (replicate cnt unset) d.pages served).0 in
      elim refused [
        | inl line ↦ (
          record d { protocol = init d.protocol; sensors = none; available = 1 },
          rw (memory, served, line, gone) refl,
          refl,
          refl,
          off,
          refl,
          refl,
        )
        | inr both ↦ (
          record d {
            protocol = init d.protocol;
            sensors = none;
            available = 1;
            ldisc = false;
            cdev = none;
          },
          rw (memory, served, both.0, both.1, gone) refl,
          refl,
          refl,
          refl,
          refl,
          refl,
        )
      ]

  -- What unloading leaves behind. When all is granted, each device number as well, the driver loads,
  -- and its one device stands behind three numbers for each sensor. Unloading it then gives back every
  -- page, the array and the line discipline, but of the device numbers only the last, and the region
  -- stays taken if the kernel gave it under another major number than 60, since it is number 60 that
  -- is given back.
  pub module_cleanup-module_init :
      k.ldisc_error ≡ none
      → k.region_error ≡ none
      → ((m : ℕ) → k.adds m ≡ true)
      → k.major ≢ chrdev_major
      → (d1 : ModuleState) × (d2 : ModuleState) × (module_init k cnt d ≡ some (loaded, d1))
        × (d1.cdevs ≡ minors cnt ++ d.cdevs)
        × (module_cleanup cnt d1 ≡ some d2)
        × (d2.pages ≡ d.pages)
        × (d2.sensors ≡ none)
        × (d2.ldisc ≡ false)
        × (d2.cdevs ≡ drop 1 (minors cnt) ++ d.cdevs)
        × (d2.regions
            ≡ record { major = k.major; base = 0; count = minor_cnt cnt }
              ∷ unregister (chrdev_region cnt) d.regions)
  unfolding module_init module_cleanup chrdev_destroy
  module_cleanup-module_init line region adds major =
      let r = init_sensors k.pick (replicate cnt unset) d.pages in
      let (gone, all) =
        destroy_back-init_sensors k.pick fresh (replicate cnt unset) d.pages served in
      let got : Region = record { major = k.major; base = 0; count = minor_cnt cnt } in
      let loading : ModuleState = record d {
        protocol = init d.protocol;
        sensors = some (r.0 ++ r.1);
        pages = r.2;
      } in
      let u : ModuleState = record loading {
        available = 1;
        ldisc = true;
        regions = got ∷ d.regions;
        cdev = none;
      } in
      let e : setup_cdevs k cnt 0 u ≡ with_minors cnt u =
        setup_cdevs_lem k cnt 0 u adds ∙ ap (λ j. with_minors j u) (omega arith) in
      let whole : r.0 ++ r.1 ≡ r.0 = rw all (append-nil r.0) in
      let other : same_region got (chrdev_region cnt) ≡ false =
        rw (==_of_ne k.major chrdev_major major) refl in
      (
        with_minors cnt u,
        record u {
          cdev = newest (minors cnt);
          cdevs = drop 1 (minors cnt) ++ d.cdevs;
          sensors = none;
          pages = d.pages;
          ldisc = false;
          regions = got ∷ unregister (chrdev_region cnt) d.regions;
        },
        simp (memory, served) (init_granted k cnt r.0 loading (with_minors cnt u) line region e),
        refl,
        rw (cdev_del-with_minors cnt u, whole, gone, other) refl,
        refl,
        refl,
        refl,
        refl,
        refl,
      )
