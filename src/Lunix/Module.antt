-- ===== src/Lunix/Module.antt =====
-- lunix-module.c, and the registration in lunix-chrdev.c: loading and unloading the driver.
pub mod Unload
mod Tests
use c_development_on_linux.Base.{
  ℕ, zero, suc, ◌+◌, ◌*◌, ◌%◌, ◌^◌, ◌&&◌, Bool, true, false, List, [], ◌∷◌, ◌++◌, ◌==◌, Option,
  none, some, if◌then◌else◌, replicate,
}
use c_development_on_linux.Lunix.Sensors.{
  Sensor, Pages, Allocator, InitResult, ready, out_of_memory, unset, sensor_init, sensor_destroy,
  ◌>>=◌,
}
use c_development_on_linux.Lunix.Protocol.{ProtocolState, init}
use c_development_on_linux.Lunix.Ldisc.{ldisc_init}

-- a range of device numbers
pub record Region : Type 0 where
  pub major : ℕ
  pub base : ℕ
  pub count : ℕ

-- The globals, and what is registered with the kernel: the line discipline, the regions, and the minor
-- numbers of major number 60 that a device stands behind, the newest first. `sensors` is `none` while
-- the array is not there; `cdev` is the minor number that `lunix_chrdev_cdev` holds, if any.
pub record ModuleState : Type 0 where
  pub sensors : Option (List Sensor)
  pub pages : Pages
  pub protocol : ProtocolState
  pub available : ℕ
  pub ldisc : Bool
  pub regions : List Region
  pub cdev : Option ℕ
  pub cdevs : List ℕ

-- What the kernel answers: whether there is memory for the array, the pages it gives, the errors of
-- `tty_register_ldisc` and `register_chrdev_region`, the major number that the latter finds when it
-- is asked for number 0, and whether `cdev_add` works for a minor number.
pub record Kernel : Type 0 where
  pub memory : Bool
  pub pick : Allocator
  pub ldisc_error : Option ℕ
  pub region_error : Option ℕ
  pub major : ℕ
  pub adds : ℕ → Bool

-- The first loop of `lunix_module_init`: the sensors that were initialised, the others, the memory,
-- and whether it ran out.
unfoldable pub init_sensors :
    Allocator → List Sensor → Pages → List Sensor × List Sensor × Pages × InitResult
init_sensors pick [] m = ([], [], m, ready)
init_sensors pick (s ∷ ss) m =
    let r = sensor_init pick s m in
    let more = init_sensors pick ss r.1 in
    elim (r.2) [
      | out_of_memory ↦ ([], r.0 ∷ ss, r.1, out_of_memory)
      | ready ↦ (r.0 ∷ more.0, more.1, more.2, more.3)
    ]

-- `for (; si_done >= 0; si_done--) lunix_sensor_destroy(...)`: the last one first
unfoldable pub destroy_back : List Sensor → Pages → Option Pages
destroy_back [] m = some m
destroy_back (s ∷ ss) m = do m ← destroy_back ss m; sensor_destroy s m

abbrev pub chrdev_major : ℕ
chrdev_major = 60

-- what `lunix_module_init` returns: 0 or an error number below 0
pub data Loaded : Type 0 where
  loaded : Loaded
  fails : ℕ → Loaded

abbrev pub enomem : ℕ
enomem = 12

-- `cdev_init` of the one device: it forgets its number.
abbrev pub cdev_init : ModuleState → ModuleState
cdev_init d = record d { cdev = none }

-- `cdev_add`: the device holds the number from then on, and stands behind it if the kernel has memory.
abbrev pub cdev_add : Kernel → ℕ → ModuleState → ModuleState
cdev_add k minor d =
    let held : ModuleState = record d { cdev = some minor } in
    if k.adds minor then record held { cdevs = minor ∷ d.cdevs } else held

-- `lunix_setup_cdev`; an error is only printed.
abbrev pub setup_cdev : Kernel → ℕ → ModuleState → ModuleState
setup_cdev k minor d = cdev_add k minor (cdev_init d)

-- the loops of `lunix_chrdev_init`, from sensor `i` on
unfoldable pub setup_cdevs : Kernel → ℕ → ℕ → ModuleState → ModuleState
setup_cdevs k zero i d = d
setup_cdevs k (suc n) i d =
    setup_cdevs k n (i + 1)
      (setup_cdev k (i * 8 + 2) (setup_cdev k (i * 8 + 1) (setup_cdev k (i * 8) d)))

-- `lunix_sensor_cnt << 3`, an unsigned int
abbrev pub minor_cnt : ℕ → ℕ
minor_cnt cnt = cnt * 8 % 2 ^ 32

-- `lunix_chrdev_init`
unfoldable pub chrdev_init : Kernel → ℕ → ModuleState → Loaded × ModuleState
chrdev_init k cnt d =
    let u = cdev_init d in
    let got : Region = record { major = k.major; base = 0; count = minor_cnt cnt } in
    elim k.region_error [
      | some e ↦ (fails e, u)
      | none ↦ (loaded, setup_cdevs k cnt 0 (record u { regions = got ∷ u.regions }))
    ]

abbrev pub same_region : Region → Region → Bool
same_region r s = r.major == s.major && r.base == s.base && r.count == s.count

-- `unregister_chrdev_region`: the region with this major number, start and length
abbrev pub unregister : Region → List Region → List Region
unregister which [] = []
unregister which (r ∷ rs) =
    let rest = unregister which rs in if same_region r which then rs else r ∷ rest

abbrev pub unmap : ℕ → List ℕ → List ℕ
unmap minor [] = []
unmap minor (m ∷ ms) = let rest = unmap minor ms in if m == minor then ms else m ∷ rest

-- `cdev_del`: the device stands no longer behind the number that it holds, its last.
abbrev pub cdev_del : ModuleState → ModuleState
cdev_del d = elim d.cdev [ none ↦ d | some minor ↦ record d { cdevs = unmap minor d.cdevs } ]

-- what `lunix_chrdev_destroy` gives back
abbrev pub chrdev_region : ℕ → Region
chrdev_region cnt = record { major = chrdev_major; base = 0; count = minor_cnt cnt }

-- `lunix_chrdev_destroy`
unfoldable pub chrdev_destroy : ℕ → ModuleState → ModuleState
chrdev_destroy cnt d =
    let u = cdev_del d in record u { regions = unregister (chrdev_region cnt) u.regions }

-- `lunix_ldisc_destroy`
abbrev pub ldisc_destroy : ModuleState → ModuleState
ldisc_destroy d = record d { ldisc = false }

-- `out_with_sensors` in `lunix_module_init`
unfoldable pub undo_sensors : Loaded → List Sensor → ModuleState → Option (Loaded × ModuleState)
undo_sensors code done d = do
  m ← destroy_back done d.pages
  some (code, record d { sensors = none; pages = m })

-- `lunix_module_init` from the character device on
unfoldable pub init_chrdev : Kernel → ℕ → List Sensor → ModuleState → Option (Loaded × ModuleState)
init_chrdev k cnt sensors d =
    let r = chrdev_init k cnt d in
    elim (r.0) [
      | fails e ↦ undo_sensors (fails e) sensors (ldisc_destroy r.1)
      | loaded ↦ some (loaded, r.1)
    ]

-- `lunix_module_init` from the line discipline on
unfoldable pub init_ldisc : Kernel → ℕ → List Sensor → ModuleState → Option (Loaded × ModuleState)
init_ldisc k cnt sensors d =
    let u = record d { available = 1 } in
    elim k.ldisc_error [
      | some e ↦ undo_sensors (fails e) sensors u
      | none ↦ init_chrdev k cnt sensors (record u { ldisc = true })
    ]

-- `lunix_module_init`, for the value of `lunix_sensor_cnt`
unfoldable pub module_init : Kernel → ℕ → ModuleState → Option (Loaded × ModuleState)
module_init k cnt d =
    let r = init_sensors k.pick (replicate cnt unset) d.pages in
    let u = record d { protocol = init d.protocol; sensors = some (r.0 ++ r.1); pages = r.2 } in
    if k.memory
    then elim (r.3) [
      | out_of_memory ↦ undo_sensors (fails enomem) r.0 u
      | ready ↦ init_ldisc k cnt r.0 u
    ]
    else some (fails enomem, d)

-- `lunix_module_cleanup`
unfoldable pub module_cleanup : ℕ → ModuleState → Option ModuleState
module_cleanup cnt d = do
  sensors ← d.sensors
  let u = ldisc_destroy (chrdev_destroy cnt d)
  m ← destroy_back sensors u.pages
  some (record u { sensors = none; pages = m })
