-- ===== src/Lunix/Module/Tests.antt =====
-- Loading the driver with one sensor, and the theorems of its modules at concrete inputs.
use c_development_on_linux.Base.{
  ◌≤◌, ◌==◌, if◌then◌else◌, true, false, [], ◌∷◌, none, some, ◌≡◌, refl, arith, replicate, inr,
}
use c_development_on_linux.Lunix.Sensors.{ready, unset, sensor_init, init_page}
use c_development_on_linux.Lunix.Ldisc.{ldisc_init, ldisc_open, success, busy}
use c_development_on_linux.Lunix.Ldisc.Users.{opens, run, run-exclusive}
use c_development_on_linux.Lunix.Module.{
  Kernel, ModuleState, Region, init_sensors, module_init, module_cleanup, loaded, fails,
}
use c_development_on_linux.Lunix.Module.Unload.{module_init-undone, module_cleanup-module_init}
use c_development_on_linux.Lunix.Runs.{four_pages, four_pages-IsFresh, empty}

-- a region of another driver
abbrev terminals : Region
terminals = record { major = 4; base = 0; count = 64 }

abbrev unloaded : ModuleState
unloaded = record {
  sensors = none;
  pages = empty;
  protocol = record {
    state = 0;
    bytes_read = 0;
    bytes_to_read = 0;
    pos = 0;
    next_is_special = 0;
    payload_length = 0;
    packet = replicate 300 0;
  };
  available = 0;
  ldisc = false;
  regions = terminals ∷ [];
  cdev = none;
  cdevs = 77 ∷ [];
}

abbrev kernel : Kernel
kernel = record {
  memory = true;
  pick = four_pages;
  ldisc_error = none;
  region_error = none;
  major = 250;
  adds = λ minor. true;
}

-- the device numbers are in use
abbrev taken : Kernel
taken = record kernel { region_error = some 16 }

one_sensor : (init_sensors four_pages (unset ∷ []) empty).3 ≡ ready
unfolding init_sensors sensor_init init_page
one_sensor = refl

module_init-undone_example :
    (d' : ModuleState) × (module_init taken 1 unloaded ≡ some (fails 16, d'))
    × (d'.pages ≡ empty)
    × (d'.sensors ≡ none)
    × (d'.ldisc ≡ false)
    × (d'.regions ≡ terminals ∷ [])
    × (d'.cdevs ≡ 77 ∷ [])
module_init-undone_example =
    module_init-undone taken 1 unloaded refl four_pages-IsFresh one_sensor 16 (inr (refl, refl))
      refl

module_cleanup-module_init_example :
    (d1 : ModuleState) × (d2 : ModuleState) × (module_init kernel 1 unloaded ≡ some (loaded, d1))
    × (d1.cdevs ≡ 2 ∷ 1 ∷ 0 ∷ 77 ∷ [])
    × (module_cleanup 1 d1 ≡ some d2)
    × (d2.pages ≡ empty)
    × (d2.sensors ≡ none)
    × (d2.ldisc ≡ false)
    × (d2.cdevs ≡ 1 ∷ 0 ∷ 77 ∷ [])
    × (d2.regions ≡ record { major = 250; base = 0; count = 8 } ∷ terminals ∷ [])
module_cleanup-module_init_example =
    module_cleanup-module_init kernel 1 unloaded refl four_pages-IsFresh one_sensor refl refl
      (λ m. refl) (omega arith)

run-exclusive_example :
    let r = run (opens true ∷ opens true ∷ []) ((ldisc_init success).1) 0 in
    (r.1 ≤ 1) × ((ldisc_open true r.0).0 ≡ (if r.1 == 0 then success else busy))
run-exclusive_example = run-exclusive (opens true ∷ opens true ∷ [])
