-- ===== src/Lunix/Sensors.antt =====
-- lunix-sensors.c and the types of lunix.h: measurement pages and the sensors that own them.
-- A page is known by its address; the store maps the addresses of the live pages to what they hold.
pub mod Laws
pub mod Opening
use c_development_on_linux.Base.{ℕ, ◌%◌, ◌^◌, ◌≡◌, ◌==◌, if◌then◌else◌, Option, none, some}

-- `enum lunix_msr_enum`
pub data Msr : Type 0 where
  batt temp light : Msr

-- `struct lunix_msr_data_struct`: of `values[]` the driver uses the first.
pub record MsrData : Type 0 where
  pub magic : ℕ
  pub last_update : ℕ
  pub value : ℕ

abbrev pub msr_magic : ℕ
msr_magic = 0xF00DF00D

abbrev pub zeroed : MsrData
zeroed = record { magic = 0; last_update = 0; value = 0 }

abbrev pub Pages : Type 0
Pages = ℕ → Option MsrData

-- `struct lunix_sensor_struct`: the addresses in `msr_data`, `none` for NULL. The spinlock and the
-- wait queue have no data of their own.
pub record Sensor : Type 0 where
  pub batt_page : Option ℕ
  pub temp_page : Option ℕ
  pub light_page : Option ℕ

abbrev pub msr_data : Msr → Sensor → Option ℕ
msr_data batt s = s.batt_page
msr_data temp s = s.temp_page
msr_data light s = s.light_page

abbrev pub set_msr_data : Msr → Option ℕ → Sensor → Sensor
set_msr_data batt p s = record s { batt_page = p }
set_msr_data temp p s = record s { temp_page = p }
set_msr_data light p s = record s { light_page = p }

abbrev pub put : Pages → ℕ → Option MsrData → Pages
put m p v q = if p == q then v else m q

-- The steps below fail with `none` where the kernel would fault: at a null pointer or a freed page.
infixl 5 ◌>>=◌
abbrev pub ◌>>=◌ {ℓ κ} : {A : Type ℓ} {B : Type κ} → Option A → (A → Option B) → Option B
none >>= f = none
some a >>= f = f a

-- a write through `s->msr_data[t]->`
unfoldable pub modify : Option ℕ → (MsrData → MsrData) → Pages → Option Pages
modify none f m = none
modify (some p) f m = do d ← m p; some (put m p (some (f d)))

-- a read through `s->msr_data[t]->`
unfoldable pub fetch : Option ℕ → Pages → Option MsrData
fetch none m = none
fetch (some p) m = m p

abbrev pub set_value : ℕ → MsrData → MsrData
set_value v d = record d { value = v }

abbrev pub set_magic : MsrData → MsrData
set_magic d = record d { magic = msr_magic }

-- `last_update` has 32 bits
abbrev pub set_time : ℕ → MsrData → MsrData
set_time now d = record d { last_update = now % 2 ^ 32 }

-- `lunix_sensor_update`; `now` is what `get_seconds` returns.
unfoldable pub sensor_update : ℕ → Sensor → ℕ → ℕ → ℕ → Pages → Option Pages
unfolding modify
sensor_update now s b t l m = do
  m ← modify s.batt_page (set_value b) m
  m ← modify s.temp_page (set_value t) m
  m ← modify s.light_page (set_value l) m
  m ← modify s.light_page set_magic m
  m ← modify s.temp_page set_magic m
  m ← modify s.batt_page set_magic m
  m ← modify s.light_page (set_time now) m
  m ← modify s.temp_page (set_time now) m
  modify s.batt_page (set_time now) m

-- What the kernel's page allocator does with the live pages before it: the address of an unused
-- page, or `none` when there is no memory.
abbrev pub Allocator : Type 0
Allocator = Pages → Option ℕ

-- It never hands out a page that is in use.
abbrev pub IsFresh : Allocator → Type 0
IsFresh pick = (m : Pages) (p : ℕ) → pick m ≡ some p → m p ≡ none

-- `free_page`, a fault for a page that is not live
unfoldable pub free_page : ℕ → Pages → Option Pages
free_page p m = do _ ← m p; some (put m p none)

-- what `lunix_sensor_init` returns: 0 or -ENOMEM
pub data InitResult : Type 0 where
  ready out_of_memory : InitResult

-- one round of the second loop of `lunix_sensor_init`; `more` is the rest of the rounds
unfoldable pub init_page :
    Allocator
    → Msr
    → (Sensor → Pages → Sensor × Pages × InitResult)
    → Sensor
    → Pages
    → Sensor × Pages × InitResult
init_page pick t more s m = elim (pick m) [
  | none ↦ (s, m, out_of_memory)
  | some p ↦ more (set_msr_data t (some p) s) (put m p (some (set_magic zeroed)))
]

abbrev pub unset : Sensor
unset = record { batt_page = none; temp_page = none; light_page = none }

-- the rounds from the one for LIGHT on, and from the one for TEMP on
abbrev pub from_light : Allocator → Sensor → Pages → Sensor × Pages × InitResult
from_light pick = init_page pick light (λ s m. (s, m, ready))

abbrev pub from_temp : Allocator → Sensor → Pages → Sensor × Pages × InitResult
from_temp pick = init_page pick temp (from_light pick)

-- `lunix_sensor_init`: the sensor's fields are overwritten without a look at what they hold.
unfoldable pub sensor_init : Allocator → Sensor → Pages → Sensor × Pages × InitResult
unfolding init_page
sensor_init pick _ = init_page pick batt (from_temp pick) unset

-- one round of `lunix_sensor_destroy`
unfoldable pub release : Option ℕ → Pages → Option Pages
unfolding free_page
release none m = some m
release (some p) m = free_page p m

unfoldable pub sensor_destroy : Sensor → Pages → Option Pages
unfolding release
sensor_destroy s m = do m ← release s.batt_page m; m ← release s.temp_page m; release s.light_page m
