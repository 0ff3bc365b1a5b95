-- ===== src/Lunix/Chrdev.antt =====
-- lunix-chrdev.c and lunix-chrdev.h: the open file of a sensor and how it is read. A step that
-- would fault is `none`, as for sensors. What the process meets while it holds no lock is an
-- argument.
pub mod Text
pub mod Copies
pub mod Reads
pub mod Opens
mod Tests
use c_development_on_linux.Base.{
  ℕ, zero, suc, ◌+◌, ◌-◌, ◌/◌, ◌%◌, Bool, true, false, not, ◌&&◌, List, [], ◌∷◌, ◌++◌, Option, none,
  some, ltb, leb, ◌==◌, if◌then◌else◌, length, take, drop, get_elem?, set,
}
use c_development_on_linux.Base.Texts.{digits}
use c_development_on_linux.Lunix.Sensors.{
  Msr, batt, temp, light, Sensor, MsrData, Pages, msr_data, modify, set_time, Allocator,
  sensor_init, fetch, ◌>>=◌,
}

abbrev pub chrdev_bufsz : ℕ
chrdev_bufsz = 20

-- The array `lunix_sensors` and the pages
pub record Memory : Type 0 where
  pub sensors : List Sensor
  pub pages : Pages

-- `*lunix_sensors[n].msr_data[t]`
unfoldable pub measurement : Msr → ℕ → Memory → Option MsrData
measurement t n m = do sensor ← get_elem? m.sensors n; fetch (msr_data t sensor) m.pages

-- `struct lunix_chrdev_state_struct`. `lock` is the count of the semaphore, and `sensor` the place
-- of the sensor in `lunix_sensors`.
pub record ChrdevState : Type 0 where
  pub type : Msr
  pub sensor : ℕ
  pub minor_n : ℕ
  pub state_msr : ℕ
  pub state_snsr : ℕ
  pub buf_lim : ℕ
  pub buf_data : List ℕ
  pub buf_timestamp : ℕ
  pub lock : ℕ

-- `initialize_state2`
unfoldable pub initialize_state2 : ChrdevState → ChrdevState
initialize_state2 s =
    let m = s.minor_n % 8 in
    record s {
      state_snsr = s.minor_n / 8;
      state_msr = m;
      type = if m % 3 == 0 then batt else if m % 3 == 1 then temp else light;
    }

-- what `lunix_chrdev_open` makes of the memory for the state
unfoldable pub first_state : ℕ → ChrdevState → ChrdevState
unfolding initialize_state2
first_state minor s =
    let named = initialize_state2 (record s { minor_n = minor; buf_timestamp = 0 }) in
    record named { lock = 1; buf_lim = 1; buf_data = set s.buf_data 0 0; sensor = minor / 8 }

-- `lunix_chrdev_open` of the node with a minor number. `blank` is the memory that `kmalloc` finds
-- for the state, or `none`: its result is not looked at. Neither is that of `lunix_sensor_init`.
unfoldable pub open_node :
    Allocator → Option ChrdevState → ℕ → Memory → Option (Memory × ℕ × ChrdevState)
open_node pick blank minor m = do
  sensor ← get_elem? m.sensors (minor / 8)
  let opened = sensor_init pick sensor m.pages
  pages ← modify opened.0.batt_page (set_time 0) opened.1
  pages ← modify opened.0.light_page (set_time 0) pages
  pages ← modify opened.0.temp_page (set_time 0) pages
  s ← blank
  some (
    record { sensors = set m.sensors (minor / 8) opened.0; pages = pages },
    1,
    first_state minor s,
  )

-- A C `long` of a lookup table: its sign and its absolute value.
pub record Long : Type 0 where
  pub negative : Bool
  pub magnitude : ℕ

-- The generated tables `lookup_voltage`, `lookup_temperature` and `lookup_light`; `none` past
-- their ends.
abbrev pub Lookup : Type 0
Lookup = Msr → ℕ → Option Long

-- `%d`: a sign stands before a number below 0.
abbrev pub print_int : Bool → ℕ → List ℕ
print_int negative n = if negative && ltb 0 n then 45 ∷ digits 10 n else digits 10 n

-- `"%d.%d\n\n"` for `x / 1000` and `x % 1000`, which C rounds towards 0
abbrev pub text_of : Long → List ℕ
text_of x =
    print_int x.negative (x.magnitude / 1000)
    ++ (46 ∷ [] ++ (print_int x.negative (x.magnitude % 1000) ++ 10 ∷ 10 ∷ []))

-- `snprintf(buf, size, ...)` of a text: at most `size - 1` characters and a zero, over what the
-- buffer held
unfoldable pub snprintf : List ℕ → ℕ → List ℕ → List ℕ
snprintf buf size text =
    let written = take (size - 1) text ++ 0 ∷ [] in written ++ drop (length written) buf

-- `up`, and `down_interruptible` once the count is positive
abbrev pub up : ChrdevState → ChrdevState
up s = record s { lock = s.lock + 1 }

abbrev pub down : ChrdevState → ChrdevState
down s = record s { lock = s.lock - 1 }

-- `lunix_chrdev_state_needs_refresh`
unfoldable pub state_needs_refresh : ChrdevState → Memory → Option Bool
state_needs_refresh s m = do
  d ← measurement s.type s.sensor m
  some (not (d.last_update == s.buf_timestamp))

-- What a read meets: whether a signal ends its wait for the semaphore; the memory whenever it looks
-- for new measurements; how other readers of the file have changed the state once it gets the
-- semaphore again, or `none` for a signal; the memory it then reads; and whether the user's buffer
-- can be written.
pub record Env : Type 0 where
  pub granted : Bool
  pub seen : List Memory
  pub relocked : Option (ChrdevState → ChrdevState)
  pub memory : Memory
  pub writable : Bool

-- `wait_event_interruptible`: true once the condition holds, false if a signal comes first
unfoldable pub wait_event : List Memory → ChrdevState → Option Bool
wait_event [] s = some false
wait_event (m ∷ ms) s =
    let later = wait_event ms s in
    do fresh ← state_needs_refresh s m; if fresh then some true else later

-- the part of `lunix_chrdev_state_update` that takes the measurement and prints it
unfoldable pub refresh : Lookup → Memory → ChrdevState → Option ChrdevState
refresh lookup m s = do
  d ← measurement s.type s.sensor m
  x ← lookup s.type d.value
  some (record s {
    buf_timestamp = d.last_update;
    buf_data = snprintf s.buf_data chrdev_bufsz (text_of x);
    buf_lim = length (text_of x);
  })

-- `lunix_chrdev_state_update` from the end of its wait on
unfoldable pub state_relock : Lookup → Env → ChrdevState → Bool → Option ChrdevState
state_relock lookup env s false = some s
state_relock lookup env s true = elim env.relocked [
  | none ↦ some s
  | some others ↦ refresh lookup env.memory (down (others s))
]

-- `lunix_chrdev_state_update`; its result is never looked at.
unfoldable pub state_update : Lookup → Env → ChrdevState → Option ChrdevState
state_update lookup env s = do
  woken ← wait_event env.seen (up s)
  state_relock lookup env (up s) woken

-- What `lunix_chrdev_read` returns: a count, -ERESTARTSYS, -EFAULT, or the value of a variable
-- that was never set.
pub data ReadReply : Type 0 where
  bytes : ℕ → ReadReply
  restart fault garbage : ReadReply

-- the result, `*f_pos` and the state after it, and the bytes in the user's buffer
abbrev pub Read : Type 0
Read = ReadReply × ℕ × ChrdevState × List ℕ

-- The copy that ends `lunix_chrdev_read`; `none` where the length to copy is below 0.
unfoldable pub copy_out : Bool → ℕ → ℕ → ChrdevState → Option Read
copy_out writable cnt f_pos s =
    let index = f_pos - 1 in
    let some_of = λ (n : ℕ). take n (drop index s.buf_data) in
    if leb s.buf_lim (f_pos - 1 + cnt)
    then (if ltb s.buf_lim index
        then none
        else if writable
        then some (bytes (s.buf_lim - index), 1, up s, some_of (s.buf_lim - index))
        else some (fault, f_pos, s, []))
    else if writable
    then some (bytes cnt, f_pos + cnt, up s, some_of cnt)
    else some (fault, f_pos, s, [])

-- `lunix_chrdev_read`
unfoldable pub read : Lookup → Env → ℕ → ℕ → ChrdevState → Option Read
read lookup env cnt f_pos s =
    if env.granted
    then ((if f_pos == 1 then state_update lookup env (down s) else some (down s)) >>= λ t.
        if leb 1 f_pos then copy_out env.writable cnt f_pos t else some (garbage, f_pos, up t, []))
    else some (restart, f_pos, s, [])
