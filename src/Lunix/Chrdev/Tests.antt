-- ===== src/Lunix/Chrdev/Tests.antt =====
-- Runs of lunix-chrdev.c on one sensor, and the theorems at them.
use c_development_on_linux.Base.{
  ℕ, ◌*◌, ◌≡◌, refl, arith, true, false, List, [], ◌∷◌, ◌++◌, some, replicate,
}
use c_development_on_linux.Base.Texts.{digits}
use c_development_on_linux.Lunix.Sensors.{
  temp, Pages, MsrData, zeroed, set_magic, put, sensor_init, ready, fetch,
}
use c_development_on_linux.Lunix.Chrdev.{
  ChrdevState, Memory, measurement, Lookup, Long, Env, text_of, wait_event, state_needs_refresh,
  read, bytes, open_node,
}
use c_development_on_linux.Lunix.Chrdev.Copies.{read_all}
use c_development_on_linux.Lunix.Chrdev.Reads.{Fresh, read_all-text_of, read_interrupted}
use c_development_on_linux.Lunix.Chrdev.Opens.{Renewed, open_node-Renewed}
use c_development_on_linux.Lunix.Runs.{sensor, pages, four_pages, four_pages-IsFresh, empty}

-- a file that is open at the temperature of the first sensor, which has page 2
abbrev opened_file : ChrdevState
opened_file = record {
  type = temp;
  sensor = 0;
  minor_n = 1;
  state_msr = 1;
  state_snsr = 0;
  buf_lim = 1;
  buf_data = replicate 20 0;
  buf_timestamp = 0;
  lock = 1;
}

abbrev new_data : MsrData
new_data = record { magic = 0; last_update = 9; value = 300 }

abbrev memory : Memory
memory = record { sensors = sensor ∷ []; pages = put pages 2 (some new_data) }

-- the first look comes before the measurement
abbrev env : Env
env = record {
  granted = true;
  seen = record { sensors = sensor ∷ []; pages = pages } ∷ memory ∷ [];
  relocked = some (λ s. s);
  memory = memory;
  writable = true;
}

abbrev in_tenths : Lookup
in_tenths t n = some (record { negative = false; magnitude = n * 100 })

-- "30.0" and two ends of line
abbrev thirty : List ℕ
thirty = 51 ∷ 48 ∷ 46 ∷ 48 ∷ 10 ∷ 10 ∷ []

abbrev thirty_degrees : Long
thirty_degrees = record { negative = false; magnitude = 30000 }

text_of-thirty : text_of thirty_degrees ≡ thirty
unfolding digits
text_of-thirty = refl

file-Fresh : Fresh in_tenths env opened_file new_data thirty_degrees
unfolding wait_event state_needs_refresh measurement fetch
file-Fresh = record {
  granted = refl;
  writable = refl;
  woken = refl;
  others = λ s. s;
  relocked = refl;
  same_lock = refl;
  same_sensor = refl;
  same_type = refl;
  measured = refl;
  looked_up = refl;
  in_int = omega arith;
}

read_all-text_of_example :
    (t : ChrdevState) × (t.lock ≡ 1)
    × (t.buf_timestamp ≡ 9)
    × (read_all in_tenths env (4 ∷ 20 ∷ []) 1 opened_file ≡ some (1, t, text_of thirty_degrees))
read_all-text_of_example =
    read_all-text_of in_tenths env opened_file new_data thirty_degrees (4 ∷ []) 20 file-Fresh
      (omega arith) (omega arith, tt) (rw text_of-thirty (omega arith))
      (rw text_of-thirty (omega arith))

-- the same, but the signal comes before the measurement
abbrev signal : Env
signal = record env { seen = [] }

abbrev with_text : ChrdevState
with_text = record opened_file { buf_lim = 6; buf_data = thirty ++ replicate 14 0 }

read_interrupted_example :
    read in_tenths signal 20 1 with_text ≡ some (bytes 6, 1, record with_text { lock = 2 }, thirty)
unfolding wait_event
read_interrupted_example =
    read_interrupted in_tenths signal thirty with_text 20 refl refl refl
      (record { tail = replicate 14 0; content = refl; lim = refl; free = omega arith })
      (omega arith)

-- one page is in use
abbrev one_page : Memory
one_page = record { sensors = sensor ∷ []; pages = put empty 4 (some zeroed) }

abbrev three_more : Pages
three_more =
    put (put (put one_page.pages 1 (some (set_magic zeroed))) 2 (some (set_magic zeroed))) 3
      (some (set_magic zeroed))

init_beside : sensor_init four_pages sensor one_page.pages ≡ (sensor, three_more, ready)
unfolding sensor_init
init_beside = refl

open_node-Renewed_example :
    (m' : Memory) × (st : ChrdevState) × (open_node four_pages (some opened_file) 1 one_page
      ≡ some (m', 1, st))
    × (st.sensor ≡ 0)
    × (st.lock ≡ 1)
    × Renewed one_page 1 sensor m'
open_node-Renewed_example =
    open_node-Renewed four_pages opened_file 1 one_page four_pages-IsFresh refl init_beside
