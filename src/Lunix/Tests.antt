-- ===== src/Lunix/Tests.antt =====
-- Runs of the Lunix:TNG driver on one packet and one sensor, and the theorems at them.
use c_development_on_linux.Base.{
  ℕ, ◌≤◌, true, false, [], ◌∷◌, none, some, take, drop, ◌*◌, ◌≡◌, refl, arith, replicate,
}
use c_development_on_linux.Base.Texts.{digits}
use c_development_on_linux.Lunix.Sensors.{
  temp, Pages, zeroed, set_magic, put, sensor_init, sensor_destroy, ready, ◌>>=◌,
}
use c_development_on_linux.Lunix.Sensors.Opening.{sensor_destroy-init}
use c_development_on_linux.Lunix.Protocol.{
  ProtocolState, Driver, received_buf, receive_all, parse_state, read_fields, parse_loop, take_byte,
  advance, set_state,
}
use c_development_on_linux.Lunix.Protocol.Builds.{IsShort}
use c_development_on_linux.Lunix.Protocol.Layout.{Inv}
use c_development_on_linux.Lunix.Protocol.Bounds.{receive_all-Inv}
use c_development_on_linux.Lunix.Protocol.Stuffing.{escapes, escape}
use c_development_on_linux.Lunix.Protocol.Frames.{IsIdle, wire}
use c_development_on_linux.Lunix.Protocol.Arrivals.{Arrival, IsArrival, calls}
use c_development_on_linux.Lunix.Protocol.Buffers.{with}
use c_development_on_linux.Lunix.Protocol.Sessions.{deliver_all, all_calls, receive_all-deliver_all}
use c_development_on_linux.Lunix.Chrdev.{ChrdevState, Lookup, Long, text_of}
use c_development_on_linux.Lunix.Chrdev.Copies.{read_all}
use c_development_on_linux.Lunix.Readings.{Reports, quiet, receive_all-read_all}
use c_development_on_linux.Lunix.Runs.{
  sensor, four_pages, four_pages-IsFresh, empty, blank, driver, report, report-IsFrame,
  blank-IsIdle, blank-Inv, sensor-Owns,
}

-- the report in three buffers, cut behind a mark and in the payload, with a byte behind it
abbrev in_three : Arrival
in_three = record {
  frame = report;
  behind = 1 ∷ [];
  chunks = (5, take 3 (wire report [])) ∷ (6, take 15 (drop 3 (wire report []))) ∷ [];
  now = 7;
  last = drop 18 (wire report (1 ∷ []));
}

in_three-IsArrival : IsArrival in_three
unfolding escapes escape
in_three-IsArrival = record {
  frame_is = report-IsFrame;
  report_is = λ _. omega arith;
  received = omega arith;
  sent = refl;
  ends = omega arith;
}

-- the report in one buffer
abbrev in_one : Arrival
in_one = record { frame = report; behind = []; chunks = []; now = 9; last = wire report [] }

in_one-IsArrival : IsArrival in_one
unfolding escapes escape
in_one-IsArrival = record {
  frame_is = report-IsFrame;
  report_is = λ _. omega arith;
  received = omega arith;
  sent = refl;
  ends = omega arith;
}

in_three-IsShort : IsShort true (calls in_three)
unfolding escapes escape
in_three-IsShort = (omega arith, (omega arith, (omega arith, tt)))

in_both-IsShort : IsShort true (all_calls (in_three ∷ in_one ∷ []))
unfolding escapes escape
in_both-IsShort = (omega arith, (omega arith, (omega arith, (omega arith, tt))))

receive_all-deliver_all_example :
    (s : ProtocolState) × IsIdle s
    × (receive_all true driver (all_calls (in_three ∷ in_one ∷ []))
        ≡ (deliver_all (in_three ∷ in_one ∷ []) driver >>= λ d'. some (with d' s)))
receive_all-deliver_all_example =
    receive_all-deliver_all true driver (in_three ∷ in_one ∷ []) in_both-IsShort
      (in_three-IsArrival, (in_one-IsArrival, tt)) blank-IsIdle blank-Inv

report-Reports : Reports report driver 0
report-Reports = record {
  is_report = refl;
  node = refl;
  known = omega arith;
  sensor = sensor;
  at = refl;
  b = 1;
  t = 2;
  l = 3;
  owns = sensor-Owns;
  db = zeroed;
  dt = zeroed;
  dl = zeroed;
  live_b = refl;
  live_t = refl;
  live_l = refl;
}

-- a file that is open at the temperature of the first sensor
abbrev temperature : ChrdevState
temperature = record {
  type = temp;
  sensor = 0;
  minor_n = 1;
  state_msr = 1;
  state_snsr = 0;
  buf_lim = 1;
  buf_data = replicate 20 0;
  buf_timestamp = 0;
  lock = 1;
}

abbrev in_tenths : Lookup
in_tenths k n = some (record { negative = false; magnitude = n * 100 })

-- "77.0" and two ends of line
abbrev seventy_seven : Long
seventy_seven = record { negative = false; magnitude = 77000 }

text_of-seventy_seven : text_of seventy_seven ≡ 55 ∷ 55 ∷ 46 ∷ 48 ∷ 10 ∷ 10 ∷ []
unfolding digits
text_of-seventy_seven = refl

receive_all-read_all_example :
    (e : Driver) × (receive_all true driver (calls in_three) ≡ some e)
    × (e.woken ≡ 0 ∷ [])
    × (t : ChrdevState) × (t.lock ≡ 1)
    × (t.buf_timestamp ≡ 7)
    × (read_all in_tenths (quiet e) (4 ∷ 20 ∷ []) 1 temperature
        ≡ some (1, t, text_of seventy_seven))
receive_all-read_all_example =
    receive_all-read_all true in_tenths driver in_three 0 temperature seventy_seven (4 ∷ []) 20
      in_three-IsShort in_three-IsArrival blank-IsIdle blank-Inv report-Reports refl (omega arith)
      (omega arith) refl (omega arith) (omega arith, tt) (rw text_of-seventy_seven (omega arith))
      (rw text_of-seventy_seven (omega arith))

-- the start byte and the packet type have arrived
abbrev two_bytes : ProtocolState
two_bytes = record blank {
  state = 3;
  bytes_to_read = 2;
  pos = 2;
  packet = 0x7E ∷ 0x42 ∷ replicate 298 0;
}

two_calls :
    receive_all true driver ((7, 0x7E ∷ []) ∷ (8, 0x42 ∷ []) ∷ [])
    ≡ some (record driver { protocol = two_bytes })
unfolding receive_all received_buf read_fields advance parse_state parse_loop take_byte set_state
two_calls = refl

receive_all-Inv_example : Inv two_bytes × (two_bytes.pos ≤ 265)
receive_all-Inv_example =
    receive_all-Inv true driver ((7, 0x7E ∷ []) ∷ (8, 0x42 ∷ []) ∷ []) blank-Inv (omega arith)
      two_calls

abbrev filled : Pages
filled =
    put (put (put empty 1 (some (set_magic zeroed))) 2 (some (set_magic zeroed))) 3
      (some (set_magic zeroed))

sensor_init_run : sensor_init four_pages sensor empty ≡ (sensor, filled, ready)
unfolding sensor_init
sensor_init_run = refl

sensor_destroy-init_example :
    (m'' : Pages) × (sensor_destroy sensor filled ≡ some m'') × ((q : ℕ) → m'' q ≡ none)
sensor_destroy-init_example =
    sensor_destroy-init four_pages sensor empty four_pages-IsFresh sensor_init_run
