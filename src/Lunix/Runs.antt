-- ===== src/Lunix/Runs.antt =====
-- Test data for the driver: a sensor, its pages, an allocator, an idle parser and a report.
use c_development_on_linux.Base.{
  Bool, true, false, Option, none, some, ◌==◌, if◌then◌else◌, arith, [], ◌∷◌, refl, replicate,
  All-replicate,
}
use c_development_on_linux.Base.Bytes.{IsByte}
use c_development_on_linux.Lunix.Sensors.Laws.{Owns}
use c_development_on_linux.Lunix.Protocol.{ProtocolState, Driver}
use c_development_on_linux.Lunix.Protocol.Layout.{Inv}
use c_development_on_linux.Lunix.Protocol.Frames.{Frame, IsFrame, IsIdle}
use c_development_on_linux.Lunix.Sensors.{Sensor, Pages, MsrData, zeroed, Allocator, IsFresh}

abbrev pub sensor : Sensor
sensor = record { batt_page = some 1; temp_page = some 2; light_page = some 3 }

abbrev pub pages : Pages
pages p =
    if p == 1
    then some zeroed
    else if p == 2
    then some zeroed
    else if p == 3
    then some zeroed
    else none

abbrev pub is_free : Option MsrData → Bool
is_free none = true
is_free (some _) = false

-- an allocator with four pages
abbrev pub four_pages : Allocator
four_pages m =
    if is_free (m 1)
    then some 1
    else if is_free (m 2)
    then some 2
    else if is_free (m 3)
    then some 3
    else if is_free (m 4)
    then some 4
    else none

pub four_pages-IsFresh : IsFresh four_pages
four_pages-IsFresh m p e = ground arith

abbrev pub empty : Pages
empty p = none

abbrev pub blank : ProtocolState
blank = record {
  state = 1;
  bytes_read = 0;
  bytes_to_read = 1;
  pos = 0;
  next_is_special = 0;
  payload_length = 0;
  packet = replicate 300 0;
}

abbrev pub driver : Driver
driver = record {
  protocol = blank;
  sensor_cnt = 1;
  sensors = sensor ∷ [];
  pages = pages;
  woken = [];
}

-- a report of node 1 in which two bytes are stuffed
abbrev pub report : Frame
report = record {
  start = 0x7E;
  kind = 0x42;
  destination_low = 0x7D;
  destination_high = 0;
  am_type = 0x0B;
  am_group = 0x7E;
  payload = 0 ∷ 0 ∷ 1 ∷ 0 ∷ 0 ∷ 0 ∷ 0 ∷ 0 ∷ 0 ∷ 0 ∷ 0 ∷ 0x7E ∷ 1 ∷ 2 ∷ 3 ∷ 4 ∷ 5 ∷ [];
  crc_low = 0;
  crc_high = 0;
  stop = 0x7E;
}

pub report-IsFrame : IsFrame report
report-IsFrame = omega arith

pub blank-IsIdle : IsIdle blank
blank-IsIdle = record {
  state_is = refl;
  wanted = refl;
  none_read = refl;
  no_mark = refl;
  at = refl;
  so_far = refl;
  size = refl;
}

pub blank-Inv : Inv blank
blank-Inv = record {
  size = refl;
  bytes = All-replicate IsByte 300 0 (omega arith);
  first = omega arith;
  last = omega arith;
  placed = refl;
  wanted = refl;
  within = omega arith;
}

pub sensor-Owns : Owns sensor pages 1 2 3
sensor-Owns = record {
  at_batt = refl;
  at_temp = refl;
  at_light = refl;
  b_ne_t = omega arith;
  b_ne_l = omega arith;
  t_ne_l = omega arith;
}
