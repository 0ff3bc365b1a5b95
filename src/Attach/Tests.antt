-- ===== src/Attach/Tests.antt =====
-- Runs of lunix-attach.c on the line ttyS0, and the theorems at them.
use c_development_on_linux.Base.{
  ℕ, true, false, [], ◌∷◌, ◌++◌, List, none, some, ◌≡◌, refl, arith, ◌==◌,
}
use c_development_on_linux.Base.Texts.{same_text, digits}
use c_development_on_linux.Attach.Modes.{Termios, b9600, cs7}
use c_development_on_linux.Attach.Locks.{
  Attach, Answers, Files, put_file, set_files, tty_already_locked, lock_path, apid, lock_seen,
  tty_unlock,
}
use c_development_on_linux.Attach.Program.{dev, paths, exited, waiting, main, sig_catch}
use c_development_on_linux.Attach.Ownership.{CanLock, lock_seen-twice}
use c_development_on_linux.Lunix.Ldisc.{success, ldisc_open, ldisc_init}
use c_development_on_linux.Attach.Driver.{Prepares, with_driver, on_line, main-busy}
use c_development_on_linux.Attach.Release.{
  Works, sensor_mode, sig_catch-main, main-refused, main-keeps_lock,
}

abbrev modes : Termios
modes = record {
  ignbrk = false;
  ignpar = false;
  unnamed_input = 5;
  c_oflag = 1;
  c_lflag = 2;
  c_cflag = record {
    cbaud = b9600;
    csize = cs7;
    cstopb = true;
    cread = true;
    parenb = true;
    parodd = false;
    hupcl = false;
    clocal = false;
    crtscts = false;
    unnamed = 0;
  };
  vmin = 4;
  vtime = 9;
  characters = 3 ∷ 28 ∷ [];
}

abbrev no_files : Files
no_files name = none

abbrev begin : Attach
begin = record {
  tty_before = modes;
  tty_current = modes;
  ldisc_before = 0;
  saved_lock = false;
  saved_path = [];
  system = record { files = no_files; modes = modes; ldisc = 0 };
}

-- process 7, for which all works, and no other lives
abbrev seven : Answers
seven = record {
  pid = 7;
  alive = λ pid. false;
  creates = true;
  written = 11;
  knows_uucp = true;
  unlinks = true;
  opens = true;
  gets_state = true;
  gets_ldisc = true;
  sets_state = true;
  sets_ldisc = true;
  behind_name = 3;
  path_max = 4096;
  n_masc = 8;
}

-- process 12345, for which process 7 lives
abbrev other : Answers
other = record seven { pid = 12345; alive = λ pid. pid == 7 }

-- "ttyS0", and the names of the program
abbrev tty_s0 : List ℕ
tty_s0 = 116 ∷ 116 ∷ 121 ∷ 83 ∷ 48 ∷ []

abbrev attach : List ℕ
attach = 97 ∷ []

seven-CanLock : CanLock seven
unfolding digits
seven-CanLock = record { creates = refl; writes = refl }

other-CanLock : CanLock other
unfolding digits
other-CanLock = record { creates = refl; writes = refl }

seven-Works : Works seven
seven-Works = record {
  locks = seven-CanLock;
  knows_uucp = refl;
  opens = refl;
  gets_state = refl;
  gets_ldisc = refl;
  sets_state = refl;
  sets_ldisc = refl;
  unlinks = refl;
}

short_name : paths seven tty_s0 ≡ some (dev ++ tty_s0, tty_s0)
unfolding paths same_text
short_name = refl

long_name : paths other (dev ++ tty_s0) ≡ some (dev ++ tty_s0, tty_s0)
unfolding paths same_text
long_name = refl

unlocked : tty_already_locked seven (lock_path tty_s0) no_files ≡ false
unfolding tty_already_locked
unlocked = refl

free_for_other : tty_already_locked other (lock_path tty_s0) no_files ≡ false
unfolding tty_already_locked
free_for_other = refl

sig_catch-main_example :
    (u : Attach) × (t : Attach) × (main seven (attach ∷ tty_s0 ∷ []) begin ≡ waiting u)
    × (u.system.modes ≡ sensor_mode modes)
    × (u.system.ldisc ≡ 8)
    × (u.system.files (lock_path tty_s0) ≡ some (apid 7))
    × (sig_catch seven (set_files no_files u) ≡ exited 0 t)
    × (t.system.modes ≡ modes)
    × (t.system.ldisc ≡ 0)
    × (t.system.files ≡ put_file no_files (lock_path tty_s0) none)
sig_catch-main_example =
    sig_catch-main seven seven attach tty_s0 (dev ++ tty_s0) tty_s0 begin no_files seven-Works refl
      refl refl short_name unlocked

main-refused_example :
    (u : Attach) × (t : Attach) × (main seven (attach ∷ tty_s0 ∷ []) begin ≡ waiting u)
    × (main other (attach ∷ (dev ++ tty_s0) ∷ []) (record begin { system = u.system }) ≡ exited 1 t)
    × (t.system ≡ u.system)
main-refused_example =
    main-refused seven other attach tty_s0 (dev ++ tty_s0) tty_s0 attach (dev ++ tty_s0)
      (dev ++ tty_s0) begin begin seven-Works (omega arith) refl short_name long_name unlocked

-- the driver is not loaded, and has no discipline
abbrev unloaded : Answers
unloaded = record seven { sets_ldisc = false }

unloaded-CanLock : CanLock unloaded
unfolding digits
unloaded-CanLock = record { creates = refl; writes = refl }

main-keeps_lock_example :
    (t : Attach) × (main unloaded (attach ∷ tty_s0 ∷ []) begin ≡ exited 1 t)
    × (t.system.files (lock_path tty_s0) ≡ some (apid 7))
unfolding paths tty_already_locked
main-keeps_lock_example =
    main-keeps_lock unloaded attach tty_s0 (dev ++ tty_s0) tty_s0 begin unloaded-CanLock short_name
      unlocked refl

lock_seen-twice_example :
    (s' : Attach) × (t' : Attach) × (s'' : Attach) × (lock_seen no_files seven tty_s0 begin
      ≡ (true, s'))
    × (lock_seen no_files other tty_s0 (record begin { system = s'.system }) ≡ (true, t'))
    × (t'.system.files (lock_path tty_s0) ≡ some (apid 12345))
    × (tty_unlock seven (record s' { system = t'.system }) ≡ (true, s''))
    × (s''.system.files (lock_path tty_s0) ≡ none)
lock_seen-twice_example =
    lock_seen-twice seven other tty_s0 no_files begin begin seven-CanLock other-CanLock refl refl
      unlocked free_for_other

-- "ttyS1"
abbrev tty_s1 : List ℕ
tty_s1 = 116 ∷ 116 ∷ 121 ∷ 83 ∷ 49 ∷ []

other-Prepares : Prepares other
other-Prepares = record {
  locks = other-CanLock;
  opens = refl;
  gets_state = refl;
  gets_ldisc = refl;
  sets_state = refl;
}

first-Works : Works (with_driver (ldisc_init success).1 seven)
unfolding ldisc_open ldisc_init digits
first-Works = record {
  locks = record { creates = refl; writes = refl };
  knows_uucp = refl;
  opens = refl;
  gets_state = refl;
  gets_ldisc = refl;
  sets_state = refl;
  sets_ldisc = refl;
  unlinks = refl;
}

second_name : paths other tty_s1 ≡ some (dev ++ tty_s1, tty_s1)
unfolding paths same_text
second_name = refl

second_unlocked :
    tty_already_locked other
      (lock_path tty_s1)
      (put_file no_files (lock_path tty_s0) (some (apid 7)))
    ≡ false
unfolding tty_already_locked same_text
second_unlocked = refl

main-busy_example :
    (u : Attach) × (t : Attach) × (main
        (with_driver (ldisc_init success).1 seven)
        (attach ∷ tty_s0 ∷ [])
        begin
      ≡ waiting u)
    × (main
          (with_driver (ldisc_open true (ldisc_init success).1).1 other)
          (attach ∷ tty_s1 ∷ [])
          (on_line begin u)
        ≡ exited 1 t)
    × (t.system.modes ≡ sensor_mode modes)
    × (t.system.files (lock_path tty_s1) ≡ some (apid 12345))
main-busy_example =
    main-busy seven other attach tty_s0 (dev ++ tty_s0) tty_s0 attach tty_s1 (dev ++ tty_s1) tty_s1
      begin begin first-Works other-Prepares short_name second_name unlocked second_unlocked
