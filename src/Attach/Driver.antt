-- ===== src/Attach/Driver.antt =====
-- lunix-attach.c with the line discipline of lunix-ldisc.c behind its call TIOCSETD.
use c_development_on_linux.Base.{ℕ, Bool, true, false, ◌||◌, List, [], ◌∷◌, some, ◌≡◌, refl}
use c_development_on_linux.Base.Texts.{same_text_refl}
use c_development_on_linux.Lunix.Ldisc.{
  Code, success, not_permitted, busy, io_error, ldisc_open, ldisc_init,
}
use c_development_on_linux.Attach.Locks.{
  Attach, Answers, put_file, tty_already_locked, lock_path, apid,
}
use c_development_on_linux.Attach.Program.{
  paths, open_line, read_settings, set_up, tty_set_state, tty_set_ldisc, tty_open, exited, waiting,
  main,
}
use c_development_on_linux.Attach.Ownership.{CanLock, tty_lock-CanLock}
use c_development_on_linux.Attach.Release.{
  Works, attached, sensor_mode, sensor_settings-sensor_mode, main-attached,
}

abbrev pub is_success : Code → Bool
is_success success = true
is_success not_permitted = false
is_success busy = false
is_success io_error = false

-- The program runs with the privileges it asks for, and the driver has this count of free places.
abbrev pub with_driver : ℕ → Answers → Answers
with_driver available a = record a { sets_ldisc = is_success (ldisc_open true available).0 }

-- the other line, as the first program leaves the files
abbrev pub on_line : Attach → Attach → Attach
on_line v u = record v { system = record (v.system) { files = u.system.files } }

-- All calls but the last work.
pub record Prepares (b : Answers) : Type 0 where
  pub locks : CanLock b
  pub opens : b.opens ≡ true
  pub gets_state : b.gets_state ≡ true
  pub gets_ldisc : b.gets_ldisc ≡ true
  pub sets_state : b.sets_state ≡ true

main-unset :
    (b : Answers) (program name path lock : List ℕ) (s : Attach)
    → Prepares b
    → b.sets_ldisc ≡ false
    → paths b name ≡ some (path, lock)
    → tty_already_locked b (lock_path lock) s.system.files ≡ false
    → (t : Attach) × (main b (program ∷ name ∷ []) s ≡ exited 1 t)
      × (t.system.modes ≡ sensor_mode s.system.modes)
      × (t.system.files (lock_path lock) ≡ some (apid b.pid))
unfolding main tty_open open_line read_settings set_up tty_set_state tty_set_ldisc
main-unset b program name path lock s v refused e free = (
  record s {
    tty_before = s.system.modes;
    tty_current = sensor_mode s.system.modes;
    ldisc_before = s.system.ldisc;
    saved_lock = b.knows_uucp || s.saved_lock;
    saved_path = lock_path lock;
    system = record (s.system) {
      files = put_file s.system.files (lock_path lock) (some (apid b.pid));
      modes = sensor_mode s.system.modes;
    };
  },
  rw
      (
        e,
        tty_lock-CanLock b lock s v.locks free,
        v.opens,
        v.gets_state,
        v.gets_ldisc,
        sensor_settings-sensor_mode s.system.modes,
        v.sets_state,
        refused,
      )
      refl,
  refl,
  rw (same_text_refl (lock_path lock)) refl,
)

-- One program gets its line and the discipline of the driver, just loaded. A second one, on another
-- line that is free, then gets no discipline, since the driver has one place: it ends with status 1,
-- but leaves its line with the settings for the sensors, and its lock file.
pub main-busy :
    (a b : Answers) (program name path lock : List ℕ) (program' name' path' lock' : List ℕ)
    (s v : Attach)
    → Works (with_driver (ldisc_init success).1 a)
    → Prepares b
    → paths a name ≡ some (path, lock)
    → paths b name' ≡ some (path', lock')
    → tty_already_locked a (lock_path lock) s.system.files ≡ false
    → tty_already_locked b
        (lock_path lock')
        (put_file s.system.files (lock_path lock) (some (apid a.pid)))
      ≡ false
    → (u : Attach) × (t : Attach) × (main
          (with_driver (ldisc_init success).1 a)
          (program ∷ name ∷ [])
          s
        ≡ waiting u)
      × (main
            (with_driver (ldisc_open true (ldisc_init success).1).1 b)
            (program' ∷ name' ∷ [])
            (on_line v u)
          ≡ exited 1 t)
      × (t.system.modes ≡ sensor_mode v.system.modes)
      × (t.system.files (lock_path lock') ≡ some (apid b.pid))
unfolding ldisc_open ldisc_init paths tty_already_locked
main-busy a b program name path lock program' name' path' lock' s v w p e e' free free' =
    let first = with_driver 1 a in
    let second = with_driver 0 b in
    let u = attached first lock s in
    let prepared : Prepares second = record {
      locks = record { creates = p.locks.creates; writes = p.locks.writes };
      opens = p.opens;
      gets_state = p.gets_state;
      gets_ldisc = p.gets_ldisc;
      sets_state = p.sets_state;
    } in
    let (t, ends, modes, kept) =
      main-unset second program' name' path' lock' (on_line v u) prepared refl e' free' in
    (u, t, main-attached first program name path lock s w e free, ends, modes, kept)
