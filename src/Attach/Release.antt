-- ===== src/Attach/Release.antt =====
-- The terminal line while the program runs, and after it.
use c_development_on_linux.Base.{
  ℕ, ◌^◌, ◌<◌, true, false, ◌&&◌, List, [], ◌∷◌, none, some, map, ◌≡◌, refl, ap, ◌∙◌, Bool-cases,
  inl, inr,
}
use c_development_on_linux.Base.Texts.{same_text_refl, digits, same_text}
use c_development_on_linux.Attach.Modes.{
  Termios, b57600, cs8, find_speed, tty_find_speed, tty_set_speed, tty_set_databits,
  tty_set_stopbits, tty_set_parity, tty_set_raw,
}
use c_development_on_linux.Attach.Locks.{
  set_files, Attach, Answers, Files, put_file, tty_already_locked, lock_path, apid, tty_unlock,
}
use c_development_on_linux.Attach.Program.{
  paths, open_line, sensor_settings, set_up, read_settings, tty_set_state, tty_set_ldisc, tty_open,
  tty_restore, tty_close, exited, waiting, main, sig_catch,
}
use c_development_on_linux.Attach.Ownership.{
  CanLock, looking, holder, tty_lock-CanLock, tty_lock_refused, tty_already_locked-apid,
}

-- 57600 bits a second, 8 data bits, no parity, 1 stop bit, and each byte as it comes
abbrev pub sensor_mode : Termios → Termios
sensor_mode tty = record {
  ignbrk = true;
  ignpar = true;
  unnamed_input = 0;
  c_oflag = 0;
  c_lflag = 0;
  c_cflag = record {
    cbaud = b57600;
    csize = cs8;
    cstopb = false;
    cread = true;
    parenb = false;
    parodd = false;
    hupcl = true;
    clocal = true;
    crtscts = true;
    unnamed = 0;
  };
  vmin = 1;
  vtime = 0;
  characters = map (λ _. 0) tty.characters;
}

pub sensor_settings-sensor_mode : (tty : Termios) → sensor_settings tty ≡ (sensor_mode tty, true)
unfolding sensor_settings tty_set_speed tty_set_databits tty_set_stopbits tty_set_parity tty_set_raw
    tty_find_speed find_speed digits same_text
sensor_settings-sensor_mode tty = refl

-- All calls work.
pub record Works (a : Answers) : Type 0 where
  pub locks : CanLock a
  pub knows_uucp : a.knows_uucp ≡ true
  pub opens : a.opens ≡ true
  pub gets_state : a.gets_state ≡ true
  pub gets_ldisc : a.gets_ldisc ≡ true
  pub sets_state : a.sets_state ≡ true
  pub sets_ldisc : a.sets_ldisc ≡ true
  pub unlinks : a.unlinks ≡ true

-- the program when it has the line with a lock of a name
abbrev pub attached : Answers → List ℕ → Attach → Attach
attached a lock s = record {
  tty_before = s.system.modes;
  tty_current = sensor_mode s.system.modes;
  ldisc_before = s.system.ldisc;
  saved_lock = true;
  saved_path = lock_path lock;
  system = record {
    files = put_file s.system.files (lock_path lock) (some (apid a.pid));
    modes = sensor_mode s.system.modes;
    ldisc = a.n_masc;
  };
}

pub main-attached :
    (a : Answers) (program name path lock : List ℕ) (s : Attach)
    → Works a
    → paths a name ≡ some (path, lock)
    → tty_already_locked a (lock_path lock) s.system.files ≡ false
    → main a (program ∷ name ∷ []) s ≡ waiting (attached a lock s)
unfolding main tty_open open_line read_settings set_up tty_set_state tty_set_ldisc
main-attached a program name path lock s v e free =
    rw
      (
        e,
        tty_lock-CanLock a lock s v.locks free,
        v.opens,
        v.gets_state,
        v.gets_ldisc,
        sensor_settings-sensor_mode s.system.modes,
        v.sets_state,
        v.sets_ldisc,
        v.knows_uucp,
      )
      refl

-- Round trip. If all calls work and no living process has the lock file of the line, `main` waits
-- with the line at 57600 bits a second, 8 data bits, no parity and 1 stop bit, and with the
-- discipline of the driver. A signal then, whatever other files have changed in between, brings
-- back the settings and the discipline from before and removes the lock file, if these calls work.
pub sig_catch-main :
    (a b : Answers) (program name path lock : List ℕ) (s : Attach) (files : Files)
    → Works a
    → b.sets_ldisc ≡ true
    → b.sets_state ≡ true
    → b.unlinks ≡ true
    → paths a name ≡ some (path, lock)
    → tty_already_locked a (lock_path lock) s.system.files ≡ false
    → (u : Attach) × (t : Attach) × (main a (program ∷ name ∷ []) s ≡ waiting u)
      × (u.system.modes ≡ sensor_mode s.system.modes)
      × (u.system.ldisc ≡ a.n_masc)
      × (u.system.files (lock_path lock) ≡ some (apid a.pid))
      × (sig_catch b (set_files files u) ≡ exited 0 t)
      × (t.system.modes ≡ s.system.modes)
      × (t.system.ldisc ≡ s.system.ldisc)
      × (t.system.files ≡ put_file files (lock_path lock) none)
unfolding sig_catch tty_close tty_set_ldisc tty_restore tty_set_state tty_unlock same_text digits
sig_catch-main a b program name path lock s files v ldisc state unlinks e free =
    let u = attached a lock s in
    (
      u,
      record u {
        saved_lock = false;
        system = record {
          files = put_file files (lock_path lock) none;
          modes = s.system.modes;
          ldisc = s.system.ldisc;
        };
      },
      main-attached a program name path lock s v e free,
      refl,
      refl,
      rw (same_text_refl (lock_path lock)) refl,
      rw (ldisc, state, unlinks) refl,
      refl,
      refl,
      refl,
    )

-- While the process that got a line lives, a second program that is given a name with the same lock
-- is refused: it ends with status 1, and the files, the settings and the discipline stay as they
-- are.
pub main-refused :
    (a b : Answers) (program name path lock : List ℕ) (program' name' path' : List ℕ) (s v : Attach)
    → Works a
    → a.pid < 2 ^ 31
    → b.alive a.pid ≡ true
    → paths a name ≡ some (path, lock)
    → paths b name' ≡ some (path', lock)
    → tty_already_locked a (lock_path lock) s.system.files ≡ false
    → (u : Attach) × (t : Attach) × (main a (program ∷ name ∷ []) s ≡ waiting u)
      × (main b (program' ∷ name' ∷ []) (record v { system = u.system }) ≡ exited 1 t)
      × (t.system ≡ u.system)
unfolding main tty_open open_line
main-refused a b program name path lock program' name' path' s v w h lives e e' free =
    let u = attached a lock s in
    let second = record v { system = u.system } in
    let held : u.system.files (lock_path lock) ≡ some (apid a.pid) =
      rw (same_text_refl (lock_path lock)) refl in
    let locked = tty_already_locked-apid b (lock_path lock) u.system.files a.pid h held lives in
    (
      u,
      looking lock second,
      main-attached a program name path lock s w e free,
      rw (e', tty_lock_refused b lock second locked) refl,
      refl,
    )

-- The settings are made exactly if the calls for them work, and no file changes.
set_up-files :
    (a : Answers) (s : Attach)
    → ((set_up a s).0 ≡ (a.sets_state && a.sets_ldisc))
      × ((set_up a s).1.system.files ≡ s.system.files)
unfolding set_up tty_set_state tty_set_ldisc
set_up-files a s = rw (sensor_settings-sensor_mode s.tty_current) (elim (Bool-cases a.sets_state) [
  | inr refused ↦ rw refused (refl, refl)
  | inl set ↦ rw set (elim (Bool-cases a.sets_ldisc) [
    | inr refused ↦ rw refused (refl, refl)
    | inl done ↦ rw done (refl, refl)
  ])
])

read_settings-files :
    (a : Answers) (s : Attach)
    → ((read_settings a s).0 ≡ (a.gets_state && (a.gets_ldisc && (a.sets_state && a.sets_ldisc))))
      × ((read_settings a s).1.system.files ≡ s.system.files)
unfolding read_settings
read_settings-files a s = elim (Bool-cases a.gets_state) [
  | inr refused ↦ rw refused (refl, refl)
  | inl state ↦ rw state (elim (Bool-cases a.gets_ldisc) [
    | inr refused ↦ rw refused (refl, refl)
    | inl ldisc ↦ rw ldisc (set_up-files a _)
  ])
]

-- When a lock file can be made and no living process has the one of the line, but the line cannot be
-- opened, or its settings or discipline cannot be read or set, `main` ends with status 1 and leaves
-- its lock file.
pub main-keeps_lock :
    (a : Answers) (program name path lock : List ℕ) (s : Attach)
    → CanLock a
    → paths a name ≡ some (path, lock)
    → tty_already_locked a (lock_path lock) s.system.files ≡ false
    → (a.opens && (a.gets_state && (a.gets_ldisc && (a.sets_state && a.sets_ldisc)))) ≡ false
    → (t : Attach) × (main a (program ∷ name ∷ []) s ≡ exited 1 t)
      × (t.system.files (lock_path lock) ≡ some (apid a.pid))
unfolding main tty_open open_line
main-keeps_lock a program name path lock s v e free fails =
    let u = holder a (looking lock s) in
    let held : u.system.files (lock_path lock) ≡ some (apid a.pid) =
      rw (same_text_refl (lock_path lock)) refl in
    elim (Bool-cases a.opens) [
      | inr refused ↦ (u, rw (e, tty_lock-CanLock a lock s v free, refused) refl, held)
      | inl opened ↦
          let (result, kept) = read_settings-files a u in
          let failed : (read_settings a u).0 ≡ false = result ∙ (rw opened at fails) in
          (
            (read_settings a u).1,
            rw (e, tty_lock-CanLock a lock s v free, opened, failed) refl,
            ap (λ m. m (lock_path lock)) kept ∙ held,
          )
    ]
