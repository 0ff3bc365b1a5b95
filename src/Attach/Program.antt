-- ===== src/Attach/Program.antt =====
-- lunix-attach.c: opening and closing a terminal line, and `main`.
use c_development_on_linux.Base.{
  ℕ, ◌-◌, Bool, true, false, List, [], ◌∷◌, ◌++◌, Option, none, some, ltb, if◌then◌else◌, length,
  take, drop,
}
use c_development_on_linux.Base.Texts.{digits, same_text}
use c_development_on_linux.Attach.Modes.{
  Termios, Setting, tty_set_raw, tty_set_speed, tty_set_databits, tty_set_stopbits, tty_set_parity,
}
use c_development_on_linux.Attach.Locks.{Attach, Answers, tty_lock, tty_unlock}

-- "/dev/"
abbrev pub dev : List ℕ
dev = 47 ∷ 100 ∷ 101 ∷ 118 ∷ 47 ∷ []

-- `strlen(name + 6)`
abbrev pub length_behind : Answers → List ℕ → ℕ
length_behind a name = if ltb (length name) 6 then a.behind_name else length name - 6

-- the names to open and to lock, `none` for one that is too long
unfoldable pub paths : Answers → List ℕ → Option (List ℕ × List ℕ)
paths a name =
    if same_text (take 1 name) (47 ∷ [])
    then some (name, if same_text (take 5 name) dev then drop 5 name else name)
    else if ltb a.path_max (length_behind a name)
    then none
    else some (dev ++ name, name)

abbrev set_modes : Termios → Attach → Attach
set_modes tty s = record s { system = record (s.system) { modes = tty } }

abbrev set_ldisc : ℕ → Attach → Attach
set_ldisc disc s = record s { system = record (s.system) { ldisc = disc } }

-- `tty_set_state` and `tty_set_ldisc`
unfoldable pub tty_set_state : Answers → Termios → Attach → Bool × Attach
tty_set_state a tty s = if a.sets_state then (true, set_modes tty s) else (false, s)

unfoldable pub tty_set_ldisc : Answers → ℕ → Attach → Bool × Attach
tty_set_ldisc a disc s = if a.sets_ldisc then (true, set_ldisc disc s) else (false, s)

-- The settings for the sensor network, one setter after the other, until one does not return 0.
unfoldable pub sensor_settings : Termios → Setting
sensor_settings tty =
    let set = tty_set_speed (digits 10 57600) (tty_set_raw tty) in
    if set.1
    then (let set = tty_set_databits 56 set.0 in
        (if set.1
          then (let set = tty_set_stopbits 49 set.0 in
              (if set.1 then tty_set_parity 78 set.0 else set))
          else set))
    else set

-- `tty_open` from the new settings on
unfoldable pub set_up : Answers → Attach → Bool × Attach
unfolding tty_set_state tty_set_ldisc sensor_settings
set_up a s =
    let set = sensor_settings s.tty_current in
    let s = record s { tty_current = set.0 } in
    if set.1
    then (let (ok, s) = tty_set_state a s.tty_current s in
        (if ok then tty_set_ldisc a a.n_masc s else (false, s)))
    else (false, s)

-- `tty_open` once the line is open
unfoldable pub read_settings : Answers → Attach → Bool × Attach
unfolding set_up
read_settings a s =
    if a.gets_state
    then (let s = record s { tty_before = s.system.modes; tty_current = s.system.modes } in
        (if a.gets_ldisc
          then set_up a (record s { ldisc_before = s.system.ldisc })
          else (false, s)))
    else (false, s)

-- `tty_open` once it is known what to open and to lock
unfoldable pub open_line : Answers → Option (List ℕ × List ℕ) → Attach → Bool × Attach
unfolding tty_lock read_settings
open_line a none s = (false, s)
open_line a (some (path, lock)) s =
    let (ok, s) = tty_lock a lock s in
    if ok then (if a.opens then read_settings a s else (false, s)) else (false, s)

-- `tty_open`; without a name it is standard input that is set up. Whether it returned 0
unfoldable pub tty_open : Answers → Option (List ℕ) → Attach → Bool × Attach
unfolding paths open_line
tty_open a none s = read_settings a s
tty_open a (some name) s = open_line a (paths a name) s

-- `tty_restore`; what the setting of the speed "0" returned is not looked at.
unfoldable pub tty_restore : Answers → Attach → Bool × Attach
unfolding tty_set_speed tty_set_state
tty_restore a s = tty_set_state a (tty_set_speed (48 ∷ []) s.tty_before).0 s

-- `tty_close`
unfoldable pub tty_close : Answers → Attach → Attach
unfolding tty_set_ldisc tty_restore tty_unlock
tty_close a s =
    let s = (tty_set_ldisc a s.ldisc_before s).1 in
    let s = (tty_restore a s).1 in (tty_unlock a s).1

-- `main` ends with a status, or waits for a signal.
pub data Outcome : Type 0 where
  exited : ℕ → Attach → Outcome
  waiting : Attach → Outcome

-- `main` up to the loop of `pause`, for its arguments
unfoldable pub main : Answers → List (List ℕ) → Attach → Outcome
unfolding tty_open
main a (program ∷ name ∷ []) s =
    let (ok, s) = tty_open a (some name) s in if ok then waiting s else exited 1 s
main a _ s = exited 1 s

-- `sig_catch`
unfoldable pub sig_catch : Answers → Attach → Outcome
unfolding tty_close
sig_catch a s = exited 0 (tty_close a s)
