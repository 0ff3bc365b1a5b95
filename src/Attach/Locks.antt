-- ===== src/Attach/Locks.antt =====
-- lunix-attach.c: what the program keeps, and the lock file of a terminal line.
use c_development_on_linux.Base.{
  ℕ, ◌-◌, Bool, true, false, ◌&&◌, ◌||◌, List, [], ◌∷◌, ◌++◌, Option, none, some, ◌==◌,
  if◌then◌else◌, length, take, replicate,
}
use c_development_on_linux.Base.Texts.{digits, same_text}
use c_development_on_linux.Base.Decimal.{atoi, skip_spaces, is_digit}
use c_development_on_linux.Attach.Modes.{Termios}

-- The files by their names.
abbrev pub Files : Type 0
Files = List ℕ → Option (List ℕ)

abbrev pub put_file : Files → List ℕ → Option (List ℕ) → Files
put_file m p v q = if same_text p q then v else m q

-- What all programs share: the files, and the terminal line with its settings and discipline.
pub record System : Type 0 where
  pub files : Files
  pub modes : Termios
  pub ldisc : ℕ

-- The global and static data of the program, and the system.
pub record Attach : Type 0 where
  pub tty_before : Termios
  pub tty_current : Termios
  pub ldisc_before : ℕ
  pub saved_lock : Bool
  pub saved_path : List ℕ
  pub system : System

-- What the program meets: its process number; whether a signal 0 to a process number arrives, which
-- is an `int` in two's complement; whether `creat` works; how many bytes the write brings to the
-- file; whether the user uucp is known; whether `unlink`, `open` and each `ioctl` work; what
-- `strlen(name + 6)` gives for a name of fewer than six bytes; and two constants of the headers.
pub record Answers : Type 0 where
  pub pid : ℕ
  pub alive : ℕ → Bool
  pub creates : Bool
  pub written : ℕ
  pub knows_uucp : Bool
  pub unlinks : Bool
  pub opens : Bool
  pub gets_state : Bool
  pub gets_ldisc : Bool
  pub sets_state : Bool
  pub sets_ldisc : Bool
  pub behind_name : ℕ
  pub path_max : ℕ
  pub n_masc : ℕ

-- Whether a text begins with a digit, a sign before it set aside.
abbrev has_digit : List ℕ → Bool
has_digit [] = false
has_digit (c ∷ cs) = is_digit c

abbrev has_number : List ℕ → Bool
has_number [] = false
has_number (c ∷ cs) = is_digit c || (((c == 43) || (c == 45)) && has_digit cs)

-- `fscanf(fd, "%d", &pid)`, `none` where it brings no number
unfoldable pub scan_int : List ℕ → Option ℕ
scan_int text = if has_number (skip_spaces text) then some (atoi text) else none

-- `tty_already_locked` once the file is read, and once it is open
abbrev pub owner_lives : Answers → Option ℕ → Bool
owner_lives a none = false
owner_lives a (some pid) = a.alive pid

abbrev pub locked_by : Answers → Option (List ℕ) → Bool
locked_by a none = false
locked_by a (some text) = owner_lives a (scan_int text)

-- `tty_already_locked`
unfoldable pub tty_already_locked : Answers → List ℕ → Files → Bool
tty_already_locked a name files = locked_by a (files name)

-- "/var/lock/LCK.." before a name
abbrev pub lock_path : List ℕ → List ℕ
lock_path path =
    47 ∷ 118 ∷ 97 ∷ 114 ∷ 47 ∷ 108 ∷ 111 ∷ 99 ∷ 107 ∷ 47 ∷ 76 ∷ 67 ∷ 75 ∷ 46 ∷ 46 ∷ path

-- `sprintf(apid, "%10d\n", getpid())`
abbrev pub apid : ℕ → List ℕ
apid pid = let number = digits 10 pid in replicate (10 - length number) 32 ++ (number ++ 10 ∷ [])

abbrev pub set_files : Files → Attach → Attach
set_files files s = record s { system = record (s.system) { files = files } }

-- `tty_lock(path, 1)` once the line is not found locked; whether it returned 0
unfoldable pub take_lock : Answers → Attach → Bool × Attach
take_lock a s =
    let text = apid a.pid in
    let with = λ (v : Option (List ℕ)). set_files (put_file s.system.files s.saved_path v) s in
    if a.creates
    then if a.written == length text
      then if a.knows_uucp
        then (true, record (with (some text)) { saved_lock = true })
        else (true, with (some text))
      else (false, with (if a.unlinks then none else some (take a.written text)))
    else (false, s)

-- `tty_lock(path, 1)` that looks for the lock file when the files are `files`, and then goes on
unfoldable pub lock_seen : Files → Answers → List ℕ → Attach → Bool × Attach
unfolding tty_already_locked take_lock
lock_seen files a path s =
    let s = record s { saved_path = lock_path path } in
    if tty_already_locked a s.saved_path files then (false, s) else take_lock a s

-- `tty_lock(path, 1)` when no other program comes between
unfoldable pub tty_lock : Answers → List ℕ → Attach → Bool × Attach
unfolding lock_seen
tty_lock a path s = lock_seen s.system.files a path s

-- `tty_lock(NULL, 0)`
unfoldable pub tty_unlock : Answers → Attach → Bool × Attach
tty_unlock a s =
    if s.saved_lock
    then if a.unlinks
      then (
        true,
        record (set_files (put_file s.system.files s.saved_path none) s) { saved_lock = false },
      )
      else (false, s)
    else (true, s)
