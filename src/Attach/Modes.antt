-- ===== src/Attach/Modes.antt =====
-- lunix-attach.c: the settings of a terminal line, `struct termios`, and their changes.
use c_development_on_linux.Base.{
  ℕ, Bool, true, false, List, [], ◌∷◌, Option, none, some, map, ◌==◌, if◌then◌else◌,
}
use c_development_on_linux.Base.Texts.{digits, same_text, to_upper}

-- The values of the bits CBAUD of `c_cflag`: those of the table, and all others.
pub data Speed : Type 0 where
  b50 b75 b110 b300 b600 b1200 b2400 b4800 b9600 b14400 b19200 b38400 b57600 b115200 : Speed
  another : ℕ → Speed

-- the values of the bits CSIZE
pub data Size : Type 0 where
  cs5 cs6 cs7 cs8 : Size

-- The bits of `c_cflag` by name, with those that have no name here.
pub record Cflag : Type 0 where
  pub cbaud : Speed
  pub csize : Size
  pub cstopb : Bool
  pub cread : Bool
  pub parenb : Bool
  pub parodd : Bool
  pub hupcl : Bool
  pub clocal : Bool
  pub crtscts : Bool
  pub unnamed : ℕ

-- In `c_iflag` two bits have names. `c_cc` has the entries VMIN, VTIME and others.
pub record Termios : Type 0 where
  pub ignbrk : Bool
  pub ignpar : Bool
  pub unnamed_input : ℕ
  pub c_oflag : ℕ
  pub c_lflag : ℕ
  pub c_cflag : Cflag
  pub vmin : ℕ
  pub vtime : ℕ
  pub characters : List ℕ

-- `tty_speeds`, where all the macros are defined
abbrev pub tty_speeds : List (List ℕ × Speed)
tty_speeds =
    (digits 10 50, b50)
    ∷ (digits 10 75, b75)
    ∷ (digits 10 110, b110)
    ∷ (digits 10 300, b300)
    ∷ (digits 10 600, b600)
    ∷ (digits 10 1200, b1200)
    ∷ (digits 10 2400, b2400)
    ∷ (digits 10 4800, b4800)
    ∷ (digits 10 9600, b9600)
    ∷ (digits 10 14400, b14400)
    ∷ (digits 10 19200, b19200)
    ∷ (digits 10 38400, b38400)
    ∷ (digits 10 57600, b57600)
    ∷ (digits 10 115200, b115200)
    ∷ []

-- the loop of `tty_find_speed`; `none` is -EINVAL
unfoldable pub find_speed : List (List ℕ × Speed) → List ℕ → Option Speed
find_speed [] speed = none
find_speed ((name, code) ∷ more) speed =
    let later = find_speed more speed in if same_text name speed then some code else later

unfoldable pub tty_find_speed : List ℕ → Option Speed
unfolding find_speed
tty_find_speed speed = find_speed tty_speeds speed

-- A setter gives the settings and whether it returned 0, not -EINVAL.
abbrev pub Setting : Type 0
Setting = Termios × Bool

abbrev pub with_cflag : Termios → Cflag → Termios
with_cflag tty c = record tty { c_cflag = c }

-- `tty_set_stopbits`
unfoldable pub tty_set_stopbits : ℕ → Termios → Setting
tty_set_stopbits stopbits tty =
    let c = tty.c_cflag in
    if stopbits == 49
    then (with_cflag tty (record c { cstopb = false }), true)
    else if stopbits == 50
    then (with_cflag tty (record c { cstopb = true }), true)
    else (tty, false)

-- `tty_set_databits`: the bits CSIZE are cleared first, which leaves CS5.
unfoldable pub tty_set_databits : ℕ → Termios → Setting
tty_set_databits databits tty =
    let sized = λ (n : Size). with_cflag tty (record (tty.c_cflag) { csize = n }) in
    if databits == 53
    then (sized cs5, true)
    else if databits == 54
    then (sized cs6, true)
    else if databits == 55
    then (sized cs7, true)
    else if databits == 56
    then (sized cs8, true)
    else (sized cs5, false)

-- `tty_set_parity`
unfoldable pub tty_set_parity : ℕ → Termios → Setting
tty_set_parity parity tty =
    let c = tty.c_cflag in
    let letter = to_upper parity in
    if letter == 78
    then (with_cflag tty (record c { parenb = false; parodd = false }), true)
    else if letter == 79
    then (with_cflag tty (record c { parenb = true; parodd = true }), true)
    else if letter == 69
    then (with_cflag tty (record c { parenb = true; parodd = false }), true)
    else (tty, false)

-- `tty_set_speed`
unfoldable pub tty_set_speed : List ℕ → Termios → Setting
unfolding tty_find_speed
tty_set_speed speed tty = elim (tty_find_speed speed) [
  | none ↦ (tty, false)
  | some code ↦ (with_cflag tty (record (tty.c_cflag) { cbaud = code }), true)
]

-- `tty_set_raw`
unfoldable pub tty_set_raw : Termios → Termios
tty_set_raw tty = record {
  ignbrk = true;
  ignpar = true;
  unnamed_input = 0;
  c_oflag = 0;
  c_lflag = 0;
  c_cflag = record {
    cbaud = tty.c_cflag.cbaud;
    csize = cs5;
    cstopb = false;
    cread = true;
    parenb = false;
    parodd = false;
    hupcl = true;
    clocal = true;
    crtscts = true;
    unnamed = 0;
  };
  vmin = 1;
  vtime = 0;
  characters = map (λ _. 0) tty.characters;
}
