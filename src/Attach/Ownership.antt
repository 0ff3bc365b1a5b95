-- ===== src/Attach/Ownership.antt =====
-- What the lock file of a terminal line says, and what it is worth.
use c_development_on_linux.Base.{
  ℕ, ◌-◌, ◌^◌, ◌<◌, true, false, ◌||◌, List, [], ◌∷◌, ◌++◌, none, some, ◌≡◌, refl, ap, ◌∙◌, arith,
  length, ==_iff, Bool-cases, inl, inr,
}
use c_development_on_linux.Base.Texts.{same_text_refl, digits}
use c_development_on_linux.Base.Decimal.{
  atoi, skip_spaces, is_digit, digits-head, skip_spaces-replicate, skip_spaces-digit, atoi-line,
}
use c_development_on_linux.Attach.Locks.{
  Attach, Answers, Files, put_file, scan_int, tty_already_locked, lock_path, apid, take_lock,
  tty_lock, tty_unlock, lock_seen,
}

-- The process number in the file is read back.
scan_int-apid : (pid : ℕ) → pid < 2 ^ 31 → scan_int (apid pid) ≡ some pid
unfolding scan_int
scan_int-apid pid h =
    let (c, cs, d, e) = digits-head 9 pid in
    let text = apid pid in
    let begins : skip_spaces text ≡ c ∷ (cs ++ 10 ∷ []) =
      skip_spaces-replicate (10 - length (digits 10 pid)) (digits 10 pid ++ 10 ∷ [])
      ∙ ap (λ l. skip_spaces (l ++ 10 ∷ [])) e
      ∙ skip_spaces-digit c (cs ++ 10 ∷ []) d in
    let digit : is_digit c ≡ true = ground (arith, d.0, d.1) in
    let value : atoi text ≡ pid =
      atoi-line 9 pid (10 - length (digits 10 pid)) (omega (arith, h)) h in
    rw (begins, digit, value) refl

-- A line is locked as long as the process in its lock file lives.
pub tty_already_locked-apid :
    (a : Answers) (name : List ℕ) (files : Files) (pid : ℕ)
    → pid < 2 ^ 31
    → files name ≡ some (apid pid)
    → a.alive pid ≡ true
    → tty_already_locked a name files ≡ true
unfolding tty_already_locked
tty_already_locked-apid a name files pid h e lives = rw (e, scan_int-apid pid h) lives

-- The lock file can be made, with the whole process number in it.
pub record CanLock (a : Answers) : Type 0 where
  pub creates : a.creates ≡ true
  pub writes : a.written ≡ length (apid a.pid)

pub take_lock-CanLock :
    (a : Answers) (s : Attach)
    → CanLock a
    → take_lock a s ≡ (
      true,
      record s {
        saved_lock = a.knows_uucp || s.saved_lock;
        system = record (s.system) {
          files = put_file s.system.files s.saved_path (some (apid a.pid));
        };
      },
    )
unfolding take_lock
take_lock-CanLock a s v =
    rw (v.creates, (==_iff a.written (length (apid a.pid))).1 v.writes)
      (elim (Bool-cases a.knows_uucp) [ inl known ↦ rw known refl | inr unknown ↦ rw unknown refl ])

-- the program when it is about to look for the lock file of a line
abbrev pub looking : List ℕ → Attach → Attach
looking path s = record s { saved_path = lock_path path }

abbrev pub holder : Answers → Attach → Attach
holder a s = record s {
  saved_lock = a.knows_uucp || s.saved_lock;
  system = record (s.system) { files = put_file s.system.files s.saved_path (some (apid a.pid)) };
}

-- Looking for the lock file and making it are two steps. Two programs that both look before either
-- makes the file both get the line, if the file can be made and no living process is in it; the
-- file then has the number of the second alone. When the first, which knows the user uucp, closes
-- the line, the file is gone while the second still has the line.
pub lock_seen-twice :
    (a b : Answers) (path : List ℕ) (files : Files) (s t : Attach)
    → CanLock a
    → CanLock b
    → a.knows_uucp ≡ true
    → a.unlinks ≡ true
    → tty_already_locked a (lock_path path) files ≡ false
    → tty_already_locked b (lock_path path) files ≡ false
    → (s' : Attach) × (t' : Attach) × (s'' : Attach) × (lock_seen files a path s ≡ (true, s'))
      × (lock_seen files b path (record t { system = s'.system }) ≡ (true, t'))
      × (t'.system.files (lock_path path) ≡ some (apid b.pid))
      × (tty_unlock a (record s' { system = t'.system }) ≡ (true, s''))
      × (s''.system.files (lock_path path) ≡ none)
unfolding lock_seen tty_unlock
lock_seen-twice a b path files s t v w uucp unlinks free_a free_b =
    let s' = holder a (looking path s) in
    let t' = holder b (looking path (record t { system = s'.system })) in
    (
      s',
      t',
      record s' {
        saved_lock = false;
        system = record (t'.system) { files = put_file t'.system.files (lock_path path) none };
      },
      rw free_a (take_lock-CanLock a (looking path s) v),
      rw free_b (take_lock-CanLock b (looking path (record t { system = s'.system })) w),
      rw (same_text_refl (lock_path path)) refl,
      rw (uucp, unlinks) refl,
      rw (same_text_refl (lock_path path)) refl,
    )

-- `tty_lock` on a line that is free
pub tty_lock-CanLock :
    (a : Answers) (path : List ℕ) (s : Attach)
    → CanLock a
    → tty_already_locked a (lock_path path) s.system.files ≡ false
    → tty_lock a path s ≡ (true, holder a (looking path s))
unfolding tty_lock lock_seen
tty_lock-CanLock a path s v free = rw free (take_lock-CanLock a (looking path s) v)

-- `tty_lock` on a line that is not
pub tty_lock_refused :
    (a : Answers) (path : List ℕ) (s : Attach)
    → tty_already_locked a (lock_path path) s.system.files ≡ true
    → tty_lock a path s ≡ (false, looking path s)
unfolding tty_lock lock_seen
tty_lock_refused a path s locked = rw locked refl
