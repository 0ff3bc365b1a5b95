-- ===== src/Lunix/Ldisc/Users.antt =====
-- How many terminals use the line discipline of lunix-ldisc.c.
use c_development_on_linux.Base.{
  ℕ, zero, suc, ◌+◌, ◌-◌, ◌≤◌, Bool, true, false, ◌==◌, if◌then◌else◌, List, [], ◌∷◌, ◌≡◌, arith,
}
use c_development_on_linux.Lunix.Ldisc.{
  Code, success, not_permitted, busy, io_error, ldisc_open, ldisc_close, ldisc_init,
}

-- A call of the terminal layer. It closes the discipline only of a terminal that has opened it.
pub data Call : Type 0 where
  opens : Bool → Call
  closes : Call

abbrev one_more : Code → ℕ → ℕ
one_more success users = users + 1
one_more not_permitted users = users
one_more busy users = users
one_more io_error users = users

-- the count of the driver and the number of terminals with the discipline, after these calls
unfoldable pub run : List Call → ℕ → ℕ → ℕ × ℕ
run [] available users = (available, users)
run (opens capable ∷ calls) available users =
    let r = ldisc_open capable available in run calls r.1 (one_more r.0 users)
run (closes ∷ calls) available zero = run calls available zero
run (closes ∷ calls) available (suc users) = run calls (ldisc_close available) users

run-balance :
    (calls : List Call) (available users : ℕ)
    → available + users ≡ 1
    → (run calls available users).0 + (run calls available users).1 ≡ 1
unfolding run ldisc_open ldisc_close
run-balance [] available users h = h
run-balance (closes ∷ calls) available zero h = run-balance calls available zero h
run-balance (closes ∷ calls) available (suc users) h =
    run-balance calls (available + 1) users (omega (arith, h))
run-balance (opens false ∷ calls) available users h = run-balance calls available users h
run-balance (opens true ∷ calls) zero users h = run-balance calls zero users h
run-balance (opens true ∷ calls) (suc n) users h =
    let e : (suc n == 0) ≡ false = ground arith in
    rw (run, e) (run-balance calls (suc n - 1) (users + 1) (omega (arith, h)))

-- After any calls of the terminal layer at most one terminal has the line discipline, and a
-- terminal of a privileged user gets it exactly if no terminal has it.
pub run-exclusive :
    (calls : List Call)
    → let r = run calls ((ldisc_init success).1) 0 in
      (r.1 ≤ 1) × ((ldisc_open true r.0).0 ≡ (if r.1 == 0 then success else busy))
unfolding ldisc_init ldisc_open
run-exclusive calls =
    let b = run-balance calls 1 0 (omega arith) in (omega (arith, b), ground (arith, b))
