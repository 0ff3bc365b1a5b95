-- ===== src/Scheduler/Shell/Ending.antt =====
-- The loop of the shell of shell.c comes to an end, since each round takes a byte of the input.
use c_development_on_linux.Base.Streams.{fgets_all, fgets}
use c_development_on_linux.Base.{
  ℕ, suc, zero, ◌+◌, ◌^◌, ◌<◌, ◌≤◌, ◌||◌, Bool, true, false, List, [], ◌∷◌, arith, length, ltb,
  ◌==◌, if◌then◌else◌, Bool-cases, inl, inr,
}
use c_development_on_linux.Base.Texts.{until_zero}
use c_development_on_linux.Base.Decimal.{atoi}
use c_development_on_linux.Scheduler.Runs.{Run, running, exited, crashed, hangs, ◌>>=◌, Request}
use c_development_on_linux.Scheduler.Shell.{
  Shell, Answer, returned, read_fails, write_fails, stripped, got, get_cmdline, shell_cmdline_sz,
  shell_loop, shell_main, start, process_cmdline, Action, shows_help, quits, issues, is_bad, parse,
  perform, issue_request, on_answer,
}

-- A step that does not hang, and after which fewer than `n` bytes of the input are left
data Shorter (n : ℕ) : Run Shell → Type 0 where
  goes : (s : Shell) → length s.input < n → Shorter n (running s)
  leaves : (status : ℕ) (s : Shell) → Shorter n (exited status s)
  breaks : Shorter n crashed

-- The run has come to its end.
abbrev pub Ends : Run Shell → Type 0
Ends (running s) = ⊥
Ends (exited status s) = Unit
Ends crashed = Unit
Ends hangs = ⊥

if-Shorter :
    {n : ℕ} {x y : Run Shell} (b : Bool)
    → Shorter n x
    → Shorter n y
    → Shorter n (if b then x else y)
if-Shorter true p q = p
if-Shorter false p q = q

stripped-Shorter :
    (n : ℕ) (text rest : List ℕ) (s : Shell) → length rest < n → Shorter n (stripped text rest s)
unfolding stripped
stripped-Shorter n [] rest s h = breaks
stripped-Shorter n (c ∷ cs) rest s h = goes _ h

got-Shorter :
    (n : ℕ) (line rest : List ℕ) (s : Shell)
    → length line + length rest ≤ n
    → Shorter n (got line rest s)
unfolding got
got-Shorter n [] rest s h = leaves _ _
got-Shorter n (b ∷ bs) rest s h = stripped-Shorter n (until_zero (b ∷ bs)) rest s (omega (arith, h))

on_answer-Shorter :
    (n : ℕ) (answer : Answer) (rq : Request) (s : Shell)
    → length s.input < n
    → Shorter n (on_answer answer rq s)
unfolding on_answer
on_answer-Shorter n write_fails rq s h = leaves _ _
on_answer-Shorter n read_fails rq s h = leaves _ _
on_answer-Shorter n (returned ret) rq s h = if-Shorter (ltb ret (2 ^ 31)) (goes _ h) (goes _ h)

perform-Shorter :
    (n : ℕ) (answer : List Request → Answer) (action : Action) (s : Shell)
    → length s.input < n
    → Shorter n (perform answer action s)
unfolding perform issue_request
perform-Shorter n answer shows_help s h = goes _ h
perform-Shorter n answer quits s h = leaves _ _
perform-Shorter n answer (issues rq) s h = on_answer-Shorter n _ rq s h
perform-Shorter n answer is_bad s h = goes _ h

then-Shorter :
    {n : ℕ} {r : Run Shell} (f : Shell → Run Shell)
    → Shorter n r
    → ((s : Shell) → length s.input < n → Shorter n (f s))
    → Shorter n (r >>= f)
then-Shorter f (goes s h) k = k s h
then-Shorter f (leaves status s) k = leaves status s
then-Shorter f breaks k = breaks

Ends-then :
    {n : ℕ} {r : Run Shell} (f : Shell → Run Shell)
    → Shorter n r
    → ((s : Shell) → length s.input < n → Ends (f s))
    → Ends (r >>= f)
Ends-then f (goes s h) k = k s h
Ends-then f (leaves status s) k = tt
Ends-then f breaks k = tt

shell_loop-Ends :
    (answer : List Request → Answer) (fuel : ℕ) (s : Shell)
    → length s.input < fuel
    → Ends (shell_loop answer fuel s)
unfolding shell_loop get_cmdline process_cmdline
shell_loop-Ends answer zero s h = absurd (omega (arith, h))
shell_loop-Ends answer (suc fuel) s h =
    let taken : Shorter fuel (get_cmdline shell_cmdline_sz s) =
      got-Shorter fuel (fgets 99 s.input).0 (fgets 99 s.input).1 s
        (omega (arith, h, fgets_all 99 s.input)) in
    Ends-then (shell_loop answer fuel)
      (then-Shorter (process_cmdline answer) taken
        (λ t. perform-Shorter fuel answer (parse t.cmdline) t))
      (shell_loop-Ends answer fuel)

-- The shell ends, whatever its arguments, the bytes of its input and the answers are.
pub shell_main-Ends :
    (answer : List Request → Answer) (args : List (List ℕ)) (bs : List ℕ)
    → Ends (shell_main answer args bs)
unfolding shell_main
shell_main-Ends answer [] bs = tt
shell_main-Ends answer (name ∷ []) bs = tt
shell_main-Ends answer (name ∷ wfd ∷ []) bs = tt
shell_main-Ends answer (name ∷ wfd ∷ rfd ∷ []) bs =
    elim (Bool-cases ((atoi wfd == 0) || (atoi rfd == 0))) [
      | inl zero_number ↦ rw zero_number tt
      | inr fine ↦ rw fine (shell_loop-Ends answer (suc (length bs)) (start bs) (omega arith))
    ]
shell_main-Ends answer (name ∷ wfd ∷ rfd ∷ more ∷ args) bs = tt
