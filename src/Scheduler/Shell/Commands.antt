-- ===== src/Scheduler/Shell/Commands.antt =====
-- The command lines of shell.c, and the requests that they become.
use c_development_on_linux.Base.{ℕ, ◌^◌, ◌<◌, List, [], ◌∷◌, ◌≡◌, refl, arith, length, take_all}
use c_development_on_linux.Base.Texts.{digits, same_text}
use c_development_on_linux.Base.Decimal.{atoi-digits}
use c_development_on_linux.Scheduler.Runs.{
  Request, print_tasks, kill_task, exec_task, high_task, low_task, unknown,
}
use c_development_on_linux.Scheduler.Shell.{parse, issues}

-- A request that a command line can ask for: its number is an `int` that is not negative, the name of
-- its program fits in the structure.
abbrev pub IsSendable : Request → Type 0
IsSendable print_tasks = Unit
IsSendable (kill_task n) = n < 2 ^ 31
IsSendable (exec_task name) = length name < 60
IsSendable (high_task n) = n < 2 ^ 31
IsSendable (low_task n) = n < 2 ^ 31
IsSendable (unknown n) = ⊥

-- the command line that asks for a request
abbrev pub command : Request → List ℕ
command print_tasks = 112 ∷ []
command (kill_task n) = 107 ∷ 32 ∷ digits 10 n
command (exec_task name) = 101 ∷ 32 ∷ name
command (high_task n) = 104 ∷ 32 ∷ digits 10 n
command (low_task n) = 108 ∷ 32 ∷ digits 10 n
command (unknown n) = []

-- A request with a number below 2^31, or with a program name of fewer than 60 bytes, comes out of its
-- command line as it was.
pub parse-command : (rq : Request) → IsSendable rq → parse (command rq) ≡ issues rq
unfolding parse same_text
parse-command print_tasks h = refl
parse-command (kill_task n) h = rw (atoi-digits 10 n (omega (arith, h)) h) refl
parse-command (exec_task name) h = rw (take_all 59 name (omega (arith, h))) refl
parse-command (high_task n) h = rw (atoi-digits 10 n (omega (arith, h)) h) refl
parse-command (low_task n) h = rw (atoi-digits 10 n (omega (arith, h)) h) refl
parse-command (unknown n) h = absurd h
