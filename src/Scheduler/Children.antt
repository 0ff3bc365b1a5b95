-- ===== src/Scheduler/Children.antt =====
-- The processes that both schedulers start with, and proc-common.c, which waits for them.
use c_development_on_linux.Base.{ℕ, zero, suc, List, [], ◌∷◌, Option, none, some}
use c_development_on_linux.Scheduler.Runs.{
  Run, running, exited, hangs, Status, was_stopped, has_exited, was_signaled, other_status,
}

-- A program of the command line, what `fork` returns for it, and the node that `malloc` returns.
pub record Program : Type 0 where
  pub name : List ℕ
  pub child : Option ℕ
  pub node : ℕ

-- the loop that forks the programs
unfoldable pub fork_all : {S : Type 0} → List Program → S → Run S
fork_all [] s = running s
fork_all (p ∷ ps) s = elim p.child [ none ↦ exited 1 s | some pid ↦ fork_all ps s ]

-- `wait_for_ready_children` for a number of children: what each `waitpid` tells. A call for which there
-- is nothing to tell does not return.
unfoldable pub wait_for_ready_children : {S : Type 0} → ℕ → List Status → S → Run S
wait_for_ready_children zero statuses s = running s
wait_for_ready_children (suc cnt) [] s = hangs
wait_for_ready_children (suc cnt) (was_stopped ∷ more) s = wait_for_ready_children cnt more s
wait_for_ready_children (suc cnt) (has_exited ∷ more) s = exited 1 s
wait_for_ready_children (suc cnt) (was_signaled ∷ more) s = exited 1 s
wait_for_ready_children (suc cnt) (other_status ∷ more) s = exited 1 s

abbrev pub pid_or_zero : Option ℕ → ℕ
pid_or_zero none = 0
pid_or_zero (some pid) = pid
