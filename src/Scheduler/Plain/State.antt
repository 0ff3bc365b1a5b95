-- ===== src/Scheduler/Plain/State.antt =====
-- The tasks and globals of scheduler-shell.c.
use c_development_on_linux.Base.{ℕ, List, ◌∷◌, if◌then◌else◌}
use c_development_on_linux.Scheduler.Ring.{Heap}
use c_development_on_linux.Scheduler.Runs.{Effect, Run, crashed}

-- `struct proc_control_bl`
pub record Task : Type 0 where
  pub id : ℕ
  pub pid : ℕ
  pub onoma : List ℕ

pub record Sched : Type 0 where
  pub heap : Heap Task
  pub curr : ℕ
  pub nproc : ℕ
  pub dead_children : ℕ
  pub out : List (Effect Task)

-- access to a node
abbrev pub access : Sched → ℕ → Run Sched → Run Sched
access s p r = if s.heap.live p then r else crashed

abbrev pub emit : Effect Task → Sched → Sched
emit e s = record s { out = e ∷ s.out }
