-- ===== src/Scheduler/Agreement.antt =====
-- scheduler-prio.c and scheduler-shell.c do the same as long as no task is given a high priority.
pub mod Steps
pub mod Events
pub mod Begin
use c_development_on_linux.Base.{
  ℕ, zero, suc, Bool, true, false, List, [], ◌∷◌, map, if◌then◌else◌, none, some, Option, ◌+◌, ◌≡◌,
  refl, sym, ap, ==_iff, ◌∙◌, arith, ◌==◌, inl, inr, Bool-cases, All, subst,
}
use c_development_on_linux.Scheduler.Ring.{
  Heap, Search, found, absent, dangling, no_fuel, search, unlink, insert_after, free, update,
}
use c_development_on_linux.Scheduler.Runs.{
  sigkill, inc, Effect, kill, alarm, printed, replied, Run, running, exited, crashed, hangs, ◌>>=◌,
  Event, request, alarm_rings, child_signal, waited, Request, print_tasks, kill_task, exec_task,
  high_task, low_task, unknown, has_exited, was_signaled, was_stopped, other_status,
}
use c_development_on_linux.Scheduler.Prio
use c_development_on_linux.Scheduler.Plain

-- A state of scheduler-prio.c as scheduler-shell.c keeps it: without the priorities.
abbrev pub forget_task : Prio.State.Task → Plain.State.Task
forget_task t = record { id = t.id; pid = t.pid; onoma = t.onoma }

abbrev pub forget_effect : Effect Prio.State.Task → Effect Plain.State.Task
forget_effect (kill p s) = kill p s
forget_effect (alarm n) = alarm n
forget_effect (printed t) = printed (forget_task t)
forget_effect (replied r) = replied r

abbrev pub forget_heap : Heap Prio.State.Task → Heap Plain.State.Task
forget_heap h = record {
  live = h.live;
  dierg = λ p. forget_task (h.dierg p);
  next = h.next;
  prev = h.prev;
}

abbrev pub forget : Prio.State.Sched → Plain.State.Sched
forget s = record {
  heap = forget_heap s.heap;
  curr = s.curr;
  nproc = s.nproc;
  dead_children = s.dead_children;
  out = map forget_effect s.out;
}

abbrev pub forget_run : Run Prio.State.Sched → Run Plain.State.Sched
forget_run (running s) = running (forget s)
forget_run (exited n s) = exited n (forget s)
forget_run crashed = crashed
forget_run hangs = hangs

-- No task has high priority, and none is counted.
pub record IsLow (s : Prio.State.Sched) : Type 0 where
  pub none_counted : s.hashigh ≡ 0
  pub all_low : (p : ℕ) → Prio.Handlers.has_high s.heap p ≡ false

abbrev pub LeavesLow : Run Prio.State.Sched → Type 0
LeavesLow (running s) = IsLow s
LeavesLow (exited n s) = Unit
LeavesLow crashed = Unit
LeavesLow hangs = Unit

-- Both schedulers get to the same end, and no task has got a high priority.
pub record Agrees (r : Run Prio.State.Sched) (r' : Run Plain.State.Sched) : Type 0 where
  pub same : forget_run r ≡ r'
  pub low : LeavesLow r

pub Agrees-bind :
    (r : Run Prio.State.Sched) (r' : Run Plain.State.Sched)
    (f : Prio.State.Sched → Run Prio.State.Sched) (g : Plain.State.Sched → Run Plain.State.Sched)
    → Agrees r r'
    → ((s : Prio.State.Sched) → IsLow s → Agrees (f s) (g (forget s)))
    → Agrees (r >>= f) (r' >>= g)
Agrees-bind (running s) r' f g a next = subst (λ x. Agrees (f s) (x >>= g)) a.same (next s a.low)
Agrees-bind (exited n s) r' f g a next = record { same = ap (λ x. x >>= g) a.same; low = tt }
Agrees-bind crashed r' f g a next = record { same = ap (λ x. x >>= g) a.same; low = tt }
Agrees-bind hangs r' f g a next = record { same = ap (λ x. x >>= g) a.same; low = tt }

pub Agrees-if :
    (b : Bool) {x y : Run Prio.State.Sched} {x' y' : Run Plain.State.Sched}
    → Agrees x x'
    → Agrees y y'
    → Agrees (if b then x else y) (if b then x' else y')
Agrees-if true a c = a
Agrees-if false a c = c

pub Agrees-crashed : Agrees crashed crashed
Agrees-crashed = record { same = refl; low = tt }

pub Agrees-hangs : Agrees hangs hangs
Agrees-hangs = record { same = refl; low = tt }

pub Agrees-exited : (n : ℕ) (s : Prio.State.Sched) → Agrees (exited n s) (exited n (forget s))
Agrees-exited n s = record { same = refl; low = tt }

pub Agrees-running : (s : Prio.State.Sched) → IsLow s → Agrees (running s) (running (forget s))
Agrees-running s v = record { same = refl; low = v }
