-- ===== src/Scheduler/Prio/Requests.antt =====
-- The requests of the shell to scheduler-prio.c.
use c_development_on_linux.Base.{
  ℕ, zero, suc, ◌+◌, ◌^◌, ◌<◌, List, [], ◌∷◌, Option, ◌≡◌, refl, sym, arith, length, inl, inr,
  Option-cases, ==_of_ne, ==_iff,
}
use c_development_on_linux.Scheduler.Prio.State.{Task}
use c_development_on_linux.Scheduler.Runs.{
  Effect, printed, running, Request, print_tasks, kill_task, exec_task, high_task, low_task,
  unknown,
}
use c_development_on_linux.Scheduler.Ring.{Heap}
use c_development_on_linux.Scheduler.Ring.Links.{Links, NotIn}
use c_development_on_linux.Scheduler.Ring.Walk.{first}
use c_development_on_linux.Scheduler.Prio.State.{Sched, emit}
use c_development_on_linux.Scheduler.Prio.Handlers.{
  print_from, sched_print_tasks, sched_kill_task_by_id, process_request, has_id,
}
use c_development_on_linux.Scheduler.Prio.Invariant.{IsReady, IsReady-out}
use c_development_on_linux.Scheduler.Prio.Creation.{sched_create_task-IsReady}
use c_development_on_linux.Scheduler.Prio.Priorities.{
  find, sched_high_task-Prioritised, sched_low_task-Prioritised, killed,
}

-- The request to kill a task sends SIGKILL to the first task of the ring with this number, and does
-- nothing else: the task leaves the ring only when its death is reported.
pub sched_kill_task_lem :
    (id : ℕ) (s : Sched) (xs : List ℕ)
    → IsReady s xs
    → sched_kill_task_by_id id s
      ≡ running (record s { out = killed s.heap (first (has_id s id) (s.curr ∷ xs)) s.out })
unfolding sched_kill_task_by_id
sched_kill_task_lem id s xs v = elim (Option-cases (first (has_id s id) (s.curr ∷ xs))) [
  | inl f ↦ rw (find s xs id v, f)
  | inr (t, f) ↦ rw (find s xs id v, f)
]

-- these tasks, printed in their order, on top of what was sent before
abbrev pub listed : Heap Task → List ℕ → List (Effect Task) → List (Effect Task)
listed h [] out = out
listed h (p ∷ ps) out = listed h ps (printed (h.dierg p) ∷ out)

print_from-Links :
    (n p : ℕ) (ps : List ℕ) (s : Sched)
    → Links s.heap p ps s.curr
    → NotIn s.curr ps
    → length ps < n
    → print_from n p s ≡ running (record s { out = listed s.heap (p ∷ ps) s.out })
unfolding print_from
print_from-Links zero p ps s l m k = elim k [ ]
print_from-Links (suc n) p [] s (l, e, _) m k = rw (l, (==_iff _ _).1 e)
print_from-Links (suc n) p (q ∷ ps) s (l, e, _, r) m k =
    rw (l, e, ==_of_ne q s.curr (λ x. m.0 (sym x)))
      (print_from-Links n q ps (emit (printed (s.heap.dierg p)) s) r m.1 (omega arith))

-- The request to print lists every task of the ring once, from `curr` on.
pub sched_print_tasks_lem :
    (s : Sched) (xs : List ℕ)
    → IsReady s xs
    → sched_print_tasks s ≡ running (record s { out = listed s.heap (s.curr ∷ xs) s.out })
unfolding sched_print_tasks
sched_print_tasks_lem s xs v =
    print_from-Links (s.nproc + 1) s.curr xs s v.ring.links v.ring.distinct.0
      (omega (arith, v.census))

-- What a request needs: for a new task, a node that is not in the ring and a number to give.
abbrev pub HasRoom : ℕ → Sched → List ℕ → Type 0
HasRoom n s xs = NotIn n (s.curr ∷ xs) × (s.nproc + 1 < 2 ^ 31)

-- Every request, known or not, comes back to the shell: no walk of the ring touches a freed node or
-- runs for ever, and the ring and the counters are consistent afterwards.
pub process_request-IsReady :
    (child : Option ℕ) (n : ℕ) (rq : Request) (s : Sched) (xs : List ℕ)
    → IsReady s xs
    → HasRoom n s xs
    → (s' : Sched) × (ys : List ℕ) × ((process_request child n rq s).0 ≡ running s') × IsReady s' ys
unfolding process_request
process_request-IsReady child n print_tasks s xs v m =
    (_, xs, sched_print_tasks_lem s xs v, IsReady-out s _ xs v)
process_request-IsReady child n (kill_task id) s xs v m =
    (_, xs, sched_kill_task_lem id s xs v, IsReady-out s _ xs v)
process_request-IsReady child n (exec_task executable) s xs v (m, small) =
    let (s', runs, ready, _, _, _) = sched_create_task-IsReady child n executable s xs v m small in
    (s', n ∷ xs, runs, ready)
process_request-IsReady child n (high_task id) s xs v m =
    let r = sched_high_task-Prioritised id s xs v in (r.after, xs, r.runs, r.ready)
process_request-IsReady child n (low_task id) s xs v m =
    let r = sched_low_task-Prioritised id s xs v in (r.after, xs, r.runs, r.ready)
process_request-IsReady child n (unknown number) s xs v m = (s, xs, refl, v)
