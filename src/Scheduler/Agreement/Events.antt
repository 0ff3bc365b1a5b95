-- ===== src/Scheduler/Agreement/Events.antt =====
-- The handlers of both schedulers, compared.
use c_development_on_linux.Base.{ℕ, List, [], ◌∷◌, Option, ◌+◌, ◌≡◌, refl, ==_iff, All}
use c_development_on_linux.Scheduler.Ring.{
  Search, found, absent, dangling, no_fuel, unlink, free, update,
}
use c_development_on_linux.Scheduler.Runs.{
  crashed, hangs, Event, request, alarm_rings, child_signal, waited, Request, print_tasks,
  kill_task, exec_task, high_task, low_task, unknown, has_exited, was_signaled, was_stopped,
  other_status,
}
use c_development_on_linux.Scheduler.Prio
use c_development_on_linux.Scheduler.Plain
use c_development_on_linux.Scheduler.Agreement.{
  forget, forget_run, IsLow, Agrees, Agrees-bind, Agrees-if, Agrees-crashed, Agrees-hangs,
  Agrees-exited, Agrees-running,
}
use c_development_on_linux.Scheduler.Agreement.Steps.{
  search-forget, IsLow-heap, resume-Agrees, count_dead-Agrees, print_from-Agrees, kill-Agrees,
  create-Agrees,
}

bury-Agrees :
    (next t : ℕ) (s : Prio.State.Sched)
    → IsLow s
    → Agrees (Prio.Handlers.bury next t s) (Plain.Handlers.bury t (forget s))
unfolding Prio.Handlers.bury Plain.Handlers.bury unlink
bury-Agrees next t s v =
    let u : Prio.State.Sched = record s { heap = free t (unlink t s.heap) } in
    rw (v.all_low t, (==_iff s.hashigh 0).1 v.none_counted)
      (Agrees-if (s.heap.live (s.heap.prev t))
        (Agrees-if (s.heap.live (update s.heap.next (s.heap.prev t) (s.heap.next t) t))
          (Agrees-bind _ _ _ _ (resume-Agrees (u.heap.next s.curr) u (IsLow-heap s u v refl refl))
            count_dead-Agrees)
          Agrees-crashed)
        Agrees-crashed)

-- what follows the search for the child's node
found-Agrees :
    (r r' : Search) (next : ℕ) (s : Prio.State.Sched)
    → r' ≡ r
    → IsLow s
    → Agrees
        (elim r [
          | found t ↦ Prio.Handlers.bury next t s
          | absent ↦ Prio.Handlers.bury next s.curr s
          | dangling ↦ crashed
          | no_fuel ↦ hangs
        ])
        (elim r' [
          | found t ↦ Plain.Handlers.bury t (forget s)
          | absent ↦ Plain.Handlers.bury s.curr (forget s)
          | dangling ↦ crashed
          | no_fuel ↦ hangs
        ])
found-Agrees (found t) r' next s e v = rw e (bury-Agrees next t s v)
found-Agrees absent r' next s e v = rw e (bury-Agrees next s.curr s v)
found-Agrees dangling r' next s e v = rw e Agrees-crashed
found-Agrees no_fuel r' next s e v = rw e Agrees-hangs

child_died-Agrees :
    (pid : ℕ) (s : Prio.State.Sched)
    → IsLow s
    → Agrees (Prio.Handlers.child_died pid s) (Plain.Handlers.child_died pid (forget s))
unfolding Prio.Handlers.child_died Plain.Handlers.child_died
child_died-Agrees pid s v =
    let walk = search-forget (s.nproc + 1) (Prio.Handlers.has_pid s pid) s.heap s.curr s.curr in
    Agrees-if (s.heap.live s.curr) (found-Agrees _ _ (s.heap.next s.curr) s walk v) Agrees-crashed

child_stopped-Agrees :
    (s : Prio.State.Sched)
    → IsLow s
    → Agrees (Prio.Handlers.child_stopped s) (Plain.Handlers.child_stopped (forget s))
unfolding Prio.Handlers.child_stopped Plain.Handlers.child_stopped
child_stopped-Agrees s v =
    Agrees-if (s.heap.live s.curr)
      (rw ((==_iff s.hashigh 0).1 v.none_counted) (resume-Agrees (s.heap.next s.curr) s v))
      Agrees-crashed

-- No request raises a priority.
abbrev pub IsPlain : Event → Type 0
IsPlain (request child n (high_task id)) = ⊥
IsPlain (request child n (low_task id)) = ⊥
IsPlain e = Unit

request-Agrees :
    (child : Option ℕ) (n : ℕ) (rq : Request) (s : Prio.State.Sched)
    → IsPlain (request child n rq)
    → IsLow s
    → Agrees
        ((Prio.Handlers.process_request child n rq s).0)
        ((Plain.Handlers.process_request child n rq (forget s)).0)
      × ((Prio.Handlers.process_request child n rq s).1
          ≡ (Plain.Handlers.process_request child n rq (forget s)).1)
unfolding Prio.Handlers.process_request Plain.Handlers.process_request
    Prio.Handlers.sched_print_tasks Plain.Handlers.sched_print_tasks
request-Agrees child n print_tasks s p v = (print_from-Agrees (s.nproc + 1) s.curr s v, refl)
request-Agrees child n (kill_task id) s p v = (kill-Agrees id s v, refl)
request-Agrees child n (exec_task name) s p v = (create-Agrees child n name s v, refl)
request-Agrees child n (high_task id) s p v = absurd p
request-Agrees child n (low_task id) s p v = absurd p
request-Agrees child n (unknown number) s p v = (Agrees-running s v, refl)

handle-Agrees :
    (e : Event) (s : Prio.State.Sched)
    → IsPlain e
    → IsLow s
    → Agrees (Prio.Session.handle e s) (Plain.Handlers.handle e (forget s))
unfolding Prio.Session.handle Plain.Handlers.handle Prio.Handlers.reap Plain.Handlers.reap
    Prio.Handlers.sigalrm_handler Plain.Handlers.sigalrm_handler
handle-Agrees (request child n rq) s p v =
    let (a, reply) = request-Agrees child n rq s p v in
    rw reply (Agrees-bind _ _ _ _ a (λ t w. Agrees-running _ (IsLow-heap t _ w refl refl)))
handle-Agrees alarm_rings s p v =
    Agrees-if (s.heap.live s.curr) (Agrees-running _ (IsLow-heap s _ v refl refl)) Agrees-crashed
handle-Agrees child_signal s p v = Agrees-running _ (IsLow-heap s _ v refl refl)
handle-Agrees (waited pid has_exited) s p v = child_died-Agrees pid s v
handle-Agrees (waited pid was_signaled) s p v = child_died-Agrees pid s v
handle-Agrees (waited pid was_stopped) s p v = child_stopped-Agrees s v
handle-Agrees (waited pid other_status) s p v = Agrees-exited 1 s

pub run_events-Agrees :
    (es : List Event) (s : Prio.State.Sched)
    → All IsPlain es
    → IsLow s
    → Agrees (Prio.Session.run_events es s) (Plain.Handlers.run_events es (forget s))
unfolding Prio.Session.run_events Plain.Handlers.run_events
run_events-Agrees [] s a v = Agrees-running s v
run_events-Agrees (e ∷ es) s a v =
    Agrees-bind _ _ _ _ (handle-Agrees e s a.0 v) (λ t w. run_events-Agrees es t a.1 w)

-- From a state without high priorities, the two schedulers do the same at any requests but those that
-- set priorities, and at any signals: the same signals and lists in the same order, the same replies,
-- the same end, be it an exit or a crash, and the same ring but for the priorities.
pub run_events-forget :
    (es : List Event) (s : Prio.State.Sched)
    → All IsPlain es
    → IsLow s
    → forget_run (Prio.Session.run_events es s) ≡ Plain.Handlers.run_events es (forget s)
run_events-forget es s a v = (run_events-Agrees es s a v).same
