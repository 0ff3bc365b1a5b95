-- ===== src/Scheduler/Prio/Session.antt =====
-- The loop of scheduler-prio.c over the requests of the shell, with the signals in between. Each
-- event is handled whole, since the signals are blocked while a request or a handler runs.
use c_development_on_linux.Base.{List, [], ◌∷◌}
use c_development_on_linux.Scheduler.Runs.{
  Run, running, ◌>>=◌, Event, request, alarm_rings, child_signal, waited, alarm, quantum, replied,
}
use c_development_on_linux.Scheduler.Prio.State.{Sched, emit}
use c_development_on_linux.Scheduler.Prio.Handlers.{process_request, sigalrm_handler, reap}

-- one round of `shell_request_loop`, or of a signal's handler
unfoldable pub handle : Event → Sched → Run Sched
handle (request child n rq) s =
    let (done, reply) = process_request child n rq s in
    done >>= λ t. running (emit (replied reply) t)
handle alarm_rings s = sigalrm_handler s
handle child_signal s = running (emit (alarm quantum) s)
handle (waited pid status) s = reap pid status s

unfoldable pub run_events : List Event → Sched → Run Sched
run_events [] s = running s
run_events (e ∷ es) s = handle e s >>= run_events es
