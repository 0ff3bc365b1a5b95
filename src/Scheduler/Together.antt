-- ===== src/Scheduler/Together.antt =====
-- shell.c and scheduler-prio.c joined by their two pipes: the answers that the shell gets are what
-- the scheduler returned for the requests that it was sent.
mod Tests
use c_development_on_linux.Base.{ℕ, ◌-◌, ◌^◌, List, [], ◌∷◌, ◌++◌, Option, ◌≡◌, refl, ap, ◌∙◌}
use c_development_on_linux.Scheduler.Runs.{
  Run, running, ◌>>=◌, Effect, replied, zero_reply, enosys, Reply, Event, request, Request,
}
use c_development_on_linux.Scheduler.Prio.State.{Task, Sched}
use c_development_on_linux.Scheduler.Prio.Session.{handle, run_events}
use c_development_on_linux.Scheduler.Prio.Invariant.{IsReady}
use c_development_on_linux.Scheduler.Prio.Reach.{Fine, Returns, handle-Returns, running_inj}
use c_development_on_linux.Scheduler.Shell.{Shell, Answer, read_fails, returned}

-- What happens between two requests, and what the system gives for a task if the request makes one
pub record Turn : Type 0 where
  pub others : List Event
  pub child : Option ℕ
  pub node : ℕ

abbrev pub turn_events : Turn → Request → List Event
turn_events t rq = t.others ++ request t.child t.node rq ∷ []

-- The events of the scheduler, as long as there is a turn for each request.
abbrev pub events_of : List Turn → List Request → List Event
events_of ts [] = []
events_of [] (rq ∷ rqs) = []
events_of (t ∷ ts) (rq ∷ rqs) = turn_events t rq ++ events_of ts rqs

-- The `int` that the scheduler wrote last, with `number` for ENOSYS. A scheduler that has ended has
-- closed its pipes.
abbrev pub reply_of : ℕ → List (Effect Task) → Answer
reply_of number (replied zero_reply ∷ out) = returned 0
reply_of number (replied enosys ∷ out) = returned (2 ^ 32 - number)
reply_of number out = read_fails

abbrev pub answer_of : ℕ → Run Sched → Answer
answer_of number (running s) = reply_of number s.out
answer_of number r = read_fails

abbrev pub scheduler_answer : ℕ → List Turn → Sched → List Request → Answer
scheduler_answer number ts s rqs = answer_of number (run_events (events_of ts rqs) s)

-- What the system does is bearable at each event.
abbrev pub AllFine : List Event → Sched → Type 0
AllFine [] s = Unit
AllFine (e ∷ es) s = Fine e s × ((s' : Sched) → handle e s ≡ running s' → AllFine es s')

-- Bearable events are all handled, and what follows is bearable where they lead.
pub run_events-Returns :
    (es fs : List Event) (s : Sched) (xs : List ℕ)
    → IsReady s xs
    → AllFine (es ++ fs) s
    → (s' : Sched) × (ys : List ℕ) × (run_events es s ≡ running s') × IsReady s' ys × AllFine fs s'
unfolding run_events
run_events-Returns [] fs s xs v f = (s, xs, refl, v, f)
run_events-Returns (e ∷ es) fs s xs v f =
    let (t, ys, runs, ready) = handle-Returns e s xs v f.0 in
    let (s', zs, more, ready', rest) = run_events-Returns es fs t ys ready (f.1 t runs) in
    (s', zs, ap (λ r. r >>= run_events es) runs ∙ more, ready', rest)
