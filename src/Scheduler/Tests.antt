-- ===== src/Scheduler/Tests.antt =====
-- Runs of the scheduler on a ring of three tasks, and the theorems at it.
use c_development_on_linux.Base.{
  ℕ, ◌+◌, ◌-◌, false, List, [], ◌∷◌, ◌==◌, ◌&&◌, leb, if◌then◌else◌, none, some, map, true, ◌≡◌,
  refl, arith,
}
use c_development_on_linux.Scheduler.Prio
use c_development_on_linux.Scheduler.Plain
use c_development_on_linux.Scheduler.Agreement.{IsLow, forget, forget_run}
use c_development_on_linux.Scheduler.Agreement.Begin.{main-forget}
use c_development_on_linux.Scheduler.Prio.Reach.{Reach, Fine, Returns, Reach-safe}
use c_development_on_linux.Scheduler.Runs.{◌>>=◌}
use c_development_on_linux.Scheduler.Runs.{
  Event, request, alarm_rings, child_signal, waited, print_tasks, sigstop,
}
use c_development_on_linux.Scheduler.Prio.State.{Task, high, low}
use c_development_on_linux.Scheduler.Runs.{kill, sigcont, running, crashed, was_stopped}
use c_development_on_linux.Scheduler.Ring.{Heap}
use c_development_on_linux.Scheduler.Ring.Links.{IsRing}
use c_development_on_linux.Scheduler.Ring.Walk.{first}
use c_development_on_linux.Scheduler.Prio.Start.{first_task, main_start}
use c_development_on_linux.Scheduler.Children.{Program}
use c_development_on_linux.Scheduler.Prio.Started.{numbered, main_start-IsReady}
use c_development_on_linux.Scheduler.Prio.State.{Sched}
use c_development_on_linux.Scheduler.Prio.Handlers.{
  child_died, sched_create_task, sched_high_task, new_task, sigalrm_handler,
}
use c_development_on_linux.Scheduler.Prio.Invariant.{IsReady, highs}
use c_development_on_linux.Scheduler.Prio.Turns.{
  stops, HighTurn, round_robin, child_stopped-HighTurn,
}
use c_development_on_linux.Scheduler.Prio.Deaths.{Buried, child_died-Buried}
use c_development_on_linux.Scheduler.Prio.Crashes.{last_death_crashes, child_died_dangling}
use c_development_on_linux.Scheduler.Prio.Creation.{sched_create_task-IsReady}
use c_development_on_linux.Scheduler.Prio.Priorities.{Prioritised, sched_high_task-Prioritised}

-- the shell at address 10, and two tasks at 11 and 12; those from `from` on have high priority
abbrev task_at : ℕ → ℕ → Task
task_at from p = record {
  id = p - 10;
  pid = p + 90;
  onoma = [];
  prio = if leb from p then high else low;
}

abbrev three : ℕ → Heap Task
three from = record {
  live = λ p. leb 10 p && leb p 12;
  dierg = task_at from;
  next = λ p. if p == 12 then 10 else p + 1;
  prev = λ p. if p == 10 then 12 else p - 1;
}

abbrev with_highs : ℕ → ℕ → Sched
with_highs from n = record {
  heap = three from;
  curr = 10;
  nproc = 2;
  hashigh = n;
  dead_children = 0;
  out = [];
}

abbrev pub all_low : Sched
all_low = with_highs 99 0

abbrev two_high : Sched
two_high = with_highs 11 2

three-IsRing : (from : ℕ) → IsRing (three from) 10 (11 ∷ 12 ∷ [])
three-IsRing from = record {
  links = (refl, refl, refl, (refl, refl, refl, (refl, refl, refl)));
  distinct = omega arith;
}

pub all_low-IsReady : IsReady all_low (11 ∷ 12 ∷ [])
unfolding highs
all_low-IsReady = record {
  ring = three-IsRing 99;
  counted = refl;
  census = refl;
  small = omega arith;
}

two_high-IsReady : IsReady two_high (11 ∷ 12 ∷ [])
unfolding highs
two_high-IsReady = record {
  ring = three-IsRing 11;
  counted = refl;
  census = refl;
  small = omega arith;
}

abbrev one : Sched
one = record {
  heap = record { live = λ p. p == 10; dierg = task_at 99; next = λ _. 10; prev = λ _. 10 };
  curr = 10;
  nproc = 2;
  hashigh = 0;
  dead_children = 2;
  out = [];
}

one-IsReady : IsReady one []
unfolding highs
one-IsReady = record {
  ring = record { links = (refl, refl, refl); distinct = (tt, tt) };
  counted = refl;
  census = refl;
  small = omega arith;
}

round_robin_example :
    stops 3 all_low
    ≡ running (record all_low { out = kill 100 sigcont ∷ kill 102 sigcont ∷ kill 101 sigcont ∷ [] })
round_robin_example = round_robin all_low (11 ∷ 12 ∷ []) all_low-IsReady refl

child_stopped-HighTurn_example : HighTurn two_high (11 ∷ 12 ∷ [])
child_stopped-HighTurn_example =
    child_stopped-HighTurn two_high (11 ∷ 12 ∷ []) two_high-IsReady (omega arith)

child_died-Buried_example : Buried all_low (11 ∷ 12 ∷ []) 12 (child_died 102 all_low)
unfolding first
child_died-Buried_example =
    child_died-Buried 102 all_low (11 ∷ 12 ∷ []) 12 all_low-IsReady (omega arith) refl refl

last_death_crashes_example : child_died 100 one ≡ crashed
last_death_crashes_example = last_death_crashes 100 one one-IsReady

child_died_dangling_example :
    (s' : Sched) × (child_died 101 two_high ≡ running s')
    × (s'.curr ≡ 11)
    × (s'.heap.live 11 ≡ false)
    × (s'.out ≡ kill 101 sigcont ∷ [])
    × (sigalrm_handler s' ≡ crashed)
child_died_dangling_example =
    child_died_dangling 101 two_high 11 (12 ∷ []) two_high-IsReady refl refl refl (omega arith)

sched_create_task-IsReady_example :
    (s' : Sched) × (sched_create_task none 13 [] all_low ≡ running s')
    × IsReady s' (13 ∷ 11 ∷ 12 ∷ [])
    × (s'.curr ≡ 10)
    × (s'.heap.dierg 13 ≡ new_task all_low [] none)
    × (s'.nproc ≡ 3)
sched_create_task-IsReady_example =
    sched_create_task-IsReady none 13 [] all_low (11 ∷ 12 ∷ []) all_low-IsReady (omega arith)
      (omega arith)

sched_high_task-Prioritised_example :
    Prioritised high 2 all_low (11 ∷ 12 ∷ []) (sched_high_task 2 all_low)
sched_high_task-Prioritised_example =
    sched_high_task-Prioritised 2 all_low (11 ∷ 12 ∷ []) all_low-IsReady

-- `scheduler-prio prog prog`, with nodes at 10, 11 and 12
abbrev two_programs : List Program
two_programs =
    record { name = 112 ∷ []; child = some 201; node = 11 }
    ∷ record { name = 113 ∷ []; child = some 202; node = 12 }
    ∷ []

abbrev nothing_yet : Sched
nothing_yet = record {
  heap = record { live = λ p. false; dierg = task_at 99; next = λ p. 0; prev = λ p. 0 };
  curr = 0;
  nproc = 0;
  hashigh = 0;
  dead_children = 0;
  out = [];
}

main_start-IsReady_example :
    (t : Sched) × (main_start
        (115 ∷ [])
        true
        (some 200)
        10
        two_programs
        (was_stopped ∷ was_stopped ∷ was_stopped ∷ [])
        nothing_yet
      ≡ running t)
    × IsReady t (11 ∷ 12 ∷ [])
    × (t.curr ≡ 10)
    × (map (t.heap.dierg) (10 ∷ 11 ∷ 12 ∷ []) ≡ first_task (115 ∷ []) 200 ∷ numbered 0 two_programs)
    × (t.out ≡ kill 200 sigcont ∷ [])
main_start-IsReady_example =
    main_start-IsReady (115 ∷ []) 200 10 two_programs (was_stopped ∷ was_stopped ∷ was_stopped ∷ [])
      nothing_yet refl refl ((omega arith, (omega arith, tt)), ((omega arith, tt), (tt, tt)))
      (omega arith) (omega arith) ((201, refl), ((202, refl), tt)) (omega arith)
      (refl, (refl, (refl, tt)))

-- the shell lists the tasks, the quantum ends, and the stopped shell gives way
abbrev listing : List Event
listing = request none 13 print_tasks ∷ alarm_rings ∷ child_signal ∷ waited 100 was_stopped ∷ []

abbrev no_high : Sched
no_high = record all_low {
  heap = record (three 99) { dierg = λ p. record (task_at 99 p) { prio = low } };
}

no_high-IsLow : IsLow no_high
no_high-IsLow = record { none_counted = refl; all_low = λ p. refl }

-- the alarm has rung
rung : Reach all_low (record all_low { out = kill 100 sigstop ∷ [] })
unfolding Prio.Session.handle sigalrm_handler
rung = Reach.next alarm_rings Reach.here tt refl

Reach-safe_example :
    ((ys : List ℕ) × IsReady (record all_low { out = kill 100 sigstop ∷ [] }) ys)
    × ((e : Event)
        → Fine e (record all_low { out = kill 100 sigstop ∷ [] })
        → Returns (Prio.Session.handle e (record all_low { out = kill 100 sigstop ∷ [] })))
Reach-safe_example = Reach-safe (11 ∷ 12 ∷ []) all_low-IsReady rung

nothing_yet-IsLow : IsLow (record nothing_yet { heap = no_high.heap })
nothing_yet-IsLow = record { none_counted = refl; all_low = λ p. refl }

main-forget_example :
    forget_run (
      Prio.Start.main_start [] true
        (some 200)
        10
        two_programs
        (was_stopped ∷ was_stopped ∷ was_stopped ∷ [])
        (record nothing_yet { heap = no_high.heap })
      >>= Prio.Session.run_events listing)
    ≡ (Plain.Start.main_start [] true
          (some 200)
          10
          two_programs
          (was_stopped ∷ was_stopped ∷ was_stopped ∷ [])
          (forget (record nothing_yet { heap = no_high.heap }))
        >>= Plain.Handlers.run_events listing)
main-forget_example =
    main-forget [] true (some 200) 10 two_programs (was_stopped ∷ was_stopped ∷ was_stopped ∷ [])
      listing (record nothing_yet { heap = no_high.heap }) nothing_yet-IsLow
      (tt, (tt, (tt, (tt, tt))))
