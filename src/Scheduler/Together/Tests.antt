-- ===== src/Scheduler/Together/Tests.antt =====
-- A session with the shell and the scheduler together, and the theorem at it.
use c_development_on_linux.Base.{List, [], ◌∷◌, none}
use c_development_on_linux.Scheduler.Runs.{
  alarm_rings, Request, print_tasks, kill_task, replied, zero_reply, kill, sigstop,
}
use c_development_on_linux.Scheduler.Prio.State.{Sched}
use c_development_on_linux.Scheduler.Prio.Requests.{listed}
use c_development_on_linux.Scheduler.Shell.{Shell}
use c_development_on_linux.Scheduler.Together.{Turn}
use c_development_on_linux.Scheduler.Tests.{all_low}

abbrev asked : List Request
asked = print_tasks ∷ kill_task 3 ∷ []

-- an alarm rings before the second request
abbrev turns : List Turn
turns =
    record { others = []; child = none; node = 13 }
    ∷ record { others = alarm_rings ∷ []; child = none; node = 13 }
    ∷ []

-- the tasks have been listed, and the alarm has rung
abbrev listing : Sched
listing = record all_low { out = replied zero_reply ∷ listed all_low.heap (10 ∷ 11 ∷ 12 ∷ []) [] }

abbrev rung : Sched
rung = record listing { out = kill 100 sigstop ∷ listing.out }
