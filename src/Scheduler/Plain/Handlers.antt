-- ===== src/Scheduler/Plain/Handlers.antt =====
-- The functions of scheduler-shell.c that act on its state.
use c_development_on_linux.Base.{
  ℕ, zero, suc, ◌+◌, Bool, List, [], ◌∷◌, ◌==◌, if◌then◌else◌, Option,
}
use c_development_on_linux.Scheduler.Ring.{
  Search, found, absent, dangling, no_fuel, search, unlink, insert_after, free,
}
use c_development_on_linux.Scheduler.Runs.{
  pid_of, sigstop, sigcont, sigkill, kill, alarm, printed, replied, Run, running, exited, crashed,
  hangs, ◌>>=◌, inc, quantum, Request, print_tasks, kill_task, exec_task, high_task, low_task,
  unknown, Reply, zero_reply, enosys, Status, has_exited, was_signaled, was_stopped, other_status,
  Event, request, alarm_rings, child_signal, waited,
}
use c_development_on_linux.Scheduler.Plain.State.{Task, Sched, access, emit}

-- The walks are given as many rounds as tasks were ever made.
abbrev pub fuel : Sched → ℕ
fuel s = s.nproc + 1

abbrev pub has_id : Sched → ℕ → ℕ → Bool
has_id s id p = (s.heap.dierg p).id == id

abbrev pub has_pid : Sched → ℕ → ℕ → Bool
has_pid s pid p = (s.heap.dierg p).pid == pid

-- `for a node that is found do this, and nothing if there is none`
abbrev pub on_found : Search → Sched → (ℕ → Run Sched) → Run Sched
on_found (found p) s f = f p
on_found absent s f = running s
on_found dangling s f = crashed
on_found no_fuel s f = hangs

-- the loop of `sched_print_tasks`
unfoldable pub print_from : ℕ → ℕ → Sched → Run Sched
print_from zero p s = hangs
print_from (suc n) p s =
    let rest = print_from n (s.heap.next p) (emit (printed (s.heap.dierg p)) s) in
    if s.heap.live p
    then (if s.heap.next p == s.curr then running (emit (printed (s.heap.dierg p)) s) else rest)
    else crashed

unfoldable pub sched_print_tasks : Sched → Run Sched
sched_print_tasks s = print_from (fuel s) s.curr s

unfoldable pub sched_kill_task_by_id : ℕ → Sched → Run Sched
sched_kill_task_by_id id s =
    on_found (search (fuel s) (has_id s id) s.heap s.curr s.curr) s
      λ p. running (emit (kill (s.heap.dierg p).pid sigkill) s)

abbrev pub new_task : Sched → List ℕ → Option ℕ → Task
new_task s executable child = record { id = inc s.nproc; pid = pid_of child; onoma = executable }

-- `sched_create_task` in the parent, for what `fork` returned and the node that `malloc` returned
unfoldable pub sched_create_task : Option ℕ → ℕ → List ℕ → Sched → Run Sched
sched_create_task child n executable s = access s s.curr (
    access s (s.heap.next s.curr) (
      running (record s {
        heap = insert_after s.curr n (new_task s executable child) s.heap;
        nproc = inc s.nproc;
      })))

-- `process_request`; the first two arguments are for a new task.
unfoldable pub process_request : Option ℕ → ℕ → Request → Sched → Run Sched × Reply
process_request child n print_tasks s = (sched_print_tasks s, zero_reply)
process_request child n (kill_task id) s = (sched_kill_task_by_id id s, zero_reply)
process_request child n (exec_task executable) s =
    (sched_create_task child n executable s, zero_reply)
process_request child n (high_task id) s = (running s, enosys)
process_request child n (low_task id) s = (running s, enosys)
process_request child n (unknown number) s = (running s, enosys)

-- `sigalrm_handler`, installed for SIGALRM
unfoldable pub sigalrm_handler : Sched → Run Sched
sigalrm_handler s = access s s.curr (running (emit (kill (s.heap.dierg s.curr).pid sigstop) s))

-- `kill(p->pid, SIGCONT); curr = p;`
abbrev pub resume : ℕ → Sched → Run Sched
resume p s = access s p (running (record (emit (kill (s.heap.dierg p).pid sigcont) s) { curr = p }))

-- `WIFSTOPPED`
unfoldable pub child_stopped : Sched → Run Sched
child_stopped s = access s s.curr (resume (s.heap.next s.curr) s)

-- `if (++dead_children == nproc+1) exit(0)`
abbrev pub count_dead : Sched → Run Sched
count_dead s =
    let t = record s { dead_children = inc s.dead_children } in
    if t.dead_children == inc s.nproc then exited 0 t else running t

-- the rest of the `WIFEXITED || WIFSIGNALED` branch, once the node `t` of the child is found
unfoldable pub bury : ℕ → Sched → Run Sched
bury t s =
    let u = record s { heap = unlink t s.heap } in
    access s (s.heap.prev t) (
      access s (u.heap.next t) (
        let curr' = u.heap.next u.curr in
        resume curr' (record u { heap = free t u.heap }) >>= count_dead))

-- The search for the child's node ends at `curr` if there is none.
unfoldable pub child_died : ℕ → Sched → Run Sched
child_died pid s = access s s.curr (elim (search (fuel s) (has_pid s pid) s.heap s.curr s.curr) [
  | found t ↦ bury t s
  | absent ↦ bury s.curr s
  | dangling ↦ crashed
  | no_fuel ↦ hangs
])

-- one round of the loop of `sigchld_handler`
unfoldable pub reap : ℕ → Status → Sched → Run Sched
reap pid has_exited s = child_died pid s
reap pid was_signaled s = child_died pid s
reap pid was_stopped s = child_stopped s
reap pid other_status s = exited 1 s

-- one round of `shell_request_loop`, or of a signal's handler
unfoldable pub handle : Event → Sched → Run Sched
handle (request child n rq) s =
    let (done, reply) = process_request child n rq s in
    done >>= λ t. running (emit (replied reply) t)
handle alarm_rings s = sigalrm_handler s
handle child_signal s = running (emit (alarm quantum) s)
handle (waited pid status) s = reap pid status s

unfoldable pub run_events : List Event → Sched → Run Sched
run_events [] s = running s
run_events (e ∷ es) s = handle e s >>= run_events es
