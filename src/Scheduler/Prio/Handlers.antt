-- ===== src/Scheduler/Prio/Handlers.antt =====
-- The functions of scheduler-prio.c that act on its state.
use c_development_on_linux.Base.{
  ℕ, zero, suc, ◌+◌, Bool, List, [], ◌∷◌, ◌==◌, if◌then◌else◌, Option,
}
use c_development_on_linux.Scheduler.Prio.State.{Task, Priority, high, low, is_high}
use c_development_on_linux.Scheduler.Runs.{
  pid_of, sigstop, sigcont, sigkill, kill, alarm, printed, Run, running, exited, crashed, hangs,
  ◌>>=◌, inc, dec, quantum, Request, print_tasks, kill_task, exec_task, high_task, low_task,
  unknown, Reply, zero_reply, enosys, Status, has_exited, was_signaled, was_stopped, other_status,
}
use c_development_on_linux.Scheduler.Ring.{
  Heap, update, Search, found, absent, dangling, no_fuel, search, unlink, insert_after, free,
}
use c_development_on_linux.Scheduler.Prio.State.{Sched, access, emit}

-- The walks are given as many rounds as tasks were ever made.
abbrev pub fuel : Sched → ℕ
fuel s = s.nproc + 1

abbrev pub has_id : Sched → ℕ → ℕ → Bool
has_id s id p = (s.heap.dierg p).id == id

abbrev pub has_pid : Sched → ℕ → ℕ → Bool
has_pid s pid p = (s.heap.dierg p).pid == pid

abbrev pub has_high : Heap Task → ℕ → Bool
has_high h p = is_high (h.dierg p).prio

-- `for a node that is found do this, and nothing if there is none`
abbrev pub on_found : Search → Sched → (ℕ → Run Sched) → Run Sched
on_found (found p) s f = f p
on_found absent s f = running s
on_found dangling s f = crashed
on_found no_fuel s f = hangs

-- the loop of `sched_print_tasks`
unfoldable pub print_from : ℕ → ℕ → Sched → Run Sched
print_from zero p s = hangs
print_from (suc n) p s =
    let rest = print_from n (s.heap.next p) (emit (printed (s.heap.dierg p)) s) in
    if s.heap.live p
    then (if s.heap.next p == s.curr then running (emit (printed (s.heap.dierg p)) s) else rest)
    else crashed

unfoldable pub sched_print_tasks : Sched → Run Sched
sched_print_tasks s = print_from (fuel s) s.curr s

unfoldable pub sched_kill_task_by_id : ℕ → Sched → Run Sched
sched_kill_task_by_id id s =
    on_found (search (fuel s) (has_id s id) s.heap s.curr s.curr) s
      λ p. running (emit (kill (s.heap.dierg p).pid sigkill) s)

abbrev pub set_prio : Priority → ℕ → Sched → Sched
set_prio x p s = record s {
  heap = record (s.heap) { dierg = update s.heap.dierg p (record (s.heap.dierg p) { prio = x }) };
}

unfoldable pub sched_high_task : ℕ → Sched → Run Sched
sched_high_task id s = on_found (search (fuel s) (has_id s id) s.heap s.curr s.curr) s λ p.
    if has_high s.heap p
    then running s
    else running (record (set_prio high p s) { hashigh = inc s.hashigh })

unfoldable pub sched_low_task : ℕ → Sched → Run Sched
sched_low_task id s = on_found (search (fuel s) (has_id s id) s.heap s.curr s.curr) s λ p.
    if has_high s.heap p
    then running (record (set_prio low p s) { hashigh = dec s.hashigh })
    else running s

abbrev pub new_task : Sched → List ℕ → Option ℕ → Task
new_task s executable child = record {
  id = inc s.nproc;
  pid = pid_of child;
  onoma = executable;
  prio = low;
}

-- `sched_create_task` in the parent, for what `fork` returned and the node that `malloc` returned
unfoldable pub sched_create_task : Option ℕ → ℕ → List ℕ → Sched → Run Sched
sched_create_task child n executable s = access s s.curr (
    access s (s.heap.next s.curr) (
      running (record s {
        heap = insert_after s.curr n (new_task s executable child) s.heap;
        nproc = inc s.nproc;
      })))

-- `process_request`; the first two arguments are for a new task.
unfoldable pub process_request : Option ℕ → ℕ → Request → Sched → Run Sched × Reply
process_request child n print_tasks s = (sched_print_tasks s, zero_reply)
process_request child n (kill_task id) s = (sched_kill_task_by_id id s, zero_reply)
process_request child n (exec_task executable) s =
    (sched_create_task child n executable s, zero_reply)
process_request child n (high_task id) s = (sched_high_task id s, zero_reply)
process_request child n (low_task id) s = (sched_low_task id s, zero_reply)
process_request child n (unknown number) s = (running s, enosys)

-- `sigalrm_handler`, installed for SIGALRM
unfoldable pub sigalrm_handler : Sched → Run Sched
sigalrm_handler s = access s s.curr (running (emit (kill (s.heap.dierg s.curr).pid sigstop) s))

-- `kill(p->pid, SIGCONT); curr = p;`
abbrev pub resume : ℕ → Sched → Run Sched
resume p s = access s p (running (record (emit (kill (s.heap.dierg p).pid sigcont) s) { curr = p }))

-- the scan from `temp4` for a task of high priority: `do ... while (temp4 != curr->next)`
abbrev pub scan_high : ℕ → Sched → Search
scan_high temp4 s = search (fuel s) (has_high s.heap) s.heap (s.heap.next s.curr) temp4

-- `WIFSTOPPED`
unfoldable pub child_stopped : Sched → Run Sched
child_stopped s = access s s.curr (
    if s.hashigh == 0
    then resume (s.heap.next s.curr) s
    else on_found (scan_high (s.heap.next s.curr) s) s (λ p. resume p s))

-- `if (++dead_children == nproc+1) exit(0)`
abbrev pub count_dead : Sched → Run Sched
count_dead s =
    let t = record s { dead_children = inc s.dead_children } in
    if t.dead_children == inc s.nproc then exited 0 t else running t

-- The rest of the `WIFEXITED || WIFSIGNALED` branch, once the node `t` of the child is found:
-- `temp4` is what `curr->next` was before.
unfoldable pub bury : ℕ → ℕ → Sched → Run Sched
bury temp4 t s =
    let now_high = if has_high s.heap t then dec s.hashigh else s.hashigh in
    let u = record s { heap = unlink t s.heap; hashigh = now_high } in
    access s (s.heap.prev t) (
      access s (u.heap.next t) (
        if now_high == 0
        then (let curr' = u.heap.next u.curr in
            resume curr' (record u { heap = free t u.heap }) >>= count_dead)
        else (on_found (scan_high temp4 u) u (λ p. resume p u) >>= λ v.
            count_dead (record v { heap = free t v.heap }))))

-- The search for the child's node ends at `curr` if there is none.
unfoldable pub child_died : ℕ → Sched → Run Sched
child_died pid s = access s s.curr (elim (search (fuel s) (has_pid s pid) s.heap s.curr s.curr) [
  | found t ↦ bury (s.heap.next s.curr) t s
  | absent ↦ bury (s.heap.next s.curr) s.curr s
  | dangling ↦ crashed
  | no_fuel ↦ hangs
])

-- one round of the loop of `sigchld_handler`; `explain_wait_status` ends the program at a status
-- that it does not know
unfoldable pub reap : ℕ → Status → Sched → Run Sched
reap pid has_exited s = child_died pid s
reap pid was_signaled s = child_died pid s
reap pid was_stopped s = child_stopped s
reap pid other_status s = exited 1 s

unfoldable pub reap_all : List (ℕ × Status) → Sched → Run Sched
reap_all [] s = running s
reap_all ((pid, status) ∷ more) s = reap pid status s >>= reap_all more

-- `sigchld_handler`, installed for SIGCHLD: the children that `waitpid` reports until it returns 0
unfoldable pub sigchld_handler : List (ℕ × Status) → Sched → Run Sched
sigchld_handler waits s = reap_all waits (emit (alarm quantum) s)
