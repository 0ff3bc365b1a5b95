-- ===== src/Scheduler/Prio/Start.antt =====
-- `main` of scheduler-prio.c up to the first request: the shell and the programs of the command line
-- become the ring of tasks.
use c_development_on_linux.Base.{
  ℕ, ◌+◌, Bool, true, List, [], ◌∷◌, ◌==◌, if◌then◌else◌, Option, none, some, length,
}
use c_development_on_linux.Scheduler.Children.{
  Program, fork_all, wait_for_ready_children, pid_or_zero,
}
use c_development_on_linux.Scheduler.Prio.State.{Task, low}
use c_development_on_linux.Scheduler.Runs.{Run, running, exited, ◌>>=◌, kill, sigcont, Status}
use c_development_on_linux.Scheduler.Ring.{Heap, update}
use c_development_on_linux.Scheduler.Prio.State.{Sched, emit}

abbrev pub first_task : List ℕ → ℕ → Task
first_task name pid = record { id = 0; pid = pid; onoma = name; prio = low }

-- `sched_create_shell`, for whether the pipes could be made, what `fork` returned, and the node of
-- `head`
unfoldable pub sched_create_shell : List ℕ → Bool → Option ℕ → ℕ → Sched → Run Sched
sched_create_shell name pipes child node s =
    let created = λ (pid : ℕ). record s {
      heap = record (s.heap) {
        live = update s.heap.live node true;
        dierg = update s.heap.dierg node (first_task name pid);
      };
    } in
    if pipes
    then elim child [ none ↦ exited 1 s | some pid ↦ running (created pid) ]
    else exited 1 s

abbrev pub task_of : ℕ → Program → Task
task_of i p = record { id = i + 1; pid = pid_or_zero p.child; onoma = p.name; prio = low }

-- the body of the loop that makes the list: a node for task `i + 1` behind `head`
abbrev pub append_task : ℕ → Program → ℕ → Heap Task → Heap Task
append_task i p head h = record h {
  live = update h.live p.node true;
  dierg = update h.dierg p.node (task_of i p);
  next = update h.next head p.node;
  prev = update h.prev p.node head;
}

-- the loop, and the two writes behind it that close the list
unfoldable pub link_tasks : ℕ → ℕ → List Program → ℕ → Heap Task → Heap Task
link_tasks curr i [] head h = record h {
  next = update h.next head curr;
  prev = update h.prev curr head;
}
link_tasks curr i (p ∷ ps) head h = link_tasks curr (i + 1) ps p.node (append_task i p head h)

-- `main` from the making of the list on, up to the first request
unfoldable pub begin_first : ℕ → List Program → Sched → Run Sched
begin_first node programs s =
    let t = record s { heap = link_tasks node 0 programs node s.heap; curr = node } in
    let u = emit (kill (t.heap.dierg t.curr).pid sigcont) t in
    if u.nproc == 0 then exited 1 u else running u

-- `main`, from the making of the shell to the first request; `statuses` are what the
-- calls of `waitpid` tell while it waits for `nproc + 1` children.
unfoldable pub main_start :
    List ℕ → Bool → Option ℕ → ℕ → List Program → List Status → Sched → Run Sched
main_start shell pipes child node programs statuses s =
    sched_create_shell shell pipes child node s >>= λ s.
    fork_all programs (record s { nproc = length programs }) >>= λ s.
    wait_for_ready_children (length programs + 1) statuses s >>= λ s. begin_first node programs s
