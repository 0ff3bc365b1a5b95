-- ===== src/Scheduler/Prio/Started.antt =====
-- The ring that `main` of scheduler-prio.c makes of the command line.
use c_development_on_linux.Base.{
  ℕ, ◌≤◌, zero, suc, ◌+◌, ◌^◌, ◌<◌, true, false, ap₂, All, ==_of_ne, List, [], ◌∷◌, map, some, ◌≡◌,
  ◌≢◌, refl, sym, arith, length, ◌∙◌, ap,
}
use c_development_on_linux.Scheduler.Prio.State.{Task, low, is_high}
use c_development_on_linux.Scheduler.Runs.{running, kill, sigcont, Status, was_stopped}
use c_development_on_linux.Scheduler.Ring.{Heap, update}
use c_development_on_linux.Scheduler.Ring.Links.{Links, NotIn, Distinct}
use c_development_on_linux.Scheduler.Ring.Changes.{update_self, update_ne}
use c_development_on_linux.Scheduler.Prio.State.{Sched}
use c_development_on_linux.Scheduler.Prio.Invariant.{highs, IsReady}
use c_development_on_linux.Scheduler.Children.{
  Program, fork_all, wait_for_ready_children, pid_or_zero,
}
use c_development_on_linux.Scheduler.Prio.Start.{
  first_task, sched_create_shell, append_task, link_tasks, main_start, begin_first,
}

abbrev pub nodes : List Program → List ℕ
nodes ps = map (λ p. p.node) ps

-- What the loop leaves alone.
record Unchanged (curr head q : ℕ) (h h' : Heap Task) : Type 0 where
  live : h'.live q ≡ h.live q
  dierg : h'.dierg q ≡ h.dierg q
  next : q ≢ head → h'.next q ≡ h.next q
  prev : q ≢ curr → h'.prev q ≡ h.prev q

link_tasks-Unchanged :
    (curr i : ℕ) (ps : List Program) (head q : ℕ) (h : Heap Task)
    → NotIn q (nodes ps)
    → Unchanged curr head q h (link_tasks curr i ps head h)
unfolding link_tasks
link_tasks-Unchanged curr i [] head q h m = record {
  live = refl;
  dierg = refl;
  next = λ n. update_ne h.next head q curr (λ e. n (sym e));
  prev = λ n. update_ne h.prev curr q head (λ e. n (sym e));
}
link_tasks-Unchanged curr i (p ∷ ps) head q h m =
    let u = link_tasks-Unchanged curr (i + 1) ps p.node q (append_task i p head h) m.1 in
    let other : p.node ≢ q = λ e. m.0 (sym e) in
    record {
      live = u.live ∙ update_ne h.live p.node q true other;
      dierg = u.dierg ∙ update_ne h.dierg p.node q _ other;
      next = λ n. u.next m.0 ∙ update_ne h.next head q p.node (λ e. n (sym e));
      prev = λ n. u.prev n ∙ update_ne h.prev p.node q head other;
    }

link_tasks-Links :
    (curr i : ℕ) (ps : List Program) (head : ℕ) (h : Heap Task)
    → h.live head ≡ true
    → Distinct (head ∷ nodes ps)
    → NotIn curr (nodes ps)
    → Links (link_tasks curr i ps head h) head (nodes ps) curr
unfolding link_tasks
link_tasks-Links curr i [] head h live d m =
    (live, update_self h.next head curr, update_self h.prev curr head)
link_tasks-Links curr i (p ∷ ps) head h live d m =
    let h1 = append_task i p head h in
    let at_head = link_tasks-Unchanged curr (i + 1) ps p.node head h1 d.0.1 in
    let at_node = link_tasks-Unchanged curr (i + 1) ps p.node p.node h1 d.1.0 in
    let other : p.node ≢ head = λ e. d.0.0 (sym e) in
    (
      at_head.live ∙ update_ne h.live p.node head true other ∙ live,
      at_head.next d.0.0 ∙ update_self h.next head p.node,
      at_node.prev (λ e. m.0 (sym e)) ∙ update_self h.prev p.node head,
      link_tasks-Links curr (i + 1) ps p.node h1 (update_self h.live p.node true) d.1 m.1,
    )

link_tasks-low :
    (curr i : ℕ) (ps : List Program) (head : ℕ) (h : Heap Task)
    → Distinct (nodes ps)
    → highs (link_tasks curr i ps head h) (nodes ps) ≡ 0
unfolding link_tasks highs
link_tasks-low curr i [] head h d = refl
link_tasks-low curr i (p ∷ ps) head h d =
    let h1 = append_task i p head h in
    let u = link_tasks-Unchanged curr (i + 1) ps p.node p.node h1 d.0 in
    let is_low : is_high ((link_tasks curr (i + 1) ps p.node h1).dierg p.node).prio ≡ false =
      ap (λ k. is_high k.prio) (u.dierg ∙ update_self h.dierg p.node _) in
    rw is_low (omega (arith, link_tasks-low curr (i + 1) ps p.node h1 d.1))

-- the tasks of the programs, in the order of the command line
abbrev pub numbered : ℕ → List Program → List Task
numbered i [] = []
numbered i (p ∷ ps) =
    record { id = i + 1; pid = pid_or_zero p.child; onoma = p.name; prio = low }
    ∷ numbered (i + 1) ps

link_tasks-numbered :
    (curr i : ℕ) (ps : List Program) (head : ℕ) (h : Heap Task)
    → Distinct (nodes ps)
    → map ((link_tasks curr i ps head h).dierg) (nodes ps) ≡ numbered i ps
unfolding link_tasks
link_tasks-numbered curr i [] head h d = refl
link_tasks-numbered curr i (p ∷ ps) head h d =
    let h1 = append_task i p head h in
    let u = link_tasks-Unchanged curr (i + 1) ps p.node p.node h1 d.0 in
    ap₂ (◌∷◌) (u.dierg ∙ update_self h.dierg p.node _)
      (link_tasks-numbered curr (i + 1) ps p.node h1 d.1)

abbrev pub IsForked : Program → Type 0
IsForked p = (pid : ℕ) × (p.child ≡ some pid)

fork_all-running : (ps : List Program) (s : Sched) → All IsForked ps → fork_all ps s ≡ running s
unfolding fork_all
fork_all-running [] s a = refl
fork_all-running (p ∷ ps) s a = rw (a.0.1) (fork_all-running ps s a.1)

wait-running :
    (cnt : ℕ) (statuses : List Status) (s : Sched)
    → cnt ≤ length statuses
    → All (λ x. x ≡ was_stopped) statuses
    → wait_for_ready_children cnt statuses s ≡ running s
unfolding wait_for_ready_children
wait-running zero statuses s k a = refl
wait-running (suc cnt) [] s k a = absurd (omega (arith, k))
wait-running (suc cnt) (x ∷ statuses) s k a =
    rw (a.0) (wait-running cnt statuses s (omega (arith, k)) a.1)

length-nodes : (ps : List Program) → length (nodes ps) ≡ length ps
length-nodes [] = refl
length-nodes (p ∷ ps) = omega (arith, length-nodes ps)

-- With at least one program, when the system gives the processes and a wait for each of them and for
-- the shell tells of a stop, `main`
-- leads to a state in which the shell and the programs, in their order and all of low priority, are
-- a ring that the handlers can work with, and only the shell has been told to go on.
pub main_start-IsReady :
    (shell : List ℕ) (pid node : ℕ) (programs : List Program) (statuses : List Status) (s : Sched)
    → s.hashigh ≡ 0
    → s.dead_children ≡ 0
    → Distinct (node ∷ nodes programs)
    → 0 < length programs
    → length programs < 2 ^ 31
    → All IsForked programs
    → length programs + 1 ≤ length statuses
    → All (λ x. x ≡ was_stopped) statuses
    → (t : Sched) × (main_start shell true (some pid) node programs statuses s ≡ running t)
      × IsReady t (nodes programs)
      × (t.curr ≡ node)
      × (map (t.heap.dierg) (node ∷ nodes programs) ≡ first_task shell pid ∷ numbered 0 programs)
      × (t.out ≡ kill pid sigcont ∷ s.out)
unfolding main_start begin_first sched_create_shell highs
main_start-IsReady shell pid node ps statuses s none_high none_dead d some_task small forked enough
      waited =
    let h : Heap Task = record (s.heap) {
      live = update s.heap.live node true;
      dierg = update s.heap.dierg node (first_task shell pid);
    } in
    let h' = link_tasks node 0 ps node h in
    let u = link_tasks-Unchanged node 0 ps node node h d.0 in
    let shell_task : h'.dierg node ≡ first_task shell pid =
      u.dierg ∙ update_self s.heap.dierg node _ in
    let t : Sched = record s {
      heap = h';
      curr = node;
      nproc = length ps;
      out = kill pid sigcont ∷ s.out;
    } in
    (
      t,
      rw
          (
            fork_all-running ps (record s { heap = h; nproc = length ps }) forked,
            wait-running (length ps + 1) statuses (record s { heap = h; nproc = length ps }) enough
                waited,
            shell_task,
            ==_of_ne (length ps) 0 (λ e. omega (arith, e, some_task)),
          )
          refl,
      record {
        ring = record {
          links = link_tasks-Links node 0 ps node h (update_self s.heap.live node true) d d.0;
          distinct = d;
        };
        counted =
            none_high ∙ sym (rw shell_task (omega (arith, link_tasks-low node 0 ps node h d.1)));
        census = omega (arith, none_dead, length-nodes ps);
        small = small;
      },
      refl,
      ap₂ (◌∷◌) shell_task (link_tasks-numbered node 0 ps node h d.1),
      refl,
    )
