-- ===== src/Scheduler/Agreement/Begin.antt =====
-- Both schedulers start in the same way, so that they do the same from `main` on.
use c_development_on_linux.Base.{
  ℕ, zero, suc, ◌+◌, Bool, true, false, List, [], ◌∷◌, ◌==◌, if◌then◌else◌, Option, none, some, ◌≡◌,
  refl, ap, ◌∙◌, length, All, subst,
}
use c_development_on_linux.Scheduler.Ring.{Heap, update}
use c_development_on_linux.Scheduler.Runs.{
  running, exited, ◌>>=◌, kill, sigcont, Status, was_stopped, has_exited, was_signaled,
  other_status, Event,
}
use c_development_on_linux.Scheduler.Children.{Program, fork_all, wait_for_ready_children}
use c_development_on_linux.Scheduler.Prio
use c_development_on_linux.Scheduler.Plain
use c_development_on_linux.Scheduler.Agreement.{
  forget, forget_heap, forget_run, IsLow, Agrees, Agrees-bind, Agrees-if, Agrees-running,
  Agrees-exited, Agrees-hangs,
}
use c_development_on_linux.Scheduler.Agreement.Steps.{update-forget, all_low-update, IsLow-heap}
use c_development_on_linux.Scheduler.Agreement.Events.{IsPlain, run_events-Agrees}

fork_all-Agrees :
    (ps : List Program) (s : Prio.State.Sched)
    → IsLow s
    → Agrees (fork_all ps s) (fork_all ps (forget s))
unfolding fork_all
fork_all-Agrees [] s v = Agrees-running s v
fork_all-Agrees (p ∷ ps) s v = by_child p.child (fork_all-Agrees ps s v)
  where
    by_child :
        (c : Option ℕ)
        → Agrees (fork_all ps s) (fork_all ps (forget s))
        → Agrees
            (elim c [ none ↦ exited 1 s | some pid ↦ fork_all ps s ])
            (elim c [ none ↦ exited 1 (forget s) | some pid ↦ fork_all ps (forget s) ])
    by_child none a = Agrees-exited 1 s
    by_child (some pid) a = a

wait-Agrees :
    (cnt : ℕ) (statuses : List Status) (s : Prio.State.Sched)
    → IsLow s
    → Agrees
        (wait_for_ready_children cnt statuses s)
        (wait_for_ready_children cnt statuses (forget s))
unfolding wait_for_ready_children
wait-Agrees zero statuses s v = Agrees-running s v
wait-Agrees (suc cnt) [] s v = Agrees-hangs
wait-Agrees (suc cnt) (was_stopped ∷ more) s v = wait-Agrees cnt more s v
wait-Agrees (suc cnt) (has_exited ∷ more) s v = Agrees-exited 1 s
wait-Agrees (suc cnt) (was_signaled ∷ more) s v = Agrees-exited 1 s
wait-Agrees (suc cnt) (other_status ∷ more) s v = Agrees-exited 1 s

link_tasks-forget :
    (curr i : ℕ) (ps : List Program) (head : ℕ) (h : Heap Prio.State.Task)
    → forget_heap (Prio.Start.link_tasks curr i ps head h)
      ≡ Plain.Start.link_tasks curr i ps head (forget_heap h)
unfolding Prio.Start.link_tasks Plain.Start.link_tasks
link_tasks-forget curr i [] head h = refl
link_tasks-forget curr i (p ∷ ps) head h =
    link_tasks-forget curr (i + 1) ps p.node (Prio.Start.append_task i p head h)
    ∙ ap
        (λ f.
          Plain.Start.link_tasks curr (i + 1) ps p.node
            (record (forget_heap (Prio.Start.append_task i p head h)) { dierg = f }))
        (λ j q. update-forget h.dierg p.node (Prio.Start.task_of i p) q j)

link_tasks-low :
    (curr i : ℕ) (ps : List Program) (head : ℕ) (h : Heap Prio.State.Task)
    → ((p : ℕ) → Prio.Handlers.has_high h p ≡ false)
    → (p : ℕ) → Prio.Handlers.has_high (Prio.Start.link_tasks curr i ps head h) p ≡ false
unfolding Prio.Start.link_tasks
link_tasks-low curr i [] head h low p = low p
link_tasks-low curr i (q ∷ ps) head h low p =
    link_tasks-low curr (i + 1) ps q.node (Prio.Start.append_task i q head h)
      (all_low-update h.dierg q.node (Prio.Start.task_of i q) refl low) p

create_shell-Agrees :
    (shell : List ℕ) (pipes : Bool) (child : Option ℕ) (node : ℕ) (s : Prio.State.Sched)
    → IsLow s
    → Agrees
        (Prio.Start.sched_create_shell shell pipes child node s)
        (Plain.Start.sched_create_shell shell pipes child node (forget s))
unfolding Prio.Start.sched_create_shell Plain.Start.sched_create_shell
create_shell-Agrees shell false child node s v = Agrees-exited 1 s
create_shell-Agrees shell true none node s v = Agrees-exited 1 s
create_shell-Agrees shell true (some pid) node s v =
    let task = Prio.Start.first_task shell pid in
    record {
      same =
          ap
            (λ f. running (record (forget s) {
              heap = record (forget_heap s.heap) { live = update s.heap.live node true; dierg = f };
            }))
            (λ i q. update-forget s.heap.dierg node task q i);
      low = record {
        none_counted = v.none_counted;
        all_low = all_low-update s.heap.dierg node task refl v.all_low;
      };
    }

linked-Agrees :
    (node : ℕ) (programs : List Program) (s : Prio.State.Sched)
    → IsLow s
    → Agrees
        (Prio.Start.begin_first node programs s)
        (Plain.Start.begin_first node programs (forget s))
unfolding Prio.Start.begin_first Plain.Start.begin_first
linked-Agrees node programs s v =
    let linked = Prio.Start.link_tasks node 0 programs node s.heap in
    let t : Prio.State.Sched = record s { heap = linked; curr = node } in
    let u = Prio.State.emit (kill (linked.dierg node).pid sigcont) t in
    let low : IsLow u = record {
      none_counted = v.none_counted;
      all_low = link_tasks-low node 0 programs node s.heap v.all_low;
    } in
    subst
      (λ h. Agrees (if s.nproc == 0 then exited 1 u else running u) (
        let w = record (forget s) {
          heap = h;
          curr = node;
          out = kill (h.dierg node).pid sigcont ∷ (forget s).out;
        } in
        if s.nproc == 0 then exited 1 w else running w))
      (link_tasks-forget node 0 programs node s.heap)
      (Agrees-if (s.nproc == 0) (Agrees-exited 1 u) (Agrees-running u low))

main_start-Agrees :
    (shell : List ℕ) (pipes : Bool) (child : Option ℕ) (node : ℕ) (programs : List Program)
    (statuses : List Status) (s : Prio.State.Sched)
    → IsLow s
    → Agrees
        (Prio.Start.main_start shell pipes child node programs statuses s)
        (Plain.Start.main_start shell pipes child node programs statuses (forget s))
unfolding Prio.Start.main_start Plain.Start.main_start
main_start-Agrees shell pipes child node programs statuses s v =
    Agrees-bind _ _ _ _ (create_shell-Agrees shell pipes child node s v) (λ t w.
      Agrees-bind _ _ _ _
        (fork_all-Agrees programs (record t { nproc = length programs })
          (IsLow-heap t _ w refl refl))
        (λ t w.
          Agrees-bind _ _ _ _ (wait-Agrees (length programs + 1) statuses t w)
            (λ t w. linked-Agrees node programs t w)))

-- From `main` on, for whatever the system does, the two schedulers do the same as long as the shell
-- does not set priorities.
pub main-forget :
    (shell : List ℕ) (pipes : Bool) (child : Option ℕ) (node : ℕ) (programs : List Program)
    (statuses : List Status) (es : List Event) (s : Prio.State.Sched)
    → IsLow s
    → All IsPlain es
    → forget_run (
        Prio.Start.main_start shell pipes child node programs statuses s
        >>= Prio.Session.run_events es)
      ≡ (Plain.Start.main_start shell pipes child node programs statuses (forget s)
          >>= Plain.Handlers.run_events es)
main-forget shell pipes child node programs statuses es s v a =
    (Agrees-bind _ _ _ _ (main_start-Agrees shell pipes child node programs statuses s v)
      (λ t w. run_events-Agrees es t a w)).same
