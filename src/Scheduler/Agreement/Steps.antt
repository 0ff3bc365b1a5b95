-- ===== src/Scheduler/Agreement/Steps.antt =====
-- The parts of the handlers of both schedulers, compared.
use c_development_on_linux.Base.{
  ℕ, zero, suc, Bool, false, List, Option, ◌+◌, ◌≡◌, refl, ap, ◌∙◌, ◌==◌, inl, inr, Bool-cases,
}
use c_development_on_linux.Scheduler.Ring.{
  Heap, Search, found, absent, dangling, no_fuel, search, insert_after, update,
}
use c_development_on_linux.Scheduler.Runs.{inc, printed, Run, running}
use c_development_on_linux.Scheduler.Prio
use c_development_on_linux.Scheduler.Plain
use c_development_on_linux.Scheduler.Agreement.{
  forget_task, forget_heap, forget, IsLow, Agrees, Agrees-if, Agrees-crashed, Agrees-hangs,
  Agrees-exited, Agrees-running,
}

pub search-forget :
    (n : ℕ) (test : ℕ → Bool) (h : Heap Prio.State.Task) (start p : ℕ)
    → search n test (forget_heap h) start p ≡ search n test h start p
unfolding search
search-forget zero test h start p = refl
search-forget (suc n) test h start p = rw (search-forget n test h start (h.next p)) refl

-- Only the globals in which the priorities have no part differ.
pub IsLow-heap :
    (s t : Prio.State.Sched)
    → IsLow s
    → t.hashigh ≡ s.hashigh
    → t.heap.dierg ≡ s.heap.dierg
    → IsLow t
IsLow-heap s t v e d = record {
  none_counted = e ∙ v.none_counted;
  all_low = λ p. ap (λ f. Prio.State.is_high (f p).prio) d ∙ v.all_low p;
}

pub resume-Agrees :
    (p : ℕ) (s : Prio.State.Sched)
    → IsLow s
    → Agrees (Prio.Handlers.resume p s) (Plain.Handlers.resume p (forget s))
resume-Agrees p s v =
    Agrees-if (s.heap.live p) (Agrees-running _ (IsLow-heap s _ v refl refl)) Agrees-crashed

pub count_dead-Agrees :
    (s : Prio.State.Sched)
    → IsLow s
    → Agrees (Prio.Handlers.count_dead s) (Plain.Handlers.count_dead (forget s))
count_dead-Agrees s v =
    let t : Prio.State.Sched = record s { dead_children = inc s.dead_children } in
    Agrees-if (t.dead_children == inc s.nproc) (Agrees-exited 0 t)
      (Agrees-running t (IsLow-heap s t v refl refl))

pub print_from-Agrees :
    (n p : ℕ) (s : Prio.State.Sched)
    → IsLow s
    → Agrees (Prio.Handlers.print_from n p s) (Plain.Handlers.print_from n p (forget s))
unfolding Prio.Handlers.print_from Plain.Handlers.print_from
print_from-Agrees zero p s v = Agrees-hangs
print_from-Agrees (suc n) p s v =
    let t = Prio.State.emit (printed (s.heap.dierg p)) s in
    let low = IsLow-heap s t v refl refl in
    Agrees-if (s.heap.live p)
      (Agrees-if (s.heap.next p == s.curr) (Agrees-running t low)
        (print_from-Agrees n (s.heap.next p) t low))
      Agrees-crashed

-- A walk that looks for a node ends in the same way in both.
on_found-Agrees :
    (r r' : Search) (s : Prio.State.Sched) (f : ℕ → Run Prio.State.Sched)
    (g : ℕ → Run Plain.State.Sched)
    → r' ≡ r
    → IsLow s
    → ((p : ℕ) → Agrees (f p) (g p))
    → Agrees (Prio.Handlers.on_found r s f) (Plain.Handlers.on_found r' (forget s) g)
on_found-Agrees (found p) r' s f g e v a = rw e (a p)
on_found-Agrees absent r' s f g e v a = rw e (Agrees-running s v)
on_found-Agrees dangling r' s f g e v a = rw e Agrees-crashed
on_found-Agrees no_fuel r' s f g e v a = rw e Agrees-hangs

pub kill-Agrees :
    (id : ℕ) (s : Prio.State.Sched)
    → IsLow s
    → Agrees
        (Prio.Handlers.sched_kill_task_by_id id s)
        (Plain.Handlers.sched_kill_task_by_id id (forget s))
unfolding Prio.Handlers.sched_kill_task_by_id Plain.Handlers.sched_kill_task_by_id
kill-Agrees id s v =
    on_found-Agrees _ _ s _ _
      (search-forget (s.nproc + 1) (Prio.Handlers.has_id s id) s.heap s.curr s.curr) v
      (λ p. Agrees-running _ (IsLow-heap s _ v refl refl))

-- A new task has low priority.
pub update-forget :
    (f : ℕ → Prio.State.Task) (n : ℕ) (t : Prio.State.Task) (q : ℕ)
    → forget_task (update f n t q) ≡ update (λ p. forget_task (f p)) n (forget_task t) q
update-forget f n t q = elim (Bool-cases (n == q)) [
  | inl here ↦ rw here refl
  | inr other ↦ rw other refl
]

insert_after-forget :
    (c n : ℕ) (t : Prio.State.Task) (h : Heap Prio.State.Task)
    → forget_heap (insert_after c n t h) ≡ insert_after c n (forget_task t) (forget_heap h)
unfolding insert_after
insert_after-forget c n t h =
    ap (λ f. record (forget_heap (insert_after c n t h)) { dierg = f })
      (λ i q. update-forget h.dierg n t q i)

pub all_low-update :
    (f : ℕ → Prio.State.Task) (n : ℕ) (t : Prio.State.Task)
    → Prio.State.is_high t.prio ≡ false
    → ((p : ℕ) → Prio.State.is_high (f p).prio ≡ false)
    → (p : ℕ) → Prio.State.is_high (update f n t p).prio ≡ false
all_low-update f n t new old p = elim (Bool-cases (n == p)) [
  | inl here ↦ rw here new
  | inr other ↦ rw other (old p)
]

pub create-Agrees :
    (child : Option ℕ) (n : ℕ) (name : List ℕ) (s : Prio.State.Sched)
    → IsLow s
    → Agrees
        (Prio.Handlers.sched_create_task child n name s)
        (Plain.Handlers.sched_create_task child n name (forget s))
unfolding Prio.Handlers.sched_create_task Plain.Handlers.sched_create_task insert_after
create-Agrees child n name s v =
    let task = Prio.Handlers.new_task s name child in
    Agrees-if (s.heap.live s.curr)
      (Agrees-if (s.heap.live (s.heap.next s.curr))
        (record {
          same =
              ap (λ h. running (record (forget s) { heap = h; nproc = inc s.nproc }))
                (insert_after-forget s.curr n task s.heap);
          low = record {
            none_counted = v.none_counted;
            all_low = all_low-update s.heap.dierg n task refl v.all_low;
          };
        })
        Agrees-crashed)
      Agrees-crashed
