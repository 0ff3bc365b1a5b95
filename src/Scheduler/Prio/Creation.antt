-- ===== src/Scheduler/Prio/Creation.antt =====
-- A new task of scheduler-prio.c.
use c_development_on_linux.Base.{
  ℕ, ◌+◌, ◌^◌, ◌<◌, true, false, List, [], ◌∷◌, ◌++◌, Option, ◌≡◌, refl, sym, ap₂, ◌∙◌, arith,
  ==_of_ne, ==_iff,
}
use c_development_on_linux.Scheduler.Prio.State.{Task, is_high}
use c_development_on_linux.Scheduler.Runs.{running, inc}
use c_development_on_linux.Scheduler.Ring.{Heap, update, insert_after}
use c_development_on_linux.Scheduler.Ring.Links.{NotIn, IsRing, turn}
use c_development_on_linux.Scheduler.Ring.Changes.{insert_after-IsRing, update_self}
use c_development_on_linux.Scheduler.Prio.State.{Sched}
use c_development_on_linux.Scheduler.Prio.Handlers.{sched_create_task, new_task}
use c_development_on_linux.Scheduler.Prio.Invariant.{IsReady, live-IsRing, highs}

-- The node of a task that is not counted may be written.
pub highs-update :
    (h : Heap Task) (n : ℕ) (task : Task) (ps : List ℕ)
    → NotIn n ps
    → highs (record h { dierg = update h.dierg n task }) ps ≡ highs h ps
unfolding highs
highs-update h n task [] m = refl
highs-update h n task (p ∷ ps) m = rw (==_of_ne n p m.0, highs-update h n task ps m.1)

-- `highs` reads nothing but the tasks.
highs_same : (h k : Heap Task) (ps : List ℕ) → h.dierg ≡ k.dierg → highs h ps ≡ highs k ps
unfolding highs
highs_same h k [] e = refl
highs_same h k (p ∷ ps) e = ap₂ ◌+◌ (rw e) (highs_same h k ps e)

next_live : (h : Heap Task) (c : ℕ) (xs : List ℕ) → IsRing h c xs → h.live (h.next c) ≡ true
next_live h c [] r = rw (r.links.1) r.links.0
next_live h c (x ∷ xs) r = rw (r.links.1) (live-IsRing h x (xs ++ c ∷ []) (turn h c [] x xs r))

highs_inserted :
    (h : Heap Task) (c n : ℕ) (task : Task) (xs : List ℕ)
    → NotIn n (c ∷ xs)
    → is_high task.prio ≡ false
    → highs (insert_after c n task h) (c ∷ n ∷ xs) ≡ highs h (c ∷ xs)
unfolding highs insert_after
highs_inserted h c n task xs m low_prio =
    let rest : highs (insert_after c n task h) xs ≡ highs h xs =
      highs_same (insert_after c n task h) (record h { dierg = update h.dierg n task }) xs refl
      ∙ highs-update h n task xs m.1 in
    rw (==_of_ne n c m.0, (==_iff n n).1 refl, low_prio, rest) (omega arith)

-- A new task gets the next number, low priority and the place behind `curr`; the counters stay
-- consistent. The task is there even if `fork` failed, with process number -1.
pub sched_create_task-IsReady :
    (child : Option ℕ) (n : ℕ) (executable : List ℕ) (s : Sched) (xs : List ℕ)
    → IsReady s xs
    → NotIn n (s.curr ∷ xs)
    → s.nproc + 1 < 2 ^ 31
    → (s' : Sched) × (sched_create_task child n executable s ≡ running s')
      × IsReady s' (n ∷ xs)
      × (s'.curr ≡ s.curr)
      × (s'.heap.dierg n ≡ new_task s executable child)
      × (s'.nproc ≡ s.nproc + 1)
unfolding sched_create_task
sched_create_task-IsReady child n executable s xs v m small =
    let task = new_task s executable child in
    let s' : Sched = record s { heap = insert_after s.curr n task s.heap; nproc = inc s.nproc } in
    (
      s',
      rw (live-IsRing s.heap s.curr xs v.ring, next_live s.heap s.curr xs v.ring),
      record {
        ring = insert_after-IsRing s.heap s.curr n task xs v.ring m;
        counted = v.counted ∙ sym (highs_inserted s.heap s.curr n task xs m refl);
        census = omega (arith, v.census);
        small = omega arith;
      },
      refl,
      unfold insert_after in update_self s.heap.dierg n task,
      omega arith,
    )
