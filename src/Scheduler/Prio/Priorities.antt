-- ===== src/Scheduler/Prio/Priorities.antt =====
-- The priority requests of scheduler-prio.c.
use c_development_on_linux.Base.{
  ℕ, ◌+◌, ◌≤◌, Bool, List, ◌∷◌, ◌++◌, if◌then◌else◌, Option, none, some, ◌≡◌, ◌≢◌, refl, ap, ◌∙◌,
  arith, length, inl, inr, Bool-cases, Option-cases, subst,
}
use c_development_on_linux.Scheduler.Prio.State.{Task, Priority, high, low, is_high}
use c_development_on_linux.Scheduler.Runs.{Effect, kill, sigkill, Run, running, inc, dec}
use c_development_on_linux.Scheduler.Ring.{Heap, search}
use c_development_on_linux.Scheduler.Ring.Links.{NotIn, Distinct, Distinct-middle}
use c_development_on_linux.Scheduler.Ring.Walk.{first, first-split, outcome, search-IsRing}
use c_development_on_linux.Scheduler.Ring.Changes.{IsRing-dierg, update_self, update_ne}
use c_development_on_linux.Scheduler.Prio.State.{Sched}
use c_development_on_linux.Scheduler.Prio.Handlers.{
  sched_high_task, sched_low_task, has_id, has_high, set_prio,
}
use c_development_on_linux.Scheduler.Prio.Invariant.{IsReady, highs, highs-append, highs-le}
use c_development_on_linux.Scheduler.Prio.Creation.{highs-update}

-- The number of tasks of high priority after one task's priority is set.
highs-set_prio :
    (s : Sched) (x : Priority) (us : List ℕ) (t : ℕ) (vs : List ℕ)
    → NotIn t us × NotIn t vs
    → highs (set_prio x t s).heap (us ++ t ∷ vs)
      ≡ highs s.heap us + (if is_high x then 1 else 0) + highs s.heap vs
unfolding highs
highs-set_prio s x us t vs m =
    let h = (set_prio x t s).heap in
    let task : Task = record (s.heap.dierg t) { prio = x } in
    let self : has_high h t ≡ is_high x =
      ap (λ k. is_high k.prio) (update_self s.heap.dierg t task) in
    let mine : highs h (t ∷ vs) ≡ (if is_high x then 1 else 0) + highs s.heap vs =
      rw (self, highs-update s.heap t task vs m.1) in
    omega (arith, mine, highs-append h us (t ∷ vs), highs-update s.heap t task us m.0)

-- The priority of the first task with this number is set, and that of no other; the counter and the
-- ring stay consistent.
pub record Prioritised (x : Priority) (id : ℕ) (s : Sched) (xs : List ℕ) (out : Run Sched)
    : Type 0 where
  pub after : Sched
  pub runs : out ≡ running after
  pub ready : IsReady after xs
  pub set : (t : ℕ) → first (has_id s id) (s.curr ∷ xs) ≡ some t → has_high after.heap t ≡ is_high x
  pub others :
      (q : ℕ) → first (has_id s id) (s.curr ∷ xs) ≢ some q → after.heap.dierg q ≡ s.heap.dierg q

pub find :
    (s : Sched) (xs : List ℕ) (id : ℕ)
    → IsReady s xs
    → search (s.nproc + 1) (has_id s id) s.heap s.curr s.curr
      ≡ outcome (first (has_id s id) (s.curr ∷ xs))
find s xs id v =
    search-IsRing (s.nproc + 1) (has_id s id) s.heap s.curr xs v.ring (omega (arith, v.census))

Prioritised-none :
    (x : Priority) (id : ℕ) (s : Sched) (xs : List ℕ)
    → IsReady s xs
    → first (has_id s id) (s.curr ∷ xs) ≡ none
    → Prioritised x id s xs (running s)
Prioritised-none x id s xs v f = record {
  after = s;
  runs = refl;
  ready = v;
  set = λ t e. absurd (ground arith);
  others = λ q _. refl;
}

Prioritised-same :
    (x : Priority) (id : ℕ) (s : Sched) (xs : List ℕ) (t : ℕ)
    → IsReady s xs
    → first (has_id s id) (s.curr ∷ xs) ≡ some t
    → has_high s.heap t ≡ is_high x
    → Prioritised x id s xs (running s)
Prioritised-same x id s xs t v f h = record {
  after = s;
  runs = refl;
  ready = v;
  set = λ q e. let same : t ≡ q = ground arith in rw (← same) h;
  others = λ q _. refl;
}

Prioritised-set :
    (x : Priority) (n id : ℕ) (s : Sched) (xs : List ℕ) (t : ℕ)
    → IsReady s xs
    → first (has_id s id) (s.curr ∷ xs) ≡ some t
    → n ≡ highs (set_prio x t s).heap (s.curr ∷ xs)
    → Prioritised x id s xs (running (record (set_prio x t s) { hashigh = n }))
Prioritised-set x n id s xs t v f h = record {
  after = record (set_prio x t s) { hashigh = n };
  runs = refl;
  ready = record {
    ring = IsRing-dierg s.heap _ s.curr xs v.ring;
    counted = h;
    census = v.census;
    small = v.small;
  };
  set = λ q e.
      let same : t ≡ q = ground arith in
      rw (← same) (ap (λ k. is_high k.prio) (update_self s.heap.dierg t _));
  others = λ q e. update_ne s.heap.dierg t q _ (λ same. e (f ∙ ap some same));
}

counted_around :
    (x : Priority) (s : Sched) (xs : List ℕ) (t : ℕ) (test : ℕ → Bool)
    → IsReady s xs
    → first test (s.curr ∷ xs) ≡ some t
    → (s.hashigh + (if is_high x then 1 else 0)
        ≡ highs (set_prio x t s).heap (s.curr ∷ xs) + (if has_high s.heap t then 1 else 0))
      × (s.hashigh ≤ length xs + 1)
unfolding highs
counted_around x s xs t test v f =
    let (us, vs, e, _, _) = first-split test (s.curr ∷ xs) f in
    let d = Distinct-middle us t vs (subst Distinct e v.ring.distinct) in
    let new = highs-set_prio s x us t vs d in
    let old = highs-append s.heap us (t ∷ vs) in
    (
      omega (arith, v.counted, new, old, ap (highs s.heap) e, ap (highs (set_prio x t s).heap) e),
      omega (arith, v.counted, highs-le s.heap (s.curr ∷ xs)),
    )

-- Raising the priority of a number sets the first task of the ring with that number to high and
-- no other, counts it in hashigh unless it was high before, and keeps the invariant.
pub sched_high_task-Prioritised :
    (id : ℕ) (s : Sched) (xs : List ℕ)
    → IsReady s xs
    → Prioritised high id s xs (sched_high_task id s)
unfolding sched_high_task
sched_high_task-Prioritised id s xs v = elim (Option-cases (first (has_id s id) (s.curr ∷ xs))) [
  | inl f ↦ rw (find s xs id v, f) (Prioritised-none high id s xs v f)
  | inr (t, f) ↦
      let (count, few) = counted_around high s xs t (has_id s id) v f in
      elim (Bool-cases (has_high s.heap t)) [
        | inl already ↦
            rw (find s xs id v, f, already) (Prioritised-same high id s xs t v f already)
        | inr now ↦
            rw (find s xs id v, f, now)
              (Prioritised-set high (inc s.hashigh) id s xs t v f
                (omega (arith, v.census, v.small, few, (rw now at count))))
      ]
]

-- Lowering the priority of a number sets the first task of the ring with that number to low and
-- no other, takes it out of hashigh unless it was low before, and keeps the invariant.
pub sched_low_task-Prioritised :
    (id : ℕ) (s : Sched) (xs : List ℕ)
    → IsReady s xs
    → Prioritised low id s xs (sched_low_task id s)
unfolding sched_low_task
sched_low_task-Prioritised id s xs v = elim (Option-cases (first (has_id s id) (s.curr ∷ xs))) [
  | inl f ↦ rw (find s xs id v, f) (Prioritised-none low id s xs v f)
  | inr (t, f) ↦
      let (count, few) = counted_around low s xs t (has_id s id) v f in
      elim (Bool-cases (has_high s.heap t)) [
        | inl now ↦
            rw (find s xs id v, f, now)
              (Prioritised-set low (dec s.hashigh) id s xs t v f
                (omega (arith, v.census, v.small, few, (rw now at count))))
        | inr already ↦ rw (find s xs id v, f, already) (Prioritised-same low id s xs t v f already)
      ]
]

-- SIGKILL to the task that is found, and nothing if there is none
abbrev pub killed : Heap Task → Option ℕ → List (Effect Task) → List (Effect Task)
killed h none out = out
killed h (some t) out = kill (h.dierg t).pid sigkill ∷ out
