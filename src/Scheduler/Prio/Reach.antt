-- ===== src/Scheduler/Prio/Reach.antt =====
-- The states that the loop of scheduler-prio.c gets into.
use c_development_on_linux.Base.{
  ℕ, ◌+◌, ◌^◌, ◌<◌, false, List, [], ◌∷◌, Option, some, none, ◌≡◌, ◌≢◌, refl, sym, ap, ◌∙◌, arith,
  ◌==◌, inl, inr, Bool-cases, ==_iff, length,
}
use c_development_on_linux.Scheduler.Ring.{Heap, found, search}
use c_development_on_linux.Scheduler.Ring.Links.{Links, NotIn}
use c_development_on_linux.Scheduler.Ring.Walk.{outcome, search-IsRing}
use c_development_on_linux.Scheduler.Runs.{
  Run, running, ◌>>=◌, Event, request, alarm_rings, child_signal, waited, has_exited, was_signaled,
  was_stopped, other_status, alarm, kill, sigstop, quantum, replied,
}
use c_development_on_linux.Scheduler.Prio.State.{Sched, emit}
use c_development_on_linux.Scheduler.Prio.Handlers.{
  fuel, has_pid, child_stopped, child_died, process_request, sigalrm_handler, reap,
}
use c_development_on_linux.Scheduler.Prio.Session.{handle}
use c_development_on_linux.Scheduler.Prio.Invariant.{
  IsReady, IsReady-turn, IsReady-out, live-IsRing,
}
use c_development_on_linux.Scheduler.Prio.Turns.{stopped_low, given, child_stopped-HighTurn}
use c_development_on_linux.Scheduler.Prio.Deaths.{high_left, child_died-Buried}
use c_development_on_linux.Scheduler.Prio.Requests.{process_request-IsReady}

-- The death of a task that leaves another one behind, and none of high priority.
abbrev pub Bearable : ℕ → Sched → Type 0
Bearable pid s =
    (t : ℕ) × (search (fuel s) (has_pid s pid) s.heap s.curr s.curr ≡ found t)
    × (s.heap.next s.curr ≢ s.curr)
    × (high_left t s ≡ 0)

-- What the system may do: `malloc` returns memory that was free, numbers of tasks are not used up,
-- `waitpid` tells of what is known, and deaths can be borne.
abbrev pub Fine : Event → Sched → Type 0
Fine (request child n rq) s = (s.heap.live n ≡ false) × (s.nproc + 1 < 2 ^ 31)
Fine alarm_rings s = Unit
Fine child_signal s = Unit
Fine (waited pid was_stopped) s = Unit
Fine (waited pid has_exited) s = Bearable pid s
Fine (waited pid was_signaled) s = Bearable pid s
Fine (waited pid other_status) s = ⊥

pub freed-NotIn :
    {T : Type 0} (h : Heap T) (n x : ℕ) (ys : List ℕ) (z : ℕ)
    → Links h x ys z
    → h.live n ≡ false
    → NotIn n (x ∷ ys)
freed-NotIn h n x [] z (l, _, _) f = ((λ e. absurd (ground (arith, sym f ∙ ap h.live e ∙ l))), tt)
freed-NotIn h n x (y ∷ ys) z (l, _, _, r) f =
    ((λ e. absurd (ground (arith, sym f ∙ ap h.live e ∙ l))), freed-NotIn h n y ys z r f)

-- A run that comes back with the invariant
abbrev pub Returns : Run Sched → Type 0
Returns r = (s : Sched) × (xs : List ℕ) × (r ≡ running s) × IsReady s xs

child_stopped-Returns : (s : Sched) (xs : List ℕ) → IsReady s xs → Returns (child_stopped s)
child_stopped-Returns s xs v = elim (Bool-cases (s.hashigh == 0)) [
  | inr some_high ↦
      let turn = child_stopped-HighTurn s xs v (λ e. absurd (ground (arith, some_high, e))) in
      (given turn.p s, _, turn.runs, turn.ready)
  | inl none_high ↦ next xs v ((==_iff s.hashigh 0).0 none_high)
]
  where
    next : (xs : List ℕ) → IsReady s xs → s.hashigh ≡ 0 → Returns (child_stopped s)
    next [] v z =
        let (l, n, _) = v.ring.links in
        (given s.curr s, [], stopped_low s s.curr l n l z, IsReady-out s _ [] v)
    next (x ∷ xs) v z =
        let (l, n, _, _) = v.ring.links in
        let turned = IsReady-turn s [] x xs v in
        (
          given x s,
          _,
          stopped_low s x l n (live-IsRing s.heap x _ turned.ring) z,
          IsReady-out (record s { curr = x }) _ _ turned,
        )

-- a search that finds a node finds the first one of the ring that passes
found_first : (o : Option ℕ) (t : ℕ) → outcome o ≡ found t → o ≡ some t
found_first none t e = absurd (ground arith)
found_first (some p) t e = ground arith

child_died-Returns :
    (pid : ℕ) (s : Sched) (xs : List ℕ) → IsReady s xs → Bearable pid s → Returns (child_died pid s)
child_died-Returns pid s xs v (t, e, other, left) =
    let walk =
      search-IsRing (s.nproc + 1) (has_pid s pid) s.heap s.curr xs v.ring
        (omega (arith, v.census)) in
    let b = child_died-Buried pid s xs t v (several xs v) (found_first _ t (sym walk ∙ e)) left in
    (_, b.others, b.runs, b.ready)
  where
    several : (xs : List ℕ) → IsReady s xs → 0 < length xs
    several [] v = absurd (other (v.ring.links.1))
    several (x ∷ xs) v = omega arith

pub handle-Returns :
    (e : Event) (s : Sched) (xs : List ℕ) → IsReady s xs → Fine e s → Returns (handle e s)
unfolding handle sigalrm_handler reap
handle-Returns (request child n rq) s xs v (free, room) =
    let fresh = freed-NotIn s.heap n s.curr xs s.curr v.ring.links free in
    let (t, ys, runs, ready) = process_request-IsReady child n rq s xs v (fresh, room) in
    (
      _,
      ys,
      ap (λ r. r >>= λ t. running (emit (replied ((process_request child n rq s).1)) t)) runs,
      IsReady-out t _ ys ready,
    )
handle-Returns alarm_rings s xs v f = (
  _,
  xs,
  rw (live-IsRing s.heap s.curr xs v.ring) refl,
  IsReady-out s (kill (s.heap.dierg s.curr).pid sigstop ∷ s.out) xs v,
)
handle-Returns child_signal s xs v f = (_, xs, refl, IsReady-out s (alarm quantum ∷ s.out) xs v)
handle-Returns (waited pid was_stopped) s xs v f = child_stopped-Returns s xs v
handle-Returns (waited pid has_exited) s xs v f = child_died-Returns pid s xs v f
handle-Returns (waited pid was_signaled) s xs v f = child_died-Returns pid s xs v f
handle-Returns (waited pid other_status) s xs v f = absurd f

pub running_inj : (s t : Sched) → running s ≡ running t → s ≡ t
running_inj s t e = ap of_run e
  where
    of_run : Run Sched → Sched
    of_run (running u) = u
    of_run r = s

-- The states that a run of the scheduler gets into, one event after another.
pub data Reach (s0 : Sched) : Sched → Type 0 where
  here : Reach s0 s0
  next : {s s' : Sched} (e : Event) → Reach s0 s → Fine e s → handle e s ≡ running s' → Reach s0 s'

reached : {s0 s : Sched} (xs : List ℕ) → IsReady s0 xs → Reach s0 s → (ys : List ℕ) × IsReady s ys
reached xs v here = (xs, v)
reached xs v (next {s} {s'} e r fine went) =
    let (ys, w) = reached xs v r in
    let (t, zs, runs, ready) = handle-Returns e s ys w fine in
    let same : t ≡ s' = running_inj t s' (sym runs ∙ went) in (zs, rw (← same) ready)

-- Whatever requests, alarms, stops and bearable deaths come in whatever order, the tasks stay a ring
-- with true counters, and the next event is handled without touching a freed node, without looping
-- for ever and without ending the program.
pub Reach-safe :
    {s0 s : Sched} (xs : List ℕ)
    → IsReady s0 xs
    → Reach s0 s
    → ((ys : List ℕ) × IsReady s ys) × ((e : Event) → Fine e s → Returns (handle e s))
Reach-safe {s0} {s} xs v r =
    let (ys, w) = reached xs v r in ((ys, w), λ e fine. handle-Returns e s ys w fine)
