-- ===== src/Scheduler/Prio/Turns.antt =====
-- Whose turn comes next when a task stops: the WIFSTOPPED branch of `sigchld_handler`.
use c_development_on_linux.Base.{
  ℕ, zero, suc, true, List, [], ◌∷◌, ◌++◌, none, some, ◌≡◌, ◌≢◌, arith, length, length-append,
  ==_of_ne, ==_iff,
}
use c_development_on_linux.Scheduler.Prio.State.{Task}
use c_development_on_linux.Scheduler.Runs.{Effect, kill, sigcont, Run, running, ◌>>=◌}
use c_development_on_linux.Scheduler.Ring.{Heap}
use c_development_on_linux.Scheduler.Ring.Links.{Links, turn}
use c_development_on_linux.Scheduler.Ring.Walk.{first, first-split, outcome, search-IsRing}
use c_development_on_linux.Scheduler.Prio.State.{Sched}
use c_development_on_linux.Scheduler.Prio.Handlers.{child_stopped, has_high, scan_high}
use c_development_on_linux.Scheduler.Prio.Invariant.{
  IsReady, IsReady-turn, IsReady-enter, IsReady-out, live-IsRing, highs, highs-append, first-highs,
}

-- SIGCONT to these tasks in their order, on top of what was sent before
abbrev pub resumed : Heap Task → List ℕ → List (Effect Task) → List (Effect Task)
resumed h [] out = out
resumed h (p ∷ ps) out = resumed h ps (kill (h.dierg p).pid sigcont ∷ out)

-- the state in which the task at `p` has got the processor
abbrev pub given : ℕ → Sched → Sched
given p s = record s { curr = p; out = kill (s.heap.dierg p).pid sigcont ∷ s.out }

-- `n` quanta, at the end of each of which the current task is stopped
pub stops : ℕ → Sched → Run Sched
stops zero s = running s
stops (suc n) s = child_stopped s >>= stops n

pub stopped_low :
    (s : Sched) (p : ℕ)
    → s.heap.live s.curr ≡ true
    → s.heap.next s.curr ≡ p
    → s.heap.live p ≡ true
    → s.hashigh ≡ 0
    → child_stopped s ≡ running (given p s)
unfolding child_stopped
stopped_low s p l n m z = rw (l, (==_iff _ _).1 z, n, m)

stops-Links :
    (s : Sched) (ts : List ℕ) (z : ℕ)
    → Links s.heap s.curr ts z
    → s.heap.live z ≡ true
    → s.hashigh ≡ 0
    → stops (suc (length ts)) s
      ≡ running (record s { curr = z; out = resumed s.heap (ts ++ z ∷ []) s.out })
unfolding stops
stops-Links s [] z (l, n, p) lz e = rw (stopped_low s z l n lz e)
stops-Links s (t ∷ []) z (l, n, p, r) lz e =
    rw (stopped_low s t l n r.0 e) (stops-Links (given t s) [] z r lz e)
stops-Links s (t ∷ u ∷ ts) z (l, n, p, r) lz e =
    rw (stopped_low s t l n r.0 e) (stops-Links (given t s) (u ∷ ts) z r lz e)

-- Fairness. With no task of high priority, as many quanta as there are tasks give each task the
-- processor once, in the order of the ring, and then it is the first one's turn again.
pub round_robin :
    (s : Sched) (xs : List ℕ)
    → IsReady s xs
    → s.hashigh ≡ 0
    → stops (suc (length xs)) s
      ≡ running (record s { out = resumed s.heap (xs ++ s.curr ∷ []) s.out })
round_robin s xs v e = stops-Links s xs s.curr v.ring.links (live-IsRing s.heap s.curr xs v.ring) e

-- The scan sees the ring from the node behind `curr`, and `curr` last.
scan_high_lem :
    (s : Sched) (xs : List ℕ)
    → IsReady s xs
    → (s.heap.live (s.heap.next s.curr) ≡ true)
      × (scan_high (s.heap.next s.curr) s ≡ outcome (first (has_high s.heap) (xs ++ s.curr ∷ [])))
scan_high_lem s [] v =
    let (l, n, _) = v.ring.links in
    (rw n l, rw n (search-IsRing _ (has_high s.heap) s.heap s.curr [] v.ring (omega arith)))
scan_high_lem s (x ∷ xs) v =
    let (_, n, _, _) = v.ring.links in
    let r = turn s.heap s.curr [] x xs v.ring in
    (
      rw n (live-IsRing s.heap x (xs ++ s.curr ∷ []) r),
      rw n (
          search-IsRing _ (has_high s.heap) s.heap x (xs ++ s.curr ∷ []) r
            (omega (arith, v.census, length-append xs (s.curr ∷ [])))),
    )

-- What a quantum's end leaves behind when tasks of high priority wait.
pub record HighTurn (s : Sched) (xs : List ℕ) : Type 0 where
  pub p : ℕ
  pub before : List ℕ
  pub behind : List ℕ
  pub order : xs ++ s.curr ∷ [] ≡ before ++ p ∷ behind
  pub none_before : first (has_high s.heap) before ≡ none
  pub is_high : has_high s.heap p ≡ true
  pub runs : child_stopped s ≡ running (given p s)
  pub ready : IsReady (given p s) (behind ++ before)

enter_behind :
    (s : Sched) (xs us : List ℕ) (p : ℕ) (vs : List ℕ)
    → IsReady s xs
    → xs ++ s.curr ∷ [] ≡ us ++ p ∷ vs
    → IsReady (record s { curr = p }) (vs ++ us)
enter_behind s [] us p vs v e = IsReady-enter s [] us p vs v e
enter_behind s (x ∷ xs) us p vs v e =
    IsReady-enter (record s { curr = x }) (xs ++ s.curr ∷ []) us p vs (IsReady-turn s [] x xs v) e

first_high :
    (s : Sched) (xs : List ℕ)
    → IsReady s xs
    → s.hashigh ≢ 0
    → (p : ℕ) × (first (has_high s.heap) (xs ++ s.curr ∷ []) ≡ some p)
unfolding highs
first_high s xs v e =
    first-highs s.heap (xs ++ s.curr ∷ [])
      (omega (arith, v.counted, highs-append s.heap xs (s.curr ∷ [])))

-- With tasks of high priority the processor goes to the first of them behind the task that stopped,
-- in the order of the ring, to that task itself only if no other is of high priority; tasks of low
-- priority are passed over, no freed node is touched, and the globals stay consistent.
pub child_stopped-HighTurn :
    (s : Sched) (xs : List ℕ) → IsReady s xs → s.hashigh ≢ 0 → HighTurn s xs
unfolding child_stopped
child_stopped-HighTurn s xs v e =
    let (p, f) = first_high s xs v e in
    let (us, vs, o, n, t) = first-split (has_high s.heap) (xs ++ s.curr ∷ []) f in
    let ready : IsReady (record s { curr = p }) (vs ++ us) = enter_behind s xs us p vs v o in
    let scan = scan_high_lem s xs v in
    record {
      p = p;
      before = us;
      behind = vs;
      order = o;
      none_before = n;
      is_high = t;
      runs = rw (
        live-IsRing s.heap s.curr xs v.ring,
        ==_of_ne s.hashigh 0 e,
        scan.1,
        f,
        live-IsRing s.heap p (vs ++ us) ready.ring,
      );
      ready = IsReady-out (record s { curr = p }) _ (vs ++ us) ready;
    }
