-- ===== src/Scheduler/Prio/Deaths.antt =====
-- What `sigchld_handler` does when a child has died: the WIFEXITED || WIFSIGNALED branch.
use c_development_on_linux.Base.{
  ℕ, suc, ◌+◌, ◌<◌, true, List, [], ◌∷◌, ◌++◌, if◌then◌else◌, some, ◌≡◌, ◌≢◌, refl, sym, ap, ◌∙◌,
  arith, length, inl, inr, length-append, ==_of_ne, subst,
}
use c_development_on_linux.Base.{◌⊎◌}
use c_development_on_linux.Scheduler.Prio.State.{Task}
use c_development_on_linux.Scheduler.Runs.{kill, sigcont, Run, running, inc, dec}
use c_development_on_linux.Scheduler.Ring.Links.{
  Distinct, Distinct-middle, NotIn-append, append-NotIn,
}
use c_development_on_linux.Scheduler.Ring.Changes.{live-unlink, dierg-unlink}
use c_development_on_linux.Scheduler.Ring.{Heap, unlink, free}
use c_development_on_linux.Scheduler.Ring.Links.{NotIn, IsRing, turn}
use c_development_on_linux.Scheduler.Ring.Walk.{first, first-split, search-IsRing}
use c_development_on_linux.Scheduler.Ring.Changes.{
  unlink-IsRing, unlink_behind, next-unlink, neighbours_live, free-IsRing,
}
use c_development_on_linux.Scheduler.Prio.State.{Sched}
use c_development_on_linux.Scheduler.Prio.Handlers.{child_died, bury, has_high, has_pid}
use c_development_on_linux.Scheduler.Prio.Invariant.{
  IsReady, live-IsRing, highs, highs-append, highs-le,
}

-- the search for the child's node
pub died_found :
    (pid : ℕ) (s : Sched) (xs : List ℕ) (t : ℕ)
    → IsReady s xs
    → first (has_pid s pid) (s.curr ∷ xs) ≡ some t
    → child_died pid s ≡ bury (s.heap.next s.curr) t s
unfolding child_died
died_found pid s xs t v f = rw (
  live-IsRing s.heap s.curr xs v.ring,
  search-IsRing (s.nproc + 1) (has_pid s pid) s.heap s.curr xs v.ring (omega (arith, v.census)),
  f,
)

-- how many tasks of high priority are left without `t`
abbrev pub high_left : ℕ → Sched → ℕ
high_left t s = if has_high s.heap t then dec s.hashigh else s.hashigh

-- the state after `t` is buried and `p` has got the processor
abbrev pub buried : ℕ → ℕ → Sched → Sched
buried t p s = record s {
  heap = free t (unlink t s.heap);
  curr = p;
  hashigh = high_left t s;
  dead_children = inc s.dead_children;
  out = kill (s.heap.dierg p).pid sigcont ∷ s.out;
}

-- If no task of high priority is left, `bury` resumes what then stands behind `curr`.
bury_low :
    (x t p : ℕ) (s : Sched)
    → s.heap.live (s.heap.prev t) ≡ true
    → s.heap.live ((unlink t s.heap).next t) ≡ true
    → high_left t s ≡ 0
    → (unlink t s.heap).next s.curr ≡ p
    → s.heap.live p ≡ true
    → t ≢ p
    → inc s.dead_children ≢ inc s.nproc
    → bury x t s ≡ running (buried t p s)
unfolding bury
bury_low x t p s lp ln z e l ne m =
    rw (lp, ln, z, e)
      (rw (live-unlink s.heap t, dierg-unlink s.heap t, ==_of_ne t p ne, l, ==_of_ne _ _ m))

highs-buried : (s : Sched) (t p : ℕ) (ps : List ℕ) → highs (buried t p s).heap ps ≡ highs s.heap ps
unfolding highs
highs-buried s t p [] = refl
highs-buried s t p (q ∷ ps) = rw (dierg-unlink s.heap t, highs-buried s t p ps)

-- `high_left` counts the tasks of high priority but `t`.
high_left_lem :
    (s : Sched) (xs us : List ℕ) (t : ℕ) (vs : List ℕ)
    → IsReady s xs
    → s.curr ∷ xs ≡ us ++ t ∷ vs
    → high_left t s ≡ highs s.heap us + highs s.heap vs
unfolding highs
high_left_lem s xs us t vs v e =
    let all : highs s.heap (s.curr ∷ xs) ≡ highs s.heap (us ++ t ∷ vs) = ap (highs s.heap) e in
    let few = highs-le s.heap (s.curr ∷ xs) in
    ground (arith, v, all, few, highs-append s.heap us (t ∷ vs))

-- What the death of `t` leaves behind: the ring without `t`, entered at the task `p` that stood
-- behind `curr`, or behind that if it was `t` that stood there.
pub record Buried (s : Sched) (xs : List ℕ) (t : ℕ) (out : Run Sched) : Type 0 where
  pub p : ℕ
  pub others : List ℕ
  pub runs : out ≡ running (buried t p s)
  pub ready : IsReady (buried t p s) others
  pub gone : NotIn t (p ∷ others)
  pub order :
      ((t ≡ s.curr) × (xs ≡ p ∷ others))
      ⊎ ((us : List ℕ) × (vs : List ℕ) × (xs ≡ us ++ t ∷ vs)
          × ((us ++ vs) ++ s.curr ∷ [] ≡ p ∷ others))

buried-IsReady :
    (s : Sched) (xs : List ℕ) (t p : ℕ) (ys : List ℕ)
    → IsReady s xs
    → length xs ≡ suc (length ys)
    → IsRing (unlink t s.heap) p ys
    → NotIn t (p ∷ ys)
    → high_left t s ≡ highs s.heap (p ∷ ys)
    → IsReady (buried t p s) ys
buried-IsReady s xs t p ys v l r m h = record {
  ring = free-IsRing (unlink t s.heap) t p ys r m;
  counted = h ∙ sym (highs-buried s t p (p ∷ ys));
  census = omega (arith, v.census, v.small);
  small = v.small;
}

low_left :
    (s : Sched) (xs us : List ℕ) (t : ℕ) (vs : List ℕ)
    → IsReady s xs
    → s.curr ∷ xs ≡ us ++ t ∷ vs
    → high_left t s ≡ highs s.heap (us ++ vs)
low_left s xs us t vs v e = omega (arith, high_left_lem s xs us t vs v e, highs-append s.heap us vs)

bury_curr :
    (x y : ℕ) (zs : List ℕ) (s : Sched)
    → IsReady s (y ∷ zs)
    → high_left s.curr s ≡ 0
    → Buried s (y ∷ zs) s.curr (bury x s.curr s)
bury_curr x y zs s v z =
    let r = v.ring in
    let next = next-unlink s.heap s.curr y zs r in
    let (lc, lp, ly) = neighbours_live s.heap s.curr y zs r in
    record {
      p = y;
      others = zs;
      runs =
          bury_low x s.curr y s lp (rw next ly) z next ly r.distinct.0.0
            (omega (arith, v.census, v.small));
      ready =
          buried-IsReady s (y ∷ zs) s.curr y zs v refl (unlink-IsRing s.heap s.curr y zs r)
            r.distinct.0 (low_left s (y ∷ zs) [] s.curr (y ∷ zs) v refl);
      gone = r.distinct.0;
      order = inl (refl, refl);
    }

pub lives_round :
    (h : Heap Task) (t : ℕ) (vs : List ℕ) (c : ℕ) (us : List ℕ)
    → IsRing h t (vs ++ c ∷ us)
    → (h.live (h.prev t) ≡ true) × (h.live ((unlink t h).next t) ≡ true)
lives_round h t [] c us r =
    let (_, lp, ly) = neighbours_live h t c us r in (lp, rw (next-unlink h t c us r) ly)
lives_round h t (v ∷ vs) c us r =
    let (_, lp, ly) = neighbours_live h t v (vs ++ c ∷ us) r in
    (lp, rw (next-unlink h t v (vs ++ c ∷ us) r) ly)

-- One step on in a ring.
step_on :
    (h : Heap Task) (c : ℕ) (ws : List ℕ)
    → IsRing h c ws
    → (p : ℕ) × (ys : List ℕ) × (ws ++ c ∷ [] ≡ p ∷ ys) × (h.next c ≡ p) × IsRing h p ys
step_on h c [] r = (c, [], refl, r.links.1, r)
step_on h c (w ∷ ws) r = (w, ws ++ c ∷ [], refl, r.links.1, turn h c [] w ws r)

apart :
    (c : ℕ) (us : List ℕ) (t : ℕ) (vs : List ℕ)
    → Distinct (c ∷ (us ++ t ∷ vs))
    → NotIn t ((us ++ vs) ++ c ∷ [])
apart c us t vs d =
    let (a, b) = Distinct-middle us t vs d.1 in
    let c_ne_t = (NotIn-append c us (t ∷ vs) d.0).1.0 in
    append-NotIn t (us ++ vs) (c ∷ []) (append-NotIn t us vs a b) ((λ e. c_ne_t (sym e)), tt)

bury_other :
    (x : ℕ) (us : List ℕ) (t : ℕ) (vs : List ℕ) (s : Sched)
    → IsReady s (us ++ t ∷ vs)
    → high_left t s ≡ 0
    → Buried s (us ++ t ∷ vs) t (bury x t s)
unfolding highs
bury_other x us t vs s v z =
    let (lp, ln) = lives_round s.heap t vs s.curr us (turn s.heap s.curr us t vs v.ring) in
    let (p, ys, e, next, r) =
      step_on (unlink t s.heap) s.curr (us ++ vs) (unlink_behind s.heap s.curr us t vs v.ring) in
    let gone : NotIn t (p ∷ ys) = subst (NotIn t) e (apart s.curr us t vs v.ring.distinct) in
    let long : length ((us ++ vs) ++ s.curr ∷ []) ≡ length (p ∷ ys) = ap length e in
    let same : highs s.heap ((us ++ vs) ++ s.curr ∷ []) ≡ highs s.heap (p ∷ ys) =
      ap (highs s.heap) e in
    record {
      p = p;
      others = ys;
      runs =
          bury_low x t p s lp ln z next (live_before t p ys r) gone.0
            (omega (arith, v.census, v.small, length-append us (t ∷ vs)));
      ready =
          buried-IsReady s (us ++ t ∷ vs) t p ys v
            (omega (
              arith,
              long,
              length-append us (t ∷ vs),
              length-append us vs,
              length-append (us ++ vs) (s.curr ∷ []),
            ))
            r gone
            (omega (
              arith,
              same,
              high_left_lem s (us ++ t ∷ vs) (s.curr ∷ us) t vs v refl,
              highs-append s.heap us vs,
              highs-append s.heap (us ++ vs) (s.curr ∷ []),
            ));
      gone = gone;
      order = inr (us, vs, refl, e);
    }
  where
    live_before : (t p : ℕ) (ys : List ℕ) → IsRing (unlink t s.heap) p ys → s.heap.live p ≡ true
    live_before t p ys r = rw (live-unlink s.heap t) at (live-IsRing (unlink t s.heap) p ys r)

-- When a task dies and none of high priority is left, its node leaves the ring and is freed, the
-- ring of the others is whole, SIGCONT goes to the task that then stands behind `curr`, and the
-- counters stay consistent; no freed node is touched, as long as another task lives.
pub child_died-Buried :
    (pid : ℕ) (s : Sched) (xs : List ℕ) (t : ℕ)
    → IsReady s xs
    → 0 < length xs
    → first (has_pid s pid) (s.curr ∷ xs) ≡ some t
    → high_left t s ≡ 0
    → Buried s xs t (child_died pid s)
child_died-Buried pid s [] t v k f z = elim k [ ]
child_died-Buried pid s (y ∷ zs) t v k f z =
    let (us, vs, e, _, _) = first-split (has_pid s pid) (s.curr ∷ y ∷ zs) f in
    rw (died_found pid s (y ∷ zs) t v f) (by_place us vs e)
  where
    next : ℕ
    next = s.heap.next s.curr

    by_place :
        (us vs : List ℕ) → s.curr ∷ y ∷ zs ≡ us ++ t ∷ vs → Buried s (y ∷ zs) t (bury next t s)
    by_place [] vs e =
        let same : s.curr ≡ t = cc in
        subst (λ q. high_left q s ≡ 0 → Buried s (y ∷ zs) q (bury next q s)) same
          (λ z'. bury_curr next y zs s v z') z
    by_place (u ∷ us) vs e =
        let rest : y ∷ zs ≡ us ++ t ∷ vs = cc in
        subst (λ l. Buried s l t (bury next t s)) (sym rest)
          (bury_other next us t vs s (subst (IsReady s) rest v) z)
