-- ===== src/Scheduler/Prio/Crashes.antt =====
-- The deaths after which scheduler-prio.c touches a freed node.
use c_development_on_linux.Base.{
  ℕ, ◌+◌, true, false, List, [], ◌∷◌, if◌then◌else◌, ◌≡◌, ◌≢◌, refl, ap, ◌∙◌, arith, inl, inr,
  Bool-cases, ==_of_ne, ==_iff,
}
use c_development_on_linux.Scheduler.Runs.{kill, sigcont, running, crashed, inc, dec}
use c_development_on_linux.Scheduler.Ring.Changes.{live-unlink, dierg-unlink}
use c_development_on_linux.Scheduler.Ring.{unlink, found}
use c_development_on_linux.Scheduler.Ring.Links.{turn}
use c_development_on_linux.Scheduler.Ring.Walk.{search_here, first, search-IsRing}
use c_development_on_linux.Scheduler.Prio.State.{Sched}
use c_development_on_linux.Scheduler.Prio.Handlers.{
  child_died, sigalrm_handler, bury, has_high, has_pid, scan_high,
}
use c_development_on_linux.Scheduler.Prio.Invariant.{IsReady, live-IsRing, highs}
use c_development_on_linux.Scheduler.Prio.Deaths.{died_found, lives_round, high_left, buried}

alone_count :
    (s : Sched) → IsReady s [] → (if has_high s.heap s.curr then dec s.hashigh else s.hashigh) ≡ 0
unfolding highs
alone_count s v = elim (Bool-cases (has_high s.heap s.curr)) [
  | inl h ↦ let one : s.hashigh ≡ 1 = ground (arith, v.counted) in rw (h, one)
  | inr h ↦ rw h (ground (arith, v.counted))
]

bury_alone : (x : ℕ) (s : Sched) → IsReady s [] → bury x s.curr s ≡ crashed
unfolding bury unlink
bury_alone x s v = let (l, n, p) = v.ring.links in ground (arith, alone_count s v)

-- The last task's death reads its node after it is freed, whatever its pid and priority: the
-- handler does not come to the message that all children are dead, nor to `exit(0)`.
pub last_death_crashes : (pid : ℕ) (s : Sched) → IsReady s [] → child_died pid s ≡ crashed
unfolding child_died first
last_death_crashes pid s v =
    let walk = search-IsRing (s.nproc + 1) (has_pid s pid) s.heap s.curr [] v.ring (omega arith) in
    elim (Bool-cases (has_pid s pid s.curr)) [
      | inl is_pid ↦ rw (v.ring.links.0, walk, is_pid) (bury_alone (s.heap.next s.curr) s v)
      | inr other ↦ rw (v.ring.links.0, walk, other) (bury_alone (s.heap.next s.curr) s v)
    ]

-- The scan stops at once at a node of high priority, be it the dead one.
bury_high :
    (t : ℕ) (s : Sched)
    → s.heap.live t ≡ true
    → s.heap.live (s.heap.prev t) ≡ true
    → s.heap.live ((unlink t s.heap).next t) ≡ true
    → high_left t s ≢ 0
    → has_high s.heap t ≡ true
    → inc s.dead_children ≢ inc s.nproc
    → bury t t s ≡ running (buried t t s)
unfolding bury
bury_high t s l lp ln z hi m =
    let u : Sched = record s { heap = unlink t s.heap; hashigh = high_left t s } in
    let scan : scan_high t u ≡ found t =
      search_here s.nproc (has_high u.heap) u.heap (u.heap.next s.curr) t
        (rw (live-unlink s.heap t) l) (rw (dierg-unlink s.heap t) hi) in
    rw (
      lp,
      ln,
      ==_of_ne (high_left t s) 0 z,
      scan,
      live-unlink s.heap t,
      l,
      dierg-unlink s.heap t,
      ==_of_ne _ _ m,
    )

-- The defect of the other branch. The task right behind `curr` has high priority and dies while
-- another of high priority is left: the scan starts at its node, SIGCONT goes to the dead child,
-- and `curr` is left at the node that is then freed, so that the next SIGALRM reads freed memory.
pub child_died_dangling :
    (pid : ℕ) (s : Sched) (t : ℕ) (xs : List ℕ)
    → IsReady s (t ∷ xs)
    → has_pid s pid s.curr ≡ false
    → has_pid s pid t ≡ true
    → has_high s.heap t ≡ true
    → high_left t s ≢ 0
    → (s' : Sched) × (child_died pid s ≡ running s')
      × (s'.curr ≡ t)
      × (s'.heap.live t ≡ false)
      × (s'.out ≡ kill (s.heap.dierg t).pid sigcont ∷ s.out)
      × (sigalrm_handler s' ≡ crashed)
unfolding first sigalrm_handler
child_died_dangling pid s t xs v c p hi left =
    let r = turn s.heap s.curr [] t xs v.ring in
    let (lp, ln) = lives_round s.heap t xs s.curr [] r in
    let hit : child_died pid s ≡ bury (s.heap.next s.curr) t s =
      died_found pid s (t ∷ xs) t v (rw (c, p)) in
    let next : s.heap.next s.curr ≡ t = v.ring.links.1 in
    let gone : (buried t t s).heap.live t ≡ false =
      rw (live-unlink s.heap t, (==_iff t t).1 refl) in
    (
      buried t t s,
      hit
          ∙ ap (λ x. bury x t s) next
          ∙ bury_high t s (live-IsRing s.heap t _ r) lp ln left hi
              (omega (arith, v.census, v.small)),
      refl,
      gone,
      refl,
      rw gone,
    )
