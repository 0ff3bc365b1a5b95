-- ===== src/Scheduler/Prio/Invariant.antt =====
-- What holds of the globals of scheduler-prio.c between two handlers.
use mathlib.Core.Path.{subst₂}
use c_development_on_linux.Base.{
  ℕ, ◌+◌, ◌^◌, ◌<◌, ◌≤◌, true, List, [], ◌∷◌, ◌++◌, if◌then◌else◌, none, some, ◌≡◌, refl, arith,
  length, inl, inr, Bool-cases, length-append, append-nil, subst,
}
use c_development_on_linux.Scheduler.Prio.State.{Task}
use c_development_on_linux.Scheduler.Runs.{Effect}
use c_development_on_linux.Scheduler.Ring.{Heap}
use c_development_on_linux.Scheduler.Ring.Links.{IsRing, turn}
use c_development_on_linux.Scheduler.Ring.Walk.{first}
use c_development_on_linux.Scheduler.Prio.State.{Sched}
use c_development_on_linux.Scheduler.Prio.Handlers.{has_high}

-- how many of these tasks have high priority
unfoldable pub highs : Heap Task → List ℕ → ℕ
highs h [] = 0
highs h (p ∷ ps) = (if has_high h p then 1 else 0) + highs h ps

-- The tasks are the ring of `curr` and then `xs`; `hashigh` counts those of high priority, and the
-- living and the dead make up all that were ever made.
pub record IsReady (s : Sched) (xs : List ℕ) : Type 0 where
  pub ring : IsRing s.heap s.curr xs
  pub counted : s.hashigh ≡ highs s.heap (s.curr ∷ xs)
  pub census : length xs + s.dead_children ≡ s.nproc
  pub small : s.nproc < 2 ^ 31

pub highs-append : (h : Heap Task) (us vs : List ℕ) → highs h (us ++ vs) ≡ highs h us + highs h vs
unfolding highs
highs-append h [] vs = omega arith
highs-append h (a ∷ us) vs = omega (arith, highs-append h us vs)

pub highs-le : (h : Heap Task) (ps : List ℕ) → highs h ps ≤ length ps
unfolding highs
highs-le h [] = omega arith
highs-le h (p ∷ ps) = ground (arith, highs-le h ps)

-- The first task of high priority exists exactly if some are counted.
pub first-highs :
    (h : Heap Task) (ps : List ℕ) → 0 < highs h ps → (p : ℕ) × (first (has_high h) ps ≡ some p)
unfolding highs first
first-highs h [] k = elim k [ ]
first-highs h (p ∷ ps) k = elim (Bool-cases (has_high h p)) [
  | inl yes_high ↦ (p, rw yes_high)
  | inr not_high ↦ let (q, e) = first-highs h ps (ground arith) in (q, rw not_high e)
]

pub none-highs : (h : Heap Task) (ps : List ℕ) → highs h ps ≡ 0 → first (has_high h) ps ≡ none
unfolding highs first
none-highs h [] k = refl
none-highs h (p ∷ ps) k = elim (Bool-cases (has_high h p)) [
  | inl yes_high ↦ absurd (ground arith)
  | inr not_high ↦ rw not_high (none-highs h ps (ground arith))
]

-- The nodes of a ring are live.
pub live-IsRing : (h : Heap Task) (c : ℕ) (xs : List ℕ) → IsRing h c xs → h.live c ≡ true
live-IsRing h c [] r = r.links.0
live-IsRing h c (x ∷ xs) r = r.links.0

-- To enter the ring at another node keeps the invariant.
pub IsReady-turn :
    (s : Sched) (us : List ℕ) (p : ℕ) (vs : List ℕ)
    → IsReady s (us ++ p ∷ vs)
    → IsReady (record s { curr = p }) (vs ++ s.curr ∷ us)
unfolding highs
IsReady-turn s us p vs v = record {
  ring = turn s.heap s.curr us p vs v.ring;
  counted =
      omega
        (arith, v.counted, highs-append s.heap us (p ∷ vs), highs-append s.heap vs (s.curr ∷ us));
  census = omega (arith, v.census, length-append us (p ∷ vs), length-append vs (s.curr ∷ us));
  small = v.small;
}

-- The ring may be entered at whatever node stands in it.
pub IsReady-enter :
    (s : Sched) (xs us : List ℕ) (p : ℕ) (vs : List ℕ)
    → IsReady s xs
    → s.curr ∷ xs ≡ us ++ p ∷ vs
    → IsReady (record s { curr = p }) (vs ++ us)
IsReady-enter s xs [] p vs v e =
    let same : s.curr ≡ p = cc in
    let rest : xs ≡ vs = cc in
    rw (append-nil) (subst₂ (λ a b. IsReady (record s { curr = a }) b) same rest v)
IsReady-enter s xs (u ∷ us) p vs v e =
    let same : s.curr ≡ u = cc in
    let rest : xs ≡ us ++ p ∷ vs = cc in
    rw (← same) (IsReady-turn s us p vs (subst (IsReady s) rest v))

-- What a handler sends, or keeps for later, is nothing to the invariant.
pub IsReady-out :
    (s : Sched) (out : List (Effect Task)) (xs : List ℕ)
    → IsReady s xs
    → IsReady (record s { out = out }) xs
IsReady-out s out xs v = record {
  ring = v.ring;
  counted = v.counted;
  census = v.census;
  small = v.small;
}
