-- ===== src/Scheduler/Ring/Walk.antt =====
-- The do-while search finds the first node of the ring, in its order, that passes the test.
use c_development_on_linux.Base.{
  ℕ, zero, suc, ◌+◌, ◌<◌, Bool, true, Option, none, some, List, [], ◌∷◌, ◌++◌, if◌then◌else◌, ◌≡◌,
  refl, ap, sym, arith, length, ==_of_ne, ==_iff, inl, inr, Bool-cases,
}
use c_development_on_linux.Scheduler.Ring.{Heap, Search, found, absent, search}
use c_development_on_linux.Scheduler.Ring.Links.{Links, NotIn, IsRing}

unfoldable pub first : (ℕ → Bool) → List ℕ → Option ℕ
first test [] = none
first test (p ∷ ps) = if test p then some p else first test ps

abbrev pub outcome : Option ℕ → Search
outcome none = absent
outcome (some p) = found p

search-Links :
    (fuel : ℕ) (test : ℕ → Bool) {T : Type 0} (h : Heap T) (start p : ℕ) (ps : List ℕ)
    → Links h p ps start
    → NotIn start ps
    → length ps < fuel
    → search fuel test h start p ≡ outcome (first test (p ∷ ps))
unfolding search first
search-Links zero test h start p ps l n f = elim f [ ]
search-Links (suc fuel) test h start p [] (live, next, prev) n f = elim (Bool-cases (test p)) [
  | inl hit ↦ rw (live, hit)
  | inr miss ↦ rw (live, miss, (==_iff _ _).1 next)
]
search-Links (suc fuel) test h start p (q ∷ ps) (live, next, prev, l) n f =
    elim (Bool-cases (test p)) [
      | inl hit ↦ rw (live, hit)
      | inr miss ↦
          rw (live, miss, next, ==_of_ne q start (λ e. n.0 (sym e)))
            (search-Links fuel test h start q ps l n.1 (omega arith))
    ]

-- From any node of a ring the search visits each node once, in the ring's order, and stops at the
-- first that passes the test: it touches no freed node, and needs no more rounds than nodes.
pub search-IsRing :
    (fuel : ℕ) (test : ℕ → Bool) {T : Type 0} (h : Heap T) (c : ℕ) (xs : List ℕ)
    → IsRing h c xs
    → length xs < fuel
    → search fuel test h c c ≡ outcome (first test (c ∷ xs))
search-IsRing fuel test h c xs r f = search-Links fuel test h c c xs r.links r.distinct.0 f

-- Where the first node that passes a test stands.
pub first-split :
    (test : ℕ → Bool) (ps : List ℕ) {p : ℕ}
    → first test ps ≡ some p
    → (us : List ℕ) × (vs : List ℕ) × (ps ≡ us ++ p ∷ vs) × (first test us ≡ none) × (test p ≡ true)
unfolding first
first-split test [] e = absurd (ground arith)
first-split test (q ∷ ps) {p} e = elim (Bool-cases (test q)) [
  | inl hit ↦
      let same : q ≡ p = ground arith in ([], ps, ap (λ x. x ∷ ps) same, refl, rw (← same) hit)
  | inr miss ↦
      let (us, vs, e', n, t) = first-split test ps (rw miss at e) in
      (q ∷ us, vs, ap (◌∷◌ q) e', rw (miss) n, t)
]

pub first-append-none :
    (test : ℕ → Bool) (us vs : List ℕ)
    → first test us ≡ none
    → first test (us ++ vs) ≡ first test vs
unfolding first
first-append-none test [] vs h = refl
first-append-none test (a ∷ us) vs h = elim (Bool-cases (test a)) [
  | inl hit ↦ absurd (ground arith)
  | inr miss ↦ rw miss (first-append-none test us vs (rw miss at h))
]

-- A walk that starts at a node that passes ends there.
pub search_here :
    (n : ℕ) (test : ℕ → Bool) {T : Type 0} (h : Heap T) (start p : ℕ)
    → h.live p ≡ true
    → test p ≡ true
    → search (n + 1) test h start p ≡ found p
unfolding search
search_here n test h start p l t = let e : n + 1 ≡ suc n = omega arith in rw (e, l, t)
