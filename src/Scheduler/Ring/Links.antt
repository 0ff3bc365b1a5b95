-- ===== src/Scheduler/Ring/Links.antt =====
-- When a heap holds a ring of these nodes, and how the ring changes.
use c_development_on_linux.Base.{ℕ, true, List, [], ◌∷◌, ◌++◌, ◌≡◌, ◌≢◌, sym, append-nil}
use c_development_on_linux.Scheduler.Ring.{Heap}

-- The nodes `x`, then `ys`, then `z` follow one another, in both directions; all but `z` are live.
abbrev pub Links : {T : Type 0} → Heap T → ℕ → List ℕ → ℕ → Type 0
Links h x [] z = (h.live x ≡ true) × (h.next x ≡ z) × (h.prev z ≡ x)
Links h x (y ∷ ys) z = (h.live x ≡ true) × (h.next x ≡ y) × (h.prev y ≡ x) × Links h y ys z

abbrev pub NotIn : ℕ → List ℕ → Type 0
NotIn x [] = Unit
NotIn x (y ∷ ys) = (x ≢ y) × NotIn x ys

abbrev pub Distinct : List ℕ → Type 0
Distinct [] = Unit
Distinct (x ∷ xs) = NotIn x xs × Distinct xs

-- The ring that starts at `c` and goes on with `xs`.
pub record IsRing {T : Type 0} (h : Heap T) (c : ℕ) (xs : List ℕ) : Type 0 where
  pub links : Links h c xs c
  pub distinct : Distinct (c ∷ xs)

pub NotIn-append : (x : ℕ) (ys zs : List ℕ) → NotIn x (ys ++ zs) → NotIn x ys × NotIn x zs
NotIn-append x [] zs h = (tt, h)
NotIn-append x (y ∷ ys) zs h = let (a, b) = NotIn-append x ys zs h.1 in ((h.0, a), b)

pub append-NotIn : (x : ℕ) (ys zs : List ℕ) → NotIn x ys → NotIn x zs → NotIn x (ys ++ zs)
append-NotIn x [] zs h k = k
append-NotIn x (y ∷ ys) zs h k = (h.0, append-NotIn x ys zs h.1 k)

-- A list without repetition can be turned at any place.
pub Distinct-middle :
    (ys : List ℕ) (z : ℕ) (zs : List ℕ) → Distinct (ys ++ z ∷ zs) → NotIn z ys × NotIn z zs
Distinct-middle [] z zs d = (tt, d.0)
Distinct-middle (y ∷ ys) z zs d =
    let (a, b) = Distinct-middle ys z zs d.1 in
    (((λ e. (NotIn-append y ys (z ∷ zs) d.0).1.0 (sym e)), a), b)

pub Distinct-swap : (xs ys : List ℕ) → Distinct (xs ++ ys) → Distinct (ys ++ xs)
Distinct-swap [] ys d = rw append-nil d
Distinct-swap (x ∷ xs) ys d =
    insert_middle ys x xs (NotIn-append x xs ys d.0) (Distinct-swap xs ys d.1)
  where
    insert_middle :
        (ys : List ℕ) (x : ℕ) (xs : List ℕ)
        → NotIn x xs × NotIn x ys
        → Distinct (ys ++ xs)
        → Distinct (ys ++ x ∷ xs)
    insert_middle [] x xs n d = (n.0, d)
    insert_middle (y ∷ ys) x xs (n, (m, k)) d =
        let (a, b) = NotIn-append y ys xs d.0 in
        (append-NotIn y ys (x ∷ xs) a ((λ e. m (sym e)), b), insert_middle ys x xs (n, k) d.1)

-- A chain is two chains that meet.
pub split :
    {T : Type 0} (h : Heap T) (x : ℕ) (ys : List ℕ) (z : ℕ) (zs : List ℕ) (w : ℕ)
    → Links h x (ys ++ z ∷ zs) w
    → Links h x ys z × Links h z zs w
split h x [] z zs w (l, n, p, r) = ((l, n, p), r)
split h x (y ∷ ys) z zs w (l, n, p, r) = let (a, b) = split h y ys z zs w r in ((l, n, p, a), b)

pub join :
    {T : Type 0} (h : Heap T) (x : ℕ) (ys : List ℕ) (z : ℕ) (zs : List ℕ) (w : ℕ)
    → Links h x ys z
    → Links h z zs w
    → Links h x (ys ++ z ∷ zs) w
join h x [] z zs w (l, n, p) r = (l, n, p, r)
join h x (y ∷ ys) z zs w (l, n, p, a) r = (l, n, p, join h y ys z zs w a r)

-- A ring may be entered at any of its nodes.
pub turn :
    {T : Type 0} (h : Heap T) (x : ℕ) (ys : List ℕ) (z : ℕ) (zs : List ℕ)
    → IsRing h x (ys ++ z ∷ zs)
    → IsRing h z (zs ++ x ∷ ys)
turn h x ys z zs r =
    let (a, b) = split h x ys z zs x r.links in
    record { links = join h z zs x ys z b a; distinct = Distinct-swap (x ∷ ys) (z ∷ zs) r.distinct }
