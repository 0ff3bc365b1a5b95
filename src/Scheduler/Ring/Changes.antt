-- ===== src/Scheduler/Ring/Changes.antt =====
-- How insertion, removal and `free` change a ring.
use c_development_on_linux.Base.{
  ℕ, Bool, true, false, List, [], ◌∷◌, ◌++◌, ◌≡◌, ◌≢◌, refl, sym, ◌∙◌, arith, ==_of_ne, ==_refl,
  append-nil,
}
use c_development_on_linux.Scheduler.Ring.{Heap, update, unlink, insert_after, free}
use c_development_on_linux.Scheduler.Ring.Links.{Links, NotIn, Distinct, IsRing, turn}

pub update_self {ℓ} : {A : Type ℓ} (f : ℕ → A) (p : ℕ) (v : A) → update f p v p ≡ v
update_self f p v = rw (==_refl p)

pub update_ne {ℓ} : {A : Type ℓ} (f : ℕ → A) (p q : ℕ) (v : A) → p ≢ q → update f p v q ≡ f q
update_ne f p q v n = rw (==_of_ne p q n)

-- A chain does not see what is written elsewhere.
frame_next :
    {T : Type 0} (h : Heap T) (a v x : ℕ) (ys : List ℕ) (z : ℕ)
    → NotIn a (x ∷ ys)
    → Links h x ys z
    → Links (record h { next = update h.next a v }) x ys z
frame_next h a v x [] z n (l, e, p) = (l, update_ne h.next a x v n.0 ∙ e, p)
frame_next h a v x (y ∷ ys) z n (l, e, p, r) =
    (l, update_ne h.next a x v n.0 ∙ e, p, frame_next h a v y ys z n.1 r)

frame_prev :
    {T : Type 0} (h : Heap T) (a v x : ℕ) (ys : List ℕ) (z : ℕ)
    → NotIn a ys
    → a ≢ z
    → Links h x ys z
    → Links (record h { prev = update h.prev a v }) x ys z
frame_prev h a v x [] z n m (l, e, p) = (l, e, update_ne h.prev a z v m ∙ p)
frame_prev h a v x (y ∷ ys) z n m (l, e, p, r) =
    (l, e, update_ne h.prev a y v n.0 ∙ p, frame_prev h a v y ys z n.1 m r)

frame_live :
    {T : Type 0} (h : Heap T) (a : ℕ) (b : Bool) (x : ℕ) (ys : List ℕ) (z : ℕ)
    → NotIn a (x ∷ ys)
    → Links h x ys z
    → Links (record h { live = update h.live a b }) x ys z
frame_live h a b x [] z n (l, e, p) = (update_ne h.live a x b n.0 ∙ l, e, p)
frame_live h a b x (y ∷ ys) z n (l, e, p, r) =
    (update_ne h.live a x b n.0 ∙ l, e, p, frame_live h a b y ys z n.1 r)

frame_dierg :
    {T : Type 0} (h : Heap T) (f : ℕ → T) (x : ℕ) (ys : List ℕ) (z : ℕ)
    → Links h x ys z
    → Links (record h { dierg = f }) x ys z
frame_dierg h f x [] z r = r
frame_dierg h f x (y ∷ ys) z (l, e, p, r) = (l, e, p, frame_dierg h f y ys z r)

-- The ring does not depend on what the nodes carry.
pub IsRing-dierg :
    {T : Type 0} (h : Heap T) (f : ℕ → T) (c : ℕ) (xs : List ℕ)
    → IsRing h c xs
    → IsRing (record h { dierg = f }) c xs
IsRing-dierg h f c xs r = record { links = frame_dierg h f c xs c r.links; distinct = r.distinct }

-- The new node stands behind the one where it is inserted.
pub insert_after-IsRing :
    {T : Type 0} (h : Heap T) (c n : ℕ) (task : T) (xs : List ℕ)
    → IsRing h c xs
    → NotIn n (c ∷ xs)
    → IsRing (insert_after c n task h) c (n ∷ xs)
unfolding insert_after
insert_after-IsRing h c n task [] r m = record {
  links = ground (arith, r.links);
  distinct = (((λ e. m.0 (sym e)), tt), (tt, tt));
}
insert_after-IsRing {T} h c n task (x ∷ xs) r m =
    let (live, next, prev, tail) = r.links in
    let behind : update (update h.next n (h.next c)) c n n ≡ x = ground arith in
    let c_ne_n : c ≢ n = λ e. m.0 (sym e) in
    let h1 : Heap T = record h { dierg = update h.dierg n task; live = update h.live n true } in
    let h2 : Heap T = record h1 { next = update h1.next n (h.next c) } in
    let h3 : Heap T = record h2 { next = update h2.next c n } in
    let h4 : Heap T = record h3 { prev = update h3.prev n c } in
    let t1 =
      frame_live (record h { dierg = update h.dierg n task }) n true x xs c m.1
        (frame_dierg h (update h.dierg n task) x xs c tail) in
    let t2 = frame_next h1 n (h.next c) x xs c m.1 t1 in
    let t3 = frame_next h2 c n x xs c r.distinct.0 t2 in
    let t4 = frame_prev h3 n c x xs c m.1.1 m.0 t3 in
    let t5 =
      frame_prev h4 (h3.next n) n x xs c (rw behind r.distinct.1.0)
        (rw behind (λ e. r.distinct.0.0 (sym e))) t4 in
    record {
      links = (
        ground arith,
        ground arith,
        ground arith,
        (ground arith, ground arith, ground arith, t5),
      );
      distinct = ((c_ne_n, r.distinct.0), (m.1, r.distinct.1));
    }

-- The node before the end of a chain is one of the chain.
last_ne :
    {T : Type 0} (h : Heap T) (a x : ℕ) (ys : List ℕ) (z : ℕ)
    → Links h x ys z
    → NotIn a (x ∷ ys)
    → a ≢ h.prev z
last_ne h a x [] z (l, n, p) m = λ e. m.0 (e ∙ p)
last_ne h a x (y ∷ ys) z (l, n, p, r) m = last_ne h a y ys z r m.1

-- A chain can be led to another end.
relink :
    {T : Type 0} (h : Heap T) (x : ℕ) (ys : List ℕ) (z w : ℕ)
    → Links h x ys z
    → Distinct (x ∷ ys)
    → NotIn w ys
    → Links
        (record h { next = update h.next (h.prev z) w; prev = update h.prev w (h.prev z) })
        x
        ys
        w
relink h x [] z w (l, n, p) d m =
    (l, rw (sym p) (update_self h.next (h.prev z) w), update_self h.prev w (h.prev z) ∙ p)
relink h x (y ∷ ys) z w (l, n, p, r) d m = (
  l,
  update_ne h.next (h.prev z) x w (λ e. last_ne h x y ys z r d.0 (sym e)) ∙ n,
  update_ne h.prev w y (h.prev z) m.0 ∙ p,
  relink h y ys z w r d.1 m.1,
)

-- Without one of its nodes, a ring of several is a ring.
pub unlink-IsRing :
    {T : Type 0} (h : Heap T) (t y : ℕ) (zs : List ℕ)
    → IsRing h t (y ∷ zs)
    → IsRing (unlink t h) y zs
unfolding unlink
unlink-IsRing h t y zs r =
    let (live, next, prev, tail) = r.links in
    let same : update h.next (h.prev t) (h.next t) t ≡ y =
      update_ne h.next (h.prev t) t (h.next t) (λ e. last_ne h t y zs t tail r.distinct.0 (sym e))
      ∙ next in
    record {
      links = rw (same, next) (relink h y zs t y tail r.distinct.1 r.distinct.1.0);
      distinct = r.distinct.1;
    }

pub free-IsRing :
    {T : Type 0} (h : Heap T) (t c : ℕ) (xs : List ℕ)
    → IsRing h c xs
    → NotIn t (c ∷ xs)
    → IsRing (free t h) c xs
free-IsRing h t c xs r m = record {
  links = frame_live h t false c xs c m r.links;
  distinct = r.distinct;
}

-- A ring of one node is left as it is.
pub unlink_alone : {T : Type 0} (h : Heap T) (t : ℕ) → IsRing h t [] → IsRing (unlink t h) t []
unfolding unlink
unlink_alone h t r = record { links = ground (arith, r.links); distinct = r.distinct }

-- A node that leaves a ring of several: what is left, entered at the node `c` that was before it.
pub unlink_behind :
    {T : Type 0} (h : Heap T) (c : ℕ) (us : List ℕ) (t : ℕ) (vs : List ℕ)
    → IsRing h c (us ++ t ∷ vs)
    → IsRing (unlink t h) c (us ++ vs)
unlink_behind h c us t [] r = rw append-nil (unlink-IsRing h t c us (turn h c us t [] r))
unlink_behind h c us t (v ∷ vs) r =
    turn (unlink t h) v vs c us (unlink-IsRing h t v (vs ++ c ∷ us) (turn h c us t (v ∷ vs) r))

-- A node that is unlinked still points to the one that stood behind it.
pub next-unlink :
    {T : Type 0} (h : Heap T) (t y : ℕ) (zs : List ℕ)
    → IsRing h t (y ∷ zs)
    → (unlink t h).next t ≡ y
unfolding unlink
next-unlink h t y zs r =
    let (live, next, prev, tail) = r.links in
    update_ne h.next (h.prev t) t (h.next t) (λ e. last_ne h t y zs t tail r.distinct.0 (sym e))
    ∙ next

-- The nodes round a node of a ring are live.
pub neighbours_live :
    {T : Type 0} (h : Heap T) (t y : ℕ) (zs : List ℕ)
    → IsRing h t (y ∷ zs)
    → (h.live t ≡ true) × (h.live (h.prev t) ≡ true) × (h.live y ≡ true)
neighbours_live h t y zs r =
    let (live, next, prev, tail) = r.links in
    (live, prev_live h y zs t tail, head_live h y zs t tail)
  where
    prev_live :
        {T : Type 0} (h : Heap T) (y : ℕ) (zs : List ℕ) (z : ℕ)
        → Links h y zs z
        → h.live (h.prev z) ≡ true
    prev_live h y [] z (l, n, p) = rw p l
    prev_live h y (w ∷ zs) z (l, n, p, r) = prev_live h w zs z r

    head_live :
        {T : Type 0} (h : Heap T) (y : ℕ) (zs : List ℕ) (z : ℕ) → Links h y zs z → h.live y ≡ true
    head_live h y [] z (l, _, _) = l
    head_live h y (w ∷ zs) z (l, _, _, _) = l

pub live-unlink : {T : Type 0} (h : Heap T) (t : ℕ) → (unlink t h).live ≡ h.live
unfolding unlink
live-unlink h t = refl

pub dierg-unlink : {T : Type 0} (h : Heap T) (t : ℕ) → (unlink t h).dierg ≡ h.dierg
unfolding unlink
dierg-unlink h t = refl
