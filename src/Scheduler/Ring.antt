-- ===== src/Scheduler/Ring.antt =====
-- The circular list of `struct node_list` in scheduler-prio.c: its nodes in memory, and the
-- do-while search that walks it. Each field of the nodes is a function of the node's address.
pub mod Links
pub mod Walk
pub mod Changes
use c_development_on_linux.Base.{
  ℕ, zero, suc, Bool, true, false, List, [], ◌∷◌, ◌==◌, if◌then◌else◌, ◌≡◌, ◌≢◌,
}

-- `live` tells the allocated nodes from the freed ones; `dierg` is what a node carries.
pub record Heap (T : Type 0) : Type 0 where
  pub live : ℕ → Bool
  pub dierg : ℕ → T
  pub next : ℕ → ℕ
  pub prev : ℕ → ℕ

-- assignment to a field of the node at `p`
abbrev pub update {ℓ} : {A : Type ℓ} → (ℕ → A) → ℕ → A → ℕ → A
update f p v q = if p == q then v else f q

-- How a walk round the ring ends: at a node, back at its start, in freed memory, or not at all
-- within its fuel.
pub data Search : Type 0 where
  found : ℕ → Search
  absent dangling no_fuel : Search

-- `do { if (test(p)) break; p = p->next; } while (p != start);`
unfoldable pub search : {T : Type 0} → ℕ → (ℕ → Bool) → Heap T → ℕ → ℕ → Search
search zero test h start p = no_fuel
search (suc fuel) test h start p =
    let rest = search fuel test h start (h.next p) in
    if h.live p
    then (if test p then found p else if h.next p == start then absent else rest)
    else dangling

-- `t->prev->next = t->next; t->next->prev = t->prev;`
unfoldable pub unlink : {T : Type 0} → ℕ → Heap T → Heap T
unlink t h =
    let next' = update h.next (h.prev t) (h.next t) in
    record h { next = next'; prev = update h.prev (next' t) (h.prev t) }

-- `n->dierg = task; n->next = c->next; n->prev = c; c->next = n; n->next->prev = n;`
unfoldable pub insert_after : {T : Type 0} → ℕ → ℕ → T → Heap T → Heap T
insert_after c n task h =
    let next' = update (update h.next n (h.next c)) c n in
    record h {
      live = update h.live n true;
      dierg = update h.dierg n task;
      next = next';
      prev = update (update h.prev n c) (next' n) n;
    }

-- `free(p)`
abbrev pub free : {T : Type 0} → ℕ → Heap T → Heap T
free p h = record h { live = update h.live p false }
