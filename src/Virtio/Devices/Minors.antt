-- ===== src/Virtio/Devices/Minors.antt =====
-- Each device of the guest is found under its minor number.
use c_development_on_linux.Base.{
  ℕ, ◌+◌, ◌%◌, ◌^◌, ◌<◌, ◌≤◌, ◌≢◌, Bool, true, false, ◌==◌, List, [], ◌∷◌, ◌++◌, some, ◌≡◌, refl,
  sym, arith, All, All-append, Bool-cases, inl, inr, length, ==_refl, ==_of_ne,
}
use c_development_on_linux.Virtio.Devices.{
  Device, Driver, by_minor, get_crypto_dev_by_minor, virtcons_probe, without, virtcons_remove,
}

-- The numbers in a list differ, and all are below the next one.
abbrev pub Differ : List Device → Type 0
Differ [] = Unit
Differ (d ∷ ds) = All (λ e. e.minor ≢ d.minor) ds × Differ ds

pub record Numbered (s : Driver) : Type 0 where
  pub differ : Differ s.devs
  pub below : All (λ d. d.minor < s.next_minor) s.devs

-- a device comes, with what the kernel grants, or goes
pub data Plug : Type 0 where
  comes : Bool → Bool → ℕ → Plug
  goes : ℕ → Plug

abbrev pub plug : Plug → Driver → Driver
plug (comes has_memory has_queue vdev') s = (virtcons_probe has_memory has_queue vdev' s).1
plug (goes vdev') s = virtcons_remove vdev' s

abbrev pub run_plugs : List Plug → Driver → Driver
run_plugs [] s = s
run_plugs (p ∷ ps) s = run_plugs ps (plug p s)

weaker : (n : ℕ) (ds : List Device) → All (λ d. d.minor < n) ds → All (λ d. d.minor < n + 1) ds
weaker n [] a = tt
weaker n (d ∷ ds) a = (omega (arith, a.0), weaker n ds a.1)

Differ-append :
    (ds : List Device) (e : Device)
    → Differ ds
    → All (λ d. d.minor < e.minor) ds
    → Differ (ds ++ e ∷ [])
Differ-append [] e f b = (tt, tt)
Differ-append (d ∷ ds) e f b = (
  All-append (λ x. x.minor ≢ d.minor) ds (e ∷ []) f.0 ((λ h. omega (arith, h, b.0)), tt),
  Differ-append ds e f.1 b.1,
)

All-without : (P : Device → Type 0) (v : ℕ) (ds : List Device) → All P ds → All P (without v ds)
unfolding without
All-without P v [] a = tt
All-without P v (d ∷ ds) a = elim (Bool-cases (d.vdev == v)) [
  | inl this ↦ rw this a.1
  | inr other ↦ rw other (a.0, All-without P v ds a.1)
]

Differ-without : (v : ℕ) (ds : List Device) → Differ ds → Differ (without v ds)
unfolding without
Differ-without v [] f = tt
Differ-without v (d ∷ ds) f = elim (Bool-cases (d.vdev == v)) [
  | inl this ↦ rw this f.1
  | inr other ↦ rw other (All-without (λ e. e.minor ≢ d.minor) v ds f.0, Differ-without v ds f.1)
]

-- What a change of the list leaves: numbers that differ, and the next one at most one higher.
record Kept (s t : Driver) : Type 0 where
  numbered : Numbered t
  next : t.next_minor ≤ s.next_minor + 1

probed :
    (v : ℕ) (s : Driver)
    → Numbered s
    → s.next_minor + 1 < 2 ^ 32
    → Kept s (virtcons_probe true true v s).1
unfolding virtcons_probe
probed v s i h =
    let next' : (s.next_minor + 1) % 2 ^ 32 ≡ s.next_minor + 1 = omega (arith, h) in
    record {
      numbered = record {
        differ = Differ-append s.devs (record { vdev = v; minor = s.next_minor }) i.differ i.below;
        below = rw next' (
            All-append (λ d. d.minor < s.next_minor + 1) s.devs _
              (weaker s.next_minor s.devs i.below) (omega arith, tt));
      };
      next = omega arith;
    }

plug-Kept : (p : Plug) (s : Driver) → Numbered s → s.next_minor + 1 < 2 ^ 32 → Kept s (plug p s)
unfolding virtcons_probe virtcons_remove
plug-Kept (comes true true v) s i h = probed v s i h
plug-Kept (comes true false v) s i h = record {
  numbered = record { differ = i.differ; below = i.below };
  next = omega arith;
}
plug-Kept (comes false b v) s i h = record { numbered = i; next = omega arith }
plug-Kept (goes v) s i h = record {
  numbered = record {
    differ = Differ-without v s.devs i.differ;
    below = All-without (λ d. d.minor < s.next_minor) v s.devs i.below;
  };
  next = omega arith;
}

run_plugs-Numbered :
    (ps : List Plug) (s : Driver)
    → Numbered s
    → s.next_minor + length ps < 2 ^ 32
    → Numbered (run_plugs ps s)
run_plugs-Numbered [] s i h = i
run_plugs-Numbered (p ∷ ps) s i h =
    let k = plug-Kept p s i (omega (arith, h)) in
    run_plugs-Numbered ps (plug p s) k.numbered (omega (arith, h, k.next))

found_behind :
    (d : Device) (ds es : List Device)
    → All (λ e. e.minor ≢ d.minor) es
    → All (λ e. by_minor e.minor ds ≡ some e) es
    → All (λ e. by_minor e.minor (d ∷ ds) ≡ some e) es
unfolding by_minor
found_behind d ds [] n a = tt
found_behind d ds (e ∷ es) n a =
    let other : (d.minor == e.minor) ≡ false = ==_of_ne d.minor e.minor (λ h. n.0 (sym h)) in
    (rw (other, a.0) refl, found_behind d ds es n.1 a.1)

found : (ds : List Device) → Differ ds → All (λ d. by_minor d.minor ds ≡ some d) ds
unfolding by_minor
found [] f = tt
found (d ∷ ds) f = (rw (==_refl d.minor) refl, found_behind d ds ds f.0 (found ds f.1))

-- If the list starts with different numbers below the next one, and devices come and go with the next
-- number staying below 2^32, each device of the list is the one that a lookup of its number finds.
pub run_plugs-found :
    (ps : List Plug) (s : Driver)
    → Numbered s
    → s.next_minor + length ps < 2 ^ 32
    → All (λ d. get_crypto_dev_by_minor d.minor (run_plugs ps s) ≡ some d) (run_plugs ps s).devs
unfolding get_crypto_dev_by_minor
run_plugs-found ps s i h = found (run_plugs ps s).devs (run_plugs-Numbered ps s i h).differ
