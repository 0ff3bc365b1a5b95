-- ===== src/Virtio/Sample.antt =====
-- A queue that looks at the sizes of the buffers, for tests.
use c_development_on_linux.Base.{
  Bool, true, false, ◌&&◌, List, [], ◌∷◌, ◌≡◌, refl, arith, ◌<◌, leb, Bool-cases, inl, inr,
}
use c_development_on_linux.Virtio.Wire.{Sg, Element}
use c_development_on_linux.Virtio.Calls.{IsFilled, IsQueue}

abbrev pub all_filled : List Sg → Bool
all_filled [] = true
all_filled (s ∷ ss) = leb 1 s.size && all_filled ss

abbrev pub queue : Element → Bool
queue e = all_filled e.out_sg && all_filled e.in_sg

filled : (ss : List Sg) → IsFilled ss → all_filled ss ≡ true
filled [] a = refl
filled (s ∷ ss) a =
    let one : leb 1 s.size ≡ true = ground (arith, a.0) in rw (one, filled ss a.1) refl

unfilled : (ss : List Sg) → ¬ IsFilled ss → all_filled ss ≡ false
unfilled [] n = absurd (n tt)
unfilled (s ∷ ss) n = elim (Bool-cases (leb 1 s.size)) [
  | inl one ↦
      let positive : 0 < s.size = ground (arith, one) in
      rw (one, unfilled ss (λ a. n (positive, a))) refl
  | inr no_byte ↦ rw no_byte refl
]

pub queue-IsQueue : IsQueue queue
queue-IsQueue = record {
  hands_on = λ e o i. rw (filled e.out_sg o, filled e.in_sg i) refl;
  stops = λ e n. rw (unfilled e.out_sg n) refl;
}
