-- ===== src/Merging/Join.antt =====
-- The third file of fconc.c is the first two, one behind the other.
use c_development_on_linux.Base.{
  ℕ, ◌+◌, ◌≤◌, ◌<◌, ◌≢◌, List, [], ◌∷◌, ◌++◌, Option, some, ltb, length, take, drop, All, ◌≡◌, refl,
  ap, ◌∙◌, arith, Bool-cases, inl, inr, append_assoc, append-nil, take-append-drop, take_all,
  length-drop, length-append,
}
use c_development_on_linux.Base.Texts.{until_zero-All, until_zero_cut}
use c_development_on_linux.Merging.{names, main, finished, do_write, write_file, fconc}

-- `write` works at least `n` times, and takes at least a byte each time.
pub record Enough (n : ℕ) (writes : List (Option ℕ)) : Type 0 where
  pub some_byte : All (λ w. (k : ℕ) × (w ≡ some k) × (1 ≤ k)) writes
  pub count : n ≤ length writes

do_write_all :
    (writes : List (Option ℕ)) (buff file : List ℕ) (n : ℕ)
    → 0 < length buff
    → Enough (length buff + n) writes
    → (rest : List (Option ℕ)) × (do_write writes buff file ≡ (finished, file ++ buff, rest))
      × Enough n rest
unfolding do_write
do_write_all [] buff file n p v = absurd (omega (arith, v.count, p))
do_write_all (w ∷ writes) buff file n p v =
    let ((k, e, positive), others) = v.some_byte in
    elim (Bool-cases (ltb k (length buff))) [
      | inl short ↦
          let below : k < length buff = ground arith in
          let (rest, done, enough) =
            do_write_all writes (drop k buff) (file ++ take k buff) n
              (omega (arith, length-drop k buff, below))
              (record {
                some_byte = others;
                count = omega (arith, length-drop k buff, v.count, below, positive);
              }) in
          let joined : (file ++ take k buff) ++ drop k buff ≡ file ++ buff =
            append_assoc file (take k buff) (drop k buff)
            ∙ ap (λ x. file ++ x) (take-append-drop k buff) in
          (rest, rw (e, short, done, joined) refl, enough)
      | inr whole ↦
          let above : length buff ≤ k = ground arith in
          (
            writes,
            rw (e, whole, take_all k buff above) refl,
            record { some_byte = others; count = omega (arith, v.count, p) },
          )
    ]

-- A piece of a file that `read` brings: not empty, and without a zero byte
pub record IsPiece (bs : List ℕ) : Type 0 where
  pub some_byte : 0 < length bs
  pub no_zero : All (λ b. b ≢ 0) bs

-- all the bytes of some pieces, and what `read` tells of them: the pieces, then the end
abbrev pub joined : List (List ℕ) → List ℕ
joined [] = []
joined (p ∷ ps) = p ++ joined ps

abbrev pub as_read : List (List ℕ) → List (Option (List ℕ))
as_read [] = some [] ∷ []
as_read (p ∷ ps) = some p ∷ as_read ps

write_file-All :
    (pieces : List (List ℕ)) (writes : List (Option ℕ)) (file : List ℕ) (n : ℕ)
    → All IsPiece pieces
    → Enough (length (joined pieces) + n) writes
    → (rest : List (Option ℕ)) × (write_file (as_read pieces) writes file
        ≡ (finished, file ++ joined pieces, rest))
      × Enough n rest
unfolding write_file
write_file-All [] writes file n a v = (
  writes,
  rw (append-nil file) refl,
  record { some_byte = v.some_byte; count = omega (arith, v.count) },
)
write_file-All ([] ∷ ps) writes file n a v = absurd (omega (arith, a.0.some_byte))
write_file-All ((b ∷ bs) ∷ ps) writes file n a v =
    let p = b ∷ bs in
    let (rest, done, enough) =
      do_write_all writes p file (length (joined ps) + n) (a.0.some_byte) (record {
        some_byte = v.some_byte;
        count = omega (arith, v.count, length-append p (joined ps));
      }) in
    let (last, more, left) = write_file-All ps rest (file ++ p) n a.1 enough in
    (
      last,
      rw (write_file, until_zero-All p a.0.no_zero, done, more, append_assoc file p (joined ps))
          refl,
      left,
    )

-- Two files without zero bytes, in whatever pieces they are read and written, end up one behind the
-- other in the third file: no more calls of `write` are needed than there are bytes, if each takes at
-- least one byte.
fconc-joined :
    (first second : List (List ℕ)) (writes : List (Option ℕ))
    → All IsPiece first
    → All IsPiece second
    → Enough (length (joined first) + length (joined second)) writes
    → (rest : List (Option ℕ)) × (fconc (as_read first) (as_read second) writes
        ≡ (finished, joined first ++ joined second, rest))
unfolding fconc
fconc-joined first second writes a b v =
    let (rest, done, enough) = write_file-All first writes [] (length (joined second)) a v in
    let (last, more, _) =
      write_file-All second rest (joined first) 0 b
        (record { some_byte = enough.some_byte; count = omega (arith, enough.count) }) in
    (last, rw (fconc, done, more) refl)

-- A piece with a zero byte loses that byte and all behind it.
write_file-zero :
    (before after file : List ℕ) (writes : List (Option ℕ))
    → IsPiece before
    → Enough (length before) writes
    → (rest : List (Option ℕ)) × (write_file (as_read ((before ++ 0 ∷ after) ∷ [])) writes file
        ≡ (finished, file ++ before, rest))
unfolding write_file
write_file-zero [] after file writes a v = absurd (omega (arith, a.some_byte))
write_file-zero (b ∷ bs) after file writes a v =
    let p = b ∷ bs in
    let (rest, done, _) =
      do_write_all writes p file 0 (a.some_byte)
        (record { some_byte = v.some_byte; count = omega (arith, v.count) }) in
    (rest, rw (write_file, until_zero_cut p after a.no_zero, done) refl)

-- With two names the program writes the two files, if they have no zero bytes, one behind the other
-- into fconc.out, and with three names into the third, in however many reads and writes: no more
-- calls of `write` are needed than there are bytes, if each takes at least one byte.
pub main-joined :
    (reads : List ℕ → List (Option (List ℕ))) (writes : List (Option ℕ)) (args : List (List ℕ))
    (a b c : List ℕ) (first second : List (List ℕ))
    → names args ≡ some (a, b, c)
    → reads a ≡ as_read first
    → reads b ≡ as_read second
    → All IsPiece first
    → All IsPiece second
    → Enough (length (joined first) + length (joined second)) writes
    → (rest : List (Option ℕ)) × (main reads writes args
        ≡ some (c, finished, joined first ++ joined second, rest))
unfolding main
main-joined reads writes args a b c first second e ra rb p q v =
    let (rest, done) = fconc-joined first second writes p q v in (rest, rw (e, ra, rb, done) refl)
