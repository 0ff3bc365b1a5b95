-- ===== src/Merging/Tests.antt =====
-- Small files merged, and the theorems at them.
use c_development_on_linux.Base.{ℕ, ◌≡◌, refl, arith, List, [], ◌∷◌, Option, some}
use c_development_on_linux.Merging.{finished, names, main, fconc_out}
use c_development_on_linux.Merging.Join.{IsPiece, Enough, as_read, main-joined}

one_two-IsPiece : IsPiece (1 ∷ 2 ∷ [])
one_two-IsPiece = record { some_byte = omega arith; no_zero = (omega arith, (omega arith, tt)) }

-- `write` takes one byte, then two, then one each
abbrev writes : List (Option ℕ)
writes = some 1 ∷ some 2 ∷ some 1 ∷ some 1 ∷ []

writes-Enough : Enough 4 writes
writes-Enough = record {
  some_byte = (
    (1, refl, omega arith),
    ((2, refl, omega arith), ((1, refl, omega arith), ((1, refl, omega arith), tt))),
  );
  count = omega arith;
}

-- "m", and files "a" and "b" that both hold two bytes
abbrev args : List (List ℕ)
args = (109 ∷ []) ∷ (97 ∷ []) ∷ (98 ∷ []) ∷ []

abbrev reads : List ℕ → List (Option (List ℕ))
reads name = as_read ((1 ∷ 2 ∷ []) ∷ [])

main-joined_example :
    (rest : List (Option ℕ)) × (main reads writes args
      ≡ some (fconc_out, finished, 1 ∷ 2 ∷ 1 ∷ 2 ∷ [], rest))
unfolding names
main-joined_example =
    main-joined reads writes args (97 ∷ []) (98 ∷ []) fconc_out ((1 ∷ 2 ∷ []) ∷ [])
      ((1 ∷ 2 ∷ []) ∷ []) refl refl refl (one_two-IsPiece, tt) (one_two-IsPiece, tt) writes-Enough
