-- ===== src/Merging.antt =====
-- Merging_two_files_into_a_third: dowrite.c, write_file.c and fconc.c, which write two files into a
-- third. What the system calls return is an argument, one entry for a call; `waiting` says that the
-- program is at a call that has not returned.
pub mod Join
mod Tests
use c_development_on_linux.Base.{
  ℕ, List, [], ◌∷◌, ◌++◌, Option, none, some, ltb, ◌==◌, if◌then◌else◌, length, take, drop,
}
use c_development_on_linux.Base.Texts.{until_zero}

pub data End : Type 0 where
  finished failed waiting : End

-- `doWrite`, from the bytes that are still to be written: what `write` returns, -1 as `none`
unfoldable pub do_write : List (Option ℕ) → List ℕ → List ℕ → End × List ℕ × List (Option ℕ)
do_write [] buff file = (waiting, file, [])
do_write (none ∷ writes) buff file = (failed, file, writes)
do_write (some wcnt ∷ writes) buff file =
    let rest = do_write writes (drop wcnt buff) (file ++ take wcnt buff) in
    if ltb wcnt (length buff) then rest else (finished, file ++ take wcnt buff, writes)

-- What comes after a call that returns, be it with an error or without
abbrev pub then_with :
    End × List ℕ × List (Option ℕ)
    → (List (Option ℕ) → List ℕ → End × List ℕ × List (Option ℕ))
    → End × List ℕ × List (Option ℕ)
then_with (waiting, file, writes) f = (waiting, file, writes)
then_with (finished, file, writes) f = f writes file
then_with (failed, file, writes) f = f writes file

-- `write_file`: what each `read` brings, -1 as `none`. `doWrite` returns nothing, so its failure
-- does not end the loop.
unfoldable pub write_file :
    List (Option (List ℕ)) → List (Option ℕ) → List ℕ → End × List ℕ × List (Option ℕ)
write_file [] writes file = (waiting, file, writes)
write_file (none ∷ reads) writes file = (failed, file, writes)
write_file (some [] ∷ reads) writes file = (finished, file, writes)
write_file (some (b ∷ bs) ∷ reads) writes file =
    then_with (do_write writes (until_zero (b ∷ bs)) file) (λ ws now. write_file reads ws now)

-- `main` of fconc.c, once there are two names: the third file is empty at first.
unfoldable pub fconc :
    List (Option (List ℕ))
    → List (Option (List ℕ))
    → List (Option ℕ)
    → End × List ℕ × List (Option ℕ)
fconc first second writes =
    then_with (write_file first writes []) (λ ws now. write_file second ws now)

-- "fconc.out"
abbrev pub fconc_out : List ℕ
fconc_out = 102 ∷ 99 ∷ 111 ∷ 110 ∷ 99 ∷ 46 ∷ 111 ∷ 117 ∷ 116 ∷ []

-- The names of the three files, `none` where the program only tells how it is used.
unfoldable pub names : List (List ℕ) → Option (List ℕ × List ℕ × List ℕ)
names (program ∷ first ∷ second ∷ []) = some (first, second, fconc_out)
names (program ∷ first ∷ second ∷ third ∷ more) = some (first, second, third)
names _ = none

abbrev merged :
    (List ℕ → List (Option (List ℕ)))
    → List (Option ℕ)
    → Option (List ℕ × List ℕ × List ℕ)
    → Option (List ℕ × End × List ℕ × List (Option ℕ))
merged reads writes none = none
merged reads writes (some (first, second, third)) =
    let (end, file, rest) = fconc (reads first) (reads second) writes in
    some (third, end, file, rest)

-- `main` for its arguments: the name of the third file and what is written to it. `reads` is what
-- the reads of a file bring, its name given, which is -1 if it cannot be opened; and if the third
-- file cannot be opened, each `write` returns -1.
unfoldable pub main :
    (List ℕ → List (Option (List ℕ)))
    → List (Option ℕ)
    → List (List ℕ)
    → Option (List ℕ × End × List ℕ × List (Option ℕ))
unfolding names fconc
main reads writes args = merged reads writes (names args)
