-- ===== src/Base/Streams.antt =====
-- Lines of a C stream.
use Prim.Native.Nat.{ℕ, zero, suc, ◌+◌, ◌<◌}
use mathlib.Core.Path.{◌≡◌, refl}
use mathlib.Core.Logic.{◌≢◌}
use mathlib.Core.List.{List, [], ◌∷◌, ◌++◌}
use native.Mathlib.Omega.{arith}
use c_development_on_linux.Base.Tests.{◌==◌, ==_of_ne, if◌then◌else◌}
use c_development_on_linux.Base.Lists.{All, length}

-- `fgets`: at most `n` bytes, a newline is the last
unfoldable pub fgets : ℕ → List ℕ → List ℕ × List ℕ
fgets zero bs = ([], bs)
fgets (suc n) [] = ([], [])
fgets (suc n) (b ∷ bs) =
    let (line, rest) = fgets n bs in if b == 10 then (b ∷ [], bs) else (b ∷ line, rest)

-- a newline at the end is overwritten
unfoldable pub strip : List ℕ → List ℕ
strip [] = []
strip (b ∷ []) = if b == 10 then [] else b ∷ []
strip (b ∷ c ∷ cs) = b ∷ strip (c ∷ cs)

-- a byte within a line
abbrev pub IsPlain : ℕ → Type 0
IsPlain c = (c ≢ 0) × (c ≢ 10)

pub fgets_line :
    (n : ℕ) (line rest : List ℕ)
    → All IsPlain line
    → length line < n
    → fgets n (line ++ 10 ∷ rest) ≡ (line ++ 10 ∷ [], rest)
unfolding fgets
fgets_line zero line rest a h = absurd (omega (arith, h))
fgets_line (suc n) [] rest a h = refl
fgets_line (suc n) (c ∷ line) rest a h =
    rw (==_of_ne c 10 a.0.1, fgets_line n line rest a.1 (omega (arith, h))) refl

pub fgets_part :
    (n : ℕ) (line rest : List ℕ)
    → All IsPlain line
    → length line ≡ n
    → fgets n (line ++ rest) ≡ (line, rest)
unfolding fgets
fgets_part zero [] rest a h = refl
fgets_part zero (c ∷ line) rest a h = absurd (omega (arith, h))
fgets_part (suc n) [] rest a h = absurd (omega (arith, h))
fgets_part (suc n) (c ∷ line) rest a h =
    rw (==_of_ne c 10 a.0.1, fgets_part n line rest a.1 (omega (arith, h))) refl

pub strip_newline : (line : List ℕ) → strip (line ++ 10 ∷ []) ≡ line
unfolding strip
strip_newline [] = refl
strip_newline (c ∷ []) = refl
strip_newline (c ∷ d ∷ line) = rw (strip_newline (d ∷ line)) refl

pub strip_plain : (line : List ℕ) → All IsPlain line → strip line ≡ line
unfolding strip
strip_plain [] a = refl
strip_plain (c ∷ []) a = rw (==_of_ne c 10 a.0.1) refl
strip_plain (c ∷ d ∷ line) a = rw (strip_plain (d ∷ line) a.1) refl

pub no_zeros : (line : List ℕ) → All IsPlain line → All (λ b. b ≢ 0) line
no_zeros [] a = tt
no_zeros (c ∷ line) a = (a.0.0, no_zeros line a.1)

-- What `fgets` takes and what it leaves are all the bytes.
pub fgets_all : (n : ℕ) (bs : List ℕ) → length (fgets n bs).0 + length (fgets n bs).1 ≡ length bs
unfolding fgets
fgets_all zero bs = omega arith
fgets_all (suc n) [] = omega arith
fgets_all (suc n) (b ∷ bs) = ground (arith, fgets_all n bs)
