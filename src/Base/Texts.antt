-- ===== src/Base/Texts.antt =====
-- C strings, as bytes without their zero, and numbers in decimal.
use Prim.Native.Nat.{ℕ, zero, suc, ◌+◌, ◌*◌, ◌-◌, ◌/◌, ◌%◌, ◌≤◌, ◌<◌}
use mathlib.Core.Path.{◌≡◌, refl, ap₂}
use mathlib.Core.Logic.{◌≢◌, inl, inr}
use mathlib.Core.Bool.{Bool, true, false, ◌&&◌}
use mathlib.Core.List.{List, [], ◌∷◌, ◌++◌}
use native.Mathlib.Omega.{arith}
use c_development_on_linux.Base.Tests.{
  leb, ltb, ◌==◌, ==_of_ne, ==_refl, ==_iff, Bool-cases, if◌then◌else◌,
}
use c_development_on_linux.Base.Lists.{All, All-append, length, length-append}

-- the bytes up to the first zero, which are those that `strlen` counts
unfoldable pub until_zero : List ℕ → List ℕ
until_zero [] = []
until_zero (b ∷ bs) = let rest = until_zero bs in if b == 0 then [] else b ∷ rest

pub until_zero-All : (bs : List ℕ) → All (λ b. b ≢ 0) bs → until_zero bs ≡ bs
unfolding until_zero
until_zero-All [] a = refl
until_zero-All (b ∷ bs) a = rw (==_of_ne b 0 a.0, until_zero-All bs a.1) refl

pub until_zero_cut : (bs after : List ℕ) → All (λ b. b ≢ 0) bs → until_zero (bs ++ 0 ∷ after) ≡ bs
unfolding until_zero
until_zero_cut [] after a = refl
until_zero_cut (b ∷ bs) after a = rw (==_of_ne b 0 a.0, until_zero_cut bs after a.1) refl

-- `strcmp` finds no difference
unfoldable pub same_text : List ℕ → List ℕ → Bool
same_text [] [] = true
same_text [] (b ∷ bs) = false
same_text (a ∷ bs') [] = false
same_text (a ∷ bs') (b ∷ bs) = let rest = same_text bs' bs in if a == b then rest else false

pub same_text_refl : (t : List ℕ) → same_text t t ≡ true
unfolding same_text
same_text_refl [] = refl
same_text_refl (c ∷ cs) = rw (==_refl c, same_text_refl cs) refl

pub same_text-same : (s t : List ℕ) → same_text s t ≡ true → s ≡ t
unfolding same_text
same_text-same [] [] e = refl
same_text-same [] (b ∷ bs) e = absurd cc
same_text-same (a ∷ xs) [] e = absurd cc
same_text-same (a ∷ xs) (b ∷ bs) e = elim (Bool-cases (a == b)) [
  | inr other ↦ absurd (ground (arith, (rw other at e)))
  | inl same ↦ ap₂ (λ x xs. x ∷ xs) ((==_iff a b).0 same) (same_text-same xs bs (rw same at e))
]

-- `toupper`
abbrev pub to_upper : ℕ → ℕ
to_upper c = if leb 97 c && leb c 122 then c - 32 else c

-- a number in decimal; an `int` has at most ten digits.
unfoldable pub digits : ℕ → ℕ → List ℕ
digits zero n = []
digits (suc k) n =
    let rest = digits k (n / 10) in if ltb n 10 then (48 + n) ∷ [] else rest ++ (48 + n % 10) ∷ []

abbrev pub pow10 : ℕ → ℕ
pow10 zero = 1
pow10 (suc j) = 10 * pow10 j

pub length-digits : (k j n : ℕ) → n < pow10 (suc j) → length (digits k n) ≤ suc j
unfolding digits
length-digits zero j n h = omega arith
length-digits (suc k) zero n h = ground arith
length-digits (suc k) (suc j) n h = ground (
  arith,
  length-digits k j (n / 10) (omega (arith, h)),
  length-append (digits k (n / 10)) ((48 + n % 10) ∷ []),
)

abbrev pub IsDigit : ℕ → Type 0
IsDigit c = (48 ≤ c) × (c < 58)

pub digits-IsDigit : (k n : ℕ) → All IsDigit (digits k n)
unfolding digits
digits-IsDigit zero n = tt
digits-IsDigit (suc k) n = elim (Bool-cases (ltb n 10)) [
  | inl one ↦ let small : n < 10 = ground arith in rw one ((omega arith, omega (arith, small)), tt)
  | inr more ↦ rw more (
      All-append IsDigit (digits k (n / 10)) ((48 + n % 10) ∷ []) (digits-IsDigit k (n / 10))
        ((omega arith, omega arith), tt))
]
