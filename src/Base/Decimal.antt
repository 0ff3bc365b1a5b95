-- ===== src/Base/Decimal.antt =====
-- `atoi` of the C library.
use Prim.Native.Nat.{ℕ, zero, suc, ◌+◌, ◌-◌, ◌*◌, ◌/◌, ◌%◌, ◌^◌, ◌<◌, min}
use mathlib.Core.Path.{◌≡◌, refl, sym, ap, ◌∙◌}
use mathlib.Core.Logic.{inl, inr}
use mathlib.Core.Bool.{Bool, true, false, ◌&&◌, ◌||◌}
use mathlib.Core.List.{List, [], ◌∷◌, ◌++◌, append_assoc, append-nil}
use native.Mathlib.Omega.{arith}
use c_development_on_linux.Base.Tests.{ltb, leb, ◌==◌, Bool-cases, if◌then◌else◌}
use c_development_on_linux.Base.Lists.{All, replicate}
use c_development_on_linux.Base.Texts.{digits, pow10, IsDigit, digits-IsDigit}

abbrev pub is_digit : ℕ → Bool
is_digit c = leb 48 c && ltb c 58

abbrev pub is_space : ℕ → Bool
is_space c = (c == 32) || (leb 9 c && ltb c 14)

-- the number that the digits in front continue
unfoldable pub read_digits : ℕ → List ℕ → ℕ
read_digits n [] = n
read_digits n (c ∷ cs) =
    let rest = read_digits (10 * n + (c - 48)) cs in if is_digit c then rest else n

unfoldable pub skip_spaces : List ℕ → List ℕ
skip_spaces [] = []
skip_spaces (c ∷ cs) = let rest = skip_spaces cs in if is_space c then rest else c ∷ cs

-- A number is cut to a `long` and then to an `int`, as two's complement.
unfoldable pub with_sign : List ℕ → ℕ
with_sign [] = 0
with_sign (c ∷ cs) =
    if c == 45
    then (2 ^ 32 - min (read_digits 0 cs) (2 ^ 63) % 2 ^ 32) % 2 ^ 32
    else if c == 43
    then min (read_digits 0 cs) (2 ^ 63 - 1) % 2 ^ 32
    else min (read_digits 0 (c ∷ cs)) (2 ^ 63 - 1) % 2 ^ 32

unfoldable pub atoi : List ℕ → ℕ
atoi cs = with_sign (skip_spaces cs)

read_digit :
    (m d : ℕ) (rest : List ℕ)
    → d < 10
    → read_digits m ((48 + d) ∷ rest) ≡ read_digits (10 * m + d) rest
unfolding read_digits
read_digit m d rest h =
    let digit : is_digit (48 + d) ≡ true = ground (arith, h) in
    let value : 10 * m + ((48 + d) - 48) ≡ 10 * m + d = omega arith in rw (digit, value) refl

read_digits_lem :
    (k n : ℕ) (rest : List ℕ)
    → n < pow10 k
    → read_digits 0 (digits k n ++ rest) ≡ read_digits n rest
unfolding digits
read_digits_lem zero n rest h = let none_left : n ≡ 0 = omega (arith, h) in rw none_left refl
read_digits_lem (suc k) n rest h = elim (Bool-cases (ltb n 10)) [
  | inl one ↦
      let small : n < 10 = ground arith in
      let value : 10 * 0 + n ≡ n = omega arith in rw (one, read_digit 0 n rest small, value) refl
  | inr more ↦
      let front : n / 10 < pow10 k = omega (arith, h) in
      let last : n % 10 < 10 = omega arith in
      let value : 10 * (n / 10) + n % 10 ≡ n = omega arith in
      rw
        (
          more,
          append_assoc (digits k (n / 10)) ((48 + n % 10) ∷ []) rest,
          read_digits_lem k (n / 10) ((48 + n % 10) ∷ rest) front,
          read_digit (n / 10) (n % 10) rest last,
          value,
        )
        refl
]

atoi_digit :
    (c : ℕ) (cs : List ℕ)
    → IsDigit c
    → atoi (c ∷ cs) ≡ min (read_digits 0 (c ∷ cs)) (2 ^ 63 - 1) % 2 ^ 32
unfolding atoi skip_spaces with_sign read_digits
atoi_digit c cs a =
    let no_space : is_space c ≡ false = ground (arith, a.0, a.1) in
    let no_minus : (c == 45) ≡ false = ground (arith, a.0) in
    let no_plus : (c == 43) ≡ false = ground (arith, a.0) in rw (no_space, no_minus, no_plus) refl

atoi_unsigned :
    (cs : List ℕ) → All IsDigit cs → atoi cs ≡ min (read_digits 0 cs) (2 ^ 63 - 1) % 2 ^ 32
unfolding atoi skip_spaces with_sign read_digits
atoi_unsigned [] a = refl
atoi_unsigned (c ∷ cs) a = atoi_digit c cs a.0

pub atoi-digits : (k n : ℕ) → n < pow10 k → n < 2 ^ 31 → atoi (digits k n) ≡ n
unfolding read_digits
atoi-digits k n h fits =
    let value : read_digits 0 (digits k n) ≡ n =
      ap (read_digits 0) (sym (append-nil (digits k n))) ∙ read_digits_lem k n [] h in
    rw (atoi_unsigned (digits k n) (digits-IsDigit k n), value) (omega (arith, fits))

append-head :
    (xs : List ℕ) (d : ℕ)
    → All IsDigit xs
    → IsDigit d
    → (c : ℕ) × (cs : List ℕ) × IsDigit c × (xs ++ d ∷ [] ≡ c ∷ cs)
append-head [] d a h = (d, [], h, refl)
append-head (x ∷ xs) d a h = (x, xs ++ d ∷ [], a.0, refl)

-- A number begins with a digit.
pub digits-head : (k n : ℕ) → (c : ℕ) × (cs : List ℕ) × IsDigit c × (digits (suc k) n ≡ c ∷ cs)
unfolding digits
digits-head k n = elim (Bool-cases (ltb n 10)) [
  | inl one ↦
      let small : n < 10 = ground arith in
      (48 + n, [], (omega arith, omega (arith, small)), rw one refl)
  | inr more ↦
      let (c, cs, d, e) =
        append-head (digits k (n / 10)) (48 + n % 10) (digits-IsDigit k (n / 10))
          (omega arith, omega arith) in
      (c, cs, d, rw more e)
]

pub skip_spaces-replicate :
    (n : ℕ) (cs : List ℕ) → skip_spaces (replicate n 32 ++ cs) ≡ skip_spaces cs
unfolding skip_spaces
skip_spaces-replicate zero cs = refl
skip_spaces-replicate (suc n) cs = skip_spaces-replicate n cs

pub skip_spaces-digit : (c : ℕ) (cs : List ℕ) → IsDigit c → skip_spaces (c ∷ cs) ≡ c ∷ cs
unfolding skip_spaces
skip_spaces-digit c cs h =
    let no_space : is_space c ≡ false = ground (arith, h.0, h.1) in rw no_space refl

-- A number between blanks and the end of a line is read back.
pub atoi-line :
    (k n : ℕ) (spaces : ℕ)
    → n < pow10 (suc k)
    → n < 2 ^ 31
    → atoi (replicate spaces 32 ++ (digits (suc k) n ++ 10 ∷ [])) ≡ n
unfolding atoi read_digits
atoi-line k n spaces h fits =
    let (c, cs, d, e) = digits-head k n in
    let value : read_digits 0 (c ∷ cs ++ 10 ∷ []) ≡ n =
      ap (λ l. read_digits 0 (l ++ 10 ∷ [])) (sym e) ∙ read_digits_lem (suc k) n (10 ∷ []) h in
    rw (skip_spaces-replicate spaces (digits (suc k) n ++ 10 ∷ []), e)
      (atoi_digit c (cs ++ 10 ∷ []) d ∙ rw value (omega (arith, fits)))
