-- ===== src/Lunix/Chrdev/Text.antt =====
-- How long the text of a measurement is, and that it fits the buffer of lunix-chrdev.h.
use c_development_on_linux.Base.{
  ℕ, suc, ◌+◌, ◌^◌, ◌/◌, ◌%◌, ◌≤◌, ◌<◌, List, [], ◌∷◌, ◌++◌, ◌≡◌, arith, Bool, length,
  length-append, length-drop, drop, take_all, append_assoc,
}
use c_development_on_linux.Base.Texts.{pow10, length-digits}
use c_development_on_linux.Lunix.Chrdev.{Long, print_int, text_of, snprintf, chrdev_bufsz}

length-print_int :
    (negative : Bool) (j n : ℕ) → n < pow10 (suc j) → length (print_int negative n) ≤ j + 2
length-print_int negative j n h = ground (arith, length-digits 10 j n h)

-- The text of a value that fits a C `int` has at most 16 characters.
pub length-text_of : (x : Long) → x.magnitude < 2 ^ 31 → length (text_of x) ≤ 16
length-text_of x h =
    let whole = print_int x.negative (x.magnitude / 1000) in
    let rest = print_int x.negative (x.magnitude % 1000) in
    omega (
      arith,
      length-append whole (46 ∷ [] ++ (rest ++ 10 ∷ 10 ∷ [])),
      length-append rest (10 ∷ 10 ∷ []),
      length-print_int x.negative 6 (x.magnitude / 1000) (omega (arith, h)),
      length-print_int x.negative 2 (x.magnitude % 1000) (omega arith),
    )

-- The text stands at the head of the buffer, whose size stays as it was.
pub snprintf-text :
    (buf text : List ℕ)
    → length text ≤ 19
    → snprintf buf chrdev_bufsz text ≡ text ++ 0 ∷ drop (length (text ++ 0 ∷ [])) buf
unfolding snprintf
snprintf-text buf text h = rw (take_all 19 text h) (append_assoc text (0 ∷ []) _)

pub length-snprintf :
    (buf text : List ℕ)
    → length text ≤ 19
    → length buf ≡ 20
    → length (snprintf buf chrdev_bufsz text) ≡ 20
unfolding snprintf
length-snprintf buf text h e = rw (take_all 19 text h) omega (
  arith,
  e,
  h,
  length-append (text ++ 0 ∷ []) (drop (length (text ++ 0 ∷ [])) buf),
  length-append text (0 ∷ []),
  length-drop (length (text ++ 0 ∷ [])) buf,
)
