-- ===== src/Lunix/Chrdev/Copies.antt =====
-- One read of a text that is there.
use c_development_on_linux.Base.{
  ℕ, suc, ◌+◌, ◌-◌, ◌≤◌, ◌<◌, true, false, List, [], ◌∷◌, ◌++◌, Option, some, ◌≡◌, refl, ap, arith,
  ◌==◌, ltb, leb, length, take, drop, append-nil, take_all, drop-drop, length-drop,
  take-append_left, drop-append_left, take-append-drop,
}
use c_development_on_linux.Lunix.Sensors.{◌>>=◌}
use c_development_on_linux.Lunix.Chrdev.{ChrdevState, Lookup, up, down, Env, bytes, copy_out, read}

-- One `read` after another, with these counts, and all that they bring.
unfoldable pub read_all :
    Lookup → Env → List ℕ → ℕ → ChrdevState → Option (ℕ × ChrdevState × List ℕ)
read_all lookup env [] f_pos s = some (f_pos, s, [])
read_all lookup env (cnt ∷ cnts) f_pos s = do
  r ← read lookup env cnt f_pos s
  q ← read_all lookup env cnts r.1 r.2
  some (q.0, q.1, r.3 ++ q.2)

abbrev pub total : List ℕ → ℕ
total [] = 0
total (n ∷ ns) = n + total ns

-- The buffer holds a text and the semaphore can be taken.
pub record Holds (text : List ℕ) (s : ChrdevState) : Type 0 where
  pub tail : List ℕ
  pub content : s.buf_data ≡ text ++ tail
  pub lim : s.buf_lim ≡ length text
  pub free : 0 < s.lock

pub up-down : (s : ChrdevState) → 0 < s.lock → up (down s) ≡ s
up-down s h = ap (λ n. record s { lock = n }) (omega arith)

-- what a copy of `n` bytes from place `k` on brings, when the text does not end before it
copied :
    (text : List ℕ) (s : ChrdevState) (k n : ℕ)
    → Holds text s
    → k + n ≤ length text
    → take n (drop k s.buf_data) ≡ take n (drop k text)
copied text s k n h le =
    rw (h.content, drop-append_left k text h.tail (omega (arith, le)))
      (take-append_left n (drop k text) h.tail (omega (arith, length-drop k text, le)))

pub copy_some :
    (text : List ℕ) (s : ChrdevState) (k n : ℕ)
    → Holds text s
    → k + n < length text
    → copy_out true n (suc k) (down s) ≡ some (bytes n, suc k + n, s, take n (drop k text))
unfolding copy_out
copy_some text s k n h le =
    let e : suc k - 1 ≡ k = omega arith in
    let more : leb s.buf_lim (k + n) ≡ false = ground (arith, h.lim, le) in
    rw (e, more, up-down s h.free, copied text s k n h (omega (arith, le))) refl

pub copy_last :
    (text : List ℕ) (s : ChrdevState) (k n : ℕ)
    → Holds text s
    → k ≤ length text
    → length text ≤ k + n
    → copy_out true n (suc k) (down s) ≡ some (bytes (length text - k), 1, s, drop k text)
unfolding copy_out
copy_last text s k n h le enough =
    let e : suc k - 1 ≡ k = omega arith in
    let last : leb s.buf_lim (k + n) ≡ true = ground (arith, h.lim, enough) in
    let within : ltb s.buf_lim k ≡ false = ground (arith, h.lim, le) in
    rw
      (
        e,
        last,
        within,
        up-down s h.free,
        h.lim,
        copied text s k (length text - k) h (omega (arith, le)),
        take_all (length text - k) (drop k text) (omega (arith, length-drop k text)),
      )
      refl

-- A read that does not start at the first byte does not look for new measurements.
read_later :
    (lookup : Lookup) (env : Env) (cnt k : ℕ) (s : ChrdevState)
    → env.granted ≡ true
    → 0 < k
    → read lookup env cnt (suc k) s ≡ copy_out env.writable cnt (suc k) (down s)
unfolding read
read_later lookup env cnt k s g p =
    let later : (suc k == 1) ≡ false = ground arith in
    let valid : leb 1 (suc k) ≡ true = ground arith in rw (g, later, valid) refl

pub rest_of_text :
    (lookup : Lookup) (env : Env) (text : List ℕ) (s : ChrdevState) (cs : List ℕ) (c k : ℕ)
    → env.granted ≡ true
    → env.writable ≡ true
    → Holds text s
    → 0 < k
    → k + total cs < length text
    → length text ≤ k + total cs + c
    → read_all lookup env (cs ++ c ∷ []) (suc k) s ≡ some (1, s, drop k text)
unfolding read_all
rest_of_text lookup env text s [] c k g w h p below enough =
    rw
      (
        read_later lookup env c k s g p,
        w,
        copy_last text s k c h (omega (arith, below)) (omega (arith, enough)),
        append-nil (drop k text),
      )
      refl
rest_of_text lookup env text s (n ∷ cs) c k g w h p below enough =
    let e : suc k + n ≡ suc (k + n) = omega arith in
    let more =
      rest_of_text lookup env text s cs c (k + n) g w h (omega (arith, p)) (omega (arith, below))
        (omega (arith, enough)) in
    let pieces : take n (drop k text) ++ drop (k + n) text ≡ drop k text =
      rw (← drop-drop n k text) (take-append-drop n (drop k text)) in
    rw
      (
        read_later lookup env n k s g p,
        w,
        copy_some text s k n h (omega (arith, below)),
        e,
        more,
        pieces,
      )
      refl
