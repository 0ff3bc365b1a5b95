-- ===== src/Chat/Lines.antt =====
-- What `getLine` of the chat takes as a line.
use c_development_on_linux.Base.{
  ℕ, suc, zero, ◌<◌, ◌≤◌, ◌≢◌, Bool, true, false, List, [], ◌∷◌, ◌++◌, ◌≡◌, refl, sym, ap, ◌∙◌,
  arith, some, length, take, drop, All, All-append, length-take, ltb, Bool-cases, inl, inr,
  ==_of_ne, append_assoc, length-append, length-drop, take-append-drop, take_all,
}
use c_development_on_linux.Base.Streams.{
  IsPlain, strip, fgets_line, fgets_part, strip_newline, no_zeros,
}
use c_development_on_linux.Chat.{
  LineRead, ok, line_got, line_kept, too_long_or_ok, c_string, overwrite, flush_line, ends_line,
  get_line, line_of, data_size,
}

pub c_string_cut : (s after : List ℕ) → All (λ b. b ≢ 0) s → c_string (s ++ 0 ∷ after) ≡ some s
unfolding c_string
c_string_cut [] after a = refl
c_string_cut (b ∷ s) after a = rw (==_of_ne b 0 a.0, c_string_cut s after a.1) refl

-- a string and its zero at the start of a buffer
pub c_string-overwrite :
    (s buf : List ℕ) → All (λ b. b ≢ 0) s → c_string (overwrite (s ++ 0 ∷ []) buf) ≡ some s
unfolding overwrite
c_string-overwrite s buf a =
    rw (append_assoc s (0 ∷ []) (drop (length (s ++ 0 ∷ [])) buf))
      (c_string_cut s (drop (length (s ++ 0 ∷ [])) buf) a)

pub length-overwrite :
    (bs buf : List ℕ) → length bs ≤ length buf → length (overwrite bs buf) ≡ length buf
unfolding overwrite
length-overwrite bs buf h =
    omega (arith, h, length-append bs (drop (length bs) buf), length-drop (length bs) buf)

flush_line_lem : (line rest : List ℕ) → All IsPlain line → (flush_line (line ++ 10 ∷ rest)).1 ≡ rest
unfolding flush_line
flush_line_lem [] rest a = refl
flush_line_lem (b ∷ line) rest a = rw (==_of_ne b 10 a.0.1, flush_line_lem line rest a.1) refl

ends_line_newline : (line : List ℕ) → ends_line (line ++ 10 ∷ []) ≡ true
ends_line_newline [] = refl
ends_line_newline (b ∷ []) = refl
ends_line_newline (b ∷ c ∷ line) = ends_line_newline (c ∷ line)

ends_line_plain : (line : List ℕ) → All IsPlain line → ends_line line ≡ false
ends_line_plain [] a = refl
ends_line_plain (b ∷ []) a = ==_of_ne b 10 a.0.1
ends_line_plain (b ∷ c ∷ line) a = ends_line_plain (c ∷ line) a.1

pub All-take : (n : ℕ) (line : List ℕ) → All IsPlain line → All IsPlain (take n line)
All-take zero line a = tt
All-take (suc n) [] a = tt
All-take (suc n) (b ∷ line) a = (a.0, All-take n line a.1)

All-drop : (n : ℕ) (line : List ℕ) → All IsPlain line → All IsPlain (drop n line)
All-drop zero line a = a
All-drop (suc n) [] a = tt
All-drop (suc n) (b ∷ line) a = All-drop n line a.1

-- What `getLine` leaves: a buffer with a string, and the input behind the line
pub record LineTaken (text rest buf : List ℕ) (r : LineRead) : Type 0 where
  pub buf' : List ℕ
  pub taken : line_of r ≡ some (buf', rest)
  pub string : c_string buf' ≡ some text
  pub same_length : length buf' ≡ length buf

line_got_lem :
    (b : ℕ) (bs rest buf : List ℕ)
    → All (λ c. c ≢ 0) (b ∷ bs)
    → line_got (b ∷ bs, rest) buf
      ≡ line_kept (some (b ∷ bs)) (overwrite ((b ∷ bs) ++ 0 ∷ []) buf) rest
line_got_lem b bs rest buf a = rw (c_string-overwrite (b ∷ bs) buf a) refl

-- the buffer after a line with its newline
abbrev whole : List ℕ → List ℕ → List ℕ
whole line buf = overwrite (line ++ 0 ∷ []) (overwrite ((line ++ 10 ∷ []) ++ 0 ∷ []) buf)

newline_got :
    (line rest buf : List ℕ)
    → All IsPlain line
    → line_got (line ++ 10 ∷ [], rest) buf ≡ ok (whole line buf) rest
unfolding strip
newline_got [] rest buf a = line_got_lem 10 [] rest buf ((λ h. omega (arith, h)), tt)
newline_got (c ∷ line) rest buf a =
    let no_zero : All (λ b. b ≢ 0) (line ++ 10 ∷ []) =
      All-append (λ b. b ≢ 0) line (10 ∷ []) (no_zeros line a.1) ((λ h. omega (arith, h)), tt) in
    line_got_lem c (line ++ 10 ∷ []) rest buf (a.0.0, no_zero)
    ∙ rw (ends_line_newline (c ∷ line), strip_newline (c ∷ line)) refl

flushed : (x : Bool × List ℕ) (buf : List ℕ) → line_of (too_long_or_ok x buf) ≡ some (buf, x.1)
flushed (true, rest) buf = refl
flushed (false, rest) buf = refl

part_got :
    (part tail buf : List ℕ)
    → All IsPlain part
    → 0 < length part
    → line_of (line_got (part, tail) buf)
      ≡ some (overwrite (part ++ 0 ∷ []) buf, (flush_line tail).1)
part_got [] tail buf a h = absurd (omega (arith, h))
part_got (c ∷ part) tail buf a h =
    ap line_of (line_got_lem c part tail buf (no_zeros (c ∷ part) a))
    ∙ rw (ends_line_plain (c ∷ part) a) (flushed (flush_line tail) _)

short_line :
    (line rest buf : List ℕ)
    → All IsPlain line
    → length line < 255
    → 256 ≤ length buf
    → LineTaken (take 255 line) rest buf (get_line data_size (line ++ 10 ∷ rest) buf)
unfolding get_line
short_line line rest buf a h room =
    let filled = overwrite ((line ++ 10 ∷ []) ++ 0 ∷ []) buf in
    let same : length filled ≡ length buf = length-overwrite ((line ++ 10 ∷ []) ++ 0 ∷ []) buf (
      omega
        (arith, h, room, length-append line (10 ∷ []), length-append (line ++ 10 ∷ []) (0 ∷ []))) in
    record {
      buf' = whole line buf;
      taken = rw (fgets_line 255 line rest a h) (ap line_of (newline_got line rest buf a));
      string =
          rw (take_all 255 line (omega (arith, h)))
            (c_string-overwrite line filled (no_zeros line a));
      same_length =
          length-overwrite (line ++ 0 ∷ []) filled
            (omega (arith, h, room, same, length-append line (0 ∷ [])))
          ∙ same;
    }

long_line :
    (line rest buf : List ℕ)
    → All IsPlain line
    → 255 ≤ length line
    → 256 ≤ length buf
    → LineTaken (take 255 line) rest buf (get_line data_size (line ++ 10 ∷ rest) buf)
unfolding get_line
long_line line rest buf a h room =
    let part = take 255 line in
    let tail = drop 255 line ++ 10 ∷ rest in
    let full : length part ≡ 255 = omega (arith, h, length-take 255 line) in
    let plain : All IsPlain part = All-take 255 line a in
    let split : line ++ 10 ∷ rest ≡ part ++ tail =
      ap (λ l. l ++ 10 ∷ rest) (sym (take-append-drop 255 line))
      ∙ append_assoc part (drop 255 line) (10 ∷ rest) in
    record {
      buf' = overwrite (part ++ 0 ∷ []) buf;
      taken =
          rw (split, fgets_part 255 part tail plain full)
            (part_got part tail buf plain (omega (arith, full)))
          ∙ ap (λ r. some (overwrite (part ++ 0 ∷ []) buf, r))
              (flush_line_lem (drop 255 line) rest (All-drop 255 line a));
      string = c_string-overwrite part buf (no_zeros part plain);
      same_length =
          length-overwrite (part ++ 0 ∷ []) buf
            (omega (arith, room, full, length-append part (0 ∷ [])));
    }

-- A line of any length without a zero byte brings its first 255 bytes into a buffer of 256 or more,
-- and the input behind it is left: the rest of a longer line is thrown away.
pub get_line_lem :
    (line rest buf : List ℕ)
    → All IsPlain line
    → 256 ≤ length buf
    → LineTaken (take 255 line) rest buf (get_line data_size (line ++ 10 ∷ rest) buf)
get_line_lem line rest buf a room = elim (Bool-cases (ltb (length line) 255)) [
  | inl short ↦ short_line line rest buf a (ground (arith, short)) room
  | inr long ↦ long_line line rest buf a (ground (arith, long)) room
]
