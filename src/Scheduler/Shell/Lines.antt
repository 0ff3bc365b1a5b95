-- ===== src/Scheduler/Shell/Lines.antt =====
-- What the shell of shell.c reads as a command line.
use c_development_on_linux.Base.{
  ℕ, ◌<◌, ◌≢◌, List, [], ◌∷◌, ◌++◌, ◌≡◌, refl, ap, ◌∙◌, arith, length, All, All-append,
}
use c_development_on_linux.Base.Texts.{until_zero, until_zero-All}
use c_development_on_linux.Base.Streams.{
  IsPlain, strip, fgets_line, fgets_part, strip_newline, strip_plain, no_zeros,
}
use c_development_on_linux.Scheduler.Runs.{running}
use c_development_on_linux.Scheduler.Shell.{
  Shell, strip, stripped, got, get_cmdline, shell_cmdline_sz,
}

stripped_lem :
    (c : ℕ) (cs rest : List ℕ) (s : Shell)
    → All (λ b. b ≢ 0) (c ∷ cs)
    → got (c ∷ cs) rest s ≡ running (record s { input = rest; cmdline = strip (c ∷ cs) })
unfolding got stripped
stripped_lem c cs rest s a = rw (until_zero-All (c ∷ cs) a) refl

got_line :
    (line rest : List ℕ) (s : Shell)
    → All IsPlain line
    → got (line ++ 10 ∷ []) rest s ≡ running (record s { input = rest; cmdline = line })
unfolding got stripped until_zero strip
got_line [] rest s a = refl
got_line (c ∷ line) rest s a =
    stripped_lem c (line ++ 10 ∷ []) rest s (
      a.0.0,
      All-append (λ b. b ≢ 0) line (10 ∷ []) (no_zeros line a.1) ((λ h. omega (arith, h)), tt),
    )
    ∙ ap (λ l. running (record s { input = rest; cmdline = l })) (strip_newline (c ∷ line))

-- a line of the input that fits in the buffer
pub get_line :
    (s : Shell) (line rest : List ℕ)
    → All IsPlain line
    → length line < 99
    → s.input ≡ line ++ 10 ∷ rest
    → get_cmdline shell_cmdline_sz s ≡ running (record s { input = rest; cmdline = line })
unfolding get_cmdline
get_line s line rest a h e =
    rw (e, fgets_line 99 line rest a h)
      (got_line line rest (record s { input = line ++ 10 ∷ rest }) a)

-- Of 99 bytes without a zero or a newline and whatever follows, the 99 bytes are the command, and the
-- others are left for the next one.
get_cmdline_long :
    (s : Shell) (line rest : List ℕ)
    → All IsPlain line
    → length line ≡ 99
    → s.input ≡ line ++ rest
    → get_cmdline shell_cmdline_sz s ≡ running (record s { input = rest; cmdline = line })
unfolding get_cmdline
get_cmdline_long s [] rest a h e = absurd (omega (arith, h))
get_cmdline_long s (c ∷ line) rest a h e =
    rw (e, fgets_part 99 (c ∷ line) rest a h)
      (stripped_lem c line rest (record s { input = c ∷ line ++ rest }) (no_zeros (c ∷ line) a)
        ∙ ap (λ l. running (record s { input = rest; cmdline = l })) (strip_plain (c ∷ line) a))
