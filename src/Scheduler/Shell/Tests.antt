-- ===== src/Scheduler/Shell/Tests.antt =====
-- Sessions with the shell, and the theorems at them.
use c_development_on_linux.Base.Streams.{IsPlain}
use c_development_on_linux.Base.{ℕ, List, [], ◌∷◌, ◌++◌, ◌≡◌, refl, arith, All, zero, suc, ◌<◌}
use c_development_on_linux.Base.Decimal.{atoi, with_sign, skip_spaces, read_digits}
use c_development_on_linux.Base.Texts.{same_text}
use c_development_on_linux.Scheduler.Runs.{exited, Request, print_tasks, kill_task, exec_task}
use c_development_on_linux.Scheduler.Shell.{Shell, parse, issues, is_bad, shell_main}
use c_development_on_linux.Scheduler.Shell.Commands.{command, parse-command}
use c_development_on_linux.Scheduler.Shell.Sessions.{script, answers, shell_main-script}
use c_development_on_linux.Scheduler.Shell.Ending.{Ends, shell_main-Ends}

-- "-12"
atoi_negative : atoi (45 ∷ 49 ∷ 50 ∷ []) ≡ 4294967284
unfolding atoi with_sign skip_spaces read_digits
atoi_negative = refl

-- "k7" has no space
parse_bad : parse (107 ∷ 55 ∷ []) ≡ is_bad
unfolding parse same_text
parse_bad = refl

parse-command_example : parse (command (kill_task 42)) ≡ issues (kill_task 42)
parse-command_example = parse-command (kill_task 42) (omega arith)

-- "prog"
abbrev prog : List ℕ
prog = 112 ∷ 114 ∷ 111 ∷ 103 ∷ []

letter : (c : ℕ) → 96 < c → IsPlain c
letter c h = ((λ e. omega (arith, h, e)), λ e. omega (arith, h, e))

prog-IsPlain : All IsPlain prog
prog-IsPlain = (
  letter 112 (omega arith),
  (letter 114 (omega arith), (letter 111 (omega arith), (letter 103 (omega arith), tt))),
)

abbrev asked : List Request
asked = print_tasks ∷ exec_task prog ∷ kill_task 3 ∷ []

abbrev shell_args : List (List ℕ)
shell_args = (115 ∷ []) ∷ (52 ∷ []) ∷ (53 ∷ []) ∷ []

abbrev enosys_for_all : List Request → ℕ
enosys_for_all rqs = 4294967258

shell_main-script_example :
    (t : Shell) × (shell_main
        (answers enosys_for_all)
        shell_args
        (script asked ++ 113 ∷ 10 ∷ 112 ∷ [])
      ≡ exited 0 t)
    × (t.issued ≡ asked)
    × (t.input ≡ 112 ∷ [])
unfolding atoi with_sign skip_spaces read_digits
shell_main-script_example =
    shell_main-script enosys_for_all (115 ∷ []) (52 ∷ []) (53 ∷ []) asked (112 ∷ [])
      (λ h. omega (arith, h)) (λ h. omega (arith, h))
      ((tt, tt), ((omega arith, prog-IsPlain), ((omega arith, tt), tt)))

shell_main-Ends_example : Ends (shell_main (answers enosys_for_all) shell_args (112 ∷ 10 ∷ 0 ∷ []))
shell_main-Ends_example = shell_main-Ends (answers enosys_for_all) shell_args (112 ∷ 10 ∷ 0 ∷ [])

-- "k 1" behind a line of 99 times "a" is the next command.
abbrev copies : ℕ → List ℕ
copies zero = []
copies (suc n) = 97 ∷ copies n

copies-IsPlain : (n : ℕ) → All IsPlain (copies n)
copies-IsPlain zero = tt
copies-IsPlain (suc n) = (letter 97 (omega arith), copies-IsPlain n)
