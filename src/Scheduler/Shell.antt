-- ===== src/Scheduler/Shell.antt =====
-- The shell that drives a scheduler: shell.c. Its standard input is the list of the bytes still to
-- come, and the two pipes are what the scheduler answers to the requests issued so far.
pub mod Commands
pub mod Ending
pub mod Lines
pub mod Sessions
mod Tests
use c_development_on_linux.Base.{
  ℕ, suc, zero, ◌-◌, Bool, true, false, ◌&&◌, ◌||◌, List, [], ◌∷◌, ◌++◌, ltb, ◌==◌, if◌then◌else◌,
  length, take, drop, ◌^◌,
}
use c_development_on_linux.Base.Texts.{until_zero, same_text}
use c_development_on_linux.Base.Streams.{fgets, strip}
use c_development_on_linux.Base.Decimal.{atoi}
use c_development_on_linux.Scheduler.Runs.{
  Run, running, exited, crashed, hangs, ◌>>=◌, Request, print_tasks, kill_task, exec_task,
  high_task, low_task,
}

-- what the shell prints, but for the text about each exchange
pub data Message : Type 0 where
  help_text goodbye no_command_line write_error read_error bad_arguments : Message
  failed_request : ℕ → Message
  bad_command : List ℕ → Message

-- what the pipes do with a request: `write` or `read` fails, or the scheduler returns an `int`
pub data Answer : Type 0 where
  write_fails read_fails : Answer
  returned : ℕ → Answer

-- what is left of the input, the buffer of the command line, the requests issued and what was shown
pub record Shell : Type 0 where
  pub input : List ℕ
  pub cmdline : List ℕ
  pub issued : List Request
  pub shown : List Message

abbrev pub show : Message → Shell → Shell
show m s = record s { shown = s.shown ++ m ∷ [] }

abbrev pub put_request : Request → Shell → Shell
put_request rq s = record s { issued = s.issued ++ rq ∷ [] }

-- a return value below 0 is shown
unfoldable pub on_answer : Answer → Request → Shell → Run Shell
on_answer write_fails rq s = exited 1 (show write_error s)
on_answer read_fails rq s = exited 1 (show read_error (put_request rq s))
on_answer (returned ret) rq s =
    let t = put_request rq s in
    if ltb ret (2 ^ 31) then running t else running (show (failed_request (2 ^ 32 - ret)) t)

unfoldable pub issue_request : (List Request → Answer) → Request → Shell → Run Shell
issue_request answer rq s = on_answer (answer (s.issued ++ rq ∷ [])) rq s

-- The string in the buffer; an empty one has no last byte, and `buf[-1]` is outside of the buffer.
unfoldable pub stripped : List ℕ → List ℕ → Shell → Run Shell
stripped [] rest s = crashed
stripped (c ∷ cs) rest s = running (record s { input = rest; cmdline = strip (c ∷ cs) })

-- `fgets` returns NULL if it gets no byte
unfoldable pub got : List ℕ → List ℕ → Shell → Run Shell
got [] rest s = exited 1 (show no_command_line s)
got (b ∷ bs) rest s = stripped (until_zero (b ∷ bs)) rest s

unfoldable pub get_cmdline : ℕ → Shell → Run Shell
get_cmdline bufsz s = let (line, rest) = fgets (bufsz - 1) s.input in got line rest s

-- the byte at a place of a string, the zero at its end included
abbrev pub char_at : ℕ → List ℕ → ℕ
char_at i [] = 0
char_at zero (c ∷ cs) = c
char_at (suc i) (c ∷ cs) = char_at i cs

-- one of two letters, then a space
abbrev pub starts : ℕ → ℕ → List ℕ → Bool
starts small big line =
    ((char_at 0 line == small) || (char_at 0 line == big)) && (char_at 1 line == 32)

-- `EXEC_TASK_NAME_SZ`, `SHELL_CMDLINE_SZ`
abbrev pub exec_task_name_sz : ℕ
exec_task_name_sz = 60

abbrev pub shell_cmdline_sz : ℕ
shell_cmdline_sz = 100

abbrev pub is_empty : List ℕ → Bool
is_empty [] = true
is_empty (c ∷ cs) = false

-- what a command line asks for
pub data Action : Type 0 where
  shows_help quits : Action
  issues : Request → Action
  is_bad : Action

unfoldable pub parse : List ℕ → Action
parse line =
    let argument = drop 2 line in
    if is_empty line || same_text line (63 ∷ [])
    then shows_help
    else if same_text line (113 ∷ []) || same_text line (81 ∷ [])
    then quits
    else if same_text line (112 ∷ []) || same_text line (80 ∷ [])
    then issues print_tasks
    else if starts 107 75 line
    then issues (kill_task (atoi argument))
    else if starts 101 69 line
    then issues (exec_task (take (exec_task_name_sz - 1) argument))
    else if starts 104 72 line
    then issues (high_task (atoi argument))
    else if starts 108 76 line
    then issues (low_task (atoi argument))
    else is_bad

unfoldable pub perform : (List Request → Answer) → Action → Shell → Run Shell
perform answer shows_help s = running (show help_text s)
perform answer quits s = exited 0 (show goodbye s)
perform answer (issues rq) s = issue_request answer rq s
perform answer is_bad s = running (show (bad_command s.cmdline) s)

unfoldable pub process_cmdline : (List Request → Answer) → Shell → Run Shell
process_cmdline answer s = perform answer (parse s.cmdline) s

-- the endless loop of `main`, at most `fuel` times
unfoldable pub shell_loop : (List Request → Answer) → ℕ → Shell → Run Shell
shell_loop answer zero s = hangs
shell_loop answer (suc fuel) s =
    (get_cmdline shell_cmdline_sz s >>= process_cmdline answer) >>= shell_loop answer fuel

abbrev pub start : List ℕ → Shell
start input' = record { input = input'; cmdline = []; issued = []; shown = [] }

-- two arguments, which are numbers of descriptors; a line takes at least a byte of the input
unfoldable pub shell_main : (List Request → Answer) → List (List ℕ) → List ℕ → Run Shell
shell_main answer (name ∷ a ∷ b ∷ []) input' =
    if (atoi a == 0) || (atoi b == 0)
    then exited 1 (show bad_arguments (start input'))
    else shell_loop answer (suc (length input')) (start input')
shell_main answer args input' = exited 1 (show bad_arguments (start input'))
