-- ===== src/Scheduler/Shell/Sessions.antt =====
-- Whole sessions with the shell of shell.c: scripts of commands, long lines, and the end of its loop.
use c_development_on_linux.Base.Streams.{IsPlain}
use c_development_on_linux.Base.{
  subst, if◌then◌else◌, ℕ, suc, zero, ◌^◌, ◌-◌, ◌<◌, ◌≤◌, ◌≢◌, List, [], ◌∷◌, ◌++◌, ◌≡◌, refl, sym,
  ap, ◌∙◌, arith, length, length-append, All, ltb, ==_of_ne, append_assoc, append-nil, Bool-cases,
  inl, inr,
}
use c_development_on_linux.Base.Texts.{same_text, digits, IsDigit, digits-IsDigit, length-digits}
use c_development_on_linux.Base.Decimal.{atoi}
use c_development_on_linux.Scheduler.Runs.{
  running, exited, Request, print_tasks, kill_task, exec_task, high_task, low_task, unknown,
}
use c_development_on_linux.Scheduler.Shell.{
  Shell, Answer, Message, show, put_request, failed_request, returned, shell_loop, shell_main,
  start, process_cmdline, parse, perform, issue_request, on_answer, goodbye,
}
use c_development_on_linux.Scheduler.Shell.Lines.{get_line}
use c_development_on_linux.Scheduler.Shell.Commands.{IsSendable, command, parse-command}

-- what can be typed into one line
abbrev pub IsTyped : Request → Type 0
IsTyped print_tasks = Unit
IsTyped (kill_task n) = Unit
IsTyped (exec_task name) = All IsPlain name
IsTyped (high_task n) = Unit
IsTyped (low_task n) = Unit
IsTyped (unknown n) = ⊥

above : (c : ℕ) → 10 < c → IsPlain c
above c h = ((λ e. omega (arith, h, e)), λ e. omega (arith, h, e))

with_argument : (c : ℕ) (bs : List ℕ) → 10 < c → All IsPlain bs → All IsPlain (c ∷ 32 ∷ bs)
with_argument c bs h a = (above c h, (above 32 (omega arith), a))

digits-IsPlain : (line : List ℕ) → All IsDigit line → All IsPlain line
digits-IsPlain [] a = tt
digits-IsPlain (c ∷ line) a = (above c (omega (arith, a.0.0)), digits-IsPlain line a.1)

with_number : (c n : ℕ) → 10 < c → All IsPlain (c ∷ 32 ∷ digits 10 n)
with_number c n h =
    with_argument c (digits 10 n) h (digits-IsPlain (digits 10 n) (digits-IsDigit 10 n))

command-IsPlain : (rq : Request) → IsTyped rq → All IsPlain (command rq)
command-IsPlain print_tasks a = (above 112 (omega arith), tt)
command-IsPlain (kill_task n) a = with_number 107 n (omega arith)
command-IsPlain (exec_task name) a = with_argument 101 name (omega arith) a
command-IsPlain (high_task n) a = with_number 104 n (omega arith)
command-IsPlain (low_task n) a = with_number 108 n (omega arith)
command-IsPlain (unknown n) a = absurd a

length-command : (rq : Request) → IsSendable rq → length (command rq) < 99
length-command print_tasks h = omega arith
length-command (kill_task n) h = omega (arith, length-digits 10 9 n (omega (arith, h)))
length-command (exec_task name) h = omega (arith, h)
length-command (high_task n) h = omega (arith, length-digits 10 9 n (omega (arith, h)))
length-command (low_task n) h = omega (arith, length-digits 10 9 n (omega (arith, h)))
length-command (unknown n) h = absurd h

-- The requests that are typed, each in its own line.
abbrev pub script : List Request → List ℕ
script [] = []
script (rq ∷ rqs) = command rq ++ 10 ∷ script rqs

-- the scheduler answers every request
abbrev pub answers : (List Request → ℕ) → List Request → Answer
answers ret rqs = returned (ret rqs)

-- After the requests `ps`, these requests get these answers, one by one.
abbrev pub Answered : (List Request → Answer) → List Request → List Request → List ℕ → Type 0
Answered answer ps [] [] = Unit
Answered answer ps [] (n ∷ ns) = ⊥
Answered answer ps (rq ∷ rqs) [] = ⊥
Answered answer ps (rq ∷ rqs) (n ∷ ns) =
    (answer (ps ++ rq ∷ []) ≡ returned n) × Answered answer (ps ++ rq ∷ []) rqs ns

-- what the shell shows of an answer, and of many
abbrev failure : ℕ → List Message
failure n = if ltb n (2 ^ 31) then [] else failed_request (2 ^ 32 - n) ∷ []

abbrev pub failures : List ℕ → List Message
failures [] = []
failures (n ∷ ns) = failure n ++ failures ns

issue_request-returned :
    (answer : List Request → Answer) (n : ℕ) (rq : Request) (s : Shell)
    → answer (s.issued ++ rq ∷ []) ≡ returned n
    → (t : Shell) × (issue_request answer rq s ≡ running t)
      × (t.issued ≡ s.issued ++ rq ∷ [])
      × (t.input ≡ s.input)
      × (t.shown ≡ s.shown ++ failure n)
unfolding issue_request on_answer
issue_request-returned answer n rq s e = elim (Bool-cases (ltb n (2 ^ 31))) [
  | inl fine ↦ (put_request rq s, rw (e, fine) refl, refl, refl, rw fine (sym (append-nil s.shown)))
  | inr negative ↦ (
    show (failed_request (2 ^ 32 - n)) (put_request rq s),
    rw (e, negative) refl,
    refl,
    refl,
    rw negative refl,
  )
]

shell_loop-script :
    (answer : List Request → Answer) (rqs : List Request) (ns : List ℕ) (fuel : ℕ) (s : Shell)
    (rest : List ℕ)
    → All (λ rq. IsSendable rq × IsTyped rq) rqs
    → Answered answer s.issued rqs ns
    → length rqs < fuel
    → s.input ≡ script rqs ++ 113 ∷ 10 ∷ rest
    → (t : Shell) × (shell_loop answer fuel s ≡ exited 0 t)
      × (t.issued ≡ s.issued ++ rqs)
      × (t.input ≡ rest)
      × (t.shown ≡ s.shown ++ (failures ns ++ goodbye ∷ []))
unfolding shell_loop process_cmdline perform parse same_text
shell_loop-script answer rqs ns zero s rest a k h e = absurd (omega (arith, h))
shell_loop-script answer [] [] (suc fuel) s rest a k h e = (
  show goodbye (record s { input = rest; cmdline = 113 ∷ [] }),
  rw (get_line s (113 ∷ []) rest (above 113 (omega arith), tt) (omega arith) e) refl,
  sym (append-nil s.issued),
  refl,
  refl,
)
shell_loop-script answer [] (n ∷ ns) (suc fuel) s rest a k h e = absurd k
shell_loop-script answer (rq ∷ rqs) [] (suc fuel) s rest a k h e = absurd k
shell_loop-script answer (rq ∷ rqs) (n ∷ ns) (suc fuel) s rest a k h e =
    let later : List ℕ = script rqs ++ 113 ∷ 10 ∷ rest in
    let read : Shell = record s { input = later; cmdline = command rq } in
    let (t, done, issued', left, shown') = issue_request-returned answer n rq read k.0 in
    let (last, all, told, rest', messages) =
      shell_loop-script answer rqs ns fuel t rest a.1
        (subst (λ ps. Answered answer ps rqs ns) (sym issued') k.1) (omega (arith, h)) left in
    (
      last,
      rw
          (
            get_line s (command rq) later (command-IsPlain rq a.0.1) (length-command rq a.0.0)
                (e ∙ append_assoc (command rq) (10 ∷ script rqs) (113 ∷ 10 ∷ rest)),
            parse-command rq a.0.0,
            done,
          )
          all,
      told ∙ ap (λ l. l ++ rqs) issued' ∙ append_assoc s.issued (rq ∷ []) rqs,
      rest',
      messages
          ∙ ap (λ l. l ++ (failures ns ++ goodbye ∷ [])) shown'
          ∙ append_assoc s.shown (failure n) (failures ns ++ goodbye ∷ [])
          ∙ ap (λ l. s.shown ++ l) (sym (append_assoc (failure n) (failures ns) (goodbye ∷ []))),
    )

length-script : (rqs : List Request) → length rqs ≤ length (script rqs)
length-script [] = omega arith
length-script (rq ∷ rqs) =
    omega (arith, length-script rqs, length-append (command rq) (10 ∷ script rqs))

-- A script, its answers, and what the shell shows in the end
pub shell_main-Answered :
    (answer : List Request → Answer) (ns : List ℕ) (name wfd rfd : List ℕ) (rqs : List Request)
    (rest : List ℕ)
    → atoi wfd ≢ 0
    → atoi rfd ≢ 0
    → All (λ rq. IsSendable rq × IsTyped rq) rqs
    → Answered answer [] rqs ns
    → (t : Shell) × (shell_main answer (name ∷ wfd ∷ rfd ∷ []) (script rqs ++ 113 ∷ 10 ∷ rest)
        ≡ exited 0 t)
      × (t.issued ≡ rqs)
      × (t.input ≡ rest)
      × (t.shown ≡ failures ns ++ goodbye ∷ [])
unfolding shell_main
shell_main-Answered answer ns name wfd rfd rqs rest w r a k =
    let input' : List ℕ = script rqs ++ 113 ∷ 10 ∷ rest in
    let enough : length rqs < suc (length input') =
      omega (arith, length-script rqs, length-append (script rqs) (113 ∷ 10 ∷ rest)) in
    rw (==_of_ne (atoi wfd) 0 w, ==_of_ne (atoi rfd) 0 r)
      (shell_loop-script answer rqs ns (suc (length input')) (start input') rest a k enough refl)

answers-Answered :
    (ret : List Request → ℕ) (ps rqs : List Request)
    → (ns : List ℕ) × Answered (answers ret) ps rqs ns
answers-Answered ret ps [] = ([], tt)
answers-Answered ret ps (rq ∷ rqs) =
    let (ns, k) = answers-Answered ret (ps ++ rq ∷ []) rqs in (ret (ps ++ rq ∷ []) ∷ ns, (refl, k))

-- With two descriptors that are not 0 and a scheduler that answers each request: requests whose
-- numbers are below 2^31 and whose names fit, without a zero or a newline, are issued in the order in
-- which they are typed, and the `q` behind them ends the shell with status 0 and the input behind it
-- unread.
pub shell_main-script :
    (ret : List Request → ℕ) (name wfd rfd : List ℕ) (rqs : List Request) (rest : List ℕ)
    → atoi wfd ≢ 0
    → atoi rfd ≢ 0
    → All (λ rq. IsSendable rq × IsTyped rq) rqs
    → (t : Shell) × (shell_main
          (answers ret)
          (name ∷ wfd ∷ rfd ∷ [])
          (script rqs ++ 113 ∷ 10 ∷ rest)
        ≡ exited 0 t)
      × (t.issued ≡ rqs)
      × (t.input ≡ rest)
shell_main-script ret name wfd rfd rqs rest w r a =
    let (ns, k) = answers-Answered ret [] rqs in
    let (t, ends, issued', left, _) =
      shell_main-Answered (answers ret) ns name wfd rfd rqs rest w r a k in
    (t, ends, issued', left)
