-- ===== src/Scheduler/Runs.antt =====
-- What the two schedulers share: the signals they send, how a run goes on or ends, and the requests of
-- request.h.
use c_development_on_linux.Base.{ℕ, ◌+◌, ◌-◌, ◌%◌, ◌^◌, List, Option, none, some}

pub data Signal : Type 0 where
  sigstop sigcont sigkill : Signal

-- what `process_request` returns to the shell: 0 or -ENOSYS
pub data Reply : Type 0 where
  zero_reply enosys : Reply

-- what a handler does to the system, for tasks of type `T`
pub data Effect (T : Type 0) : Type 0 where
  kill : ℕ → Signal → Effect T
  alarm : ℕ → Effect T
  printed : T → Effect T
  replied : Reply → Effect T

-- A handler returns, ends the program with a status, reads or writes a freed node, or never ends.
pub data Run (S : Type 0) : Type 0 where
  running : S → Run S
  exited : ℕ → S → Run S
  crashed : Run S
  hangs : Run S

infixl 5 ◌>>=◌
abbrev pub ◌>>=◌ : {S : Type 0} → Run S → (S → Run S) → Run S
running s >>= f = f s
exited n s >>= f = exited n s
crashed >>= f = crashed
hangs >>= f = hangs

-- `++` and `--` on an `int`
abbrev pub inc : ℕ → ℕ
inc n = (n + 1) % 2 ^ 32

abbrev pub dec : ℕ → ℕ
dec n = (n + (2 ^ 32 - 1)) % 2 ^ 32

-- `pid_t` -1
abbrev pub no_pid : ℕ
no_pid = 2 ^ 32 - 1

-- what `fork` returns to the parent: the child, or -1
abbrev pub pid_of : Option ℕ → ℕ
pid_of none = no_pid
pid_of (some p) = p

-- `SCHED_TQ_SEC`
abbrev pub quantum : ℕ
quantum = 5

-- `struct request_struct`; a number that `enum request_enum` does not have is `unknown`.
pub data Request : Type 0 where
  print_tasks : Request
  kill_task : ℕ → Request
  exec_task : List ℕ → Request
  high_task : ℕ → Request
  low_task : ℕ → Request
  unknown : ℕ → Request

-- what `waitpid` tells of a child
pub data Status : Type 0 where
  has_exited was_signaled was_stopped other_status : Status

-- What the program meets once it serves requests: a request that it reads, for which the two values
-- tell what `fork` and `malloc` return if it makes a task; SIGALRM; SIGCHLD; and, within the handler
-- of SIGCHLD, what a call of `waitpid` tells of a child.
pub data Event : Type 0 where
  request : Option ℕ → ℕ → Request → Event
  alarm_rings : Event
  child_signal : Event
  waited : ℕ → Status → Event
