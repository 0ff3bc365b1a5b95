-- ===== src/Virtio/Guest.antt =====
-- The calls of the guest's driver that reach the host: crypto-chrdev.c. The queue, the numbers of the
-- calls on the host and the host's crypto device are parameters. The memory that ioctl allocates is
-- taken to be there: its kzalloc is not checked.
use c_development_on_linux.Base.{
  ℕ, ◌+◌, ◌-◌, ◌^◌, Bool, ◌||◌, ◌==◌, leb, List, [], ◌∷◌, Option, none, some, replicate,
  if◌then◌else◌,
}
use c_development_on_linux.Virtio.Wire.{
  SessionOp, CryptOp, ciocgsession, ciocfsession, cioccrypt, hello_host, no_message, Buffer, number,
  pointer, command, message, bytes, session, crypt_op, Sg, sg, Element, as_int, as_bytes,
  as_session,
}
use c_development_on_linux.Virtio.Host.{
  Cryptodev, Call, Handled, pushed, kept, strays, in_at, vq_handle_output,
}

-- A call of the driver returns, waits for the host for ever, or makes an access outside of an object,
-- on the guest or on the host.
pub data Outcome (A : Type 0) : Type 0 where
  finished : A → Outcome A
  spins : Outcome A
  faults : Outcome A

infixl 5 ◌>>=◌
abbrev pub ◌>>=◌ : {A B : Type 0} → Outcome A → (A → Outcome B) → Outcome B
finished a >>= f = f a
spins >>= f = spins
faults >>= f = faults

abbrev pub or_faults : {A : Type 0} → Option A → Outcome A
or_faults none = faults
or_faults (some a) = finished a

-- `MSG_LEN`, the size of an initialization vector, and -ENODEV and -ENOMEM as an `int`
abbrev pub msg_len : ℕ
msg_len = 100

abbrev pub iv_len : ℕ
iv_len = 16

abbrev pub enodev : ℕ
enodev = 2 ^ 32 - 19

abbrev pub enomem : ℕ
enomem = 2 ^ 32 - 12

-- A command of `ioctl` with the structure that its argument points to.
pub data Ioctl : Type 0 where
  asks_session : SessionOp → Ioctl
  ends_session : ℕ → Ioctl
  asks_crypt : CryptOp → Ioctl
  asks_other : ℕ → Ioctl

-- what `copy_to_user` writes: the structure of a session, or bytes at an address
pub data Written : Type 0 where
  session_written : SessionOp → Written
  bytes_written : ℕ → List ℕ → Written

pub record Done (H : Type 0) : Type 0 where
  pub ret : ℕ
  pub to_user : Option Written
  pub host : H

-- The buffers of a command, for the memory of the user: `user a n` are the `n` bytes at `a`. The
-- numbers on the right are sizes: of an `int` and of the structures on a 64-bit machine.
unfoldable pub out_list : (ℕ → ℕ → List ℕ) → Ioctl → List Sg
out_list user (asks_session s) =
    sg (command ciocgsession) 4
    ∷ sg (bytes (user s.key s.keylen)) s.keylen
    ∷ sg (message (hello_host ciocgsession)) msg_len
    ∷ []
out_list user (ends_session id) =
    sg (command ciocfsession) 4
    ∷ sg (message (hello_host ciocfsession)) msg_len
    ∷ sg (number id) 4
    ∷ []
out_list user (asks_crypt c) =
    sg (command cioccrypt) 4
    ∷ sg (crypt_op c) 48
    ∷ sg (message (hello_host cioccrypt)) msg_len
    ∷ sg (bytes (user c.src c.len)) c.len
    ∷ sg (bytes (user c.iv iv_len)) c.len
    ∷ []
out_list user (asks_other n) = []

-- `host_ret` starts as what is on the stack.
unfoldable pub in_list : ℕ → Ioctl → List Sg
in_list host_ret (asks_session s) =
    sg (message no_message) msg_len ∷ sg (session s) 48 ∷ sg (number host_ret) 8 ∷ []
in_list host_ret (ends_session id) = sg (message no_message) msg_len ∷ sg (number host_ret) 4 ∷ []
in_list host_ret (asks_crypt c) =
    sg (number host_ret) 4
    ∷ sg (bytes (replicate c.len 0)) c.len
    ∷ sg (message no_message) msg_len
    ∷ []
in_list host_ret (asks_other n) = []

unfoldable pub ioctl_element : ℕ → (ℕ → ℕ → List ℕ) → ℕ → Ioctl → Element
ioctl_element host_fd user host_ret io = record {
  out_sg = sg (number 2) 4 ∷ sg (number host_fd) 4 ∷ out_list user io;
  in_sg = in_list host_ret io;
}

-- the end of `ioctl`, where `copy_to_user` works or not
abbrev pub copied_out : {H : Type 0} → Bool → Written → H → Done H
copied_out works w h =
    if works
    then record { ret = 0; to_user = some w; host = h }
    else record { ret = 1; to_user = none; host = h }

unfoldable pub reply : {H : Type 0} → Bool → Ioctl → Element × H → Outcome (Done H)
reply works (asks_session s) (elem, h) =
    or_faults (in_at as_session 1 elem) >>= λ s'. finished (copied_out works (session_written s') h)
reply works (ends_session id) (elem, h) = finished (record { ret = 0; to_user = none; host = h })
reply works (asks_crypt c) (elem, h) = or_faults (in_at as_bytes 1 elem) >>= λ dst.
    finished (copied_out works (bytes_written c.dst dst) h)
reply works (asks_other n) (elem, h) = finished (record { ret = 0; to_user = none; host = h })

-- what `get_buf` brings back
abbrev pub answered : {H : Type 0} → Handled H → Outcome (Element × H)
answered (pushed elem h) = finished (elem, h)
answered (kept h) = spins
answered strays = faults

-- A semaphore after `down_interruptible`, whose result is not looked at.
abbrev pub after_down : Bool → ℕ → ℕ
after_down interrupted n = if interrupted then n else n - 1

pub record Opened (H : Type 0) : Type 0 where
  pub ret : ℕ
  pub sema : ℕ
  pub host_fd : Option ℕ
  pub host : H

-- The value that the guest finds through its pointer: -1 if the host left the pointer as it was.
abbrev pub through : (ℕ → Option ℕ) → ℕ → ℕ → Option ℕ
through load q q' = if q' == q then some (2 ^ 32 - 1) else load q'

abbrev pub as_pointer : Buffer → Option ℕ
as_pointer (pointer p) = some p
as_pointer _ = none

abbrev pub refused : ℕ → Bool
refused fd = (fd == 0) || leb (2 ^ 31) fd

-- The buffers are the variables `syscall_type`, at address `p`, and `host_fd`, at `q`: not what
-- they point to.
abbrev pub open_element : ℕ → ℕ → Element
open_element p q = record { out_sg = sg (pointer p) 8 ∷ []; in_sg = sg (pointer q) 8 ∷ [] }

-- A descriptor of 0 or below is refused; the other path runs into the label `fail`.
abbrev pub after_open : {H : Type 0} → ℕ → ℕ → H → Opened H
after_open sema' fd h =
    if refused fd
    then record { ret = enodev; sema = sema' + 1; host_fd = some fd; host = h }
    else record { ret = 0; sema = sema' + 2; host_fd = some fd; host = h }

abbrev pub release_element : ℕ → ℕ → Element
release_element p host_fd = record {
  out_sg = sg (pointer p) 8 ∷ sg (number host_fd) 4 ∷ [];
  in_sg = sg (number 0) 4 ∷ [];
}

-- the queue, the numbers of the calls, and the host's device
module _ {H : Type 0} (passes : Element → Bool) (call_of : ℕ → Call) (dev : Cryptodev H) where
  unfoldable pub send : Element → H → Outcome (Element × H)
  send elem h = if passes elem then answered (vq_handle_output dev call_of elem h) else spins

  -- In this order: the descriptor, the memory of the user, if `copy_to_user` works, what is on the
  -- stack, and the command
  unfoldable pub crypto_chrdev_ioctl :
      ℕ → (ℕ → ℕ → List ℕ) → Bool → ℕ → Ioctl → H → Outcome (Done H)
  crypto_chrdev_ioctl host_fd user works host_ret io h =
      send (ioctl_element host_fd user host_ret io) h >>= reply works io

  -- In this order: if `nonseekable_open` fails; the semaphore of the device with the minor number, if
  -- there is one; if `kzalloc` works for the file; if a signal comes while the semaphore is taken; what
  -- the memory holds at an address; and `p` and `q`. A path that fails before a device is found calls
  -- `up` on a null pointer.
  unfoldable pub crypto_chrdev_open :
      Bool → Option ℕ → Bool → Bool → (ℕ → Option ℕ) → ℕ → ℕ → H → Outcome (Opened H)
  crypto_chrdev_open open_fails none has_memory interrupted load p q h = faults
  crypto_chrdev_open open_fails (some sema') has_memory interrupted load p q h =
      if open_fails
      then faults
      else if has_memory
      then (send (open_element p q) h >>= λ r. or_faults (in_at as_pointer 0 r.0) >>= λ q'.
          or_faults (through load q q') >>= λ fd.
          finished (after_open (after_down interrupted 1) fd r.1))
      else finished (record { ret = enomem; sema = sema' + 1; host_fd = none; host = h })

  -- In this order: if a signal comes while the semaphore is taken, the address `p` of `syscall_type`,
  -- the descriptor and the semaphore
  unfoldable pub crypto_chrdev_release : Bool → ℕ → ℕ → ℕ → H → Outcome (Opened H)
  crypto_chrdev_release interrupted p host_fd sema' h = send (release_element p host_fd) h >>= λ r.
      or_faults (in_at as_int 0 r.0) >>= λ ret'.
      finished
        (record { ret = ret'; sema = after_down interrupted sema' + 1; host_fd = none; host = r.1 })
