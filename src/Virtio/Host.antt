-- ===== src/Virtio/Host.antt =====
-- The device of the host: virtio-cryptodev.c. The crypto device that the host opens is a parameter.
use c_development_on_linux.Base.{
  zero, suc, on_some, ℕ, ◌^◌, ◌-◌, ◌/◌, ◌*◌, ◌+◌, Bool, List, Option, none, some, get_elem?,
  if◌then◌else◌,
}
use c_development_on_linux.Virtio.Wire.{
  SessionOp, CryptOp, Command, ciocgsession, ciocfsession, cioccrypt, other_command, welcome,
  Buffer, number, pointer, message, bytes, session, crypt_op, Sg, Element, put_at, as_int,
  as_command, as_message, as_bytes, as_session, as_crypt,
}

-- The crypto device of the host over its state, and where the host sees the buffers of an element: a
-- call tells if it succeeds, and what it leaves in what it was given.
pub record Cryptodev (H : Type 0) : Type 0 where
  pub open_device : H → ℕ × H
  pub close_device : ℕ → H → Bool × H
  pub get_session : ℕ → SessionOp → List ℕ → H → Bool × SessionOp × H
  pub free_session : ℕ → ℕ → H → Bool × H
  pub crypt : ℕ → CryptOp → List ℕ → List ℕ → List ℕ → H → Bool × List ℕ × H
  pub out_base : ℕ → ℕ
  pub in_base : ℕ → ℕ

-- `VIRTIO_CRYPTODEV_SYSCALL_TYPE_*`
pub data Call : Type 0 where
  open_call close_call ioctl_call no_call : Call

-- The numbers of the calls, as the patch for QEMU gives them. The file of this device includes them
-- from a header that is not beside it, so the handler takes them as an argument.
abbrev pub patched_call : ℕ → Call
patched_call zero = open_call
patched_call (suc zero) = close_call
patched_call (suc (suc zero)) = ioctl_call
patched_call (suc (suc (suc n))) = no_call

-- An element goes back to the guest or is kept, or a buffer is missing or of another kind.
pub data Handled (H : Type 0) : Type 0 where
  pushed : Element → H → Handled H
  kept : H → Handled H
  strays : Handled H

abbrev pub found : {A H : Type 0} → Option A → (A → Handled H) → Handled H
found none k = strays
found (some a) k = k a

-- a buffer of an element, as what the host takes it for
abbrev pub taken_as : {A : Type 0} → (Buffer → Option A) → Option Sg → Option A
taken_as as_a none = none
taken_as as_a (some s) = as_a s.buffer

abbrev pub out_at : {A : Type 0} → (Buffer → Option A) → ℕ → Element → Option A
out_at as_a i elem = taken_as as_a (get_elem? elem.out_sg i)

abbrev pub in_at : {A : Type 0} → (Buffer → Option A) → ℕ → Element → Option A
in_at as_a i elem = taken_as as_a (get_elem? elem.in_sg i)

-- a write to a buffer of the guest
abbrev pub put_in : ℕ → Buffer → Element → Option Element
put_in i b elem = on_some (λ ss. record elem { in_sg = ss }) (put_at i b elem.in_sg)

abbrev pub put_out : ℕ → Buffer → Element → Option Element
put_out i b elem = on_some (λ ss. record elem { out_sg = ss }) (put_at i b elem.out_sg)

-- an `int` of a call, stored at the start of a buffer: over a pointer it replaces the lower half
abbrev pub with_int : ℕ → Buffer → Option Buffer
with_int n (number m) = some (number n)
with_int n (pointer p) = some (pointer (p / 2 ^ 32 * 2 ^ 32 + n))
with_int n _ = none

abbrev pub outcome : Bool → ℕ
outcome fine = if fine then 0 else 2 ^ 32 - 1

abbrev pub store_int : {H : Type 0} → ℕ → ℕ → Element → (Element → Handled H) → Handled H
store_int i n elem k = found (in_at (with_int n) i elem) (λ b. found (put_in i b elem) k)

abbrev pub greet : {H : Type 0} → ℕ → ℕ → Element → (Element → Handled H) → Handled H
greet o i elem k =
    found (out_at as_message o elem)
      (λ m. found (in_at as_message i elem) (λ m'. found (put_in i (message welcome) elem) k))

module _ {H : Type 0} (dev : Cryptodev H) where
  unfoldable pub handle_gsession : ℕ → Element → H → Handled H
  handle_gsession fd elem h = found (out_at as_bytes 3 elem) (λ sesskey. greet 4 0 elem (λ greeted.
      found (in_at as_session 1 greeted) (λ sess.
        let (fine, sess', h') =
          dev.get_session fd (record sess { key = dev.out_base 3 }) sesskey h in
        found (put_in 1 (session sess') greeted)
          (λ told. store_int 2 (outcome fine) told (λ elem'. pushed elem' h')))))

  unfoldable pub handle_fsession : ℕ → Element → H → Handled H
  handle_fsession fd elem h = found (out_at as_int 4 elem) (λ id. greet 3 0 elem (λ greeted.
      let (fine, h') = dev.free_session fd id h in
      store_int 1 (outcome fine) greeted (λ elem'. pushed elem' h')))

  unfoldable pub handle_crypt : ℕ → Element → H → Handled H
  handle_crypt fd elem h = found (out_at as_crypt 3 elem) (λ crypt'.
      found (out_at as_bytes 5 elem) (λ src'. found (out_at as_bytes 6 elem) (λ iv'.
        found (in_at as_bytes 1 elem) (λ dst'. greet 4 2 elem (λ greeted.
          let op' = record crypt' {
            src = dev.out_base 5;
            iv = dev.out_base 6;
            dst = dev.in_base 1;
          } in
          found (put_out 3 (crypt_op op') greeted) (λ filled.
            let (fine, result, h') = dev.crypt fd op' src' iv' dst' h in
            found (put_in 1 (bytes result) filled)
              (λ told. store_int 0 (outcome fine) told (λ elem'. pushed elem' h'))))))))

  unfoldable pub handle_command : Command → ℕ → Element → H → Handled H
  handle_command ciocgsession fd elem h = handle_gsession fd elem h
  handle_command ciocfsession fd elem h = handle_fsession fd elem h
  handle_command cioccrypt fd elem h = handle_crypt fd elem h
  handle_command (other_command n) fd elem h = pushed elem h

  -- A failed `close` returns before the element is given back.
  unfoldable pub handle_close : ℕ → Element → H → Handled H
  handle_close fd elem h =
      let (fine, h') = dev.close_device fd h in if fine then pushed elem h' else kept h'

  unfoldable pub handle_call : Call → Element → H → Handled H
  handle_call open_call elem h =
      let (fd, h') = dev.open_device h in store_int 0 fd elem (λ elem'. pushed elem' h')
  handle_call close_call elem h = found (out_at as_int 1 elem) (λ fd. handle_close fd elem h)
  handle_call ioctl_call elem h =
      found (out_at as_int 1 elem)
        (λ fd. found (out_at as_command 2 elem) (λ cmd. handle_command cmd fd elem h))
  handle_call no_call elem h = pushed elem h

  -- `vq_handle_output`, for the numbers of the calls on the host
  unfoldable pub vq_handle_output : (ℕ → Call) → Element → H → Handled H
  vq_handle_output call_of elem h =
      found (out_at as_int 0 elem) (λ syscall_type. handle_call (call_of syscall_type) elem h)
