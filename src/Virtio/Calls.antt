-- ===== src/Virtio/Calls.antt =====
-- A command of `ioctl` in the guest, against the same command on the host's crypto device.
use c_development_on_linux.Base.{
  ℕ, ◌<◌, Bool, true, false, List, ◌≡◌, refl, arith, All, replicate, none,
}
use c_development_on_linux.Virtio.Wire.{Sg, Element, put_at}
use c_development_on_linux.Virtio.Host.{
  Cryptodev, Call, ioctl_call, vq_handle_output, handle_call, handle_command, handle_gsession,
  handle_fsession, handle_crypt,
}
use c_development_on_linux.Virtio.Guest.{
  Ioctl, asks_session, ends_session, asks_crypt, asks_other, session_written, bytes_written, Done,
  finished, spins, faults, out_list, in_list, ioctl_element, copied_out, reply, send, iv_len,
  crypto_chrdev_ioctl,
}

-- What the host's crypto device does with a command of the guest's user if it gets copies of the
-- user's buffers; whether it succeeds is not told.
abbrev pub direct : {H : Type 0} → Cryptodev H → ℕ → (ℕ → ℕ → List ℕ) → Bool → Ioctl → H → Done H
direct dev host_fd user works (asks_session s) h =
    let (fine, s', h') =
      dev.get_session host_fd (record s { key = dev.out_base 3 }) (user s.key s.keylen) h in
    copied_out works (session_written s') h'
direct dev host_fd user works (ends_session id) h = record {
  ret = 0;
  to_user = none;
  host = (dev.free_session host_fd id h).1;
}
direct dev host_fd user works (asks_crypt c) h =
    let (fine, dst, h') =
      dev.crypt host_fd
        (record c { src = dev.out_base 5; iv = dev.out_base 6; dst = dev.in_base 1 })
        (user c.src c.len) (user c.iv iv_len) (replicate c.len 0) h in
    copied_out works (bytes_written c.dst dst) h'
direct dev host_fd user works (asks_other n) h = record { ret = 0; to_user = none; host = h }

abbrev pub IsFilled : List Sg → Type 0
IsFilled ss = All (λ s. 0 < s.size) ss

-- The queue hands on every element whose buffers all have a byte, and no element with an empty one.
pub record IsQueue (passes : Element → Bool) : Type 0 where
  pub hands_on : (e : Element) → IsFilled e.out_sg → IsFilled e.in_sg → passes e ≡ true
  pub stops : (e : Element) → ¬ IsFilled e.out_sg → passes e ≡ false

-- a command that the driver knows, with a key or data
abbrev pub IsKnown : Ioctl → Type 0
IsKnown (asks_session s) = 0 < s.keylen
IsKnown (ends_session id) = Unit
IsKnown (asks_crypt c) = 0 < c.len
IsKnown (asks_other n) = ⊥

-- a session without a key, or data of no length
abbrev pub IsEmptyCall : Ioctl → Type 0
IsEmptyCall (asks_session s) = s.keylen ≡ 0
IsEmptyCall (ends_session id) = ⊥
IsEmptyCall (asks_crypt c) = c.len ≡ 0
IsEmptyCall (asks_other n) = ⊥

module _ {H : Type 0} (passes : Element → Bool) (call_of : ℕ → Call) (dev : Cryptodev H)
    (queue : IsQueue passes) (numbers : call_of 2 ≡ ioctl_call) where
  passes_lem :
      (host_fd : ℕ) (user : ℕ → ℕ → List ℕ) (host_ret : ℕ) (io : Ioctl)
      → IsKnown io
      → passes (ioctl_element host_fd user host_ret io) ≡ true
  unfolding ioctl_element out_list in_list
  passes_lem host_fd user host_ret (asks_session s) k =
      let int : 0 < 4 = omega arith in
      let text : 0 < 100 = omega arith in
      queue.hands_on _ (int, (int, (int, (k, (text, tt))))) (text, (omega arith, (omega arith, tt)))
  passes_lem host_fd user host_ret (ends_session id) k =
      let int : 0 < 4 = omega arith in
      let text : 0 < 100 = omega arith in
      queue.hands_on _ (int, (int, (int, (text, (int, tt))))) (text, (int, tt))
  passes_lem host_fd user host_ret (asks_crypt c) k =
      let int : 0 < 4 = omega arith in
      let text : 0 < 100 = omega arith in
      queue.hands_on _ (int, (int, (int, (omega arith, (text, (k, (k, tt)))))))
        (int, (k, (text, tt)))
  passes_lem host_fd user host_ret (asks_other n) k = absurd k

  -- With a queue that hands on elements without empty buffers, and the same number for ioctl on both
  -- sides: a known command with a key or data brings the user what the host's crypto device makes of
  -- it, and leaves that device in the same state; the return value tells only if the copy back worked.
  pub crypto_chrdev_ioctl-direct :
      (host_fd : ℕ) (user : ℕ → ℕ → List ℕ) (works : Bool) (host_ret : ℕ) (io : Ioctl) (h : H)
      → IsKnown io
      → crypto_chrdev_ioctl passes call_of dev host_fd user works host_ret io h
        ≡ finished (direct dev host_fd user works io h)
  unfolding crypto_chrdev_ioctl send ioctl_element out_list in_list vq_handle_output handle_call
      handle_command handle_gsession handle_fsession handle_crypt reply put_at
  crypto_chrdev_ioctl-direct host_fd user works host_ret (asks_session s) h k =
      rw (passes_lem host_fd user host_ret (asks_session s) k, numbers) refl
  crypto_chrdev_ioctl-direct host_fd user works host_ret (ends_session id) h k =
      rw (passes_lem host_fd user host_ret (ends_session id) k, numbers) refl
  crypto_chrdev_ioctl-direct host_fd user works host_ret (asks_crypt c) h k =
      rw (passes_lem host_fd user host_ret (asks_crypt c) k, numbers) refl
  crypto_chrdev_ioctl-direct host_fd user works host_ret (asks_other n) h k = absurd k

  -- With such a queue and number, a command that the driver does not know is sent without its number,
  -- and the host reads behind the end of the list of buffers.
  crypto_chrdev_ioctl-unknown :
      (host_fd : ℕ) (user : ℕ → ℕ → List ℕ) (works : Bool) (host_ret n : ℕ) (h : H)
      → crypto_chrdev_ioctl passes call_of dev host_fd user works host_ret (asks_other n) h ≡ faults
  unfolding crypto_chrdev_ioctl send ioctl_element out_list in_list vq_handle_output handle_call
  crypto_chrdev_ioctl-unknown host_fd user works host_ret n h =
      let int : 0 < 4 = omega arith in
      rw
        (
          queue.hands_on (ioctl_element host_fd user host_ret (asks_other n)) (int, (int, tt)) tt,
          numbers,
        )
        refl

  -- With a queue that stops at an empty buffer, the driver waits for ever when a session has no key, as
  -- for a hash, or an operation no data.
  crypto_chrdev_ioctl-empty :
      (host_fd : ℕ) (user : ℕ → ℕ → List ℕ) (works : Bool) (host_ret : ℕ) (io : Ioctl) (h : H)
      → IsEmptyCall io
      → crypto_chrdev_ioctl passes call_of dev host_fd user works host_ret io h ≡ spins
  unfolding crypto_chrdev_ioctl send ioctl_element out_list
  crypto_chrdev_ioctl-empty host_fd user works host_ret (asks_session s) h k =
      rw
        (queue.stops (ioctl_element host_fd user host_ret (asks_session s))
          (λ f. omega (arith, k, f.1.1.1.0)))
        refl
  crypto_chrdev_ioctl-empty host_fd user works host_ret (ends_session id) h k = absurd k
  crypto_chrdev_ioctl-empty host_fd user works host_ret (asks_crypt c) h k =
      rw
        (queue.stops (ioctl_element host_fd user host_ret (asks_crypt c))
          (λ f. omega (arith, k, f.1.1.1.1.1.0)))
        refl
  crypto_chrdev_ioctl-empty host_fd user works host_ret (asks_other n) h k = absurd k
