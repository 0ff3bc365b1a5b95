-- ===== src/Virtio/Files.antt =====
-- Opening and closing of the guest's device file, where the buffer of the call's number is the
-- pointer to it.
use c_development_on_linux.Base.{
  ℕ, ◌+◌, ◌-◌, ◌%◌, ◌^◌, ◌≤◌, Bool, true, false, ◌≡◌, ◌≢◌, refl, arith, Option, none, some, ◌⊎◌,
  inl, inr, Bool-cases, ◌==◌, ==_refl, ==_iff,
}
use c_development_on_linux.Virtio.Wire.{Element, put_at}
use c_development_on_linux.Virtio.Host.{
  Cryptodev, Call, open_call, close_call, ioctl_call, no_call, vq_handle_output, handle_call,
}
use c_development_on_linux.Virtio.Guest.{
  Opened, finished, send, enodev, after_down, open_element, release_element, crypto_chrdev_open,
  crypto_chrdev_release,
}
use c_development_on_linux.Virtio.Calls.{IsQueue}

-- The host numbers the calls as the guest does.
pub record IsNumbering (call_of : ℕ → Call) : Type 0 where
  pub opens : call_of 0 ≡ open_call
  pub closes : call_of 1 ≡ close_call
  pub commands : call_of 2 ≡ ioctl_call
  pub others : (n : ℕ) → 3 ≤ n → call_of n ≡ no_call

-- what a release can leave of the host's device: no `close` is among it
abbrev pub NotClosed : {H : Type 0} → Cryptodev H → H → H → Type 0
NotClosed dev h h' = (h' ≡ h) ⊎ (h' ≡ (dev.open_device h).1)

module _ {H : Type 0} (passes : Element → Bool) (call_of : ℕ → Call) (dev : Cryptodev H)
    (queue : IsQueue passes) (numbers : IsNumbering call_of) where
  -- The address of an allocated number is a multiple of eight, so its lower half is no call unless it
  -- is 0.
  aligned : (p : ℕ) → p % 8 ≡ 0 → p % 2 ^ 32 ≢ 0 → call_of (p % 2 ^ 32) ≡ no_call
  aligned p a nz =
      let small : (p % 2 ^ 32) % 8 ≡ 0 = omega (arith, a) in
      numbers.others (p % 2 ^ 32) (omega (arith, a, small, nz))

  open_passes : (p q : ℕ) → passes (open_element p q) ≡ true
  open_passes p q = queue.hands_on _ (omega arith, tt) (omega arith, tt)

  release_passes : (p fd : ℕ) → passes (release_element p fd) ≡ true
  release_passes p fd = queue.hands_on _ (omega arith, (omega arith, tt)) (omega arith, tt)

  -- With a queue that hands on filled buffers and the same numbers on both sides: unless the lower half
  -- of the address of the call's number, a multiple of eight, is 0, the host does not open its device,
  -- and an open of an existing device fails with -ENODEV.
  pub crypto_chrdev_open-enodev :
      (sema' : ℕ) (interrupted : Bool) (load : ℕ → Option ℕ) (p q : ℕ) (h : H)
      → p % 8 ≡ 0
      → p % 2 ^ 32 ≢ 0
      → crypto_chrdev_open passes call_of dev false (some sema') true interrupted load p q h
        ≡ finished (record {
          ret = enodev;
          sema = after_down interrupted 1 + 1;
          host_fd = some (2 ^ 32 - 1);
          host = h;
        })
  unfolding crypto_chrdev_open send vq_handle_output handle_call
  crypto_chrdev_open-enodev sema' interrupted load p q h a nz =
      rw (open_passes p q, aligned p a nz, ==_refl q) refl

  -- With such a queue and numbers, and an address that is a multiple of eight, a release returns, but
  -- never closes the file on the host.
  pub crypto_chrdev_release-NotClosed :
      (interrupted : Bool) (p host_fd sema' : ℕ) (h : H)
      → p % 8 ≡ 0
      → (r : Opened H) × (crypto_chrdev_release passes call_of dev interrupted p host_fd sema' h
          ≡ finished r)
        × NotClosed dev h r.host
  unfolding crypto_chrdev_release send vq_handle_output handle_call put_at
  crypto_chrdev_release-NotClosed interrupted p host_fd sema' h a =
      let returns : ℕ → H → Opened H = λ ret' h'. record {
        ret = ret';
        sema = after_down interrupted sema' + 1;
        host_fd = none;
        host = h';
      } in
      elim (Bool-cases (p % 2 ^ 32 == 0)) [
        | inl half ↦
            let zero_half : p % 2 ^ 32 ≡ 0 = (==_iff (p % 2 ^ 32) 0).0 half in
            (
              returns (dev.open_device h).0 (dev.open_device h).1,
              rw (release_passes p host_fd, zero_half, numbers.opens) refl,
              inr refl,
            )
        | inr half ↦
            let other_half : p % 2 ^ 32 ≢ 0 = λ z. ground (arith, half, z) in
            (returns 0 h, rw (release_passes p host_fd, aligned p a other_half) refl, inl refl)
      ]
