-- ===== src/Chat/Device.antt =====
-- The chat in a virtual machine: its cipher is the guest's crypto device, whose driver hands the
-- blocks to the host.
use c_development_on_linux.Base.{
  ℕ, Bool, true, ◌==◌, List, ◌≡◌, Option, none, some, length, take, replicate, if◌then◌else◌,
}
use c_development_on_linux.Virtio.Wire.{CryptOp, Element}
use c_development_on_linux.Virtio.Host.{Cryptodev, Call}
use c_development_on_linux.Virtio.Guest.{
  asks_crypt, Written, bytes_written, session_written, Done, Outcome, finished, spins, faults,
  crypto_chrdev_ioctl,
}
use c_development_on_linux.Chat.{Cipher, data_size}

-- the session of the chat, and where it has the data, the result and the initialization vector
pub record Place : Type 0 where
  pub ses : ℕ
  pub src : ℕ
  pub dst : ℕ
  pub iv : ℕ
  pub vector : List ℕ

-- `cryp` of crypto-test.h: COP_ENCRYPT is 0, COP_DECRYPT is 1
abbrev pub cryp : Place → ℕ → CryptOp
cryp at op' = record {
  ses = at.ses;
  op = op';
  flags = 0;
  len = data_size;
  src = at.src;
  dst = at.dst;
  mac = 0;
  iv = at.iv;
}

-- the memory of the program
abbrev pub memory : Place → List ℕ → ℕ → ℕ → List ℕ
memory at x a n = if a == at.iv then at.vector else take n x

-- what the program finds behind a call that returned 0
abbrev pub written : Option Written → Option (List ℕ)
written none = none
written (some (session_written s)) = none
written (some (bytes_written a bs)) = some bs

abbrev pub result_of : {H : Type 0} → Outcome (Done H) → Option (List ℕ)
result_of (finished d) = if d.ret == 0 then written d.to_user else none
result_of spins = none
result_of faults = none

module _ {H : Type 0} (passes : Element → Bool) (call_of : ℕ → Call) (dev : Cryptodev H)
    (host_fd host_ret : ℕ) (at : Place) (he hd : H) where
  -- the cipher, for the states that the host's device is in when it encrypts and when it decrypts
  abbrev pub guest_cipher : Cipher
  guest_cipher = record {
    encrypt_block = λ x. result_of (
        crypto_chrdev_ioctl passes call_of dev host_fd (memory at x) true host_ret
          (asks_crypt (cryp at 0)) he);
    decrypt_block = λ x. result_of (
        crypto_chrdev_ioctl passes call_of dev host_fd (memory at x) true host_ret
          (asks_crypt (cryp at 1)) hd);
  }

  -- what the host's device makes of a block
  abbrev pub host_block : H → ℕ → List ℕ → List ℕ
  host_block h op' x =
      (dev.crypt host_fd
        (record (cryp at op') { src = dev.out_base 5; iv = dev.out_base 6; dst = dev.in_base 1 }) x
        at.vector (replicate 256 0) h).1

  -- The host's device inverts its encryption of a block.
  abbrev pub HostInverts : Type 0
  HostInverts =
      (x : List ℕ)
      → length x ≡ 256
      → (length (host_block he 0 x) ≡ 256) × (host_block hd 1 (host_block he 0 x) ≡ x)
