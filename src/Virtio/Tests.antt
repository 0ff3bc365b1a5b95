-- ===== src/Virtio/Tests.antt =====
-- A queue, a host and calls of the guest, and the theorems at them.
use c_development_on_linux.Virtio.Sample.{queue, queue-IsQueue}
use c_development_on_linux.Base.{
  ℕ, zero, suc, ◌+◌, ◌-◌, ◌≤◌, ◌^◌, ◌%◌, true, false, List, [], ◌∷◌, ◌≡◌, refl, arith, All, none,
  some,
}
use c_development_on_linux.Virtio.Wire.{SessionOp, CryptOp}
use c_development_on_linux.Virtio.Host.{Cryptodev, patched_call, no_call}
use c_development_on_linux.Virtio.Guest.{
  asks_crypt, bytes_written, finished, enodev, Opened, crypto_chrdev_ioctl, crypto_chrdev_open,
  crypto_chrdev_release,
}
use c_development_on_linux.Virtio.Calls.{crypto_chrdev_ioctl-direct}
use c_development_on_linux.Virtio.Files.{
  IsNumbering, NotClosed, crypto_chrdev_open-enodev, crypto_chrdev_release-NotClosed,
}
use c_development_on_linux.Virtio.Devices.{Driver, get_crypto_dev_by_minor, init}
use c_development_on_linux.Virtio.Devices.Minors.{comes, goes, Plug, run_plugs, run_plugs-found}
use c_development_on_linux.Virtio.Devices.Loading.{IsUnloaded, life, life-IsUnloaded}

patched_call_others : (n : ℕ) → 3 ≤ n → patched_call n ≡ no_call
patched_call_others zero h = absurd (omega (arith, h))
patched_call_others (suc zero) h = absurd (omega (arith, h))
patched_call_others (suc (suc zero)) h = absurd (omega (arith, h))
patched_call_others (suc (suc (suc n))) h = refl

numbering : IsNumbering patched_call
numbering = record { opens = refl; closes = refl; commands = refl; others = patched_call_others }

-- a host whose state is the count of open files, and which encrypts by adding the operation
abbrev shifted : ℕ → List ℕ → List ℕ
shifted n [] = []
shifted n (b ∷ bs) = (b + n) % 256 ∷ shifted n bs

abbrev dev : Cryptodev ℕ
dev = record {
  open_device = λ h. (5 + h, h + 1);
  close_device = λ fd h. (true, h - 1);
  get_session = λ fd s key h. (true, record s { ses = 7 }, h);
  free_session = λ fd id h. (true, h);
  crypt = λ fd c src iv dst h. (true, shifted c.op src, h);
  out_base = λ i. 1000 + i;
  in_base = λ i. 2000 + i;
}

abbrev user : ℕ → ℕ → List ℕ
user a zero = []
user a (suc n) = a % 256 ∷ user (a + 1) n

abbrev crypt_args : CryptOp
crypt_args = record { ses = 7; op = 1; flags = 0; len = 3; src = 16; dst = 64; mac = 0; iv = 32 }

-- The user at 64 gets the three bytes at 16, each higher by one.
crypto_chrdev_ioctl-direct_example :
    crypto_chrdev_ioctl queue patched_call dev 5 user true 99 (asks_crypt crypt_args) 1
    ≡ finished (record { ret = 0; to_user = some (bytes_written 64 (17 ∷ 18 ∷ 19 ∷ [])); host = 1 })
crypto_chrdev_ioctl-direct_example =
    crypto_chrdev_ioctl-direct queue patched_call dev queue-IsQueue refl 5 user true 99
      (asks_crypt crypt_args) 1 (omega arith)

abbrev hash_args : SessionOp
hash_args = record { cipher = 0; mac = 3; keylen = 0; key = 0; mackeylen = 4; mackey = 48; ses = 0 }

crypto_chrdev_open-enodev_example :
    crypto_chrdev_open queue patched_call dev false (some 0) true false (λ a. none) 4096 8192 1
    ≡ finished (record { ret = enodev; sema = 1; host_fd = some (2 ^ 32 - 1); host = 1 })
crypto_chrdev_open-enodev_example =
    crypto_chrdev_open-enodev queue patched_call dev queue-IsQueue numbering 0 false (λ a. none)
      4096 8192 1 refl (λ h. omega (arith, h))

crypto_chrdev_release-NotClosed_example :
    (r : Opened ℕ) × (crypto_chrdev_release queue patched_call dev false 4096 5 1 1 ≡ finished r)
    × NotClosed dev 1 r.host
crypto_chrdev_release-NotClosed_example =
    crypto_chrdev_release-NotClosed queue patched_call dev queue-IsQueue numbering false 4096 5 1 1
      refl

abbrev unloaded : Driver
unloaded = record {
  region = false;
  cdev = false;
  driver = false;
  devs = [];
  next_minor = 0;
  lost = 0;
}

abbrev plugs : List Plug
plugs = comes true true 70 ∷ comes true false 71 ∷ comes true true 72 ∷ goes 70 ∷ []

run_plugs-found_example :
    All
      (λ d. get_crypto_dev_by_minor d.minor (run_plugs plugs unloaded) ≡ some d)
      (run_plugs plugs unloaded).devs
run_plugs-found_example =
    run_plugs-found plugs unloaded (record { differ = tt; below = tt }) (omega arith)

life-IsUnloaded_example : IsUnloaded (life plugs (init none none none unloaded))
life-IsUnloaded_example =
    life-IsUnloaded none none none plugs unloaded
      (record { no_region = refl; no_cdev = refl; no_driver = refl; no_devices = refl })
