-- ===== src/Virtio/Devices.antt =====
-- The list of devices of the guest's driver and its loading: crypto-module.c, and the ends of
-- crypto-chrdev.c. What the kernel grants is an argument of each operation.
use c_development_on_linux.Base.{
  ℕ, ◌+◌, ◌%◌, ◌^◌, Bool, true, false, ◌==◌, List, [], ◌∷◌, ◌++◌, Option, none, some, if◌then◌else◌,
}
pub mod Minors
pub mod Loading

-- an entry of the list: the virtio device it stands for and the minor number
pub record Device : Type 0 where
  pub vdev : ℕ
  pub minor : ℕ

-- what is registered, the list and the next number, and how many entries are lost
pub record Driver : Type 0 where
  pub region : Bool
  pub cdev : Bool
  pub driver : Bool
  pub devs : List Device
  pub next_minor : ℕ
  pub lost : ℕ

-- a result of the kernel or of an operation: an error, or none
abbrev pub Failure : Type 0
Failure = Option ℕ

unfoldable pub by_minor : ℕ → List Device → Option Device
by_minor minor' [] = none
by_minor minor' (d ∷ ds) =
    let rest = by_minor minor' ds in if d.minor == minor' then some d else rest

unfoldable pub get_crypto_dev_by_minor : ℕ → Driver → Option Device
get_crypto_dev_by_minor minor' s = by_minor minor' s.devs

-- -ENOMEM and -ENXIO; without a queue the entry is not given back.
unfoldable pub virtcons_probe : Bool → Bool → ℕ → Driver → Failure × Driver
virtcons_probe has_memory has_queue vdev' s =
    if has_memory
    then (if has_queue
        then (
          none,
          record s {
            devs = s.devs ++ record { vdev = vdev'; minor = s.next_minor } ∷ [];
            next_minor = (s.next_minor + 1) % 2 ^ 32;
          },
        )
        else (some 6, record s { lost = s.lost + 1 }))
    else (some 12, s)

-- `list_del` of the entry of a virtio device
unfoldable pub without : ℕ → List Device → List Device
without vdev' [] = []
without vdev' (d ∷ ds) = let rest = without vdev' ds in if d.vdev == vdev' then ds else d ∷ rest

unfoldable pub virtcons_remove : ℕ → Driver → Driver
virtcons_remove vdev' s = record s { devs = without vdev' s.devs }

unfoldable pub crypto_chrdev_destroy : Driver → Driver
crypto_chrdev_destroy s = record s { cdev = false; region = false }

-- what `register_chrdev_region` and `cdev_add` return
unfoldable pub crypto_chrdev_init : Failure → Failure → Driver → Failure × Driver
crypto_chrdev_init (some e) added s = (some e, s)
crypto_chrdev_init none (some e) s =
    (some e, record (record s { region = true }) { region = false })
crypto_chrdev_init none none s = (none, record s { region = true; cdev = true })

-- what `register_virtio_driver` returns, behind the list's start
abbrev pub add_driver : Failure → Driver → Failure × Driver
add_driver (some e) s = (some e, crypto_chrdev_destroy s)
add_driver none s = (none, record s { driver = true })

abbrev pub then_driver : Failure → Failure × Driver → Failure × Driver
then_driver registered (some e, s) = (some e, s)
then_driver registered (none, s) = add_driver registered (record s { devs = [] })

unfoldable pub init : Failure → Failure → Failure → Driver → Failure × Driver
init region' added registered s = then_driver registered (crypto_chrdev_init region' added s)

-- The kernel takes each device from a driver that it unregisters.
unfoldable pub remove_all : List Device → Driver → Driver
remove_all [] s = s
remove_all (d ∷ ds) s = remove_all ds (virtcons_remove d.vdev s)

unfoldable pub fini : Driver → Driver
fini s = let t = crypto_chrdev_destroy s in record (remove_all t.devs t) { driver = false }
