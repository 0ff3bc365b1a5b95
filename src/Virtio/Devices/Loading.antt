-- ===== src/Virtio/Devices/Loading.antt =====
-- Loading the guest's driver, whether it fails or not, and unloading it.
use c_development_on_linux.Base.{false, List, [], ◌∷◌, none, some, ◌≡◌, refl, ap, ◌∙◌, ==_refl}
use c_development_on_linux.Virtio.Devices.{
  Device, Driver, Failure, without, virtcons_remove, crypto_chrdev_destroy, crypto_chrdev_init,
  init, remove_all, fini,
}
use c_development_on_linux.Virtio.Devices.Minors.{Plug, run_plugs}

pub record IsUnloaded (s : Driver) : Type 0 where
  pub no_region : s.region ≡ false
  pub no_cdev : s.cdev ≡ false
  pub no_driver : s.driver ≡ false
  pub no_devices : s.devs ≡ []

-- The life of the module: a load that fails, or one that works, devices that come and go, and the end.
abbrev pub life : List Plug → Failure × Driver → Driver
life ps (some e, s) = s
life ps (none, s) = fini (run_plugs ps s)

remove_all_lem :
    (ds : List Device) (s : Driver) → s.devs ≡ ds → remove_all ds s ≡ record s { devs = [] }
unfolding remove_all virtcons_remove without
remove_all_lem [] s e = ap (λ l. record s { devs = l }) e
remove_all_lem (d ∷ ds) s e =
    let fewer : without d.vdev s.devs ≡ ds = ap (without d.vdev) e ∙ rw (==_refl d.vdev) refl in
    remove_all_lem ds (virtcons_remove d.vdev s) fewer

fini-IsUnloaded : (s : Driver) → IsUnloaded (fini s)
unfolding fini crypto_chrdev_destroy
fini-IsUnloaded s =
    let t = crypto_chrdev_destroy s in
    let none_left = remove_all_lem t.devs t refl in
    record {
      no_region = ap (λ x. x.region) none_left;
      no_cdev = ap (λ x. x.cdev) none_left;
      no_driver = refl;
      no_devices = ap (λ x. x.devs) none_left;
    }

-- Whatever the kernel grants, and whatever devices come and go, nothing of the module stays registered
-- in the end, be it that the load failed or that the module was unloaded.
pub life-IsUnloaded :
    (region' added registered : Failure) (ps : List Plug) (s : Driver)
    → IsUnloaded s
    → IsUnloaded (life ps (init region' added registered s))
unfolding init crypto_chrdev_init crypto_chrdev_destroy
life-IsUnloaded (some e) added registered ps s u = u
life-IsUnloaded none (some e) registered ps s u = record {
  no_region = refl;
  no_cdev = u.no_cdev;
  no_driver = u.no_driver;
  no_devices = u.no_devices;
}
life-IsUnloaded none none (some e) ps s u = record {
  no_region = refl;
  no_cdev = refl;
  no_driver = u.no_driver;
  no_devices = refl;
}
life-IsUnloaded none none none ps s u = fini-IsUnloaded _
