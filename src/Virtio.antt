-- ===== src/Virtio.antt =====
-- The crypto device of a virtual machine: the driver of the guest, crypto-chrdev.c and
-- crypto-module.c, and the device of the host, virtio-cryptodev.c.
pub mod Wire
pub mod Host
pub mod Guest
pub mod Calls
pub mod Trial
pub mod Files
pub mod Devices
pub mod Sample
mod Tests
