-- ===== src/Lunix/Ldisc.antt =====
-- lunix-ldisc.c: the line discipline, which one terminal at a time may use.
pub mod Users
use c_development_on_linux.Base.{ℕ, ◌+◌, ◌-◌, Bool, true, false, ◌==◌, if◌then◌else◌, List, Option}
use c_development_on_linux.Lunix.Protocol.{Driver, received_buf}

-- what the calls return: 0, -EPERM, -EBUSY and -EIO
pub data Code : Type 0 where
  success not_permitted busy io_error : Code

-- `lunix_ldisc_open`, for whether the caller has CAP_SYS_ADMIN and the count of
-- `lunix_disc_available`
unfoldable pub ldisc_open : Bool → ℕ → Code × ℕ
ldisc_open capable available =
    if capable
    then (if available == 0 then (busy, available) else (success, available - 1))
    else (not_permitted, available)

-- `lunix_ldisc_close`
unfoldable pub ldisc_close : ℕ → ℕ
ldisc_close available = available + 1

-- `lunix_ldisc_receive`: all is left to the protocol.
unfoldable pub ldisc_receive : Bool → ℕ → Driver → List ℕ → Option Driver
ldisc_receive debug now d buf = received_buf debug now d buf

-- `lunix_ldisc_init`, for what `tty_register_ldisc` returns: the same, and the count
unfoldable pub ldisc_init : Code → Code × ℕ
ldisc_init registered = (registered, 1)
