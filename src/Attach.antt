-- ===== src/Attach.antt =====
-- lunix-attach.c of DriversDev/lunix-tng-helpcode-20181010: the program that gives a terminal line
-- to the driver.
pub mod Modes
pub mod Locks
pub mod Program
pub mod Ownership
pub mod Release
pub mod Driver
mod Tests
