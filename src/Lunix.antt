-- ===== src/Lunix.antt =====
-- The Lunix:TNG driver, DriversDev/lunix-tng-helpcode-20181010: a module for each of its files.
pub mod Sensors
pub mod Protocol
pub mod Chrdev
pub mod Ldisc
pub mod Module
pub mod Readings
mod Runs
mod Tests
