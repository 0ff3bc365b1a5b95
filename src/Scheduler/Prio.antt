-- ===== src/Scheduler/Prio.antt =====
-- scheduler-prio.c: the round-robin scheduler with two priorities. The system calls it makes are
-- effects that the state keeps, newest first; what they return is an argument. An `int` is its 32-bit
-- pattern.
pub mod State
pub mod Handlers
pub mod Invariant
pub mod Turns
pub mod Deaths
pub mod Crashes
pub mod Creation
pub mod Priorities
pub mod Requests
pub mod Start
pub mod Started
pub mod Session
pub mod Reach
