-- ===== src/Scheduler.antt =====
-- The schedulers of Scheduler/: the ring of tasks that both share, scheduler-prio.c with two
-- priorities, and the shell that drives it.
pub mod Ring
pub mod Runs
pub mod Children
pub mod Prio
pub mod Plain
pub mod Agreement
pub mod Shell
pub mod Together
mod Tests
