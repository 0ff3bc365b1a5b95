-- ===== src/Scheduler/Plain.antt =====
-- scheduler-shell.c: the round-robin scheduler without priorities.
pub mod State
pub mod Handlers
pub mod Start
