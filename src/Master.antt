-- ===== src/Master.antt =====
-- src/master: the scheduler's program.
pub mod Machine
pub mod Coflow
pub mod Manager
pub mod Scheduler
pub mod Trace
pub mod Startup
pub mod Boot
