-- ===== src/Sched.antt =====
-- The scheduler, kernel/src/sched.
pub mod Wakeup
