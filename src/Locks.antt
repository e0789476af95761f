-- ===== src/Locks.antt =====
-- The locks of kernel/src/utils/locks.
pub mod Flaglock
pub mod Ticketlock
pub mod Mutex
