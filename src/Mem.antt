-- ===== src/Mem.antt =====
-- kernel/src/mem.
pub mod Buddy
pub mod Words
pub mod Vmem
pub mod Boot
