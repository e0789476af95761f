-- ===== src/Misc.antt =====
-- kernel/src/utils/misc.
pub mod Ustar
