-- ===== src/Loader.antt =====
-- The ELF loader, kernel/src/loader.
pub mod Symbols
