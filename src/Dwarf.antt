-- ===== src/Dwarf.antt =====
-- The debug information parsers of kernel/src/loader/dwarf.
pub mod Run
pub mod Reader
pub mod Line
pub mod Fde
pub mod Cfi
