-- ===== src/Dwarf/Line.antt =====
-- kernel/src/loader/dwarf/line.c and line.h: the line number program of a unit, and the search for
-- the source line of a program counter.
pub mod Defs
pub mod Program
pub mod Tables
pub mod Safety
pub use Defs.{LineInfo, LineResult}
