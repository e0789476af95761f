-- ===== src/Tests.antt =====
-- Each component on concrete inputs, and its theorems applied to them.
pub mod Dwarf
pub mod Libc
pub mod Mem
pub mod Buddy
pub mod Boot
pub mod Loader
pub mod Locks
pub mod Mutex
pub mod Strings
pub mod Rbtree
pub mod Sched
pub mod Structures
