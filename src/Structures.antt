-- ===== src/Structures.antt =====
-- The data structures of kernel/src/utils/dstruct.
pub mod Llist
pub mod Rbtree
