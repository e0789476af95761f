-- ===== src/Libc.antt =====
-- kernel/src/libc/string.c over a memory of bytes.
pub mod Memory
pub mod Copy
pub mod Fill
pub mod Strings
pub mod Compare
pub mod Search
pub mod Reciprocal
