-- ===== src/Kstring.antt =====
-- homework-3-lottery-scheduling/kernel/string.c (homework-1-sort has the same file), over a memory
-- of bytes or over the bytes of a buffer.
pub mod Memory
pub mod Strings
pub mod Move
pub mod Copy
mod Tests
