-- ===== src/Sort.antt =====
-- homework-1-sort/user/sort.c: the in-place insertion sort and the two printing loops.
pub mod Insertion
pub mod Correct
mod Tests
