-- ===== src/Proc.antt =====
-- homework-3-lottery-scheduling/kernel/proc.c: the process table, the life of a process, sleeping
-- and waking, and the lottery scheduler. A pointer into the table is the index of its entry. Each
-- critical section of `ptable.lock` is one step, and what `fork` and `exit` do without the lock are steps
-- of their own (Table/Steps). Calls of other components (file.c, fs.c, log.c,
-- kalloc.c, vm.c) are recorded in order in `calls`, and what they return is an argument.
pub mod Types
pub mod Random
pub mod Sleep
pub mod Alloc
pub mod Exit
pub mod Lottery
pub mod Fork
pub mod Table
pub mod Killed
mod Tests
