-- ===== src/Lib.antt =====
-- Coursework on operating systems: two copies of a teaching kernel in the style of xv6, with a
-- sorting program (homework-1-sort) and a lottery scheduler (homework-3-lottery-scheduling), and a
-- run-length encoder (homework-4-run-length-encodinng-RLE). This library models the parts with logic
-- of their own.
--
-- The parts, and the files that model them:
-- - Base: shared names, Boolean tests and lemmas on lists.
-- - Log: homework-3-lottery-scheduling/kernel/log.c. `Log` is `struct log` with its header; each
--   function of log.c has a definition of its name. Log/Blocks says what log.c sees of bio.c: the
--   contents of the buffers, the disk, and the writes to disk in order. A crash is a prefix of
--   those writes (Log/Crash), and a reboot is `initlog` on what the disk then holds. `end_op` is its two
--   critical sections, `leave_op` and `leave_commit`, with `commit` between, which Log/System lets
--   other processes come between. The cache has as many buffers as it takes: that of bio.c has 30,
--   and bget panics when all are dirty or busy, as 30 logged blocks can make it.
-- - Bio: homework-3-lottery-scheduling/kernel/bio.c, the buffer cache, with iderw of kernel/ide.c. The
--   searches and writes of the list are in Bio/Buffers, the invariant in Bio/Coherence, the single
--   operations in Bio/Fetched, Bio/Read and Bio/Write, and their sequences in Bio/Store.
-- - Path: the path names of homework-3-lottery-scheduling/kernel/fs.c. The walk is a derivation
--   (Path/Walk), which the names (Path/Names) and the references (Path/Calls) are read from;
--   Path/Directory has the entries of a directory, and Path/Link their contract.
-- - Spinlock: homework-3-lottery-scheduling/kernel/spinlock.c, cut into its atomic accesses, with the
--   processors in any interleaving.
-- - Proc: homework-3-lottery-scheduling/kernel/proc.c and proc.h. Proc/Types has the data, with a
--   pointer into the table as an index; Sleep, Alloc, Fork, Exit have the operations, Random and
--   Lottery the scheduler. What kalloc, copyuvm, setupkvm and namei return is an argument, and the
--   other calls of components are recorded in `calls`. An operation that switches to the scheduler
--   is cut there: `sleep` is what comes before the switch and `awake` what comes after.
--   Each critical section of `ptable.lock` is one step, and so is each part of fork and exit outside
--   of it. `nextpid` is an `int`: the theorems on ids say that it has not overflowed.
-- - Kstring: homework-3-lottery-scheduling/kernel/string.c, which fork and userinit call, and the
--   string instructions of kernel/x86.h. A memory is a function from addresses to bytes, without
--   wrap-around at the end of the address space.
-- - Pipe: homework-3-lottery-scheduling/kernel/pipe.c. An operation that sleeps returns what is left
--   to do; Pipe/Holds has the abstract queue, and Pipe/Fifo the sequences of operations.
-- - Grep: the matcher of homework-3-lottery-scheduling/user/grep.c; Grep/Language is what a pattern
--   means.
-- - Kalloc: homework-3-lottery-scheduling/kernel/kalloc.c, with the chain of free pages as a list.
-- - Shell: the scanner and the parser of homework-3-lottery-scheduling/user/sh.c. A pointer into the
--   text is a position; a panic is a value (Shell/Result). The words of a command are in
--   Shell/Words, the scanner's promises in Shell/Tokens, the recursion in Shell/Loops and Shell/Total, the NUL bytes of nulterminate in Shell/Terminated.
-- - Syscall: the argument checks of homework-3-lottery-scheduling/kernel/syscall.c.
-- - File: the table of open files of kernel/file.c, and the descriptors of kernel/sysfile.c, which
--   read their arguments through Syscall.
-- - Rle: `compress` of homework-4-run-length-encodinng-RLE/rle.c; sprintf is a parameter, with the
--   documented behaviour of "%d" as a hypothesis where a theorem needs it (Rle/Decimal).
-- - Prle: homework-4-run-length-encodinng-RLE/prle.c, on the runs of Rle. A write past a
--   thread's buffer, and an index that wraps, are no result.
-- - Sort: homework-1-sort/user/sort.c.
--
-- Bounds and fuel: loops over an array count the rounds left, which is the bound of the loop, so
-- no fuel can run out. The encoder's outer loop has as many rounds as the text has bytes, and the
-- theorems show that this is enough. A word is a number with its wrap-around written out where the
-- code relies on it. The parser of the shell is on fuel: four rounds for each byte, and four
-- more; the walk of a path has a round for each byte, and one more.
--
-- Not modelled: the disk driver, the page tables, the inodes and the blocks of the file system, traps,
-- the console and boot; what the shell does with a command, and the user programs that are sequences
-- of system calls; the assembly of homework-2-x86-calculator.
pub mod Base
pub mod Bio
pub mod File
pub mod Grep
pub mod Kalloc
pub mod Kstring
pub mod Log
pub mod Path
pub mod Pipe
pub mod Prle
pub mod Proc
pub mod Rle
pub mod Shell
pub mod Sort
pub mod Spinlock
pub mod Syscall
