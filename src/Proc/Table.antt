-- ===== src/Proc/Table.antt =====
-- The process table of kernel/proc.c stays well formed: each process in use has an id of its own,
-- that was given out before, and 1 to 999 tickets.
pub mod Frame
pub mod Ops
pub mod Create
pub mod Child
pub mod Steps
