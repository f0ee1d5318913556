-- ===== src/Proc.antt =====
-- riscv/kernel/proc.c and proc.h: the table of processes. The code runs each access to an entry under
-- the entry's lock, so that a definition here is what one process does between two of its sleeps. A
-- pointer is a number: 0 is null, `i + 1` is `&proc[i]`, and larger numbers are other objects.
pub mod State
pub mod Kinds
pub mod Table
pub mod Fork
pub mod Exit
pub mod Sleep
pub mod Scheduler
pub mod Steps
pub mod Family
pub mod Allocated
pub mod Forked
pub mod Exited
pub mod Reaped
pub mod Meeting
pub mod Wakeups
mod Examples
