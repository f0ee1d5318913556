-- ===== src/Vm.antt =====
-- riscv/kernel/vm.c: page tables. A table is a page of 512 words in the memory of the allocator, and a
-- pointer is an address; a table has three levels.
pub mod Entry
pub mod Walk
pub mod Map
pub mod User
pub mod Translate
pub mod Tables
pub mod Walked
pub mod Mapped
mod Examples
