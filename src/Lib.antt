-- ===== src/Lib.antt =====
-- xv6 for RISC-V (riscv/kernel, and a part of riscv/user): the parts of the kernel that keep its
-- data, as functions over explicit states, and the theorems that make them correct.
--
-- Layers. A system call brackets its writes by `begin_op` and `end_op` of the log
-- (riscv/kernel/log.c), which works on the blocks of the disk through the buffer cache
-- (riscv/kernel/bio.c).
--
-- Files. Prelude and below: numbers, lists, arrays as functions of the index, counted loops,
-- 32-bit words, and the result type `Run` of kernel code, which returns, panics or sleeps. Store:
-- the block store that the log works on. Log: log.c, one function for each of its functions, a
-- field for each field of `struct log`; Log/Format says what a log on disk stands for, and the
-- other files below Log prove its parts. Bio: bio.c with the sleep lock of sleeplock.c; Bio/Links
-- is the doubly linked list, Bio/Order and Bio/Moves its order, Bio/Coherence what the cache
-- shows of a device, Bio/Access and Bio/Release the operations.
--
-- Beside these, Kalloc is the page allocator (riscv/kernel/kalloc.c), with the free list in a
-- memory of words in Kalloc/Chain and its callers in Kalloc/Owners. Pipe is pipe.c: a run of
-- `pipewrite` or `piperead` up to its end or its `sleep` is one step, and Pipe/Contents is the
-- queue that the ring holds. String is string.c on a memory of bytes. Console is the line
-- discipline of console.c, with the lines that its ring holds in Console/Lines and the reading of
-- them in Console/Taken and Read. Spinlock is spinlock.c, `acquire` and `release` split at each
-- access to the lock, those of its `holding` too, with the interleavings of the processors in
-- Spinlock/Steps and what they keep in Spinlock/Exclusion. File is the table of open files of
-- file.c, with what its functions do to the counts in File/Counts and the descriptors that refer
-- to an entry in File/Holders; 64 processes with 16 descriptors bound the counts. Itable is the
-- table of inodes in memory of fs.c. Prelude/Rings has the ring buffers that Pipe and Console
-- share.
--
-- Proc is proc.c: Proc/State has the table of processes and, as the record `Resources`, what
-- proc.c calls in the allocator, in virtual memory and in the file system; Proc/Table, Fork,
-- Exit, Sleep and Scheduler are its functions. Proc/Kinds, Allocated, Forked, Exited, Reaped and
-- Steps say what each of them does to the table, Proc/Family follows every run of them, and
-- Proc/Wakeups takes `sleep` and `wakeup` apart at the steps where another processor can come in
-- between, with the places of the two sides in Proc/Meeting. Vm is vm.c, with page tables in the
-- memory of Kalloc: Vm/Entry has the bits of an entry, Vm/Walk, Map and User the functions,
-- Vm/Translate the translation that the hardware makes, Vm/Tables and Walked the tables among the
-- free pages, Vm/Mapped the mapping of a page; the page tables of processes by proc.c are in
-- Vm/User. Blocks is the map of free blocks of fs.c, with the bits of a byte in Blocks/Bits and
-- the search in Blocks/Search. Content is the content of files of fs.c, with the bytes of a file
-- in Content/Lookup and `readi` in Content/Read. Path is the part of fs.c that follows path
-- names, on inodes by their numbers: one with references takes an entry of the table, as Itable
-- shows, and of one that `iput` frees the type and the entries go, while its blocks are in
-- Content. Path/Elements has the elements of a path, Path/References the references and locks of
-- inodes, Path/Walk the rounds of the walk and Path/Resolve the whole. Grep is the matcher of
-- riscv/user/grep.c, and Grep/Items what its patterns stand for. Decimal has `printint` of
-- riscv/user/printf.c and `atoi` of riscv/user/ulib.c, with the digits of a number in
-- Decimal/Digits. The files called Examples run the code on small states.
--
-- State. A function of the source takes the state and returns the new one. What a function does
-- while it holds a spin lock is one step, so the calls of `acquire` and `release` that bracket a
-- whole body are not written out; where a body has several critical sections, or is left by
-- `sleep`, it is split into steps. `wakeup` changes only the scheduler's state and is left out
-- there: a sleeping step may be tried again at any time. Memory that the C code leaves undefined
-- is arbitrary. In Proc a call of `kfork`, `kexit` or `kwait` between two sleeps is one step, and
-- Wakeups has the finer steps of `sleep`. A call of `sched` ends the step, and so does a sleep;
-- the code that runs after it is a step of its own.
--
-- Numbers. An `int` or `uint` is its 32-bit pattern, a native number below 2 ^ 32; additions that
-- can overflow and subtractions are taken modulo 2 ^ 32, and a signed comparison is made on the
-- patterns. Loops over an array are counted. The walks of the buffer list have `NBUF + 1` rounds
-- of fuel, and a walk of a ring of `NBUF` buffers needs no more. The erasing of a line has the
-- size of the console's buffer as fuel, `freerange` the number of pages below its end, and
-- `strlen` any fuel beyond the length of the string; the theorems show that this is enough.
-- `namex` has the length of the path and one more, which its theorem shows to be enough,
-- `mappages` the number of pages, `balloc` the number of groups of bits and one more; the loops
-- of `uvmalloc` and `uvmcopy` have the number of pages and one more, and `freewalk` the three
-- levels of a table. `printint` has 32 rounds, one for each bit of its number.
--
-- User memory. `copyin`, `copyout` and their either_ forms are parameters that tell for each
-- address whether it can be read or written, and `killed` is a parameter that answers when it is
-- asked.
--
-- Crashes. The store records every state of the disk. The disk writes a block whole or not at
-- all, and the order of the writes is the order of the calls, since `virtio_disk_rw` waits for
-- the device.
--
-- Not modelled: the kernel's own page table and the copies between the kernel and the user in
-- vm.c, the inodes on the disk and the entries of directories in fs.c, reading and writing of
-- open files, the system calls, `exec`, the device drivers, the trap and boot code in assembly,
-- the user programs but for the matcher of grep and the decimal numbers of the library, the x86
-- kernel, mkfs and the tests; PROJECT.json lists every part with the reason.
pub mod Bio
pub mod Blocks
pub mod Console
pub mod Content
pub mod Decimal
pub mod File
pub mod Grep
pub mod Itable
pub mod Kalloc
pub mod Log
pub mod Path
pub mod Pipe
pub mod Prelude
pub mod Proc
pub mod Spinlock
pub mod Store
pub mod String
pub mod Vm
