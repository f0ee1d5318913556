-- ===== src/Proc/State.antt =====
-- The data of riscv/kernel/proc.h, and what proc.c calls in other files.
use learn_xv.Prelude.{ℕ, ◌+◌, ◌-◌, ◌*◌, ◌^◌, Bool, List, ◌==◌, update}
use learn_xv.Kalloc.{pgsize}

abbrev pub nproc : ℕ
nproc = 64

abbrev pub nofile : ℕ
nofile = 16

-- `(1 << 38) - PGSIZE`.
abbrev pub trampoline : ℕ
trampoline = 2 ^ 38 - pgsize

abbrev pub kstack_at : ℕ → ℕ
kstack_at i = trampoline - (i + 1) * 2 * pgsize

pub data ProcState : Type 0 where
  unused : ProcState
  used : ProcState
  sleeping : ProcState
  runnable : ProcState
  running : ProcState
  zombie : ProcState

abbrev pub code : ProcState → ℕ
code unused = 0
code used = 1
code sleeping = 2
code runnable = 3
code running = 4
code zombie = 5

abbrev pub is_state : ProcState → ProcState → Bool
is_state a b = code a == code b

-- The saved registers of `swtch`: `ra`, `sp` and `s0` to `s11`.
pub record Context : Type 0 where
  pub ra : ℕ
  pub sp : ℕ
  pub s : ℕ → ℕ

-- `struct proc` less its lock. `name` is the string up to its NUL.
pub record Proc : Type 0 where
  pub state : ProcState
  pub chan : ℕ
  pub killed : ℕ
  pub xstate : ℕ
  pub pid : ℕ
  pub parent : ℕ
  pub kstack : ℕ
  pub sz : ℕ
  pub pagetable : ℕ
  pub trapframe : ℕ
  pub context : Context
  pub ofile : ℕ → ℕ
  pub cwd : ℕ
  pub name : List ℕ

-- The variables of proc.c, and the memory, the files and the inodes that the calls change.
pub record Kernel (M : Type 0) : Type 0 where
  pub proc : ℕ → Proc
  pub nextpid : ℕ
  pub initproc : ℕ
  pub memory : M

-- What proc.c calls in kalloc.c, vm.c, file.c, fs.c and log.c. An allocation that fails gives 0, and
-- a copy says by `true` that it failed.
pub record Resources (M : Type 0) : Type 0 where
  pub kalloc : M → ℕ × M
  pub kfree : ℕ → M → M
  -- The trapframe's page, mapped into a new page table.
  pub proc_pagetable : ℕ → M → ℕ × M
  pub proc_freepagetable : ℕ → ℕ → M → M
  pub uvmcopy : ℕ → ℕ → ℕ → M → Bool × M
  pub uvmalloc : ℕ → ℕ → ℕ → ℕ → M → ℕ × M
  pub uvmdealloc : ℕ → ℕ → ℕ → M → ℕ × M
  -- `*to = *from` on trapframes, and the store into a trapframe's `a0`.
  pub copy_trapframe : ℕ → ℕ → M → M
  pub set_a0 : ℕ → ℕ → M → M
  -- The table, the user's address and the `int` that goes there.
  pub copyout_int : ℕ → ℕ → ℕ → M → Bool × M
  pub filedup : ℕ → M → M
  pub fileclose : ℕ → M → M
  pub idup : ℕ → M → M
  pub iput : ℕ → M → M
  pub namei_root : M → ℕ × M
  pub begin_op : M → M
  pub end_op : M → M

abbrev pub proc_at : ℕ → ℕ
proc_at i = i + 1

module _ {M : Type 0} where
  abbrev pub set_proc : ℕ → Proc → Kernel M → Kernel M
  set_proc i p k = record k { proc = update k.proc i p }
