-- ===== src/Spinlock.antt =====
-- riscv/kernel/spinlock.c: spin locks. `acquire` and `release` are split where another processor
-- can come in between, at each access to the lock.
pub mod Steps
pub mod Exclusion
mod Examples
pub mod Nesting
use learn_xv.Prelude.{
  ℕ, zero, suc, ◌+◌, ◌%◌, ◌^◌, Bool, true, false, if◌then◌else◌, ◌==◌, not, ◌&&◌, Option, none,
  some, u32, sub32, int_ltb, ok, panic, Cmd,
}

-- The fields of `struct cpu` that the locks use, and the processor's interrupt enable.
pub record Cpu : Type 0 where
  pub noff : ℕ
  pub intena : Bool
  pub intr : Bool

unfoldable pub push_off : Cpu → Cpu
push_off c = record {
  noff = u32 (c.noff + 1);
  intena = if c.noff == 0 then c.intr else c.intena;
  intr = false;
}

unfoldable pub pop_off : Cmd Cpu (Unit {0})
pop_off c =
    let noff = sub32 c.noff 1 in
    if c.intr
    then panic
    else if int_ltb c.noff 1
    then panic
    else ok tt (record {
      noff = noff;
      intena = c.intena;
      intr = if (noff == 0) && c.intena then true else c.intr;
    })

-- `struct spinlock` less its name; `cpu` is the number of a processor.
pub record Spinlock : Type 0 where
  pub locked : Bool
  pub cpu : Option ℕ

unfoldable pub initlock : Spinlock
initlock = record { locked = false; cpu = none }

abbrev pub is_cpu : ℕ → Option ℕ → Bool
is_cpu me none = false
is_cpu me (some i) = i == me

-- As one step, for a processor that has the lock.
unfoldable pub holding : ℕ → Spinlock → Bool
holding me lk = lk.locked && is_cpu me lk.cpu

-- `acquire` up to the first access to the lock: what `holding` reads in `lk->locked`.
unfoldable pub acquire_enter : Spinlock → Cpu → Bool × Cpu
unfolding push_off
acquire_enter lk c = (lk.locked, push_off c)

-- The second access: `holding` reads `lk->cpu` where `lk->locked` was 1.
unfoldable pub acquire_check : ℕ → Cmd Spinlock (Unit {0})
acquire_check me lk = if is_cpu me lk.cpu then panic else ok tt lk

-- One pass of the loop, with the swap of 1 for `lk->locked`: nothing where the processor spins on.
unfoldable pub test_and_set : Spinlock → Option Spinlock
test_and_set lk = if lk.locked then none else some (record lk { locked = true })

-- `acquire` after its loop.
unfoldable pub record_cpu : ℕ → Spinlock → Spinlock
record_cpu me lk = record lk { cpu = some me }

-- `release` up to what its `holding` reads in `lk->locked`.
unfoldable pub release_enter : Cmd Spinlock (Unit {0})
release_enter lk = if not lk.locked then panic else ok tt lk

-- The second access, of `holding` to `lk->cpu`.
unfoldable pub release_check : ℕ → Cmd Spinlock (Unit {0})
release_check me lk = if not (is_cpu me lk.cpu) then panic else ok tt lk

-- The store before the barrier.
unfoldable pub clear_cpu : Spinlock → Spinlock
clear_cpu lk = record lk { cpu = none }

-- `__sync_lock_release`; `pop_off` comes after it.
unfoldable pub unlock : Spinlock → Spinlock
unlock lk = record lk { locked = false }
