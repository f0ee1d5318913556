-- ===== src/Spinlock/Examples.antt =====
-- Runs of riscv/kernel/spinlock.c.
use learn_xv.Prelude.{◌≡◌, ◌≢◌, ℕ, refl, inl, true, false, arith, some, none, panic, Ends, update}
use learn_xv.Spinlock.{
  Cpu, initlock, push_off, acquire_enter, acquire_check, test_and_set, record_cpu, release_enter,
  release_check,
}
use learn_xv.Spinlock.Nesting.{done, pair, calls, Restored, calls-Restored}
use learn_xv.Spinlock.Steps.{
  outside, testing, spinning, swapped, critical, checking, System, enter_free, swap, own, Reach,
  start, later,
}
use learn_xv.Spinlock.Exclusion.{exclusive, never_panics}

abbrev running : Cpu
running = record { noff = 0; intena = false; intr = true }

calls-Restored_example :
    Ends (λ u d. Restored running d) (calls (pair (pair done done) done) running)
calls-Restored_example =
    calls-Restored (pair (pair done done) done) running (inl refl) (omega arith)

abbrev idle : System
idle = record {
  lock = record { locked = false; cpu = none };
  phase = λ i. outside;
  cpu = λ i. running;
}

idle-Reach : Reach idle
unfolding initlock
idle-Reach = start refl (λ i. refl)

abbrev off : Cpu
off = record { noff = 1; intena = true; intr = false }

-- Processor 0 is in its critical section.
abbrev taken : System
taken = record {
  lock = record { locked = true; cpu = some 0 };
  phase = update (update (update idle.phase 0 spinning) 0 swapped) 0 critical;
  cpu = update idle.cpu 0 off;
}

taken-Reach : Reach taken
unfolding push_off acquire_enter test_and_set record_cpu
taken-Reach =
    later {me = 0}
      (later {me = 0} (later {me = 0} idle-Reach (enter_free {c = off} refl refl)) (swap refl refl))
      (own refl)

exclusive_example : ◌≡◌ {A = ℕ} 0 0
exclusive_example = exclusive 0 0 taken-Reach tt tt

never_panics_example :
    (taken.phase 0 ≡ testing → acquire_check 0 taken.lock ≢ panic)
    × (taken.phase 0 ≡ critical → release_enter taken.lock ≢ panic)
    × (taken.phase 0 ≡ checking → release_check 0 taken.lock ≢ panic)
never_panics_example = never_panics 0 taken-Reach
