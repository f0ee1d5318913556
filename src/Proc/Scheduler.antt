-- ===== src/Proc/Scheduler.antt =====
-- riscv/kernel/proc.c: the scheduler, and the switch to it.
use learn_xv.Prelude.{
  ℕ, Bool, true, false, if◌then◌else◌, ◌==◌, not, List, [], ◌∷◌, ◌++◌, for_loop, ok, panic, Run,
}
use learn_xv.Spinlock.{Cpu, Spinlock, holding}
use learn_xv.Proc.State.{nproc, ProcState, runnable, running, is_state, Kernel, set_proc}

-- The checks of `sched` on processor `me`, and then the switch, which goes on with another thread on
-- the processor and comes back with `intena` as it was.
unfoldable pub sched : (me : ℕ) → Spinlock → ProcState → (Cpu → Cpu) → Cpu → Run Cpu (Unit {0})
unfolding holding
sched me lk state swtch c =
    if not (holding me lk)
    then panic
    else if not (c.noff == 1)
    then panic
    else if is_state state running
    then panic
    else if c.intr
    then panic
    else ok tt (record (swtch c) { intena = c.intena })

-- The scheduler of a processor within its loop over the table. `ran` lists the processes that it
-- switched to in this round.
pub record Round (M : Type 0) : Type 0 where
  pub kernel : Kernel M
  pub cpu_proc : ℕ
  pub found : Bool
  pub ran : List ℕ

-- `run i` is what happens, with `c->proc` at process `i`, from the switch to it to the switch back.
module _ {M : Type 0} (run : ℕ → Kernel M → Kernel M) where
  abbrev pub schedule : ℕ → Round M → Round M
  schedule i r =
      let p = r.kernel.proc i in
      if is_state p.state runnable
      then record {
        kernel = run i (set_proc i (record p { state = running }) r.kernel);
        cpu_proc = 0;
        found = true;
        ran = r.ran ++ i ∷ [];
      }
      else r

  -- One pass of `for(;;)`.
  unfoldable pub scheduler_round : Kernel M → Round M
  scheduler_round k =
      for_loop schedule 0 nproc (record { kernel = k; cpu_proc = 0; found = false; ran = [] })
