-- ===== src/Proc/Examples.antt =====
-- Runs of riscv/kernel/proc.c.
use learn_xv.Prelude.{ℕ, ◌+◌, ◌-◌, ◌≡◌, ◌⊎◌, refl, true, false, arith, [], update}
use learn_xv.Proc.State.{unused, runnable, running, zombie, Proc, Kernel, Resources, set_proc}
use learn_xv.Proc.Table.{allocproc}
use learn_xv.Proc.Fork.{user_entry, userinit}
use learn_xv.Proc.Sleep.{sleep_on, wakeup_round}
use learn_xv.Proc.Steps.{Reach, start, Family}
use learn_xv.Proc.Family.{reach-Family}
use learn_xv.Proc.Meeting.{asleep, waking, meeting}
use learn_xv.Proc.Wakeups.{
  Met, begins, goes_on, arrives, calls_sleep, lets_go, locks, changes, parks, no_lost_wakeup,
}

abbrev nobody : Proc
nobody = record {
  state = unused;
  chan = 0;
  killed = 0;
  xstate = 0;
  pid = 0;
  parent = 0;
  kstack = 0;
  sz = 0;
  pagetable = 0;
  trapframe = 0;
  context = record { ra = 0; sp = 0; s = λ i. 0 };
  ofile = λ fd. 0;
  cwd = 0;
  name = [];
}

-- A memory that counts the pages and the page tables that are taken.
abbrev counts : Resources (ℕ × ℕ)
counts = record {
  kalloc = λ m. (1, (m.0 + 1, m.1));
  kfree = λ p m. (m.0 - 1, m.1);
  proc_pagetable = λ f m. (1, (m.0, m.1 + 1));
  proc_freepagetable = λ t sz m. (m.0, m.1 - 1);
  uvmcopy = λ old new sz m. (false, m);
  uvmalloc = λ t old new perm m. (0, m);
  uvmdealloc = λ t old new m. (new, m);
  copy_trapframe = λ from to m. m;
  set_a0 = λ f v m. m;
  copyout_int = λ t a v m. (false, m);
  filedup = λ f m. m;
  fileclose = λ f m. m;
  idup = λ i m. m;
  iput = λ i m. m;
  namei_root = λ m. (1, m);
  begin_op = λ m. m;
  end_op = λ m. m;
}

-- Process 0 runs.
abbrev one : Kernel (ℕ × ℕ)
one = record {
  proc = update (λ i. nobody) 0 (record nobody { state = running; pid = 1 });
  nextpid = 2;
  initproc = 1;
  memory = (0, 0);
}

-- Process 1 is a child of process 0 that has exited.
abbrev two : Kernel (ℕ × ℕ)
two = set_proc 1 (record nobody { state = zombie; pid = 2; parent = 1 }) one

-- Before the first process.
abbrev nothing : Kernel (ℕ × ℕ)
nothing = record { proc = λ i. nobody; nextpid = 1; initproc = 0; memory = (0, 0) }

abbrev booted : Kernel (ℕ × ℕ)
unfolding allocproc
booted = user_entry 0 (1, (1, 1)) (allocproc counts 0 nothing).1

booted-Reach : Reach counts 0 booted
unfolding userinit allocproc
booted-Reach =
    start {k = nothing}
      (record {
        all_unused = λ i lt. refl;
        no_parents = λ i. refl;
        no_init = refl;
        first_pid = refl;
      })
      refl

reach-Family_example : Family booted
reach-Family_example = reach-Family booted-Reach

-- The waker takes the condition lock when the process has let it go, and before it sleeps.
late-Met : Met 0 7 (meeting (sleep_on 0 7 one) true asleep waking)
late-Met =
    goes_on
      (goes_on
        (goes_on
          (goes_on (goes_on (goes_on (begins {k = one} {b = false}) arrives) calls_sleep) lets_go)
          (locks refl))
        changes)
      parks

no_lost_wakeup_example :
    (((sleep_on 0 7 one).proc 0).state ≡ runnable)
    ⊎ ((waking ≡ waking) × (((wakeup_round 0 7 0 (sleep_on 0 7 one)).proc 0).state ≡ runnable))
no_lost_wakeup_example =
    no_lost_wakeup 0 7 {k = sleep_on 0 7 one} {w = waking} 0 (omega arith) late-Met
