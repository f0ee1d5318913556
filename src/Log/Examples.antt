-- ===== src/Log/Examples.antt =====
-- Runs of riscv/kernel/log.c on small disks, and the theorems at them.
use learn_xv.Prelude.{
  ◌≡◌, ◌≢◌, ◌<◌, ◌⊎◌, if◌then◌else◌, ◌==◌, inr, refl, arith, false, true, none, some, [], ◌∷◌,
  update, for_loop, All, Ends, ok, panic,
}
use learn_xv.Store.{Block, Disk, fill}
use learn_xv.Log.{
  Log, max_op_blocks, initlog, recover_from_log, commit, write_log, log_write, try_begin, leave_op,
  read_head, write_head, head_block, install_trans, install_block, log_block,
}
use learn_xv.Log.Format.{Holds}
use learn_xv.Log.Recovery.{Recovered, initlog-Recovered}
use learn_xv.Log.Write.{CanCommit}
use learn_xv.Log.Commit.{OldOrNew, Committed, commit_atomic}
use learn_xv.Log.Crash.{BootsTo, crash_recovery}
use learn_xv.Log.Absorb.{Joined, log_write-Joined}
use learn_xv.Log.Transactions.{Reach, start, later, begin, leave, no_panic, begin_progress}

abbrev zeros : Block
zeros i = 0

abbrev sevens : Block
sevens i = 7

-- A log at block 2, with block 50 changed in its buffer and logged.
abbrev one_change : Log
one_change = record {
  store = record {
    disk = λ b. zeros;
    past = [];
    view = update (λ b. zeros) 50 sevens;
    pins = update (λ b. 0) 50 1;
  };
  start = 2;
  outstanding = 1;
  committing = false;
  n = 1;
  block = λ i. 50;
}

one_change-CanCommit : CanCommit one_change
one_change-CanCommit = record {
  fits = omega arith;
  home = λ i h. inr (omega arith);
  empty = refl;
  clean = λ b h miss. ground (arith, miss 0);
}

commit_writes : (commit one_change).store.disk 50 3 ≡ 7
unfolding commit write_log log_block write_head head_block install_trans install_block for_loop
commit_writes = refl

commit_atomic_example : Committed (OldOrNew one_change) one_change (commit one_change)
commit_atomic_example = commit_atomic one_change-CanCommit refl

crash_recovery_example :
    All
      (λ d. BootsTo 2 (λ b. zeros) d ⊎ BootsTo 2 (update (λ b. zeros) 50 sevens) d)
      (commit one_change).store.past
crash_recovery_example = crash_recovery one_change-CanCommit refl

-- A disk after a crash behind the commit point: block 3 is to be copied to block 50.
abbrev crashed : Disk
crashed = update (update (λ b. zeros) 3 sevens) 2 (λ i. if i == 0 then 1 else 50)

abbrev booted : Log
booted = record {
  store = record { disk = crashed; past = []; view = crashed; pins = λ b. 0 };
  start = 0;
  outstanding = 0;
  committing = false;
  n = 0;
  block = λ i. 0;
}

crashed-Holds : Holds 2 (update (λ b. zeros) 50 sevens) crashed
crashed-Holds = record {
  log = record { fits = omega arith; home = λ i h. inr (ground arith) };
  means = λ b h. ground arith;
}

recovery_installs : (initlog 2 booted).store.disk 50 3 ≡ 7
unfolding initlog recover_from_log read_head write_head head_block install_trans install_block
    for_loop
recovery_installs = refl

initlog-Recovered_example : Recovered 2 (update (λ b. zeros) 50 sevens) (initlog 2 booted)
initlog-Recovered_example =
    initlog-Recovered 2 booted (record { view = refl; past = refl }) crashed-Holds

log_write-Joined_example :
    Ends
      (λ _ m. Joined 60 (record one_change { store = fill 60 sevens one_change.store }) m)
      (log_write 60 (record one_change { store = fill 60 sevens one_change.store }))
log_write-Joined_example =
    log_write-Joined one_change-CanCommit (λ i j h h' e. omega arith) 60 sevens (inr (omega arith))
      (omega arith) (omega arith) (omega arith)

-- The log after a boot, and one call that begins and writes block 50.
abbrev idle_log : Log
idle_log = record booted { start = 2 }

abbrev begun : Log
begun = record idle_log { outstanding = 1 }

idle-begins : try_begin idle_log ≡ some begun
unfolding try_begin
idle-begins = refl

running : Reach (record { log = begun; used = 0 ∷ [] })
running =
    later
      (start {s = record { log = idle_log; used = [] }}
        (record { empty = refl; nobody = refl; quiet = refl; used = refl }))
      (begin idle-begins)

no_panic_example : (0 < max_op_blocks → log_write 50 begun ≢ panic) × (leave_op begun ≢ panic)
no_panic_example = no_panic 0 0 50 running refl

-- The call has left, and its commit is still to come.
abbrev committing : Log
committing = record idle_log { committing = true }

last-leaves : leave_op begun ≡ ok true committing
unfolding leave_op
last-leaves = refl

begin_sleeps : try_begin committing ≡ none
unfolding try_begin
begin_sleeps = refl

begin_progress_example : (committing.committing ≡ true) ⊎ (◌<◌ 0 0)
begin_progress_example =
    begin_progress (later running (leave 0 (omega arith) last-leaves)) begin_sleeps
