-- ===== src/Proc/Sleep.antt =====
-- riscv/kernel/proc.c: sleep, wakeup, kkill, killed, setkilled and yield.
use learn_xv.Prelude.{
  minus_one, ℕ, zero, suc, ◌+◌, Bool, if◌then◌else◌, ◌==◌, ◌&&◌, not, Option, none, some, for_loop,
}
use learn_xv.Proc.State.{nproc, sleeping, runnable, is_state, Proc, Kernel, proc_at, set_proc}

-- One round of the loop of `wakeup` on an entry that is not the caller's.
abbrev pub woken : ℕ → Proc → Proc
woken chan p =
    if is_state p.state sleeping && (p.chan == chan) then record p { state = runnable } else p

abbrev pub kill_proc : Proc → Proc
kill_proc p =
    let q = record p { killed = 1 } in
    if is_state q.state sleeping then record q { state = runnable } else q

module _ {M : Type 0} where
  -- `sleep` up to `sched`; the processor goes to another process.
  unfoldable pub sleep_on : (me chan : ℕ) → Kernel M → Kernel M
  sleep_on me chan k = set_proc me (record (k.proc me) { chan = chan; state = sleeping }) k

  -- `sleep` after `sched`.
  unfoldable pub awake : (me : ℕ) → Kernel M → Kernel M
  awake me k = set_proc me (record (k.proc me) { chan = 0 }) k

  abbrev pub wakeup_round : (myproc chan i : ℕ) → Kernel M → Kernel M
  wakeup_round myproc chan i k =
      if not (proc_at i == myproc) then set_proc i (woken chan (k.proc i)) k else k

  -- `myproc` is a pointer, null on a processor that runs no process.
  unfoldable pub wakeup : (myproc chan : ℕ) → Kernel M → Kernel M
  wakeup myproc chan k = for_loop (wakeup_round myproc chan) 0 nproc k

  unfoldable pub find_pid : (pid left i : ℕ) → Kernel M → Option ℕ
  find_pid pid zero i k = none
  find_pid pid (suc left) i k =
      let rest = find_pid pid left (i + 1) k in if (k.proc i).pid == pid then some i else rest

  unfoldable pub kkill : ℕ → Kernel M → ℕ × Kernel M
  unfolding find_pid
  kkill pid k = elim (find_pid pid nproc 0 k) [
    | none ↦ (minus_one, k)
    | some i ↦ (0, set_proc i (kill_proc (k.proc i)) k)
  ]

  unfoldable pub setkilled : ℕ → Kernel M → Kernel M
  setkilled i k = set_proc i (record (k.proc i) { killed = 1 }) k

  unfoldable pub is_killed : ℕ → Kernel M → Bool
  is_killed i k = not ((k.proc i).killed == 0)

  -- `yield` up to `sched`.
  unfoldable pub yield_cpu : ℕ → Kernel M → Kernel M
  yield_cpu me k = set_proc me (record (k.proc me) { state = runnable }) k
