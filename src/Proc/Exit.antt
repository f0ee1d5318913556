-- ===== src/Proc/Exit.antt =====
-- riscv/kernel/proc.c: reparent, kexit and kwait.
use learn_xv.Prelude.{
  minus_one, ℕ, zero, suc, ◌+◌, Bool, true, false, if◌then◌else◌, ◌==◌, ◌||◌, not, Option, none,
  some, for_loop, update, ok, panic, sleeps, Cmd,
}
use learn_xv.Proc.State.{nproc, nofile, zombie, is_state, Kernel, Resources, proc_at, set_proc}
use learn_xv.Proc.Table.{freeproc}
use learn_xv.Proc.Sleep.{wakeup, sleep_on, is_killed}

module _ {M : Type 0} where
  unfoldable pub reparent_round : (p i : ℕ) → Kernel M → Kernel M
  unfolding wakeup
  reparent_round p i k =
      if (k.proc i).parent == proc_at p
      then wakeup (proc_at p) k.initproc (set_proc i (record (k.proc i) { parent = k.initproc }) k)
      else k

  -- Called by the process `p` itself.
  unfoldable pub reparent : ℕ → Kernel M → Kernel M
  unfolding reparent_round
  reparent p k = for_loop (reparent_round p) 0 nproc k

  -- The scan of `kwait`: whether there are children, and the first one that has exited.
  unfoldable pub scan : (me left i : ℕ) → Bool → Kernel M → Bool × Option ℕ
  scan me zero i havekids k = (havekids, none)
  scan me (suc left) i havekids k =
      let kids = scan me left (i + 1) true k in
      let rest = scan me left (i + 1) havekids k in
      if (k.proc i).parent == proc_at me
      then if is_state (k.proc i).state zombie then (true, some i) else kids
      else rest

  abbrev pub become_zombie : (me status : ℕ) → Kernel M → Kernel M
  become_zombie me status k = set_proc me (record (k.proc me) { xstate = status; state = zombie }) k

  module _ (res : Resources M) where
    abbrev pub close_file : (me fd : ℕ) → Kernel M → Kernel M
    close_file me fd k =
        let f = (k.proc me).ofile fd in
        if f == 0
        then k
        else record (set_proc me (record (k.proc me) { ofile = update (k.proc me).ofile fd 0 }) k) {
          memory = res.fileclose f k.memory;
        }

    abbrev pub close_files : ℕ → Kernel M → Kernel M
    close_files me k = for_loop (close_file me) 0 nofile k

    abbrev pub leave_cwd : ℕ → Kernel M → Kernel M
    leave_cwd me k = record (set_proc me (record (k.proc me) { cwd = 0 }) k) {
      memory = res.end_op (res.iput (k.proc me).cwd (res.begin_op k.memory));
    }

    -- `kexit` past its panic.
    unfoldable pub gone : (me status : ℕ) → Kernel M → Kernel M
    unfolding reparent wakeup for_loop
    gone me status k =
        let k1 = reparent me (leave_cwd me (close_files me k)) in
        become_zombie me status (wakeup (proc_at me) (k1.proc me).parent k1)

    -- It ends in `sched`, from which a zombie does not come back.
    unfoldable pub kexit : (me status : ℕ) → Cmd (Kernel M) (Unit {0})
    unfolding gone
    kexit me status k = if proc_at me == k.initproc then panic else sleeps (gone me status k)

    -- `kwait` with the child that has exited.
    unfoldable pub reap : (me addr i : ℕ) → Kernel M → ℕ × Kernel M
    unfolding freeproc
    reap me addr i k =
        let copy = res.copyout_int (k.proc me).pagetable addr (k.proc i).xstate k.memory in
        let pid = (k.proc i).pid in
        if addr == 0
        then (pid, freeproc res i k)
        else let k1 = record k { memory = copy.1 } in
          if copy.0 then (minus_one, k1) else (pid, freeproc res i k1)

    -- One pass of its loop; when the process wakes up, it does the next one.
    unfoldable pub kwait : (me addr : ℕ) → Cmd (Kernel M) ℕ
    unfolding scan reap is_killed sleep_on
    kwait me addr k =
        let r = scan me nproc 0 false k in
        elim r.1 [
          | some i ↦ let (result, k1) = reap me addr i k in ok result k1
          | none ↦
              if not r.0 || is_killed me k
              then ok minus_one k
              else sleeps (sleep_on me (proc_at me) k)
        ]
