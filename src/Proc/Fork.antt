-- ===== src/Proc/Fork.antt =====
-- riscv/kernel/proc.c: userinit, growproc and kfork.
use learn_xv.Prelude.{
  minus_one, ℕ, ◌+◌, ◌-◌, ◌^◌, ◌%◌, if◌then◌else◌, ◌==◌, none, some, take, int_ltb, for_loop,
  update, ok, panic, Cmd,
}
use learn_xv.Proc.State.{nofile, runnable, Kernel, Resources, proc_at, set_proc}
use learn_xv.Vm.Entry.{pte_w}
use learn_xv.Proc.Table.{freeproc, allocproc}

-- `sz + n` with the `int n` extended to 64 bits.
abbrev add_int : ℕ → ℕ → ℕ
add_int sz n = if int_ltb n 0 then (sz + n + 2 ^ 64 - 2 ^ 32) % 2 ^ 64 else (sz + n) % 2 ^ 64

module _ {M : Type 0} where
  abbrev pub user_entry : ℕ → ℕ × M → Kernel M → Kernel M
  user_entry i root k =
      record (set_proc i (record (k.proc i) { cwd = root.0; state = runnable }) k) {
        memory = root.1;
        initproc = proc_at i;
      }

  abbrev set_size : ℕ → ℕ × M → Kernel M → Kernel M
  set_size me r k = record (set_proc me (record (k.proc me) { sz = r.0 }) k) { memory = r.1 }

module _ {M : Type 0} (res : Resources M) where
  -- Without an entry the code stores through a null pointer, which traps.
  unfoldable pub userinit : ℕ → Cmd (Kernel M) (Unit {0})
  unfolding allocproc
  userinit forkret k =
      let r = allocproc res forkret k in
      elim r.0 [ none ↦ panic | some i ↦ ok tt (user_entry i (res.namei_root r.1.memory) r.1) ]

  unfoldable pub growproc : (me n : ℕ) → Kernel M → ℕ × Kernel M
  growproc me n k =
      let p = k.proc me in
      let more = res.uvmalloc p.pagetable p.sz (add_int p.sz n) pte_w k.memory in
      let less = res.uvmdealloc p.pagetable p.sz (add_int p.sz n) k.memory in
      if int_ltb 0 n
      then if more.0 == 0
        then (minus_one, record k { memory = more.1 })
        else (0, set_size me more k)
      else if int_ltb n 0
      then (0, set_size me less k)
      else (0, k)

  -- A round of the loop over the parent's files.
  abbrev pub dup_file : (me np fd : ℕ) → Kernel M → Kernel M
  dup_file me np fd k =
      let f = (k.proc me).ofile fd in
      if f == 0
      then k
      else record (set_proc np (record (k.proc np) { ofile = update (k.proc np).ofile fd f }) k) {
        memory = res.filedup f k.memory;
      }

  -- The size and the registers, after the memory.
  abbrev pub copy_user : (me np : ℕ) → M → Kernel M → Kernel M
  copy_user me np m k = record (set_proc np (record (k.proc np) { sz = (k.proc me).sz }) k) {
    memory =
        res.set_a0 (k.proc np).trapframe 0
          (res.copy_trapframe (k.proc me).trapframe (k.proc np).trapframe m);
  }

  abbrev pub copy_files : (me np : ℕ) → Kernel M → Kernel M
  unfolding for_loop
  copy_files me np k = for_loop (dup_file me np) 0 nofile k

  -- The directory and the name; then the parent and the state, each under its lock.
  abbrev pub finish : (me np : ℕ) → Kernel M → Kernel M
  finish me np k =
      let p = k.proc me in
      record (set_proc np
        (record (k.proc np) {
          cwd = p.cwd;
          name = take 15 p.name;
          parent = proc_at me;
          state = runnable;
        })
        k) { memory = res.idup p.cwd k.memory }

  -- `kfork` with the new entry.
  unfoldable pub fork_into : (me np : ℕ) → Kernel M → ℕ × Kernel M
  unfolding freeproc for_loop
  fork_into me np k =
      let copy = res.uvmcopy (k.proc me).pagetable (k.proc np).pagetable (k.proc me).sz k.memory in
      if copy.0
      then (minus_one, freeproc res np (record k { memory = copy.1 }))
      else ((k.proc np).pid, finish me np (copy_files me np (copy_user me np copy.1 k)))

  unfoldable pub kfork : (forkret me : ℕ) → Kernel M → ℕ × Kernel M
  unfolding allocproc fork_into
  kfork forkret me k =
      let r = allocproc res forkret k in
      elim r.0 [ none ↦ (minus_one, r.1) | some np ↦ fork_into me np r.1 ]
