-- ===== src/Proc/Table.antt =====
-- riscv/kernel/proc.c: procinit, allocpid, allocproc and freeproc.
use learn_xv.Prelude.{ℕ, zero, suc, ◌+◌, if◌then◌else◌, ◌==◌, Option, none, some, [], u32, for_loop}
use learn_xv.Kalloc.{pgsize}
use learn_xv.Proc.State.{
  nproc, kstack_at, unused, used, is_state, Context, Proc, Kernel, Resources, set_proc,
}

-- `memset` of a context to 0.
abbrev zero_context : Context
zero_context = record { ra = 0; sp = 0; s = λ i. 0 }

abbrev pub freed : Proc → Proc
freed p = record p {
  trapframe = 0;
  pagetable = 0;
  sz = 0;
  pid = 0;
  parent = 0;
  name = [];
  chan = 0;
  killed = 0;
  xstate = 0;
  state = unused;
}

module _ {M : Type 0} where
  abbrev init_proc : ℕ → Kernel M → Kernel M
  init_proc i k = set_proc i (record (k.proc i) { state = unused; kstack = kstack_at i }) k

  unfoldable pub procinit : Kernel M → Kernel M
  procinit k = for_loop init_proc 0 nproc k

  unfoldable pub allocpid : Kernel M → ℕ × Kernel M
  allocpid k = (k.nextpid, record k { nextpid = u32 (k.nextpid + 1) })

  -- The scan for an unused entry, with `left` entries from `i` on.
  unfoldable pub find_proc : (left i : ℕ) → Kernel M → Option ℕ
  find_proc zero i k = none
  find_proc (suc left) i k =
      let rest = find_proc left (i + 1) k in
      if is_state (k.proc i).state unused then some i else rest

  -- `found:` up to the trapframe.
  unfoldable pub claim : ℕ → Kernel M → Kernel M
  unfolding allocpid
  claim i k =
      let (pid, k1) = allocpid k in set_proc i (record (k1.proc i) { pid = pid; state = used }) k1

  abbrev pub give_trapframe : ℕ → ℕ × M → Kernel M → Kernel M
  give_trapframe i r k = record (set_proc i (record (k.proc i) { trapframe = r.0 }) k) {
    memory = r.1;
  }

  abbrev pub give_pagetable : ℕ → ℕ × M → Kernel M → Kernel M
  give_pagetable i r k = record (set_proc i (record (k.proc i) { pagetable = r.0 }) k) {
    memory = r.1;
  }

  -- The first code that the process runs; `forkret` is the address of that function.
  abbrev pub set_context : ℕ → ℕ → Kernel M → Kernel M
  set_context forkret i k =
      set_proc i
        (record (k.proc i) {
          context = record zero_context { ra = forkret; sp = (k.proc i).kstack + pgsize };
        })
        k

  module _ (res : Resources M) where
    abbrev pub free_trapframe : Proc → M → M
    free_trapframe p m = if p.trapframe == 0 then m else res.kfree p.trapframe m

    abbrev pub free_pagetable : Proc → M → M
    free_pagetable p m = if p.pagetable == 0 then m else res.proc_freepagetable p.pagetable p.sz m

    unfoldable pub freeproc : ℕ → Kernel M → Kernel M
    freeproc i k =
        let p = k.proc i in
        record (set_proc i (freed p) k) { memory = free_pagetable p (free_trapframe p k.memory) }

    -- The rest of `allocproc` for the entry `i`.
    unfoldable pub alloc_at : ℕ → ℕ → Kernel M → Option ℕ × Kernel M
    unfolding claim freeproc
    alloc_at forkret i k =
        let c = claim i k in
        let frame = res.kalloc c.memory in
        let k1 = give_trapframe i frame c in
        if frame.0 == 0
        then (none, freeproc i k1)
        else let table = res.proc_pagetable frame.0 k1.memory in
          let k2 = give_pagetable i table k1 in
          if table.0 == 0 then (none, freeproc i k2) else (some i, set_context forkret i k2)

    unfoldable pub allocproc : ℕ → Kernel M → Option ℕ × Kernel M
    unfolding find_proc alloc_at
    allocproc forkret k = elim (find_proc nproc 0 k) [
      | none ↦ (none, k)
      | some i ↦ alloc_at forkret i k
    ]
