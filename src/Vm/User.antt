-- ===== src/Vm/User.antt =====
-- riscv/kernel/vm.c: uvmalloc, uvmcopy and vmfault. riscv/kernel/proc.c: proc_pagetable and
-- proc_freepagetable.
use learn_xv.Prelude.{
  minus_one, ℕ, zero, suc, ◌+◌, ◌-◌, ◌*◌, ◌/◌, true, false, if◌then◌else◌, ◌==◌, leb, ltb, not,
  ◌&&◌, ok, Cmd, and_then,
}
use learn_xv.Kalloc.{Kmem, fill_page, kalloc, kfree, pgsize, pgroundup}
use learn_xv.Proc.State.{trampoline}
use learn_xv.Vm.Entry.{is_valid, pte2pa, pte_flags, pte_ru, pte_wur}
use learn_xv.Vm.Walk.{walk, ismapped}
use learn_xv.Vm.Map.{mappages, uvmcreate, uvmunmap, uvmdealloc, uvmfree}

abbrev zeroed : ℕ → Kmem → Kmem
unfolding fill_page
zeroed mem k = record k { word = fill_page mem 0 k.word }

-- `memmove(mem, pa, PGSIZE)` between two pages, by words.
unfoldable pub copy_page : (mem pa : ℕ) → Kmem → Kmem
copy_page mem pa k = record k {
  word = λ a. if leb mem a && ltb a (mem + pgsize) then k.word (pa + (a - mem)) else k.word a;
}

module _ (end_ : ℕ) where
  -- What `uvmalloc` does on an error.
  abbrev undo_alloc : (pagetable a oldsz : ℕ) → Cmd Kmem ℕ
  unfolding uvmdealloc
  undo_alloc pagetable a oldsz k = and_then (uvmdealloc end_ pagetable a oldsz k) (λ r. ok 0)

  -- The loop of `uvmalloc` at `a`, for at most `rounds` rounds.
  unfoldable pub alloc_from : (rounds pagetable a oldsz newsz xperm : ℕ) → Cmd Kmem ℕ
  unfolding kalloc fill_page mappages kfree uvmdealloc
  alloc_from zero pagetable a oldsz newsz xperm k = ok newsz k
  alloc_from (suc rounds) pagetable a oldsz newsz xperm k = elim (ltb a newsz) [
    | false ↦ ok newsz k
    | true ↦ and_then (kalloc k) (λ mem k1.
        if mem == 0
        then undo_alloc pagetable a oldsz k1
        else and_then (mappages pagetable a pgsize mem (pte_ru + xperm) (zeroed mem k1)) (λ r k2.
          elim (r == 0) [
            | false ↦ and_then (kfree end_ mem k2) (λ u. undo_alloc pagetable a oldsz)
            | true ↦ alloc_from rounds pagetable (a + pgsize) oldsz newsz xperm k2
          ]))
  ]

  -- `xperm` is PTE_W or PTE_X, so that the sum of the permissions is their union.
  unfoldable pub uvmalloc : (pagetable oldsz newsz xperm : ℕ) → Cmd Kmem ℕ
  unfolding alloc_from
  uvmalloc pagetable oldsz newsz xperm k =
      if ltb newsz oldsz
      then ok oldsz k
      else alloc_from (newsz / pgsize + 1) pagetable (pgroundup oldsz) (pgroundup oldsz) newsz xperm
          k

  abbrev undo_copy : (new i : ℕ) → Cmd Kmem ℕ
  unfolding uvmunmap
  undo_copy new i k = and_then (uvmunmap end_ new 0 (i / pgsize) true k) (λ u. ok minus_one)

  -- The loop of `uvmcopy` at `i`, for at most `rounds` rounds.
  unfoldable pub copy_from : (rounds old new i sz : ℕ) → Cmd Kmem ℕ
  unfolding walk kalloc copy_page mappages kfree uvmunmap
  copy_from zero old new i sz k = ok 0 k
  copy_from (suc rounds) old new i sz k =
      let rest = copy_from rounds old new (i + pgsize) sz in
      elim (ltb i sz) [
        | false ↦ ok 0 k
        | true ↦ and_then (walk old i false k) (λ pte k1.
            if pte == 0
            then rest k1
            else if not (is_valid (k1.word pte))
            then rest k1
            else let pa = pte2pa (k1.word pte) in
              let flags = pte_flags (k1.word pte) in
              and_then (kalloc k1) (λ mem k2.
                if mem == 0
                then undo_copy new i k2
                else and_then (mappages new i pgsize mem flags (copy_page mem pa k2)) (λ r k3.
                  if not (r == 0)
                  then and_then (kfree end_ mem k3) (λ u. undo_copy new i)
                  else rest k3)))
      ]

  unfoldable pub uvmcopy : (old new sz : ℕ) → Cmd Kmem ℕ
  unfolding copy_from
  uvmcopy old new sz k = copy_from (sz / pgsize + 1) old new 0 sz k

  -- `table` is the process's own, and `sz` its size.
  unfoldable pub vmfault : (table sz pagetable va : ℕ) → Cmd Kmem ℕ
  unfolding ismapped kalloc fill_page mappages kfree
  vmfault table sz pagetable va k =
      let page = va / pgsize * pgsize in
      if leb sz va
      then ok 0 k
      else and_then (ismapped pagetable page k) (λ mapped k1.
        if not (mapped == 0)
        then ok 0 k1
        else and_then (kalloc k1) (λ mem k2.
          if mem == 0
          then ok 0 k2
          else and_then (mappages table page pgsize mem pte_wur (zeroed mem k2)) (λ r k3.
            if not (r == 0) then and_then (kfree end_ mem k3) (λ u. ok 0) else ok mem k3)))

-- `TRAMPOLINE - PGSIZE`.
abbrev pub trapframe_at : ℕ
trapframe_at = trampoline - pgsize

-- `PTE_R | PTE_X` and `PTE_R | PTE_W`.
abbrev pte_rx : ℕ
pte_rx = 10

abbrev pte_rw : ℕ
pte_rw = 6

-- `code` is the address of the trampoline's code, which the linker sets.
module _ (end_ code : ℕ) where
  abbrev drop_table : ℕ → Cmd Kmem ℕ
  unfolding uvmfree
  drop_table pagetable k = and_then (uvmfree end_ pagetable 0 k) (λ u. ok 0)

  unfoldable pub proc_pagetable : (trapframe : ℕ) → Cmd Kmem ℕ
  unfolding uvmcreate mappages uvmunmap uvmfree
  proc_pagetable trapframe k = and_then (uvmcreate k) (λ pagetable k1.
      if pagetable == 0
      then ok 0 k1
      else and_then (mappages pagetable trampoline pgsize code pte_rx k1) (λ r k2.
        if not (r == 0)
        then drop_table pagetable k2
        else and_then (mappages pagetable trapframe_at pgsize trapframe pte_rw k2) (λ s k3.
          if not (s == 0)
          then and_then (uvmunmap end_ pagetable trampoline 1 false k3) (λ u. drop_table pagetable)
          else ok pagetable k3)))

module _ (end_ : ℕ) where
  unfoldable pub proc_freepagetable : (pagetable sz : ℕ) → Cmd Kmem (Unit {0})
  unfolding uvmunmap uvmfree
  proc_freepagetable pagetable sz k =
      and_then (uvmunmap end_ pagetable trampoline 1 false k) (λ u k1.
        and_then (uvmunmap end_ pagetable trapframe_at 1 false k1) (λ v. uvmfree end_ pagetable sz))
