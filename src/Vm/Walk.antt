-- ===== src/Vm/Walk.antt =====
-- riscv/kernel/vm.c: walk, walkaddr and ismapped.
use learn_xv.Prelude.{
  ℕ, zero, suc, Bool, true, false, if◌then◌else◌, ◌==◌, leb, not, update, ok, panic, Cmd, and_then,
}
use learn_xv.Kalloc.{Kmem, fill_page, kalloc}
use learn_xv.Vm.Entry.{maxva, is_valid, is_user, pte2pa, pte_of, entry_at}

-- `memset(pagetable, 0, PGSIZE)` of the new table, and then the entry for it.
unfoldable pub link_table : (pte pagetable : ℕ) → Kmem → Kmem
unfolding fill_page
link_table pte pagetable k = record k {
  word = update (fill_page pagetable 0 k.word) pte (pte_of pagetable 0);
}

-- The loop of `walk` from `level` down, and the entry of level 0; 0 where it returns null.
unfoldable pub walk_from : (level pagetable va : ℕ) (alloc : Bool) → Cmd Kmem ℕ
unfolding kalloc link_table
walk_from zero pagetable va alloc k = ok (entry_at pagetable zero va) k
walk_from (suc level) pagetable va alloc k =
    let pte = entry_at pagetable (suc level) va in
    elim (is_valid (k.word pte)) [
      | true ↦ walk_from level (pte2pa (k.word pte)) va alloc k
      | false ↦ elim alloc [
        | false ↦ ok 0 k
        | true ↦ and_then (kalloc k) (λ table k1. elim (table == 0) [
          | true ↦ ok 0 k1
          | false ↦ walk_from level table va true (link_table pte table k1)
        ])
      ]
    ]

unfoldable pub walk : (pagetable va : ℕ) (alloc : Bool) → Cmd Kmem ℕ
unfolding walk_from
walk pagetable va alloc k = if leb maxva va then panic else walk_from 2 pagetable va alloc k

abbrev pub user_address : ℕ → ℕ
user_address pte = if not (is_valid pte) then 0 else if not (is_user pte) then 0 else pte2pa pte

unfoldable pub walkaddr : (pagetable va : ℕ) → Cmd Kmem ℕ
unfolding walk
walkaddr pagetable va k =
    if leb maxva va
    then ok 0 k
    else and_then (walk pagetable va false k)
        (λ pte k1. if pte == 0 then ok 0 k1 else ok (user_address (k1.word pte)) k1)

unfoldable pub ismapped : (pagetable va : ℕ) → Cmd Kmem ℕ
unfolding walk
ismapped pagetable va k =
    and_then (walk pagetable va false k)
      (λ pte k1. if pte == 0 then ok 0 k1 else if is_valid (k1.word pte) then ok 1 k1 else ok 0 k1)
