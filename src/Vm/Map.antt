-- ===== src/Vm/Map.antt =====
-- riscv/kernel/vm.c: mappages, kvmmap, uvmcreate, uvmunmap, uvmdealloc, freewalk, uvmfree and uvmclear.
use learn_xv.Prelude.{
  minus_one, ℕ, zero, suc, ◌+◌, ◌-◌, ◌*◌, ◌/◌, ◌%◌, Bool, true, false, if◌then◌else◌, ◌==◌, leb,
  ltb, not, ◌&&◌, update, ok, panic, Cmd, and_then,
}
use learn_xv.Kalloc.{Kmem, fill_page, kalloc, kfree, pgsize, pgroundup}
use learn_xv.Vm.Entry.{is_valid, is_user, is_leaf, pte2pa, pte_of}
use learn_xv.Vm.Walk.{walk}

abbrev pub set_word : ℕ → ℕ → Kmem → Kmem
set_word a v k = record k { word = update k.word a v }

-- The loop of `mappages` at `a`; it ends after `last`, within `rounds` rounds.
unfoldable pub map_from : (rounds pagetable a last pa perm : ℕ) → Cmd Kmem ℕ
unfolding walk
map_from zero pagetable a last pa perm k = ok 0 k
map_from (suc rounds) pagetable a last pa perm k = and_then (walk pagetable a true k) (λ pte k1.
    if pte == 0
    then ok minus_one k1
    else if is_valid (k1.word pte)
    then panic
    else let k2 = set_word pte (pte_of pa perm) k1 in
      elim (a == last) [
        | true ↦ ok 0 k2
        | false ↦ map_from rounds pagetable (a + pgsize) last (pa + pgsize) perm k2
      ])

unfoldable pub mappages : (pagetable va size pa perm : ℕ) → Cmd Kmem ℕ
unfolding map_from
mappages pagetable va size pa perm k =
    if not (va % pgsize == 0)
    then panic
    else if not (size % pgsize == 0)
    then panic
    else if size == 0
    then panic
    else map_from (size / pgsize) pagetable va (va + size - pgsize) pa perm k

unfoldable pub kvmmap : (kpgtbl va pa sz perm : ℕ) → Cmd Kmem (Unit {0})
unfolding mappages
kvmmap kpgtbl va pa sz perm k =
    and_then (mappages kpgtbl va sz pa perm k) (λ r k1. if not (r == 0) then panic else ok tt k1)

unfoldable pub uvmcreate : Cmd Kmem ℕ
unfolding kalloc fill_page
uvmcreate k = and_then (kalloc k) (λ pagetable k1.
    if pagetable == 0
    then ok 0 k1
    else ok pagetable (record k1 { word = fill_page pagetable 0 k1.word }))

-- It ends in a panic where the code goes on with a null pointer.
unfoldable pub uvmclear : (pagetable va : ℕ) → Cmd Kmem (Unit {0})
unfolding walk
uvmclear pagetable va k = and_then (walk pagetable va false k) (λ pte k1.
    if pte == 0
    then panic
    else let old = k1.word pte in ok tt (set_word pte (if is_user old then old - 16 else old) k1))

module _ (end_ : ℕ) where
  unfoldable pub free_page : Bool → ℕ → Cmd Kmem (Unit {0})
  unfolding kfree
  free_page do_free pte k = if do_free then kfree end_ (pte2pa pte) k else ok tt k

  -- The loop of `uvmunmap`, with `npages` pages from `a` on.
  unfoldable pub unmap_from : (npages pagetable a : ℕ) (do_free : Bool) → Cmd Kmem (Unit {0})
  unfolding walk free_page
  unmap_from zero pagetable a do_free k = ok tt k
  unmap_from (suc npages) pagetable a do_free k =
      let rest = unmap_from npages pagetable (a + pgsize) do_free in
      and_then (walk pagetable a false k) (λ pte k1.
        if pte == 0
        then rest k1
        else if not (is_valid (k1.word pte))
        then rest k1
        else and_then (free_page do_free (k1.word pte) k1) (λ u k2. rest (set_word pte 0 k2)))

  unfoldable pub uvmunmap : (pagetable va npages : ℕ) (do_free : Bool) → Cmd Kmem (Unit {0})
  unfolding unmap_from
  uvmunmap pagetable va npages do_free k =
      if not (va % pgsize == 0) then panic else unmap_from npages pagetable va do_free k

  unfoldable pub uvmdealloc : (pagetable oldsz newsz : ℕ) → Cmd Kmem ℕ
  unfolding uvmunmap
  uvmdealloc pagetable oldsz newsz k =
      if leb oldsz newsz
      then ok oldsz k
      else if ltb (pgroundup newsz) (pgroundup oldsz)
      then and_then
          (uvmunmap pagetable (pgroundup newsz) ((pgroundup oldsz - pgroundup newsz) / pgsize) true
            k)
          (λ u k1. ok newsz k1)
      else ok newsz k

  -- The loop of `freewalk`, with `left` entries from `i` on; `below` frees a table of the next level.
  unfoldable pub free_entries :
      (ℕ → Cmd Kmem (Unit {0})) → (left i pagetable : ℕ) → Cmd Kmem (Unit {0})
  free_entries below zero i pagetable k = ok tt k
  free_entries below (suc left) i pagetable k =
      let a = pagetable + 8 * i in
      let pte = k.word a in
      let rest = free_entries below left (i + 1) pagetable in
      if is_valid pte && not (is_leaf pte)
      then and_then (below (pte2pa pte) k) (λ u k1. rest (set_word a 0 k1))
      else if is_valid pte
      then panic
      else rest k

  -- A table of `levels` levels, where `walk` makes three.
  unfoldable pub freewalk : (levels pagetable : ℕ) → Cmd Kmem (Unit {0})
  unfolding free_entries kfree
  freewalk zero pagetable k = panic
  freewalk (suc levels) pagetable k =
      and_then (free_entries (freewalk levels) 512 0 pagetable k) (λ u. kfree end_ pagetable)

  unfoldable pub uvmfree : (pagetable sz : ℕ) → Cmd Kmem (Unit {0})
  unfolding uvmunmap freewalk
  uvmfree pagetable sz k =
      and_then (if ltb 0 sz then uvmunmap pagetable 0 (pgroundup sz / pgsize) true k else ok tt k)
        (λ u. freewalk 3 pagetable)
