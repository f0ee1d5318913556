-- ===== src/Vm/Examples.antt =====
-- Runs of riscv/kernel/vm.c.
use learn_xv.Prelude.{ℕ, refl, [], ◌∷◌, arith, inl, update}
use learn_xv.Kalloc.{Kmem, pgsize}
use learn_xv.Kalloc.Pages.{FreeList}
use learn_xv.Vm.Map.{mappages}
use learn_xv.Vm.Tables.{Clean}
use learn_xv.Vm.Mapped.{Outcome, mappages-Outcome}

-- The kernel ends at `root`, a page table without entries, and two pages are free.
abbrev root : ℕ
root = 0x80100000

abbrev first : ℕ
first = 0x80101000

abbrev second : ℕ
second = 0x80102000

abbrev ram : Kmem
ram = record { word = update (λ a. 0) first second; freelist = first }

ram-FreeList : FreeList root ram (first ∷ second ∷ [])
ram-FreeList = record {
  chain = (refl, (refl, refl));
  pages = (
    record { aligned = refl; above = omega arith; below = omega arith },
    (record { aligned = refl; above = omega arith; below = omega arith }, tt),
  );
  distinct = (((λ e. omega (arith, e)), tt), (tt, tt));
}

ram-Clean : Clean (first ∷ second ∷ []) ram.word 2 root 0
ram-Clean = ((inl (omega arith), (inl (omega arith), tt)), λ e. ground (arith, e))

-- The user's first page on the page after those, with all permissions.
mappages-Outcome_example :
    Outcome root
      (omega arith)
      (first ∷ second ∷ [])
      ram
      root
      0
      0x80103000
      30
      (mappages root 0 pgsize 0x80103000 30 ram)
mappages-Outcome_example =
    mappages-Outcome root (omega arith) (first ∷ second ∷ []) ram root 0 0x80103000 30 (omega arith)
      refl (omega arith) (omega arith) refl ram-FreeList ram-Clean
