-- ===== src/Kalloc/Examples.antt =====
-- Runs of riscv/kernel/kalloc.c on a memory with two pages above the kernel.
use learn_xv.Prelude.{
  ℕ, ◌-◌, ◌*◌, ◌/◌, ◌≡◌, ◌≢◌, ◌⊎◌, refl, [], ◌∷◌, All, arith, length, ok, panic, Ends, update,
}
use learn_xv.Kalloc.{Kmem, pgsize, phystop, pgroundup, kfree, kalloc, kinit, fill_page}
use learn_xv.Kalloc.Chain.{IsPage, Avoids}
use learn_xv.Kalloc.Pages.{FreeList}
use learn_xv.Kalloc.Owners.{here, later, take_page, owners_lem}
use learn_xv.Kalloc.Init.{page_list, kinit_lem, FreeList-Apart}

abbrev first : ℕ
first = phystop - 2 * pgsize

abbrev second : ℕ
second = phystop - pgsize

abbrev kernel_end : ℕ
kernel_end = first - 100

abbrev empty : Kmem
empty = record { word = λ a. 0; freelist = 0 }

kinit_lem_example :
    Ends
      (λ u k.
        FreeList kernel_end k
          (page_list (pgroundup kernel_end) ((phystop - pgroundup kernel_end) / pgsize)))
      (kinit kernel_end empty)
kinit_lem_example = kinit_lem kernel_end empty (omega arith) refl

first-IsPage : IsPage kernel_end first
first-IsPage = record { aligned = refl; above = omega arith; below = omega arith }

second-IsPage : IsPage kernel_end second
second-IsPage = record { aligned = refl; above = omega arith; below = omega arith }

abbrev two : Kmem
two = record { word = update (λ a. 0) first second; freelist = first }

abbrev one : Kmem
one = record { word = fill_page first 5 two.word; freelist = second }

two-FreeList : FreeList kernel_end two (first ∷ second ∷ [])
two-FreeList = record {
  chain = (refl, (refl, refl));
  pages = (first-IsPage, (second-IsPage, tt));
  distinct = (((λ e. omega (arith, e)), tt), (tt, tt));
}

one-FreeList : FreeList kernel_end one (second ∷ [])
unfolding fill_page
one-FreeList = record { chain = (refl, refl); pages = (second-IsPage, tt); distinct = (tt, tt) }

takes : kalloc two ≡ ok first one
unfolding kalloc fill_page
takes = refl

owners_lem_example :
    Ends
      (λ p k. ((p ≡ 0) × (length (first ∷ []) ≡ 2)) ⊎ (Avoids p (first ∷ []) × IsPage kernel_end p))
      (kalloc one)
    × All (λ p. kfree kernel_end p one ≢ panic) (first ∷ [])
owners_lem_example =
    owners_lem kernel_end (omega arith)
      (FreeList-Apart kernel_end two (first ∷ second ∷ []) two-FreeList)
      (later here (take_page takes (λ e. omega (arith, e))))
