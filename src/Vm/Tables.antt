-- ===== src/Vm/Tables.antt =====
-- Tables among the free pages, and a new table in riscv/kernel/vm.c.
use learn_xv.Prelude.{
  ℕ, zero, suc, ◌+◌, ◌%◌, ◌^◌, ◌≡◌, ◌≢◌, ◌≤◌, ◌<◌, ◌⊎◌, refl, ◌∙◌, inl, inr, true, arith, List, [],
  ◌∷◌, All, All-map, update_self, update_ne, lt_or_le,
}
use learn_xv.Kalloc.{Kmem, fill_page, pgsize}
use learn_xv.Kalloc.Chain.{IsPage, Avoids, Chain-fill, Chain-store}
use learn_xv.Kalloc.Pages.{FreeList, Outside}
use learn_xv.Vm.Entry.{is_valid, pte2pa, pte_of, entry_at}
use learn_xv.Vm.Walk.{link_table}
use learn_xv.Vm.Translate.{Leads, leaf, down}

-- In none of the free pages.
abbrev pub Clear : List ℕ → ℕ → Type 0
Clear free_pages a = All (λ p. (a < p) ⊎ (p + pgsize ≤ a)) free_pages

-- The tables for `va` from `t` on are no free pages.
abbrev pub Clean : List ℕ → (ℕ → ℕ) → (l t va : ℕ) → Type 0
Clean free_pages word zero t va = Clear free_pages (entry_at t zero va)
Clean free_pages word (suc l) t va =
    Clear free_pages (entry_at t (suc l) va)
    × (is_valid (word (entry_at t (suc l) va)) ≡ true
        → Clean free_pages word l (pte2pa (word (entry_at t (suc l) va))) va)

-- The valid entries outside the free pages stay.
pub record Kept (free_pages : List ℕ) (k l : Kmem) : Type 0 where
  pub keeps : (a : ℕ) → Clear free_pages a → is_valid (k.word a) ≡ true → l.word a ≡ k.word a

-- No page is free, and no entry for the address was there.
pub record Lacking (k : Kmem) (va l t : ℕ) (k1 : Kmem) : Type 0 where
  pub no_page : k1.freelist ≡ 0
  pub no_entry : (a : ℕ) → ¬ Leads k.word va l t a

-- What a walk that allocates comes to.
pub record Walked (end_ : ℕ) (free_pages : List ℕ) (k : Kmem) (va l t r : ℕ) (k1 : Kmem)
    : Type 0 where
  pub kept : Kept free_pages k k1
  pub there : ((r ≡ 0) × Lacking k va l t k1) ⊎ Leads k1.word va l t r
  pub old :
      is_valid (k1.word r) ≡ true → (r ≡ 0) ⊎ (Leads k.word va l t r × (is_valid (k.word r) ≡ true))

pub pte_of-valid : (pa perm : ℕ) → is_valid (pte_of pa perm) ≡ true
pte_of-valid pa perm = ground arith

pub pte_of-pa :
    (pa perm : ℕ) → pa % pgsize ≡ 0 → pa < 2 ^ 56 → perm < 2 ^ 10 → pte2pa (pte_of pa perm) ≡ pa
pte_of-pa pa perm a lt p = ground arith

entry_at-inside : (p l va : ℕ) → (p ≤ entry_at p l va) × (entry_at p l va < p + pgsize)
entry_at-inside p l va = (omega arith, omega arith)

apart :
    (p q a : ℕ)
    → p % pgsize ≡ 0
    → q % pgsize ≡ 0
    → q ≢ p
    → p ≤ a
    → a < p + pgsize
    → (a < q) ⊎ (q + pgsize ≤ a)
apart p q a al al' ne le lt = elim (lt_or_le a q) [
  | inl h ↦ inl h
  | inr h ↦ inr (ground (arith, al, al', ne, le, lt, h))
]

-- An address in a page that is not free is in no free page.
Clear-page :
    (end_ p a : ℕ) (ps : List ℕ)
    → p % pgsize ≡ 0
    → p ≤ a
    → a < p + pgsize
    → All (IsPage end_) ps
    → Avoids p ps
    → Clear ps a
Clear-page end_ p a [] al le lt pages away = tt
Clear-page end_ p a (q ∷ ps) al le lt pages away =
    (apart p q a al pages.0.aligned away.0 le lt, Clear-page end_ p a ps al le lt pages.1 away.1)

Clear-Avoids : (a : ℕ) (ps : List ℕ) → Clear ps a → Avoids a ps
Clear-Avoids a ps c = All-map (λ q h. cleared a q h) ps c
  where
    cleared : (a q : ℕ) → (a < q) ⊎ (q + pgsize ≤ a) → q ≢ a
    cleared a q (inl h) = omega (arith, h)
    cleared a q (inr h) = omega (arith, h)

-- The new table `p` is linked at `pte`.
pub record Linked (end_ : ℕ) (p pte : ℕ) (ps : List ℕ) (k l : Kmem) : Type 0 where
  pub still_free : FreeList end_ l ps
  pub link : l.word pte ≡ pte_of p 0
  pub zeros : (a : ℕ) → p ≤ a → a < p + pgsize → l.word a ≡ 0
  pub rest_same : (a : ℕ) → a ≢ pte → (a < p) ⊎ (p + pgsize ≤ a) → l.word a ≡ k.word a

fill_outside :
    (p c : ℕ) (word : ℕ → ℕ) (a : ℕ) → (a < p) ⊎ (p + pgsize ≤ a) → fill_page p c word a ≡ word a
unfolding fill_page
fill_outside p c word a (inl h) = ground arith
fill_outside p c word a (inr h) = ground arith

fill_zero : (p : ℕ) (word : ℕ → ℕ) (a : ℕ) → p ≤ a → a < p + pgsize → fill_page p 0 word a ≡ 0
unfolding fill_page
fill_zero p word a h g = ground arith

not_inside : (p a b : ℕ) → (b < p) ⊎ (p + pgsize ≤ b) → p ≤ a → a < p + pgsize → a ≢ b
not_inside p a b (inl h) le lt = omega (arith, h, le)
not_inside p a b (inr h) le lt = omega (arith, h, lt)

pub link_table-Linked :
    (end_ p pte : ℕ) (ps : List ℕ) (k k0 : Kmem)
    → IsPage end_ p
    → Avoids p ps
    → Clear (p ∷ ps) pte
    → FreeList end_ k ps
    → Outside p k0.word k.word
    → Linked end_ p pte ps k0 (link_table pte p k)
unfolding link_table Outside
link_table-Linked end_ p pte ps k k0 page away clear f out =
    let filled = fill_page p 0 k.word in
    record {
      still_free = record {
        chain =
            Chain-store pte (pte_of p 0) k.freelist filled ps (Clear-Avoids pte ps clear.1)
              (Chain-fill end_ p 0 k.freelist k.word ps page.aligned f.pages away f.chain);
        pages = f.pages;
        distinct = f.distinct;
      };
      link = update_self filled pte (pte_of p 0);
      zeros = λ a le lt.
          update_ne filled pte (pte_of p 0) a (not_inside p a pte clear.0 le lt)
          ∙ fill_zero p k.word a le lt;
      rest_same =
          λ a ne o. update_ne filled pte (pte_of p 0) a ne ∙ fill_outside p 0 k.word a o ∙ out a o;
    }

pub Kept-refl : (ps : List ℕ) (k : Kmem) → Kept ps k k
Kept-refl ps k = record { keeps = λ a c v. refl }

-- Nothing is mapped below a new table.
zero_invalid : (v : ℕ) → v ≡ 0 → is_valid v ≢ true
zero_invalid v z e = ground (arith, z, e)

pub none_below :
    (p : ℕ) (word : ℕ → ℕ) (va l r : ℕ)
    → ((a : ℕ) → p ≤ a → a < p + pgsize → word a ≡ 0)
    → Leads word va l p r
    → is_valid (word r) ≢ true
none_below p word va zero r zeros leaf v =
    let (le, lt) = entry_at-inside p zero va in zero_invalid _ (zeros _ le lt) v
none_below p word va (suc l) r zeros (down e d) v =
    let (le, lt) = entry_at-inside p (suc l) va in zero_invalid _ (zeros _ le lt) e

pub new-Clean :
    (end_ p : ℕ) (ps : List ℕ) (word : ℕ → ℕ) (l va : ℕ)
    → IsPage end_ p
    → All (IsPage end_) ps
    → Avoids p ps
    → ((a : ℕ) → p ≤ a → a < p + pgsize → word a ≡ 0)
    → Clean ps word l p va
new-Clean end_ p ps word zero va page pages away zeros =
    let (le, lt) = entry_at-inside p zero va in
    Clear-page end_ p (entry_at p zero va) ps page.aligned le lt pages away
new-Clean end_ p ps word (suc l) va page pages away zeros =
    let (le, lt) = entry_at-inside p (suc l) va in
    (
      Clear-page end_ p (entry_at p (suc l) va) ps page.aligned le lt pages away,
      λ v. elim (zero_invalid _ (zeros _ le lt) v) [ ],
    )
