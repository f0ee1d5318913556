-- ===== src/Kalloc/Init.antt =====
-- `kinit` and `freerange` of riscv/kernel/kalloc.c.
use learn_xv.Prelude.{
  ℕ, zero, suc, ◌+◌, ◌-◌, ◌*◌, ◌/◌, ◌%◌, ◌≡◌, ◌≤◌, ◌<◌, inl, inr, refl, subst, List, [], ◌∷◌, arith,
  leb, Bool-cases, Ends, Ends-map, Ends-and_then, length,
}
use learn_xv.Kalloc.{Kmem, pgsize, phystop, pgroundup, kfree, free_from, freerange, kinit}
use learn_xv.Kalloc.Chain.{Avoids}
use learn_xv.Kalloc.Pages.{FreeList, kfree_lem}
use learn_xv.Kalloc.Owners.{Apart}

-- `n` pages from `start` on, the last one first.
unfoldable pub page_list : ℕ → ℕ → List ℕ
page_list start zero = []
page_list start (suc n) = (start + n * pgsize) ∷ page_list start n

page_list-Avoids : (start n p : ℕ) → start + n * pgsize ≤ p → Avoids p (page_list start n)
unfolding page_list
page_list-Avoids start zero p h = tt
page_list-Avoids start (suc n) p h =
    (λ e. omega (arith, h, e), page_list-Avoids start n p (omega (arith, h)))

length-page_list : (start n : ℕ) → length (page_list start n) ≡ n
unfolding page_list
length-page_list start zero = refl
length-page_list start (suc n) = omega (arith, length-page_list start n)

module _ (end_ : ℕ) where
  -- The loop of `freerange` stands at page `n` from `start`.
  record At (start n : ℕ) (k : Kmem) : Type 0 where
    aligned : start % pgsize ≡ 0
    above : end_ ≤ start
    freed : FreeList end_ k (page_list start n)

  free-At :
      (start n : ℕ) (k : Kmem)
      → start + n * pgsize < phystop
      → At start n k
      → Ends (λ u k'. At start (suc n) k') (kfree end_ (start + n * pgsize) k)
  unfolding page_list
  free-At start n k below a =
      let p = start + n * pgsize in
      elim (kfree_lem end_ p k (page_list start n) a.freed
        (page_list-Avoids start n p (omega arith))) [
          | inl (page, r) ↦
              Ends-map (λ u k' f. record { aligned = a.aligned; above = a.above; freed = f.0 })
                (kfree end_ p k) r
          | inr (bad, r) ↦
              elim (bad (record {
                aligned = omega (arith, a.aligned);
                above = omega (arith, a.above);
                below = below;
              })) [ ]
        ]

  -- Enough rounds free all pages up to the bound.
  free_from-At :
      (rounds start n pa_end p : ℕ) (k : Kmem)
      → p ≡ start + n * pgsize
      → p ≤ pa_end
      → pa_end < p + rounds * pgsize + pgsize
      → pa_end ≤ phystop
      → At start n k
      → Ends (λ u k'. At start ((pa_end - start) / pgsize) k') (free_from end_ rounds pa_end p k)
  unfolding free_from
  free_from-At zero start n pa_end p k e low high top a =
      subst (λ m. At start m k) (omega (arith, e, low, high)) a
  free_from-At (suc rounds) start n pa_end p k e low high top a =
      elim (Bool-cases (leb (p + pgsize) pa_end)) [
        | inl t ↦
            rw (Ends, t)
              (Ends-and_then _ _ (kfree end_ p k)
                (λ u k'. free_from end_ rounds pa_end (p + pgsize) k')
                (λ u k' b.
                  free_from-At rounds start (suc n) pa_end (p + pgsize) k' (omega (arith, e))
                    (ground (arith, t)) (omega (arith, high)) top b)
                (rw e (free-At start n k (ground (arith, t, top, e)) a)))
        | inr t ↦ rw (Ends, t) (subst (λ m. At start m k) (ground (arith, e, low, t)) a)
      ]

  -- `kinit` on an empty list makes every page of the memory above the kernel free.
  pub kinit_lem :
      (k : Kmem)
      → end_ ≤ phystop
      → k.freelist ≡ 0
      → Ends
          (λ u k'.
            FreeList end_ k' (page_list (pgroundup end_) ((phystop - pgroundup end_) / pgsize)))
          (kinit end_ k)
  unfolding kinit freerange page_list
  kinit_lem k h e =
      Ends-map (λ u k' a. a.freed) (kinit end_ k)
        (free_from-At (phystop / pgsize) (pgroundup end_) 0 phystop (pgroundup end_) k (omega arith)
          (omega (arith, h)) (omega arith) (omega arith)
          (record {
            aligned = omega arith;
            above = omega arith;
            freed = record { chain = e; pages = tt; distinct = tt };
          }))

  -- Nobody owns a page yet.
  pub FreeList-Apart :
      (k : Kmem) (ps : List ℕ)
      → FreeList end_ k ps
      → Apart end_ (length ps) (record { kmem = k; owned = [] })
  FreeList-Apart k ps list = record {
    free = ps;
    total = omega arith;
    list = list;
    pages = tt;
    distinct = tt;
    apart = tt;
  }
