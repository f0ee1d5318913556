-- ===== src/Kalloc/Pages.antt =====
-- `kfree` and `kalloc` of riscv/kernel/kalloc.c as operations on the list of free pages.
use learn_xv.Prelude.{
  ℕ, ◌+◌, ◌*◌, ◌%◌, ◌≡◌, ◌≢◌, ◌≤◌, ◌<◌, ◌⊎◌, inl, inr, refl, sym, subst, ◌∙◌, List, [], ◌∷◌, All,
  arith, update, update_self, update_ne, true, false, not, leb, ltb, ◌||◌, ◌==◌, Bool-cases, panic,
  Ends,
}
use learn_xv.Kalloc.{Kmem, pgsize, phystop, fill_page, kfree, kalloc}
use learn_xv.Kalloc.Chain.{IsPage, Avoids, Distinct, Chain, Chain-fill, Chain-store}

-- The free pages are `ps`, the last one that was freed first.
pub record FreeList (end_ : ℕ) (k : Kmem) (ps : List ℕ) : Type 0 where
  pub chain : Chain k.word k.freelist ps
  pub pages : All (IsPage end_) ps
  pub distinct : Distinct ps

-- Nothing but the page at `pa` changed.
unfoldable pub Outside : ℕ → (ℕ → ℕ) → (ℕ → ℕ) → Type 0
Outside pa word word' = (a : ℕ) → (a < pa) ⊎ (pa + pgsize ≤ a) → word' a ≡ word a

fill-Outside : (pa c : ℕ) (word : ℕ → ℕ) → Outside pa word (fill_page pa c word)
unfolding fill_page Outside
fill-Outside pa c word a (inl h) = ground arith
fill-Outside pa c word a (inr h) = ground arith

fill-inside :
    (pa c : ℕ) (word : ℕ → ℕ) (a : ℕ)
    → pa ≤ a
    → a < pa + pgsize
    → fill_page pa c word a ≡ c * 0x0101010101010101
unfolding fill_page
fill-inside pa c word a h g = ground arith

outside_ne : (a pa : ℕ) → (a < pa) ⊎ (pa + pgsize ≤ a) → a ≢ pa
outside_ne a pa (inl h) = omega (arith, h)
outside_ne a pa (inr h) = omega (arith, h)

store-Outside :
    (pa v : ℕ) (word word' : ℕ → ℕ) → Outside pa word word' → Outside pa word (update word' pa v)
unfolding Outside
store-Outside pa v word word' o a h = update_ne word' pa v a (outside_ne a pa h) ∙ o a h

module _ (end_ : ℕ) where
  IsPage-cases :
      (pa : ℕ)
      → ((not (pa % pgsize == 0) || ltb pa end_ || leb phystop pa) ≡ true) × ¬ IsPage end_ pa
        ⊎ ((not (pa % pgsize == 0) || ltb pa end_ || leb phystop pa) ≡ false) × IsPage end_ pa
  IsPage-cases pa = elim (Bool-cases (not (pa % pgsize == 0) || ltb pa end_ || leb phystop pa)) [
    | inl e ↦ inl (e, λ page. ground (arith, e, page.aligned, page.above, page.below))
    | inr e ↦ inr (
      e,
      record { aligned = ground (arith, e); above = ground (arith, e); below = ground (arith, e) },
    )
  ]

  -- `kfree` of an address that is the start of a page of the memory, and of no free page, makes it
  -- the first free page and changes no other page; of any other address it panics.
  pub kfree_lem :
      (pa : ℕ) (k : Kmem) (ps : List ℕ)
      → FreeList end_ k ps
      → Avoids pa ps
      → (IsPage end_ pa
          × Ends (λ u k'. FreeList end_ k' (pa ∷ ps) × Outside pa k.word k'.word) (kfree end_ pa k))
        ⊎ (¬ IsPage end_ pa × (kfree end_ pa k ≡ panic))
  unfolding kfree
  kfree_lem pa k ps free away = elim (IsPage-cases pa) [
    | inl (e, bad) ↦ inr (bad, rw e refl)
    | inr (e, page) ↦
        let filled =
          Chain-fill end_ pa 1 k.freelist k.word ps page.aligned free.pages away free.chain in
        inl (
          page,
          rw (Ends, e)
              (
                record {
                  chain = (
                    refl,
                    rw (update_self (fill_page pa 1 k.word) pa k.freelist) (
                        Chain-store pa k.freelist k.freelist (fill_page pa 1 k.word) ps away
                          filled),
                  );
                  pages = (page, free.pages);
                  distinct = (away, free.distinct);
                },
                store-Outside pa k.freelist k.word (fill_page pa 1 k.word)
                    (fill-Outside pa 1 k.word),
              ),
        )
  ]

  rest_free :
      (k : Kmem) (p : ℕ) (ps : List ℕ)
      → FreeList end_ k (p ∷ ps)
      → FreeList end_ (record { word = fill_page p 5 k.word; freelist = k.word p }) ps
  rest_free k p ps free = record {
    chain =
        Chain-fill end_ p 5 (k.word p) k.word ps free.pages.0.aligned free.pages.1 free.distinct.0
          free.chain.1;
    pages = free.pages.1;
    distinct = free.distinct.1;
  }

  -- What `kalloc` returns, by the list of free pages.
  abbrev pub Allocated : Kmem → List ℕ → ℕ → Kmem → Type 0
  Allocated k [] r k' = (r ≡ 0) × (k' ≡ k)
  Allocated k (p ∷ ps) r k' =
      (r ≡ p)
      × FreeList end_ k' ps
      × Outside p k.word k'.word
      × ((a : ℕ) → p ≤ a → a < p + pgsize → k'.word a ≡ 5 * 0x0101010101010101)

  -- `kalloc` returns 0 just when no page is free, and changes nothing then; otherwise it takes the
  -- first free page, fills it with junk and changes no other page.
  pub kalloc_lem :
      (k : Kmem) (ps : List ℕ) → 0 < end_ → FreeList end_ k ps → Ends (Allocated k ps) (kalloc k)
  unfolding kalloc
  kalloc_lem k [] pos free =
      let e : (k.freelist == 0) ≡ true = ground (arith, free.chain) in
      rw (Ends, e) (free.chain, refl)
  kalloc_lem k (p ∷ ps) pos free =
      let page = free.pages.0 in
      let first = free.chain.0 in
      let e : (k.freelist == 0) ≡ false = ground (arith, first, page.above, pos) in
      rw (Ends, e)
        (
          first,
          subst
              (λ r. FreeList end_ (record { word = fill_page r 5 k.word; freelist = k.word r }) ps)
              (sym first) (rest_free k p ps free),
          subst (λ r. Outside p k.word (fill_page r 5 k.word)) (sym first)
              (fill-Outside p 5 k.word),
          rw first (fill-inside p 5 k.word),
        )
