-- ===== src/Vm/Mapped.antt =====
-- What walk and mappages of riscv/kernel/vm.c do to the page tables.
use learn_xv.Prelude.{
  minus_one, ℕ, suc, ◌+◌, ◌-◌, ◌%◌, ◌^◌, ◌≡◌, ◌≢◌, ◌<◌, ◌⊎◌, refl, sym, ap, subst, ◌∙◌, inl, inr,
  true, false, not, if◌then◌else◌, ◌==◌, leb, if_false, arith, List, update, update_self, update_ne,
  Bool-cases, ok, panic, sleeps, Run, Cmd, Ends-then,
}
use learn_xv.Kalloc.{Kmem, pgsize}
use learn_xv.Kalloc.Pages.{FreeList}
use learn_xv.Vm.Entry.{maxva, is_valid, is_user, pte2pa, pte_of, entry_at}
use learn_xv.Vm.Walk.{walk_from, walk, walkaddr, user_address}
use learn_xv.Vm.Map.{set_word, map_from, mappages}
use learn_xv.Vm.Translate.{Leads, leaf, down, walkaddr-Leads}
use learn_xv.Vm.Tables.{Clean, Kept, Lacking, Walked, pte_of-valid, pte_of-pa}
use learn_xv.Vm.Walked.{walk_from-Walked}

module _ (end_ : ℕ) (pos : 0 < end_) (ps : List ℕ) (k : Kmem) (t va pa perm : ℕ) where
  -- The page is mapped.
  pub record Maps (l : Kmem) : Type 0 where
    pub entry : ℕ
    pub leads : Leads l.word va 2 t entry
    pub points : l.word entry ≡ pte_of pa perm
    pub kept : Kept ps k l
    pub found : is_user (pte_of pa perm) ≡ true → walkaddr t va l ≡ ok pa l

  -- No page was free for a table that was not there; or the entry would stand at the address 0, which
  -- the code takes for null.
  abbrev pub Refused : Kmem → Type 0
  Refused l = Lacking k va 2 t l ⊎ Leads l.word va 2 t 0

  abbrev pub Outcome : Run Kmem ℕ → Type 0
  Outcome (ok r l) = ((r ≡ 0) × Maps l) ⊎ ((r ≡ minus_one) × Kept ps k l × Refused l)
  Outcome panic = (a : ℕ) × Leads k.word va 2 t a × (is_valid (k.word a) ≡ true)
  Outcome (sleeps l) = ⊥

  -- The round of `mappages` after its walk.
  abbrev stores : ℕ → Cmd Kmem ℕ
  unfolding map_from
  stores pte k1 =
      if pte == 0
      then ok minus_one k1
      else if is_valid (k1.word pte)
      then panic
      else let k2 = set_word pte (pte_of pa perm) k1 in
        elim (va == va + pgsize - pgsize) [
          | true ↦ ok 0 k2
          | false ↦ map_from 0 t (va + pgsize) (va + pgsize - pgsize) (pa + pgsize) perm k2
        ]

  module _ (lt : va < maxva) (al : pa % pgsize ≡ 0) (small : pa < 2 ^ 56)
      (bits : perm < 2 ^ 10) where
    -- A store into an entry that is not valid leaves the way to it.
    stored-Leads :
        (word : ℕ → ℕ) (e v : ℕ)
        → is_valid (word e) ≡ false
        → {l s a : ℕ} → Leads word va l s a
        → Leads (update word e v) va l s a
    stored-Leads word e v bad leaf = leaf
    stored-Leads word e v bad (down {l} {t = s} {a} q d) =
        let pte = entry_at s (suc l) va in
        let ne : pte ≢ e = λ w. ground (arith, sym q ∙ ap (λ x. is_valid (word x)) w ∙ bad) in
        let same : update word e v pte ≡ word pte = update_ne word e v pte ne in
        down (ap is_valid same ∙ q) (
          subst (λ x. Leads (update word e v) va l (pte2pa x) a) (sym same)
            (stored-Leads word e v bad d))

    stores-Maps :
        (r : ℕ) (k1 : Kmem)
        → r ≢ 0
        → is_valid (k1.word r) ≡ false
        → Kept ps k k1
        → Leads k1.word va 2 t r
        → Maps (set_word r (pte_of pa perm) k1)
    stores-Maps r k1 nz bad kept d =
        let v = pte_of pa perm in
        let k2 = set_word r v k1 in
        let there : k2.word r ≡ v = update_self k1.word r v in
        let leads : Leads k2.word va 2 t r = stored-Leads k1.word r v bad d in
        record {
          entry = r;
          leads = leads;
          points = there;
          kept = record {
            keeps = λ a c q.
                let same : k1.word a ≡ k.word a = kept.keeps a c q in
                let ne : a ≢ r = λ w. ground (
                  arith,
                  sym q ∙ ap is_valid (sym same) ∙ ap (λ x. is_valid (k1.word x)) w ∙ bad,
                ) in
                update_ne k1.word r v a ne ∙ same;
          };
          found = λ u.
              walkaddr-Leads va k2 lt nz leads
              ∙ ap (λ x. ok x k2)
                  (ap user_address there
                    ∙ if_false 0 (if not (is_user v) then 0 else pte2pa v)
                        (ap not (pte_of-valid pa perm))
                    ∙ if_false 0 (pte2pa v) (ap not u)
                    ∙ pte_of-pa pa perm al small bits);
        }

    refused : (r : ℕ) (k1 : Kmem) → r ≡ 0 → Walked end_ ps k va 2 t r k1 → Refused k1
    refused r k1 z w = elim w.there [
      | inl (e, n) ↦ inl n
      | inr d ↦ inr (subst (Leads k1.word va 2 t) z d)
    ]

    stores-Outcome : (r : ℕ) (k1 : Kmem) → Walked end_ ps k va 2 t r k1 → Outcome (stores r k1)
    unfolding stores
    stores-Outcome r k1 w = elim (Bool-cases (r == 0)) [
      | inl z ↦ rw z (inr (refl, w.kept, refused r k1 (ground (arith, z)) w))
      | inr nz ↦
          let ne : r ≢ 0 = ground (arith, nz) in
          let last : (va == va + pgsize - pgsize) ≡ true = ground arith in
          elim (Bool-cases (is_valid (k1.word r))) [
            | inl v ↦
                rw (nz, v) (elim (w.old v) [ inl z ↦ elim (ne z) [ ] | inr (d, u) ↦ (r, d, u) ])
            | inr v ↦
                rw (nz, v, last)
                  (inl (
                    refl,
                    elim w.there [
                      | inl (z, n) ↦ elim (ne z) [ ]
                      | inr d ↦ stores-Maps r k1 ne v w.kept d
                    ],
                  ))
          ]
    ]

    -- `mappages` of one page, with the tables for its address outside the free pages: it returns 0
    -- with the page mapped, so that `walkaddr` finds it if the user may use it; or it returns -1,
    -- and then no page is free and a table for the address was missing, or its entry would stand at the
    -- address 0; or it panics, and then the address was mapped before. It never changes a valid
    -- entry outside the free pages, so that whatever was mapped stays mapped.
    pub mappages-Outcome :
        va % pgsize ≡ 0
        → FreeList end_ k ps
        → Clean ps k.word 2 t va
        → Outcome (mappages t va pgsize pa perm k)
    unfolding mappages map_from walk
    mappages-Outcome va_al f c =
        let aligned : not (va % pgsize == 0) ≡ false = ground (arith, va_al) in
        let inside : leb maxva va ≡ false = ground (arith, lt) in
        rw (aligned, inside)
          (Ends-then (Walked end_ ps k va 2 t) Outcome (walk_from 2 t va true k) stores
            stores-Outcome (walk_from-Walked end_ pos va 2 t k ps f c))
