-- ===== src/Vm/Walked.antt =====
-- The walk of riscv/kernel/vm.c that may allocate tables.
use learn_xv.Prelude.{
  ℕ, zero, suc, ◌≡◌, ◌≢◌, ◌<◌, refl, sym, ap, subst, ◌∙◌, inl, inr, true, false, ◌==◌, ==_iff,
  arith, List, [], ◌∷◌, All, Bool-cases, ok, Run, Ends, Ends-map, Ends-and_then,
}
use learn_xv.Kalloc.{Kmem, kalloc}
use learn_xv.Kalloc.Chain.{IsPage, Avoids}
use learn_xv.Kalloc.Pages.{FreeList, Outside, Allocated, kalloc_lem}
use learn_xv.Vm.Entry.{is_valid, pte2pa, pte_of, entry_at}
use learn_xv.Vm.Walk.{link_table, walk_from}
use learn_xv.Vm.Translate.{Leads, leaf, down}
use learn_xv.Vm.Tables.{
  Clear, Clean, Walked, pte_of-valid, pte_of-pa, Linked, link_table-Linked, Kept-refl, none_below,
  new-Clean,
}

module _ (end_ : ℕ) (pos : 0 < end_) (va : ℕ) where
  -- The entry for an address below a valid one, and none below one that is not valid.
  below-Leads :
      (word : ℕ → ℕ) (l t a : ℕ)
      → Leads word va (suc l) t a
      → (is_valid (word (entry_at t (suc l) va)) ≡ true)
        × Leads word va l (pte2pa (word (entry_at t (suc l) va))) a
  below-Leads word l t a (down e d) = (e, d)

  no_entry_below :
      (word : ℕ → ℕ) (l t a : ℕ)
      → is_valid (word (entry_at t (suc l) va)) ≡ false
      → ¬ Leads word va (suc l) t a
  no_entry_below word l t a e d = ground (arith, e, (below-Leads word l t a d).0)

  -- The walk went on from a valid entry.
  through-Walked :
      (ps : List ℕ) (k : Kmem) (l t r : ℕ) (k1 : Kmem)
      → Clear ps (entry_at t (suc l) va)
      → is_valid (k.word (entry_at t (suc l) va)) ≡ true
      → Walked end_ ps k va l (pte2pa (k.word (entry_at t (suc l) va))) r k1
      → Walked end_ ps k va (suc l) t r k1
  through-Walked ps k l t r k1 c e w =
      let pte = entry_at t (suc l) va in
      let same : k1.word pte ≡ k.word pte = w.kept.keeps pte c e in
      record {
        kept = w.kept;
        there = elim w.there [
          | inl (z, n) ↦ inl (
            z,
            record {
              no_page = n.no_page;
              no_entry = λ a d. n.no_entry a (below-Leads k.word l t a d).1;
            },
          )
          | inr d ↦ inr (
              down (ap is_valid same ∙ e)
                (subst (λ x. Leads k1.word va l (pte2pa x) r) (sym same) d))
        ];
        old = λ v. elim (w.old v) [ inl z ↦ inl z | inr (d, u) ↦ inr (down e d, u) ];
      }

  -- The walk went on from a new table.
  table-Walked :
      (p : ℕ) (ps : List ℕ) (k k' : Kmem) (l t r : ℕ) (k1 : Kmem)
      → IsPage end_ p
      → Clear (p ∷ ps) (entry_at t (suc l) va)
      → is_valid (k.word (entry_at t (suc l) va)) ≡ false
      → Linked end_ p (entry_at t (suc l) va) ps k k'
      → Walked end_ ps k' va l p r k1
      → Walked end_ (p ∷ ps) k va (suc l) t r k1
  table-Walked p ps k k' l t r k1 page c e n w =
      let pte = entry_at t (suc l) va in
      let valid : is_valid (k'.word pte) ≡ true = ap is_valid n.link ∙ pte_of-valid p 0 in
      let same : k1.word pte ≡ pte_of p 0 = w.kept.keeps pte c.1 valid ∙ n.link in
      let to_p : pte2pa (k1.word pte) ≡ p =
        ap pte2pa same ∙ pte_of-pa p 0 page.aligned (omega (arith, page.below)) (omega arith) in
      record {
        kept = record {
          keeps = λ a ca v.
              let ne : a ≢ pte = λ q. ground (arith, sym v ∙ ap (λ x. is_valid (k.word x)) q ∙ e) in
              let kept' : k'.word a ≡ k.word a = n.rest_same a ne ca.0 in
              w.kept.keeps a ca.1 (ap is_valid kept' ∙ v) ∙ kept';
        };
        there = elim w.there [
          | inl (z, n') ↦
              inl
                (z, record { no_page = n'.no_page; no_entry = λ a. no_entry_below k.word l t a e })
          | inr d ↦ inr (
              down (ap is_valid same ∙ pte_of-valid p 0)
                (subst (λ x. Leads k1.word va l x r) (sym to_p) d))
        ];
        old = λ v. elim (w.old v) [
          | inl z ↦ inl z
          | inr (d, u) ↦ elim (none_below p k'.word va l r n.zeros d u) [ ]
        ];
      }

  out_of_memory :
      (k : Kmem) (l t : ℕ)
      → FreeList end_ k []
      → is_valid (k.word (entry_at t (suc l) va)) ≡ false
      → Walked end_ [] k va (suc l) t 0 k
  out_of_memory k l t f e = record {
    kept = Kept-refl [] k;
    there = inl (refl, record { no_page = f.chain; no_entry = λ a. no_entry_below k.word l t a e });
    old = λ v. inl refl;
  }

  -- The rest of a walk after `kalloc` gave `table`.
  abbrev gone_on : (l t table : ℕ) → Kmem → Run Kmem ℕ
  unfolding walk_from link_table
  gone_on l t table k1 = elim (table == 0) [
    | true ↦ ok 0 k1
    | false ↦ walk_from l table va true (link_table (entry_at t (suc l) va) table k1)
  ]

  with_table :
      (p : ℕ) (ps : List ℕ) (l t : ℕ) (k k1 : Kmem)
      → IsPage end_ p
      → All (IsPage end_) ps
      → Avoids p ps
      → Clear (p ∷ ps) (entry_at t (suc l) va)
      → is_valid (k.word (entry_at t (suc l) va)) ≡ false
      → FreeList end_ k1 ps
      → Outside p k.word k1.word
      → ((k' : Kmem)
          → FreeList end_ k' ps
          → Clean ps k'.word l p va
          → Ends (Walked end_ ps k' va l p) (walk_from l p va true k'))
      → Ends (Walked end_ (p ∷ ps) k va (suc l) t) (gone_on l t p k1)
  unfolding gone_on
  with_table p ps l t k k1 page pages away c e f out ih =
      let test : (p == 0) ≡ false = ground (arith, page.above, pos) in
      let k' = link_table (entry_at t (suc l) va) p k1 in
      let n : Linked end_ p (entry_at t (suc l) va) ps k k' =
        link_table-Linked end_ p (entry_at t (suc l) va) ps k1 k page away c f out in
      rw (Ends, test)
        (Ends-map (λ r k2 w. table-Walked p ps k k' l t r k2 page c e n w) _
          (ih k' n.still_free (new-Clean end_ p ps k'.word l va page pages away n.zeros)))

  gone_on-Walked :
      (l t : ℕ) (k : Kmem) (ps : List ℕ)
      → FreeList end_ k ps
      → Clear ps (entry_at t (suc l) va)
      → is_valid (k.word (entry_at t (suc l) va)) ≡ false
      → ((p : ℕ) (k' : Kmem) (qs : List ℕ)
          → FreeList end_ k' qs
          → Clean qs k'.word l p va
          → Ends (Walked end_ qs k' va l p) (walk_from l p va true k'))
      → (table : ℕ) (k1 : Kmem) → Allocated end_ k ps table k1
      → Ends (Walked end_ ps k va (suc l) t) (gone_on l t table k1)
  unfolding gone_on
  gone_on-Walked l t k [] f c e ih table k1 (z, same) =
      let test : (table == 0) ≡ true = (==_iff table 0).1 z in
      rw (Ends, test)
        (subst (λ x. Walked end_ [] k va (suc l) t 0 x) (sym same) (out_of_memory k l t f e))
  gone_on-Walked l t k (p ∷ ps) f c e ih table k1 (got, fr, out, junk) =
      subst (λ x. Ends (Walked end_ (p ∷ ps) k va (suc l) t) (gone_on l t x k1)) (sym got)
        (with_table p ps l t k k1 f.pages.0 f.pages.1 f.distinct.0 c e fr out
          (λ k' f' c'. ih p k' ps f' c'))

  -- A walk that may allocate ends, keeps every valid entry, and comes to the entry for the address or
  -- returns null, for lack of a page.
  pub walk_from-Walked :
      (l t : ℕ) (k : Kmem) (ps : List ℕ)
      → FreeList end_ k ps
      → Clean ps k.word l t va
      → Ends (Walked end_ ps k va l t) (walk_from l t va true k)
  unfolding walk_from
  walk_from-Walked zero t k ps f c = record {
    kept = Kept-refl ps k;
    there = inr leaf;
    old = λ v. inr (leaf, v);
  }
  walk_from-Walked (suc l) t k ps f c =
      elim (Bool-cases (is_valid (k.word (entry_at t (suc l) va)))) [
        | inl e ↦
            rw (walk_from, e)
              (Ends-map (λ r k1 w. through-Walked ps k l t r k1 c.0 e w) _
                (walk_from-Walked l (pte2pa (k.word (entry_at t (suc l) va))) k ps f (c.1 e)))
        | inr e ↦
            rw (walk_from, e)
              (Ends-and_then (Allocated end_ k ps) (Walked end_ ps k va (suc l) t) (kalloc k)
                (gone_on l t)
                (gone_on-Walked l t k ps f c.0 e
                  (λ p k' qs f' c'. walk_from-Walked l p k' qs f' c'))
                (kalloc_lem end_ k ps pos f))
      ]
