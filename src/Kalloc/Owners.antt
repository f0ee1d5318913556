-- ===== src/Kalloc/Owners.antt =====
-- The callers of riscv/kernel/kalloc.c: a page is owned from `kalloc` to `kfree`, and its owner may
-- write to it in between.
use learn_xv.Prelude.{
  ℕ, zero, suc, ◌+◌, ◌≡◌, ◌≢◌, ◌≤◌, ◌<◌, ◌⊎◌, inl, inr, sym, subst, ◌∙◌, List, [], ◌∷◌, All,
  All-map, All-zip, arith, get_elem?, none-ne-some, some-injective, length, update, update_ne, some,
  ok, panic, Ends, Ends-map, Ends-panic,
}
use learn_xv.Kalloc.{Kmem, pgsize, kfree, kalloc}
use learn_xv.Kalloc.Chain.{IsPage, Avoids, Distinct, Chain-frame}
use learn_xv.Kalloc.Pages.{FreeList, Allocated, kfree_lem, kalloc_lem}

-- The allocator, and the pages that `kalloc` gave out and no `kfree` took back.
pub record Owners : Type 0 where
  pub kmem : Kmem
  pub owned : List ℕ

abbrev pub remove : List ℕ → ℕ → List ℕ
remove [] i = []
remove (p ∷ ps) zero = ps
remove (p ∷ ps) (suc i) = p ∷ remove ps i

pub All-get :
    {A : Type 0} (P : A → Type 0) (xs : List A) (i : ℕ) {x : A}
    → All P xs
    → get_elem? xs i ≡ some x
    → P x
All-get P [] i h e = elim (none-ne-some _ e) [ ]
All-get P (x ∷ xs) zero h e = subst P (some-injective _ _ e) h.0
All-get P (x ∷ xs) (suc i) h e = All-get P xs i h.1 e

All-remove : (P : ℕ → Type 0) (xs : List ℕ) (i : ℕ) → All P xs → All P (remove xs i)
All-remove P [] i h = h
All-remove P (x ∷ xs) zero h = h.1
All-remove P (x ∷ xs) (suc i) h = (h.0, All-remove P xs i h.1)

Distinct-remove : (xs : List ℕ) (i : ℕ) → Distinct xs → Distinct (remove xs i)
Distinct-remove [] i d = d
Distinct-remove (x ∷ xs) zero d = d.1
Distinct-remove (x ∷ xs) (suc i) d = (All-remove (λ q. q ≢ x) xs i d.0, Distinct-remove xs i d.1)

-- Without its place in the list, a page is no longer in it.
remove-Avoids :
    (xs : List ℕ) (i : ℕ) {p : ℕ} → Distinct xs → get_elem? xs i ≡ some p → Avoids p (remove xs i)
remove-Avoids [] i d e = tt
remove-Avoids (x ∷ xs) zero d e = subst (λ q. Avoids q xs) (some-injective _ _ e) d.0
remove-Avoids (x ∷ xs) (suc i) {p} d e =
    (λ f. All-get (λ q. q ≢ x) xs i d.0 e (sym f), remove-Avoids xs i d.1 e)

length-remove :
    (xs : List ℕ) (i : ℕ) {p : ℕ} → get_elem? xs i ≡ some p → length (remove xs i) + 1 ≡ length xs
length-remove [] i e = elim (none-ne-some _ e) [ ]
length-remove (x ∷ xs) zero e = omega arith
length-remove (x ∷ xs) (suc i) e = omega (arith, length-remove xs i e)

module _ (end_ : ℕ) where
  pub data Step (s : Owners) : Owners → Type 0 where
    take_page :
        {p : ℕ} {k : Kmem}
        → kalloc s.kmem ≡ ok p k
        → p ≢ 0
        → Step s (record { kmem = k; owned = p ∷ s.owned })
    give_back :
        (i : ℕ) {p : ℕ} {k : Kmem}
        → get_elem? s.owned i ≡ some p
        → kfree end_ p s.kmem ≡ ok tt k
        → Step s (record { kmem = k; owned = remove s.owned i })
    store :
        (i a v : ℕ) {p : ℕ}
        → get_elem? s.owned i ≡ some p
        → p ≤ a
        → a < p + pgsize
        → Step s (record s { kmem = record s.kmem { word = update s.kmem.word a v } })

  pub data Reach (start : Owners) : Owners → Type 0 where
    here : Reach start start
    later : {s t : Owners} → Reach start s → Step s t → Reach start t

  -- Owned pages are pages, and differ from each other and from the free ones.
  pub record Apart (count : ℕ) (s : Owners) : Type 0 where
    pub free : List ℕ
    pub total : length free + length s.owned ≡ count
    pub list : FreeList end_ s.kmem free
    pub pages : All (IsPage end_) s.owned
    pub distinct : Distinct s.owned
    pub apart : All (λ p. Avoids p free) s.owned

  alloc-Apart :
      {count p : ℕ} {k : Kmem} (s : Owners) (free : List ℕ)
      → p ≢ 0
      → length free + length s.owned ≡ count
      → FreeList end_ s.kmem free
      → All (IsPage end_) s.owned
      → Distinct s.owned
      → All (λ q. Avoids q free) s.owned
      → Allocated end_ s.kmem free p k
      → Apart count (record { kmem = k; owned = p ∷ s.owned }) × Avoids p s.owned × IsPage end_ p
  alloc-Apart s [] h total list pages distinct apart r = elim (h r.0) [ ]
  alloc-Apart {p = p} s (q ∷ free) h total list pages distinct apart r =
      let away : Avoids p s.owned = All-map (λ o d. (λ f. d.0 (sym r.0 ∙ sym f))) s.owned apart in
      let page = subst (IsPage end_) (sym r.0) list.pages.0 in
      (
        record {
          free = free;
          total = omega (arith, total);
          list = r.1;
          pages = (page, pages);
          distinct = (away, distinct);
          apart = (
            subst (λ o. Avoids o free) (sym r.0) list.distinct.0,
            All-map (λ o d. d.1) s.owned apart,
          );
        },
        away,
        page,
      )

  free-Apart :
      {count p : ℕ} {k : Kmem} (s : Owners) (i : ℕ)
      → get_elem? s.owned i ≡ some p
      → (a : Apart count s) → FreeList end_ k (p ∷ a.free)
      → Apart count (record { kmem = k; owned = remove s.owned i })
  free-Apart s i e a list = record {
    free = _ ∷ a.free;
    total = omega (arith, a.total, length-remove s.owned i e);
    list = list;
    pages = All-remove (IsPage end_) s.owned i a.pages;
    distinct = Distinct-remove s.owned i a.distinct;
    apart =
        All-zip (λ q h g. (λ f. h (sym f), g)) (remove s.owned i)
          (remove-Avoids s.owned i a.distinct e)
          (All-remove (λ q. Avoids q a.free) s.owned i a.apart);
  }

  write-Apart :
      {count p : ℕ} (s : Owners) (i w v : ℕ)
      → get_elem? s.owned i ≡ some p
      → p ≤ w
      → w < p + pgsize
      → Apart count s
      → Apart count (record s { kmem = record s.kmem { word = update s.kmem.word w v } })
  write-Apart s i w v e low high a =
      let own = All-get (IsPage end_) s.owned i a.pages e in
      record {
        free = a.free;
        total = a.total;
        list = record {
          chain =
              Chain-frame s.kmem.word (update s.kmem.word w v) s.kmem.freelist a.free
                (All-zip
                  (λ q page h.
                    update_ne s.kmem.word w v q
                      (λ f. omega (arith, f, h, low, high, page.aligned, own.aligned)))
                  a.free a.list.pages (All-get (λ q. Avoids q a.free) s.owned i a.apart e))
                a.list.chain;
          pages = a.list.pages;
          distinct = a.list.distinct;
        };
        pages = a.pages;
        distinct = a.distinct;
        apart = a.apart;
      }

  allocates :
      {count p : ℕ} {k : Kmem} (s : Owners)
      → 0 < end_
      → Apart count s
      → kalloc s.kmem ≡ ok p k
      → p ≢ 0
      → Apart count (record { kmem = k; owned = p ∷ s.owned }) × Avoids p s.owned × IsPage end_ p
  allocates s pos a e h =
      alloc-Apart s a.free h a.total a.list a.pages a.distinct a.apart
        (subst (Ends (Allocated end_ s.kmem a.free)) e (kalloc_lem end_ s.kmem a.free pos a.list))

  frees :
      {count p : ℕ} (s : Owners) (i : ℕ)
      → get_elem? s.owned i ≡ some p
      → Apart count s
      → Ends
          (λ u k. Apart count (record { kmem = k; owned = remove s.owned i }))
          (kfree end_ p s.kmem)
  frees {p = p} s i e a =
      elim (kfree_lem end_ p s.kmem a.free a.list (All-get _ s.owned i a.apart e)) [
        | inl (page, r) ↦ Ends-map (λ u k f. free-Apart s i e a f.0) (kfree end_ p s.kmem) r
        | inr (bad, r) ↦ elim (bad (All-get (IsPage end_) s.owned i a.pages e)) [ ]
      ]

  Step-Apart : {count : ℕ} {s t : Owners} → 0 < end_ → Apart count s → Step s t → Apart count t
  Step-Apart {s = s} pos a (take_page e h) = (allocates s pos a e h).0
  Step-Apart {s = s} pos a (give_back i g e) = subst (Ends _) e (frees s i g a)
  Step-Apart {s = s} pos a (store i w v e low high) = write-Apart s i w v e low high a

  pub Reach-Apart :
      {count : ℕ} {start s : Owners} → 0 < end_ → Apart count start → Reach start s → Apart count s
  Reach-Apart pos a here = a
  Reach-Apart pos a (later r s) = Step-Apart pos (Reach-Apart pos a r) s

  allocated :
      {count p : ℕ} (k : Kmem) (s : Owners) (free : List ℕ)
      → 0 < end_
      → length free + length s.owned ≡ count
      → FreeList end_ s.kmem free
      → All (IsPage end_) s.owned
      → Distinct s.owned
      → All (λ q. Avoids q free) s.owned
      → Allocated end_ s.kmem free p k
      → ((p ≡ 0) × (length s.owned ≡ count)) ⊎ (Avoids p s.owned × IsPage end_ p)
  allocated k s [] pos total list pages distinct apart r = inl (r.0, omega (arith, total))
  allocated k s (q ∷ free) pos total list pages distinct apart r =
      let page = list.pages.0 in
      let (next, away, fresh) =
        alloc-Apart s (q ∷ free) (λ e. omega (arith, pos, page.above, e, r.0)) total list pages
          distinct apart r in
      inr (away, fresh)

  keeps :
      {count : ℕ} {s : Owners} (a : Apart count s) (p : ℕ)
      → IsPage end_ p
      → Avoids p a.free
      → kfree end_ p s.kmem ≢ panic
  keeps {s = s} a p page away = elim (kfree_lem end_ p s.kmem a.free a.list away) [
    | inl (i, r) ↦ Ends-panic _ (kfree end_ p s.kmem) r
    | inr (bad, r) ↦ elim (bad page) [ ]
  ]

  -- In every sequence of calls of `kalloc` and `kfree` by owners that write only to their pages,
  -- `kalloc` never gives out a page that is owned, gives 0 only when all pages are owned, and no
  -- `kfree` of an owned page panics.
  pub owners_lem :
      {count : ℕ} {start s : Owners}
      → 0 < end_
      → Apart count start
      → Reach start s
      → Ends
          (λ p k. ((p ≡ 0) × (length s.owned ≡ count)) ⊎ (Avoids p s.owned × IsPage end_ p))
          (kalloc s.kmem)
        × All (λ p. kfree end_ p s.kmem ≢ panic) s.owned
  owners_lem {s = s} pos start r =
      let a = Reach-Apart pos start r in
      (
        Ends-map (λ p k. allocated k s a.free pos a.total a.list a.pages a.distinct a.apart)
            (kalloc s.kmem) (kalloc_lem end_ s.kmem a.free pos a.list),
        All-zip (λ p page away. keeps a p page away) s.owned a.pages a.apart,
      )
