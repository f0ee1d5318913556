-- ===== src/Itable/Unique.antt =====
-- `iget` of riscv/kernel/fs.c: an inode has one entry of the table at most.
use learn_xv.Prelude.{
  ℕ, zero, suc, inl, inr, ◌+◌, ◌-◌, ◌^◌, ◌≡◌, ◌≢◌, ◌<◌, ◌⊎◌, refl, ap, sym, subst, ◌∙◌, true, false,
  ◌==◌, Option, none, some, arith, update, update_self, update_ne, u32, int_ltb, panic, Ends,
  eq_cases, Bool-cases,
}
use learn_xv.Itable.{
  ninode, Inode, Itable, set_inode, Found, cached, recycled, full, is_inode, remember, found_empty,
  search_inode, take_entry, iget,
}

-- An entry that does not stand for the inode.
abbrev pub Other : ℕ → ℕ → Inode → Type 0
Other dev inum x = (x.ref ≡ 0) ⊎ (x.dev ≢ dev) ⊎ (x.inum ≢ inum)

-- An entry in use that stands for the inode.
abbrev pub Stands : ℕ → ℕ → Inode → Type 0
Stands dev inum x = (0 < x.ref) × (x.dev ≡ dev) × (x.inum ≡ inum)

is_inode-cases :
    (dev inum : ℕ) (x : Inode)
    → x.ref < 2 ^ 31
    → ((is_inode dev inum x ≡ true) × Stands dev inum x)
      ⊎ ((is_inode dev inum x ≡ false) × Other dev inum x)
unfolding is_inode
is_inode-cases dev inum x small = elim (Bool-cases (int_ltb 0 x.ref)) [
  | inr a ↦ inr (ground (arith, a), inl (ground (arith, a, small)))
  | inl a ↦ elim (eq_cases x.dev dev) [
    | inr d ↦ inr (ground (arith, a, d), inr (inl d))
    | inl d ↦ elim (eq_cases x.inum inum) [
      | inr n ↦ inr (ground (arith, a, d, n), inr (inr n))
      | inl n ↦ inl (ground (arith, a, d, n), (ground (arith, a, small), d, n))
    ]
  ]
]

-- What the search shows.
abbrev pub Searched : ℕ → ℕ → Itable → Found → Type 0
Searched dev inum t (cached i) = (i < ninode) × Stands dev inum (t.inode i)
Searched dev inum t (recycled i) =
    (i < ninode) × ((t.inode i).ref ≡ 0) × ((j : ℕ) → j < ninode → Other dev inum (t.inode j))
Searched dev inum t full = (j : ℕ) → j < ninode → Other dev inum (t.inode j) × ((t.inode j).ref ≢ 0)

-- What `empty` shows of the entries before `i`.
abbrev Remembered : Itable → ℕ → Option ℕ → Type 0
Remembered t i none = (j : ℕ) → j < i → (t.inode j).ref ≢ 0
Remembered t i (some e) = (e < i) × ((t.inode e).ref ≡ 0)

remember-Remembered :
    (t : Itable) (i : ℕ) (empty : Option ℕ)
    → Remembered t i empty
    → Remembered t (i + 1) (remember empty i t)
unfolding remember
remember-Remembered t i (some e) (h, z) = (omega (arith, h), z)
remember-Remembered t i none h = elim (Bool-cases ((t.inode i).ref == 0)) [
  | inl b ↦ rw (Remembered, b) (omega arith, ground (arith, b))
  | inr b ↦
      rw (Remembered, b)
        (λ j lt. elim (eq_cases j i) [
          | inl e ↦ subst (λ k. (t.inode k).ref ≢ 0) (sym e) (λ z. ground (arith, b, z))
          | inr ne ↦ h j (omega (arith, lt, ne))
        ])
]

module _ (dev inum : ℕ) (t : Itable) (small : (j : ℕ) → (t.inode j).ref < 2 ^ 31) where
  search_end :
      (empty : Option ℕ)
      → ((j : ℕ) → j < ninode → Other dev inum (t.inode j))
      → Remembered t ninode empty
      → Searched dev inum t (found_empty empty)
  search_end none others r = λ j h. (others j h, r j h)
  search_end (some e) others (h, z) = (h, z, others)

  search_inode-Searched :
      (left i : ℕ) (empty : Option ℕ)
      → left + i ≡ ninode
      → ((j : ℕ) → j < i → Other dev inum (t.inode j))
      → Remembered t i empty
      → Searched dev inum t (search_inode dev inum left i empty t)
  unfolding search_inode
  search_inode-Searched zero i empty e others r =
      let same : i ≡ ninode = omega (arith, e) in
      search_end empty (λ j h. others j (omega (arith, h, same)))
        (subst (λ k. Remembered t k empty) same r)
  search_inode-Searched (suc left) i empty e others r =
      elim (is_inode-cases dev inum (t.inode i) (small i)) [
        | inl (b, s) ↦ rw (Searched, b) (omega (arith, e), s)
        | inr (b, o) ↦
            rw (Searched, b)
              (search_inode-Searched left (i + 1) (remember empty i t) (omega (arith, e))
                (λ j h. elim (eq_cases j i) [
                  | inl same ↦ subst (λ k. Other dev inum (t.inode k)) (sym same) o
                  | inr ne ↦ others j (omega (arith, h, ne))
                ])
                (remember-Remembered t i empty r))
      ]

Other-Stands : (dev inum : ℕ) (x : Inode) → Other dev inum x → ¬ Stands dev inum x
Other-Stands dev inum x (inl z) s = omega (arith, z, s.0)
Other-Stands dev inum x (inr (inl d)) s = d s.1
Other-Stands dev inum x (inr (inr n)) s = n s.2

-- Two entries in use do not stand for the same inode.
abbrev pub IsUnique : Itable → Type 0
IsUnique t =
    (i j : ℕ)
    → i < ninode
    → j < ninode
    → 0 < (t.inode i).ref
    → Stands (t.inode i).dev (t.inode i).inum (t.inode j)
    → i ≡ j

-- More references to an entry in use.
counted-IsUnique :
    (t : Itable) (k n : ℕ)
    → 0 < (t.inode k).ref
    → IsUnique t
    → IsUnique (set_inode k (record (t.inode k) { ref = n }) t)
counted-IsUnique t k n pos u i j a b p s =
    let x = record (t.inode k) { ref = n } in
    elim (eq_cases i k) [
      | inl e ↦ elim (eq_cases j k) [
        | inl f ↦ e ∙ sym f
        | inr f ↦
            let there = update_ne t.inode k x j f in
            let here = ap (update t.inode k x) e ∙ update_self t.inode k x in
            e
            ∙ u k j (subst (λ c. c < ninode) e a) b pos (
                subst (Stands (t.inode k).dev (t.inode k).inum) there
                  (subst (λ (y : Inode). Stands y.dev y.inum (update t.inode k x j)) here s))
      ]
      | inr e ↦
          let here = update_ne t.inode k x i e in
          let p' = subst (λ (y : Inode). 0 < y.ref) here p in
          let s' = subst (λ (y : Inode). Stands y.dev y.inum (update t.inode k x j)) here s in
          elim (eq_cases j k) [
            | inl f ↦
                let there = ap (update t.inode k x) f ∙ update_self t.inode k x in
                let r = subst (Stands (t.inode i).dev (t.inode i).inum) there s' in
                u i k a (subst (λ c. c < ninode) f b) p' (pos, r.1, r.2) ∙ sym f
            | inr f ↦
                u i j a b p'
                  (subst (Stands (t.inode i).dev (t.inode i).inum) (update_ne t.inode k x j f) s')
          ]
    ]

-- An entry that is taken over for an inode that no entry stands for.
recycled-IsUnique :
    (t : Itable) (k : ℕ) (x : Inode)
    → ((j : ℕ) → j < ninode → Other x.dev x.inum (t.inode j))
    → IsUnique t
    → IsUnique (set_inode k x t)
recycled-IsUnique t k x others u i j a b p s = elim (eq_cases i k) [
  | inl e ↦ elim (eq_cases j k) [
    | inl f ↦ e ∙ sym f
    | inr f ↦
        let here = ap (update t.inode k x) e ∙ update_self t.inode k x in
        elim (Other-Stands x.dev x.inum (t.inode j) (others j b) (
          subst (Stands x.dev x.inum) (update_ne t.inode k x j f)
            (subst (λ (y : Inode). Stands y.dev y.inum (update t.inode k x j)) here s))) [ ]
  ]
  | inr e ↦
      let here = update_ne t.inode k x i e in
      let p' = subst (λ (y : Inode). 0 < y.ref) here p in
      let s' = subst (λ (y : Inode). Stands y.dev y.inum (update t.inode k x j)) here s in
      elim (eq_cases j k) [
        | inl f ↦
            let there = ap (update t.inode k x) f ∙ update_self t.inode k x in
            let r = subst (Stands (t.inode i).dev (t.inode i).inum) there s' in
            elim (Other-Stands x.dev x.inum (t.inode i) (others i a) (p', sym r.1, sym r.2)) [ ]
        | inr f ↦
            u i j a b p'
              (subst (Stands (t.inode i).dev (t.inode i).inum) (update_ne t.inode k x j f) s')
      ]
]

-- The entry that stood for the inode, with one reference more; or an unused one that now stands for
-- an inode without an entry, with one reference and to be read from the disk.
abbrev pub Entered : ℕ → ℕ → Itable → ℕ → Inode → Type 0
Entered dev inum t i x =
    (Stands dev inum (t.inode i) × (x ≡ record (t.inode i) { ref = (t.inode i).ref + 1 }))
    ⊎ (((t.inode i).ref ≡ 0)
        × ((j : ℕ) → j < ninode → Other dev inum (t.inode j))
        × (x ≡ record (t.inode i) { dev = dev; inum = inum; ref = 1; valid = false }))

-- An entry for the inode, and nothing else changed.
pub record Got (dev inum : ℕ) (t : Itable) (i : ℕ) (w : Itable) : Type 0 where
  pub entry : i < ninode
  pub entered : Entered dev inum t i (w.inode i)
  pub stands : Stands dev inum (w.inode i)
  pub unique : IsUnique w
  pub same : (j : ℕ) → j ≢ i → w.inode j ≡ t.inode j

-- No entry for the inode, and none that is unused.
abbrev pub IsFull : ℕ → ℕ → Itable → Type 0
IsFull dev inum t = (j : ℕ) → j < ninode → Other dev inum (t.inode j) × ((t.inode j).ref ≢ 0)

take_entry-Got :
    (dev inum : ℕ) (t : Itable) (f : Found)
    → ((j : ℕ) → (t.inode j).ref < 2 ^ 31 - 1)
    → IsUnique t
    → Searched dev inum t f
    → (Ends (Got dev inum t) (take_entry dev inum f t) × ¬ IsFull dev inum t)
      ⊎ ((take_entry dev inum f t ≡ panic) × IsFull dev inum t)
unfolding take_entry
take_entry-Got dev inum t (cached i) small u (h, (pos, d, n)) =
    let x = record (t.inode i) { ref = u32 ((t.inode i).ref + 1) } in
    inl (
      record {
        entry = h;
        entered = inl (
          (pos, d, n),
          update_self t.inode i x
              ∙ ap (λ r. record (t.inode i) { ref = r }) (omega (arith, small i)),
        );
        stands =
            subst (Stands dev inum) (sym (update_self t.inode i x)) (omega (arith, small i), d, n);
        unique = counted-IsUnique t i (u32 ((t.inode i).ref + 1)) pos u;
        same = λ j ne. update_ne t.inode i x j ne;
      },
      λ full. Other-Stands dev inum (t.inode i) (full i h).0 (pos, d, n),
    )
take_entry-Got dev inum t (recycled i) small u (h, z, others) =
    let x = record (t.inode i) { dev = dev; inum = inum; ref = 1; valid = false } in
    inl (
      record {
        entry = h;
        entered = inr (z, others, update_self t.inode i x);
        stands = subst (Stands dev inum) (sym (update_self t.inode i x)) (omega arith, refl, refl);
        unique = recycled-IsUnique t i x others u;
        same = λ j ne. update_ne t.inode i x j ne;
      },
      λ full. (full i h).1 z,
    )
take_entry-Got dev inum t full small u s = inr (refl, s)

-- `iget` returns the entry of the inode with one reference more, or an unused one that it sets up
-- for an inode without an entry; it changes no other entry, and two entries
-- in use still do not stand for the same inode. It panics just when all entries are in use for
-- other inodes.
pub iget-Got :
    (dev inum : ℕ) (t : Itable)
    → ((j : ℕ) → (t.inode j).ref < 2 ^ 31 - 1)
    → IsUnique t
    → (Ends (Got dev inum t) (iget dev inum t) × ¬ IsFull dev inum t)
      ⊎ ((iget dev inum t ≡ panic) × IsFull dev inum t)
unfolding iget
iget-Got dev inum t small u =
    take_entry-Got dev inum t (search_inode dev inum ninode 0 none t) small u (
      search_inode-Searched dev inum t (λ j. omega (arith, small j)) ninode 0 none refl
        (λ j h. ground (arith, h)) (λ j h. ground (arith, h)))
