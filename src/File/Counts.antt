-- ===== src/File/Counts.antt =====
-- The reference counts that filealloc, filedup and fileclose of riscv/kernel/file.c leave.
use learn_xv.Prelude.{
  ◌≤◌, ◌≢◌, ℕ, zero, suc, inl, inr, ◌+◌, ◌-◌, ◌^◌, ◌≡◌, ◌<◌, ◌⊎◌, refl, ap, sym, subst, ◌∙◌, false,
  if◌then◌else◌, ◌==◌, ==_ne, ==_iff, Option, none, some, arith, update, sub32, int_ltb, Ends,
  eq_cases, Bool-cases, Option-cases, none-ne-some, some-injective,
}
use learn_xv.File.{nfile, File, Ftable, set_ref, find_unused, filealloc, filedup, fileclose}

-- The entry that `filealloc` takes is unused.
find_unused-free :
    (left f g : ℕ) (t : Ftable)
    → find_unused left f t ≡ some g
    → ((t.file g).ref ≡ 0) × (g < f + left)
unfolding find_unused
find_unused-free zero f g t e = elim (none-ne-some _ e) [ ]
find_unused-free (suc left) f g t e = elim (Bool-cases ((t.file f).ref == 0)) [
  | inl b ↦
      let h : f ≡ g =
        some-injective _ _
          (subst (λ c. (if c then some f else find_unused left (f + 1) t) ≡ some g) b e) in
      (subst (λ i. (t.file i).ref ≡ 0) h (ground (arith, b)), omega (arith, h))
  | inr b ↦
      let (z, h) =
        find_unused-free left (f + 1) g t
          (subst (λ c. (if c then some f else find_unused left (f + 1) t) ≡ some g) b e) in
      (z, omega (arith, h))
]

find_unused-none :
    (left f g : ℕ) (t : Ftable)
    → find_unused left f t ≡ none
    → f ≤ g
    → g < f + left
    → (t.file g).ref ≢ 0
unfolding find_unused
find_unused-none zero f g t e le lt = λ z. omega (arith, le, lt)
find_unused-none (suc left) f g t e le lt = elim (Bool-cases ((t.file f).ref == 0)) [
  | inl b ↦
      elim (none-ne-some f
        (sym (subst (λ c. (if c then some f else find_unused left (f + 1) t) ≡ none) b e))) [ ]
  | inr b ↦ elim (eq_cases g f) [
    | inl same ↦ λ z. ground (arith, b, ap (λ x. (t.file x).ref) (sym same) ∙ z)
    | inr ne ↦
        find_unused-none left (f + 1) g t
          (subst (λ c. (if c then some f else find_unused left (f + 1) t) ≡ none) b e)
          (omega (arith, le, ne)) (omega (arith, lt))
  ]
]

-- The count of an entry in a table where entry `f` was stored.
stored_ref :
    (t : Ftable) (f : ℕ) (x : File) (g : ℕ)
    → (update t.file f x g).ref ≡ (if g == f then x.ref else (t.file g).ref)
stored_ref t f x g = elim (eq_cases g f) [
  | inl e ↦ rw ((==_iff g f).1 e) refl
  | inr ne ↦ rw (==_ne g f ne) refl
]

-- A value at the entry `f` that is given by the old one.
at_entry :
    (h f : ℕ) (old : ℕ → ℕ) (v : ℕ) (change : ℕ → ℕ)
    → v ≡ change (old f)
    → (if h == f then v else old h) ≡ (if h == f then change (old h) else old h)
at_entry h f old v change e = elim (eq_cases h f) [
  | inl same ↦ rw ((==_iff h f).1 same) (e ∙ ap (λ i. change (old i)) (sym same))
  | inr ne ↦ rw (==_ne h f ne) refl
]

pub alloc_cases :
    (t : Ftable)
    → ((filealloc t ≡ (none, t)) × ((g : ℕ) → g < nfile → (t.file g).ref ≢ 0))
      ⊎ ((g : ℕ) × ((t.file g).ref ≡ 0) × (filealloc t ≡ (some g, set_ref g 1 t)))
unfolding filealloc
alloc_cases t = elim (Option-cases (find_unused nfile 0 t)) [
  | inl n ↦ inl (rw (filealloc, n) refl, λ g lt. find_unused-none nfile 0 g t n (omega arith) lt)
  | inr (g, h) ↦ inr (g, (find_unused-free nfile 0 g t h).0, rw (filealloc, h) refl)
]

pub alloc_lem :
    (f : ℕ) (t u : Ftable)
    → filealloc t ≡ (some f, u)
    → ((t.file f).ref ≡ 0) × ((h : ℕ) → (u.file h).ref ≡ (if h == f then 1 else (t.file h).ref))
alloc_lem f t u e = elim (alloc_cases t) [
  | inl n ↦ elim (none-ne-some f (ap (λ (p : Option ℕ × Ftable). p.0) (sym n.0 ∙ e))) [ ]
  | inr (g, z, h) ↦
      let same : g ≡ f = some-injective _ _ (ap (λ (p : Option ℕ × Ftable). p.0) (sym h ∙ e)) in
      let new : set_ref g 1 t ≡ u = ap (λ (p : Option ℕ × Ftable). p.1) (sym h ∙ e) in
      (
        subst (λ i. (t.file i).ref ≡ 0) same z,
        λ i.
            ap (λ (w : Ftable). (w.file i).ref) (sym new)
            ∙ stored_ref t g (record (t.file g) { ref = 1 }) i
            ∙ ap (λ j. if i == j then 1 else (t.file i).ref) same,
      )
]

-- `filedup` of an entry in use adds a reference to it, and `fileclose` takes one off.
pub dup_lem :
    (f : ℕ) (t : Ftable)
    → 0 < (t.file f).ref
    → (t.file f).ref < 2 ^ 31 - 1
    → Ends
        (λ g u.
          (g ≡ f)
          × ((h : ℕ) → (u.file h).ref ≡ (if h == f then (t.file h).ref + 1 else (t.file h).ref)))
        (filedup f t)
unfolding filedup
dup_lem f t pos small =
    let test : int_ltb (t.file f).ref 1 ≡ false = ground (arith, pos, small) in
    rw (Ends, test)
      (
        refl,
        λ h.
            stored_ref t f _ h
            ∙ at_entry h f (λ i. (t.file i).ref) _ (λ n. n + 1) (omega (arith, small)),
      )

pub close_lem :
    (f : ℕ) (t : Ftable)
    → 0 < (t.file f).ref
    → (t.file f).ref < 2 ^ 31
    → Ends
        (λ c u. (h : ℕ) → (u.file h).ref ≡ (if h == f then (t.file h).ref - 1 else (t.file h).ref))
        (fileclose f t)
unfolding fileclose
close_lem f t pos small =
    let test : int_ltb (t.file f).ref 1 ≡ false = ground (arith, pos, small) in
    rw (Ends, test)
      (elim (Bool-cases (int_ltb 0 (sub32 (t.file f).ref 1))) [
        | inl b ↦
            rw (Ends, b)
              (λ h.
                stored_ref t f _ h
                ∙ at_entry h f (λ i. (t.file i).ref) _ (λ n. n - 1) (omega (arith, small, pos)))
        | inr b ↦
            rw (Ends, b)
              (λ h.
                stored_ref t f _ h
                ∙ at_entry h f (λ i. (t.file i).ref) _ (λ n. n - 1) (ground (arith, b, small, pos)))
      ])
