-- ===== src/File/Holders.antt =====
-- The descriptors that refer to entries of the table of riscv/kernel/file.c.
use learn_xv.Prelude.{
  ℕ, zero, suc, inl, inr, ◌+◌, ◌-◌, ◌*◌, ◌≡◌, ◌≤◌, ◌<◌, ◌⊎◌, refl, ap, sym, subst, ◌∙◌, true, false,
  if◌then◌else◌, ◌==◌, List, [], ◌∷◌, length, get_elem?, count, some, arith, sub32, int_ltb, ok,
  Ends, eq_cases, Bool-cases, none-ne-some, some-injective,
}
use learn_xv.File.{Ftable, filealloc, filedup, Closing, nothing, closing, fileclose}
use learn_xv.File.Counts.{alloc_lem, dup_lem, close_lem}

-- The table, and the entry that each open descriptor refers to.
pub record System : Type 0 where
  pub table : Ftable
  pub held : List ℕ

abbrev pub remove : List ℕ → ℕ → List ℕ
remove [] i = []
remove (x ∷ xs) zero = xs
remove (x ∷ xs) (suc i) = x ∷ remove xs i

-- 64 processes with 16 descriptors each.
abbrev pub descriptors : ℕ
descriptors = 64 * 16

pub data Step (s : System) : System → Type 0 where
  opens :
      {f : ℕ} {t : Ftable}
      → length s.held < descriptors
      → filealloc s.table ≡ (some f, t)
      → Step s (record { table = t; held = f ∷ s.held })
  dups :
      (i : ℕ) {f g : ℕ} {t : Ftable}
      → length s.held < descriptors
      → get_elem? s.held i ≡ some f
      → filedup f s.table ≡ ok g t
      → Step s (record { table = t; held = g ∷ s.held })
  closes :
      (i : ℕ) {f : ℕ} {c : Closing} {t : Ftable}
      → get_elem? s.held i ≡ some f
      → fileclose f s.table ≡ ok c t
      → Step s (record { table = t; held = remove s.held i })

pub data Reach : System → Type 0 where
  start : {s : System} → ((f : ℕ) → (s.table.file f).ref ≡ 0) → s.held ≡ [] → Reach s
  later : {s t : System} → Reach s → Step s t → Reach t

-- The reference counts are right.
pub record Counted (s : System) : Type 0 where
  pub refs : (f : ℕ) → (s.table.file f).ref ≡ count f s.held
  pub few : length s.held ≤ descriptors

count-le : (f : ℕ) (xs : List ℕ) → count f xs ≤ length xs
count-le f [] = omega arith
count-le f (x ∷ xs) = ground (arith, count-le f xs)

count-get : (xs : List ℕ) (i f : ℕ) → get_elem? xs i ≡ some f → 0 < count f xs
count-get [] i f e = elim (none-ne-some _ e) [ ]
count-get (x ∷ xs) zero f e =
    let t : (x == f) ≡ true = ground (arith, some-injective _ _ e) in rw t (omega arith)
count-get (x ∷ xs) (suc i) f e = omega (arith, count-get xs i f e)

count-remove :
    (xs : List ℕ) (i f g : ℕ)
    → get_elem? xs i ≡ some f
    → count g (remove xs i) + (if f == g then 1 else 0) ≡ count g xs
count-remove [] i f g e = elim (none-ne-some _ e) [ ]
count-remove (x ∷ xs) zero f g e =
    ap (λ z. count g xs + (if z == g then 1 else 0)) (sym (some-injective _ _ e)) ∙ omega arith
count-remove (x ∷ xs) (suc i) f g e = omega (arith, count-remove xs i f g e)

length-remove :
    (xs : List ℕ) (i f : ℕ) → get_elem? xs i ≡ some f → length (remove xs i) + 1 ≡ length xs
length-remove [] i f e = elim (none-ne-some _ e) [ ]
length-remove (x ∷ xs) zero f e = omega arith
length-remove (x ∷ xs) (suc i) f e = omega (arith, length-remove xs i f e)

opens-Counted :
    (s : System) (f : ℕ) (t : Ftable)
    → Counted s
    → length s.held < descriptors
    → filealloc s.table ≡ (some f, t)
    → Counted (record { table = t; held = f ∷ s.held })
opens-Counted s f t v room e =
    let (z, r) = alloc_lem f s.table t e in
    record {
      refs = λ h. elim (eq_cases h f) [
        | inl same ↦ r h ∙ ground (arith, same, ap (λ i. count i s.held) same, v.refs f, z)
        | inr ne ↦ r h ∙ ground (arith, ne, v.refs h)
      ];
      few = room;
    }

dups-Counted :
    (s : System) (f g : ℕ) (t : Ftable)
    → Counted s
    → length s.held < descriptors
    → (g ≡ f)
      × ((h : ℕ)
          → (t.file h).ref ≡ (if h == f then (s.table.file h).ref + 1 else (s.table.file h).ref))
    → Counted (record { table = t; held = g ∷ s.held })
dups-Counted s f g t v room (same, r) = record {
  refs = λ h. r h ∙ ground (arith, same, v.refs h);
  few = room;
}

closes-Counted :
    (s : System) (i f : ℕ) (t : Ftable)
    → Counted s
    → get_elem? s.held i ≡ some f
    → ((h : ℕ)
        → (t.file h).ref ≡ (if h == f then (s.table.file h).ref - 1 else (s.table.file h).ref))
    → Counted (record { table = t; held = remove s.held i })
closes-Counted s i f t v e r = record {
  refs = λ h. r h ∙ ground (arith, v.refs h, count-remove s.held i f h e);
  few = omega (arith, v.few, length-remove s.held i f e);
}

used :
    (s : System) (i f : ℕ)
    → Counted s
    → get_elem? s.held i ≡ some f
    → (0 < (s.table.file f).ref) × ((s.table.file f).ref ≤ descriptors)
used s i f v e = (
  omega (arith, v.refs f, count-get s.held i f e),
  omega (arith, v.refs f, v.few, count-le f s.held),
)

Step-Counted : (s w : System) → Counted s → Step s w → Counted w
Step-Counted s w v (opens {f} {t} room e) = opens-Counted s f t v room e
Step-Counted s w v (dups i {f} {g} {t} room e d) =
    let (pos, small) = used s i f v e in
    dups-Counted s f g t v room (subst (Ends _) d (dup_lem f s.table pos (omega (arith, small))))
Step-Counted s w v (closes i {f} {c} {t} e d) =
    let (pos, small) = used s i f v e in
    closes-Counted s i f t v e (subst (Ends _) d (close_lem f s.table pos (omega (arith, small))))

Reach-Counted : {s : System} → Reach s → Counted s
Reach-Counted (start {s} zero_refs none_held) = record {
  refs = λ f. zero_refs f ∙ ap (count f) (sym none_held);
  few = omega (arith, ap length none_held);
}
Reach-Counted (later {s} {t} r step) = Step-Counted s t (Reach-Counted r) step

-- `fileclose` by the holder of a descriptor hands on what the file stands for just when no other
-- descriptor refers to the entry, and nothing otherwise.
pub last_close :
    {s : System} (i f : ℕ)
    → Reach s
    → get_elem? s.held i ≡ some f
    → Ends
        (λ c u.
          ((count f s.held ≡ 1) × (c ≡ closing (s.table.file f)))
          ⊎ ((1 < count f s.held) × (c ≡ nothing)))
        (fileclose f s.table)
unfolding fileclose
last_close {s} i f r e =
    let v = Reach-Counted r in
    let (pos, small) = used s i f v e in
    let ref = (s.table.file f).ref in
    let test : int_ltb ref 1 ≡ false = ground (arith, pos, small) in
    rw (Ends, test)
      (elim (Bool-cases (int_ltb 0 (sub32 ref 1))) [
        | inl b ↦ rw (Ends, b) (inr (ground (arith, b, pos, small, v.refs f), refl))
        | inr b ↦ rw (Ends, b) (inl (ground (arith, b, pos, small, v.refs f), refl))
      ])
