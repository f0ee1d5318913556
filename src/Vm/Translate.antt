-- ===== src/Vm/Translate.antt =====
-- The translation of addresses that the hardware makes with page tables, and the walks of
-- riscv/kernel/vm.c that change nothing.
use learn_xv.Prelude.{
  ℕ, zero, suc, ◌≡◌, ◌≢◌, ◌<◌, refl, ap, ◌∙◌, Bool, true, false, if◌then◌else◌, ◌==◌, leb, ==_ne,
  if_false, arith, ok, panic, Run, and_then,
}
use learn_xv.Kalloc.{Kmem}
use learn_xv.Vm.Entry.{maxva, is_valid, pte2pa, entry_at}
use learn_xv.Vm.Walk.{walk_from, walk, walkaddr, user_address}

-- The valid entries from the table `t` of level `l` down lead to the entry of level 0 at `a`.
pub data Leads (word : ℕ → ℕ) (va : ℕ) : (l t a : ℕ) → Type 0 where
  leaf : {t : ℕ} → Leads word va zero t (entry_at t zero va)
  down :
      {l t a : ℕ}
      → is_valid (word (entry_at t (suc l) va)) ≡ true
      → Leads word va l (pte2pa (word (entry_at t (suc l) va))) a
      → Leads word va (suc l) t a

pub walk_from-Leads :
    (va : ℕ) (alloc : Bool) (k : Kmem) {l t a : ℕ}
    → Leads k.word va l t a
    → walk_from l t va alloc k ≡ ok a k
unfolding walk_from
walk_from-Leads va alloc k leaf = refl
walk_from-Leads va alloc k (down {l} {t} {a} e d) = rw (walk_from, e) (walk_from-Leads va alloc k d)

pub walk-Leads :
    {t a : ℕ} (va : ℕ) (alloc : Bool) (k : Kmem)
    → va < maxva
    → Leads k.word va 2 t a
    → walk t va alloc k ≡ ok a k
unfolding walk
walk-Leads {t} {a} va alloc k lt d =
    let test : leb maxva va ≡ false = ground (arith, lt) in
    if_false panic (walk_from 2 t va alloc k) test ∙ walk_from-Leads va alloc k d

abbrev looked_up : Run Kmem ℕ → Run Kmem ℕ
looked_up r =
    and_then r (λ pte k1. if pte == 0 then ok 0 k1 else ok (user_address (k1.word pte)) k1)

-- `walkaddr` gives what the entry says that the translation comes to.
pub walkaddr-Leads :
    {t a : ℕ} (va : ℕ) (k : Kmem)
    → va < maxva
    → a ≢ 0
    → Leads k.word va 2 t a
    → walkaddr t va k ≡ ok (user_address (k.word a)) k
unfolding walkaddr
walkaddr-Leads {t} {a} va k lt nz d =
    let test : leb maxva va ≡ false = ground (arith, lt) in
    let some_entry : (a == 0) ≡ false = ==_ne a 0 nz in
    if_false (ok 0 k) (looked_up (walk t va false k)) test
    ∙ ap looked_up (walk-Leads va false k lt d)
    ∙ if_false (ok 0 k) (ok (user_address (k.word a)) k) some_entry
