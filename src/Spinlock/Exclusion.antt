-- ===== src/Spinlock/Exclusion.antt =====
-- `acquire` and `release` of riscv/kernel/spinlock.c on several processors: who has the lock, and
-- what `lk->cpu` is.
use learn_xv.Prelude.{
  ℕ, ◌≡◌, ◌≢◌, ◌⊎◌, true, false, ==_self, ==_ne, arith, some, none, panic, refl, ap, sym, subst,
  ◌∙◌, update_self, update_ne, eq_cases, inl, inr,
}
use learn_xv.Spinlock.{
  Spinlock, initlock, acquire_check, release_check, clear_cpu, test_and_set, record_cpu,
  release_enter, unlock, is_cpu,
}
use learn_xv.Spinlock.Steps.{
  Phase, outside, testing, spinning, swapped, critical, checking, clearing, leaving, left, System,
  move, Step, enter_free, enter_taken, test, spin, swap, own, leave, check, clear, give_up, exit,
  Reach, start, later, Holds, owner,
}

bools_differ : ¬ (true ≡ false)
bools_differ e = ground (arith, e)

data Inv (s : System) : Type 0 where
  free : s.lock.locked ≡ false → s.lock.cpu ≡ none → ((i : ℕ) → ¬ Holds (s.phase i)) → Inv s
  held :
      (h : ℕ)
      → s.lock.locked ≡ true
      → s.lock.cpu ≡ owner h (s.phase h)
      → Holds (s.phase h)
      → ((i : ℕ) → Holds (s.phase i) → i ≡ h)
      → Inv s

at : (s : System) (me : ℕ) (p : Phase) → (move me p s).phase me ≡ p
at s me p = update_self s.phase me p

elsewhere : (s : System) (me : ℕ) (p : Phase) (i : ℕ) → i ≢ me → (move me p s).phase i ≡ s.phase i
elsewhere s me p i h = update_ne s.phase me p i h

-- A processor that holds the lock after a move is the one that moved or held it before.
moved :
    (s : System) (me : ℕ) (p : Phase) (i : ℕ)
    → Holds ((move me p s).phase i)
    → ((i ≡ me) × Holds p) ⊎ ((i ≢ me) × Holds (s.phase i))
moved s me p i h = elim (eq_cases i me) [
  | inl e ↦ inl (e, subst Holds (ap (move me p s).phase e ∙ at s me p) h)
  | inr ne ↦ inr (ne, subst Holds (elsewhere s me p i ne) h)
]

-- A move between phases that do not hold the lock, which stays as it is.
idle :
    (s t : System) (me : ℕ) (p : Phase)
    → ¬ Holds (s.phase me)
    → ¬ Holds p
    → t.lock ≡ s.lock
    → t.phase ≡ (move me p s).phase
    → Inv s
    → Inv t
idle s t me p no_me no_p l e (free a b c) =
    free (ap (λ (k : Spinlock). k.locked) l ∙ a) (ap (λ (k : Spinlock). k.cpu) l ∙ b) (λ i h.
      elim (moved s me p i (subst (λ f. Holds (f i)) e h)) [
        | inl (f, x) ↦ no_p x
        | inr (f, x) ↦ c i x
      ])
idle s t me p no_me no_p l e (held h a b c d) =
    let ne : h ≢ me = λ f. no_me (subst (λ i. Holds (s.phase i)) f c) in
    let same : t.phase h ≡ s.phase h = ap (λ f. f h) e ∙ elsewhere s me p h ne in
    held h (ap (λ (k : Spinlock). k.locked) l ∙ a)
      (ap (λ (k : Spinlock). k.cpu) l ∙ b ∙ ap (owner h) (sym same)) (subst Holds (sym same) c)
      (λ i g. elim (moved s me p i (subst (λ f. Holds (f i)) e g)) [
        | inl (f, x) ↦ elim (no_p x) [ ]
        | inr (f, x) ↦ d i x
      ])

-- The holder moves between phases that hold the lock.
goes_on :
    (s : System) (me : ℕ) (p : Phase) (lk : Spinlock)
    → Holds (s.phase me)
    → Holds p
    → lk.locked ≡ s.lock.locked
    → lk.cpu ≡ owner me p
    → Inv s
    → Inv (record (move me p s) { lock = lk })
goes_on s me p lk now then_ l o (free a b c) = elim (c me now) [ ]
goes_on s me p lk now then_ l o (held h a b c d) =
    held me (l ∙ a) (o ∙ ap (owner me) (sym (at s me p))) (subst Holds (sym (at s me p)) then_)
      (λ i g. elim (moved s me p i g) [ inl (f, x) ↦ f | inr (f, x) ↦ d i x ∙ sym (d me now) ])

took :
    (lk lk' : Spinlock)
    → test_and_set lk ≡ some lk'
    → (lk.locked ≡ false) × (lk'.locked ≡ true) × (lk'.cpu ≡ lk.cpu)
unfolding test_and_set
took lk lk' e = (ground (arith, e), ground (arith, e), ground (arith, e))

-- The lock was free, and the processor that swaps takes it.
takes :
    (s : System) (me : ℕ) (lk : Spinlock)
    → test_and_set s.lock ≡ some lk
    → Inv s
    → Inv (record (move me swapped s) { lock = lk })
takes s me lk e (free a b c) =
    let (f, g, h) = took s.lock lk e in
    held me g (h ∙ b ∙ ap (owner me) (sym (at s me swapped)))
      (subst Holds (sym (at s me swapped)) tt)
      (λ i x. elim (moved s me swapped i x) [ inl (z, y) ↦ z | inr (z, y) ↦ elim (c i y) [ ] ])
takes s me lk e (held h a b c d) = elim (bools_differ (sym a ∙ (took s.lock lk e).0)) [ ]

gives_up :
    (s : System) (me : ℕ)
    → s.phase me ≡ leaving
    → Inv s
    → Inv (record (move me left s) { lock = unlock s.lock })
unfolding unlock
gives_up s me p (free a b c) = elim (c me (subst Holds (sym p) tt)) [ ]
gives_up s me p (held h a b c d) =
    let e : me ≡ h = d me (subst Holds (sym p) tt) in
    free refl (b ∙ ap (λ i. owner h (s.phase i)) (sym e) ∙ ap (owner h) p)
      (λ i x. elim (moved s me left i x) [ inl (z, y) ↦ y | inr (z, y) ↦ z (d i y ∙ sym e) ])

-- What the holder finds in the lock.
owned :
    (s : System) (me : ℕ) (p : Phase) → Inv s → s.phase me ≡ p → Holds p → s.lock.cpu ≡ owner me p
owned s me p (free a b c) e h = elim (c me (subst Holds (sym e) h)) [ ]
owned s me p (held k a b c d) e h =
    let same : me ≡ k = d me (subst Holds (sym e) h) in
    b ∙ ap (λ i. owner i (s.phase i)) (sym same) ∙ ap (owner me) e

taken : (s : System) (me : ℕ) → Inv s → Holds (s.phase me) → s.lock.locked ≡ true
taken s me (free a b c) h = elim (c me h) [ ]
taken s me (held k a b c d) h = a

Step-Inv : (me : ℕ) (s t : System) → Inv s → Step me s t → Inv t
unfolding record_cpu unlock clear_cpu
Step-Inv me s t v (enter_free {c} p e) = idle s t me spinning (subst Holds p) (λ x. x) refl refl v
Step-Inv me s t v (enter_taken {c} p e) = idle s t me testing (subst Holds p) (λ x. x) refl refl v
Step-Inv me s t v (test p e) = idle s t me spinning (subst Holds p) (λ x. x) refl refl v
Step-Inv me s t v (spin p e) = v
Step-Inv me s t v (swap {lk} p e) = takes s me lk e v
Step-Inv me s t v (own p) =
    goes_on s me critical (record_cpu me s.lock) (subst Holds (sym p) tt) tt refl refl v
Step-Inv me s t v (leave p e) =
    goes_on s me checking s.lock (subst Holds (sym p) tt) tt refl (owned s me critical v p tt) v
Step-Inv me s t v (check p e) =
    goes_on s me clearing s.lock (subst Holds (sym p) tt) tt refl (owned s me checking v p tt) v
Step-Inv me s t v (clear p) =
    goes_on s me leaving (clear_cpu s.lock) (subst Holds (sym p) tt) tt refl refl v
Step-Inv me s t v (give_up p) = gives_up s me p v
Step-Inv me s t v (exit {c} p e) = idle s t me outside (subst Holds p) (λ x. x) refl refl v

Reach-Inv : {s : System} → Reach s → Inv s
unfolding initlock
Reach-Inv (start {s} l p) =
    free (ap (λ (k : Spinlock). k.locked) l) (ap (λ (k : Spinlock). k.cpu) l)
      (λ i. subst Holds (p i))
Reach-Inv (later {me} {s} {t} r step) = Step-Inv me s t (Reach-Inv r) step

foreign : (h me : ℕ) (q : Phase) → h ≢ me → is_cpu me (owner h q) ≡ false
foreign h me outside ne = refl
foreign h me spinning ne = refl
foreign h me testing ne = refl
foreign h me swapped ne = refl
foreign h me critical ne = ==_ne h me ne
foreign h me checking ne = ==_ne h me ne
foreign h me clearing ne = ==_ne h me ne
foreign h me leaving ne = refl
foreign h me left ne = refl

-- The lock does not name a processor that does not hold it.
not_mine : (s : System) (me : ℕ) → Inv s → ¬ Holds (s.phase me) → is_cpu me s.lock.cpu ≡ false
not_mine s me (free a b c) p = ap (is_cpu me) b
not_mine s me (held h a b c d) p =
    let ne : h ≢ me = λ e. p (subst (λ i. Holds (s.phase i)) e c) in
    ap (is_cpu me) b ∙ foreign h me (s.phase h) ne

alone : (s : System) (i j : ℕ) → Inv s → Holds (s.phase i) → Holds (s.phase j) → i ≡ j
alone s i j (free a b c) h g = elim (c i h) [ ]
alone s i j (held k a b c d) h g = d i h ∙ sym (d j g)

-- In every interleaving of the accesses of any number of processors, one at most is between the
-- swap of its `acquire` and the unlocking of its `release`.
pub exclusive : {s : System} (i j : ℕ) → Reach s → Holds (s.phase i) → Holds (s.phase j) → i ≡ j
exclusive {s} i j r h g = alone s i j (Reach-Inv r) h g

-- In every interleaving the second access of `holding` in an `acquire` finds another processor, and
-- the two accesses in a `release` by the processor in its critical section find that one: neither
-- call panics there, whatever the others do.
pub never_panics :
    {s : System} (i : ℕ)
    → Reach s
    → (s.phase i ≡ testing → acquire_check i s.lock ≢ panic)
      × (s.phase i ≡ critical → release_enter s.lock ≢ panic)
      × (s.phase i ≡ checking → release_check i s.lock ≢ panic)
unfolding acquire_check release_enter release_check
never_panics {s} i r =
    let v = Reach-Inv r in
    (
      (λ p e. ground (arith, not_mine s i v (subst Holds p), e)),
      (λ p e. ground (arith, taken s i v (subst Holds (sym p) tt), e)),
      (λ p e. ground (arith, ap (is_cpu i) (owned s i checking v p tt) ∙ ==_self i, e)),
    )
