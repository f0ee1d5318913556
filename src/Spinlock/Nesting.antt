-- ===== src/Spinlock/Nesting.antt =====
-- `push_off` and `pop_off` of riscv/kernel/spinlock.c nest.
use learn_xv.Prelude.{
  ℕ, suc, ◌+◌, ◌^◌, ◌≡◌, ◌<◌, Bool, true, false, if◌then◌else◌, ◌==◌, ◌&&◌, arith, sub32, int_ltb,
  ok, Ends, Ends-map, Ends-and_then, ◌⊎◌, Cmd, and_then, refl, ap, sym, ◌∙◌, eq_cases, ==_ne, ◌≢◌,
  inl, inr,
}
use learn_xv.Spinlock.{Cpu, push_off, pop_off}

-- `push_off` and `pop_off` calls by one processor, each `pop_off` after its own `push_off`.
pub data Nested : Type 0 where
  done : Nested
  pair : Nested → Nested → Nested

-- Runs the calls: `pair a b` is a `push_off`, the calls of `a`, a `pop_off`, and the calls of `b`.
abbrev pub calls : Nested → Cmd Cpu (Unit {0})
calls done c = ok tt c
calls (pair a b) c =
    and_then (calls a (push_off c)) (λ u d. and_then (pop_off d) (λ v e. calls b e))

abbrev pub count : Nested → ℕ
count done = 0
count (pair a b) = suc (count a) + count b

-- A processor whose interrupts are off while it holds a lock.
abbrev pub IsQuiet : Cpu → Type 0
IsQuiet c = (c.noff ≡ 0) ⊎ (c.intr ≡ false)

-- Interrupts and depth are as before.
pub record Restored (c d : Cpu) : Type 0 where
  pub noff : d.noff ≡ c.noff
  pub intr : d.intr ≡ c.intr
  pub intena : (c.noff ≡ 0) ⊎ (d.intena ≡ c.intena)

Restored-trans : (c d e : Cpu) → Restored c d → Restored d e → Restored c e
Restored-trans c d e r s = record {
  noff = s.noff ∙ r.noff;
  intr = s.intr ∙ r.intr;
  intena = elim r.intena [
    | inl z ↦ inl z
    | inr i ↦ elim s.intena [ inl z ↦ inl (sym r.noff ∙ z) | inr j ↦ inr (j ∙ i) ]
  ];
}

push_off-intr : (c : Cpu) → (push_off c).intr ≡ false
unfolding push_off
push_off-intr c = refl

push_off-room : (c : Cpu) (n : ℕ) → c.noff + 1 + n < 2 ^ 31 → (push_off c).noff + n < 2 ^ 31
unfolding push_off
push_off-room c n h = omega (arith, h)

Restored-IsQuiet : (c e : Cpu) → IsQuiet c → Restored c e → IsQuiet e
Restored-IsQuiet c e (inl z) r = inl (r.noff ∙ z)
Restored-IsQuiet c e (inr f) r = inr (r.intr ∙ f)

absurd_noff : (c : Cpu) → c.noff + 1 < 2 ^ 31 → (push_off c).noff ≢ 0
unfolding push_off
absurd_noff c small z = omega (arith, small, z)

outermost :
    (n : ℕ) (intr intena saved : Bool)
    → n ≡ 0
    → saved ≡ (if n == 0 then intr else intena)
    → (if (n == 0) && saved then true else false) ≡ intr
outermost n true intena saved z e = ground (arith, z, e)
outermost n false intena saved z e = ground (arith, z, e)

inner :
    (n : ℕ) (intr saved : Bool)
    → n ≢ 0
    → (n ≡ 0) ⊎ (intr ≡ false)
    → (if (n == 0) && saved then true else false) ≡ intr
inner n intr saved h (inl z) = elim (h z) [ ]
inner n intr saved h (inr f) = ground (arith, h, f)

-- The interrupt enable that the outermost `pop_off` sets is the one that its `push_off` saved.
restores :
    (n : ℕ) (intr intena saved : Bool)
    → (n ≡ 0) ⊎ (intr ≡ false)
    → saved ≡ (if n == 0 then intr else intena)
    → (if (n == 0) && saved then true else false) ≡ intr
restores n intr intena saved quiet e = elim (eq_cases n 0) [
  | inl z ↦ outermost n intr intena saved z e
  | inr h ↦ inner n intr saved h quiet
]

-- A `pop_off` after its `push_off`, with calls in between.
pop_back :
    (c d : Cpu)
    → IsQuiet c
    → c.noff + 1 < 2 ^ 31
    → Restored (push_off c) d
    → Ends (λ u e. Restored c e) (pop_off d)
unfolding push_off pop_off
pop_back c d quiet small r =
    let off : d.intr ≡ false = r.intr in
    let depth : d.noff ≡ c.noff + 1 = r.noff ∙ omega (arith, small) in
    let deep : int_ltb d.noff 1 ≡ false = ground (arith, depth, small) in
    let back : sub32 d.noff 1 ≡ c.noff = omega (arith, depth, small) in
    let saved : d.intena ≡ (if c.noff == 0 then c.intr else c.intena) = elim r.intena [
      | inl z ↦ elim (absurd_noff c small z) [ ]
      | inr i ↦ i
    ] in
    rw (Ends, deep)
      (rw (Ends, off)
        (record {
          noff = back;
          intr =
              ap (λ z. if (z == 0) && d.intena then true else false) back
              ∙ restores c.noff c.intr c.intena d.intena quiet saved;
          intena = elim (eq_cases c.noff 0) [
            | inl z ↦ inl z
            | inr h ↦ inr (saved ∙ ap (λ b. if b then c.intr else c.intena) (==_ne c.noff 0 h))
          ];
        }))

-- Nested calls of `push_off` and `pop_off` do not panic and leave the interrupt enable and the
-- depth as they were.
pub calls-Restored :
    (a : Nested) (c : Cpu)
    → IsQuiet c
    → c.noff + count a < 2 ^ 31
    → Ends (λ u d. Restored c d) (calls a c)
calls-Restored done c quiet small = record { noff = refl; intr = refl; intena = inr refl }
calls-Restored (pair a b) c quiet small =
    Ends-and_then _ _ (calls a (push_off c)) _
      (λ u d r.
        Ends-and_then _ _ (pop_off d) _
          (λ v e s.
            Ends-map (λ w f t. Restored-trans c e f s t) (calls b e)
              (calls-Restored b e (Restored-IsQuiet c e quiet s) (omega (arith, small, s.noff))))
          (pop_back c d quiet (omega (arith, small)) r))
      (calls-Restored a (push_off c) (inr (push_off-intr c))
        (push_off-room c (count a) (omega (arith, small))))
