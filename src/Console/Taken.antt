-- ===== src/Console/Taken.antt =====
-- Taking a character off the input of riscv/kernel/console.c, as consoleread does.
use learn_xv.Prelude.{
  ℕ, suc, ◌+◌, ◌-◌, ◌≡◌, ◌≢◌, List, [], ◌∷◌, All, length, ring, ring_shift, arith, u32, ap, sym,
  subst, ◌∙◌, get_or, drop,
}
use learn_xv.Console.{Console, next_char}
use learn_xv.Console.Lines.{slot, ready, total, view, Valid}

next-view :
    (k : Console)
    → Valid k
    → k.r ≢ k.w
    → ((view k).committed ≡ k.buf (slot k.r) ∷ (view (next_char k)).committed)
      × ((view (next_char k)).editing ≡ (view k).editing)
unfolding view next_char ring
next-view k v ne =
    let a = ready (next_char k) in
    let r' = u32 (k.r + 1) in
    (
      ap (ring slot k.buf k.r) {y = suc a} (omega (arith, v.r, v.w, v.order, v.fits, ne))
          ∙ ap (λ xs. k.buf (slot k.r) ∷ xs)
              (ring_shift slot k.buf (k.r + 1) r' a (λ j. omega arith)),
      ring_shift slot k.buf (r' + a) (k.r + ready k) (total (next_char k) - a)
            (λ j. omega (arith, v.r, v.w, ne))
          ∙ ap (ring slot k.buf (k.r + ready k))
              (omega (arith, v.r, v.w, v.e, v.order, v.fits, ne)),
    )

next-Valid : (k : Console) → Valid k → k.r ≢ k.w → Valid (next_char k)
unfolding next_char
next-Valid k v ne = record {
  r = omega arith;
  w = v.w;
  e = v.e;
  order = omega (arith, v.r, v.w, v.e, v.order, v.fits, ne);
  fits = omega (arith, v.r, v.w, v.e, v.order, v.fits, ne);
  unfinished = subst (All (λ c. c ≢ 10)) (sym (next-view k v ne).1) v.unfinished;
}

no_input : (k : Console) → k.r ≡ k.w → Valid k → (view k).committed ≡ []
unfolding view ring
no_input k e v = ap (ring slot k.buf k.r) {y = 0} (omega (arith, e, v.r))

-- A committed character, and the console after it was taken.
pub record First (k : Console) (c : ℕ) (cs : List ℕ) : Type 0 where
  pub ne : k.r ≢ k.w
  pub char : k.buf (slot k.r) ≡ c
  pub rest : (view (next_char k)).committed ≡ cs
  pub line : (view (next_char k)).editing ≡ (view k).editing
  pub valid : Valid (next_char k)

pub first :
    (k : Console) (c : ℕ) (cs : List ℕ) → Valid k → (view k).committed ≡ c ∷ cs → First k c cs
first k c cs v e =
    let ne : k.r ≢ k.w = λ f. ground (arith, ap length (sym e ∙ no_input k f v)) in
    let split = sym (next-view k v ne).0 ∙ e in
    record {
      ne = ne;
      char = ap (λ l. get_or l 0 0) split;
      rest = ap (drop 1) split;
      line = (next-view k v ne).1;
      valid = next-Valid k v ne;
    }
