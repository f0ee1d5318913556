-- ===== src/Console/Input.antt =====
-- `consoleintr` of riscv/kernel/console.c on the lines that the ring holds.
use learn_xv.Prelude.{
  ℕ, zero, suc, inl, inr, ◌+◌, ◌-◌, ◌%◌, ◌≡◌, ◌≢◌, ◌≤◌, List, [], ◌∷◌, ◌++◌, All, All-split, ring,
  ring_snoc, arith, sub32, true, false, if◌then◌else◌, ◌==◌, ltb, not, ◌&&◌, ◌||◌, Bool-cases,
  eq_cases, ap, refl, sym, subst, ◌∙◌,
}
use learn_xv.Console.{Console, input_buf_size, ctrl, consputc, erase, kill_line, consoleintr}
use learn_xv.Console.Store.{length-view, store_char-add_char}
use learn_xv.Console.Lines.{slot, ready, total, Lines, view, Valid, drop_last, edit}

drop_last-append : (xs : List ℕ) (x : ℕ) → drop_last (xs ++ x ∷ []) ≡ xs
drop_last-append [] x = refl
drop_last-append (y ∷ []) x = refl
drop_last-append (y ∷ z ∷ xs) x = ap (λ l. y ∷ l) (drop_last-append (z ∷ xs) x)

module _ (k : Console) (v : Valid k) (ne : k.e ≢ k.w) where
  -- The line is not empty, and its last character is the one before the edit index.
  last_char :
      (view k).editing
      ≡ ring slot k.buf (k.r + ready k) (total k - ready k - 1) ++ k.buf (slot (sub32 k.e 1)) ∷ []
  unfolding view
  last_char =
      let j = total k - ready k - 1 in
      ap (ring slot k.buf (k.r + ready k)) {y = suc j} (omega (arith, v.r, v.w, v.e, v.order, ne))
      ∙ ring_snoc slot k.buf (k.r + ready k) j
      ∙ ap (λ i. ring slot k.buf (k.r + ready k) j ++ k.buf i ∷ [])
          (omega (arith, v.r, v.w, v.e, v.order, ne))

  erase-view : view (erase k) ≡ record (view k) { editing = drop_last (view k).editing }
  unfolding view erase consputc
  erase-view =
      let rest = ring slot k.buf (k.r + ready k) in
      let shorter : total (erase k) - ready k ≡ total k - ready k - 1 =
        omega (arith, v.r, v.w, v.e, v.order, ne) in
      ap (λ l. record { committed = ring slot k.buf k.r (ready k); editing = l })
        (ap rest shorter
          ∙ sym (drop_last-append (rest (total k - ready k - 1)) (k.buf (slot (sub32 k.e 1))))
          ∙ ap drop_last (sym last_char))

  unfinished_parts :
      All (λ c. c ≢ 10) (ring slot k.buf (k.r + ready k) (total k - ready k - 1))
      × (k.buf (slot (sub32 k.e 1)) ≢ 10)
  unfinished_parts =
      let (front, back) =
        All-split (λ c. c ≢ 10) (ring slot k.buf (k.r + ready k) (total k - ready k - 1))
          (k.buf (slot (sub32 k.e 1)) ∷ []) (subst (All (λ c. c ≢ 10)) last_char v.unfinished) in
      (front, back.0)

  erase-Valid : Valid (erase k)
  unfolding view erase consputc
  erase-Valid = record {
    r = v.r;
    w = v.w;
    e = omega arith;
    order = omega (arith, v.r, v.w, v.e, v.order, ne);
    fits = omega (arith, v.r, v.w, v.e, v.order, v.fits, ne);
    unfinished =
        subst (λ j. All (λ c. c ≢ 10) (ring slot k.buf (k.r + ready k) j))
          {x = total k - ready k - 1} (omega (arith, v.r, v.w, v.e, v.order, ne))
          unfinished_parts.0;
  }

erase-distance :
    (k : Console) → Valid k → k.e ≢ k.w → total (erase k) - ready (erase k) + 1 ≡ total k - ready k
unfolding erase consputc
erase-distance k v ne = omega (arith, v.r, v.w, v.e, v.order, ne)

nothing_edited : (k : Console) → Valid k → k.e ≡ k.w → (view k).editing ≡ []
unfolding view ring
nothing_edited k v e =
    ap (ring slot k.buf (k.r + ready k)) {y = 0} (omega (arith, ap (λ z. sub32 z k.r) e))

-- `Done k l k'`: the state `k'` is well formed and shows the lines `l`.
abbrev Shows : Lines → Console → Type 0
Shows l k = Valid k × (view k ≡ l)

kill_line-Shows :
    (rounds : ℕ) (k : Console)
    → Valid k
    → total k - ready k ≤ rounds
    → Shows (record (view k) { editing = [] }) (kill_line rounds k)
unfolding kill_line
kill_line-Shows zero k v h =
    let e : k.e ≡ k.w = omega (arith, h, v.r, v.w, v.e, v.order) in
    (v, ap (λ l. record (view k) { editing = l }) (nothing_edited k v e))
kill_line-Shows (suc rounds) k v h = elim (eq_cases k.e k.w) [
  | inl e ↦
      let t : not (k.e == k.w) && not (k.buf (sub32 k.e 1 % input_buf_size) == 10) ≡ false =
        ground (arith, e) in
      rw (kill_line, t) (v, ap (λ l. record (view k) { editing = l }) (nothing_edited k v e))
  | inr ne ↦
      let other = (unfinished_parts k v ne).1 in
      let t : not (k.e == k.w) && not (k.buf (sub32 k.e 1 % input_buf_size) == 10) ≡ true =
        ground (arith, ne, other) in
      let (w, e) =
        kill_line-Shows rounds (erase k) (erase-Valid k v ne)
          (omega (arith, h, erase-distance k v ne)) in
      rw (kill_line, t) (w, e ∙ ap (λ (l : Lines). record l { editing = [] }) (erase-view k v ne))
]

erase_char :
    (k : Console)
    → Valid k
    → Shows
        (record (view k) { editing = drop_last (view k).editing })
        (if not (k.e == k.w) then erase k else k)
erase_char k v = elim (eq_cases k.e k.w) [
  | inl e ↦
      let t : (k.e == k.w) ≡ true = ground (arith, e) in
      let empty = nothing_edited k v e in
      rw t (
        v,
        ap (λ l. record { committed = (view k).committed; editing = l })
            (empty ∙ sym (ap drop_last empty)),
      )
  | inr ne ↦
      let t : (k.e == k.w) ≡ false = ground (arith, ne) in
      rw t (erase-Valid k v ne, erase-view k v ne)
]

-- Each character that the interrupt handler gets has its effect on the line that is edited, which
-- is committed by a newline, by `^D` or when the buffer is full; what is committed stays.
pub consoleintr-edit :
    (c : ℕ) (k : Console)
    → Valid k
    → Valid (consoleintr c k) × (view (consoleintr c k) ≡ edit c (view k))
unfolding consoleintr
consoleintr-edit c k v = elim (Bool-cases (c == ctrl 80)) [
  | inl t ↦ rw t (v, refl)
  | inr t ↦ rw t (elim (Bool-cases (c == ctrl 85)) [
    | inl u ↦ rw u (kill_line-Shows input_buf_size k v (omega (arith, v.fits)))
    | inr u ↦ rw u (elim (Bool-cases ((c == ctrl 72) || (c == 0x7f))) [
      | inl d ↦ rw d (erase_char k v)
      | inr d ↦ rw d (
          rw (length-view k v) (elim (Bool-cases (not (c == 0) && ltb (total k) input_buf_size)) [
            | inl s ↦ rw s (store_char-add_char (if c == 13 then 10 else c) k v (ground (arith, s)))
            | inr s ↦ rw s (v, refl)
          ]))
    ])
  ])
]
