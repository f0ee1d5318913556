-- ===== src/Console/Store.antt =====
-- The storing of a character by `consoleintr` of riscv/kernel/console.c.
use learn_xv.Prelude.{
  ℕ, suc, inl, inr, ◌+◌, ◌-◌, ◌≡◌, ◌≢◌, ◌≤◌, ◌<◌, [], ◌∷◌, ◌++◌, All, All-join, length,
  length-append, ring, length-ring, ring_append, ring_snoc, ring-update, arith, u32, sub32, Bool,
  false, if◌then◌else◌, ◌==◌, ◌||◌, Bool-cases, ap, ap₂, sym, subst, ◌∙◌, update, update_self,
}
use learn_xv.Console.{Console, input_buf_size, ctrl, consputc, store_char}
use learn_xv.Console.Lines.{slot, slot-apart, ready, total, Lines, view, Valid}

-- A character at the end of the line.
abbrev pub add_char : ℕ → Lines → Lines
add_char x l =
    let line = l.editing ++ x ∷ [] in
    if (x == 10) || (x == ctrl 68) || (length l.committed + length line == input_buf_size)
    then record { committed = l.committed ++ line; editing = [] }
    else record l { editing = line }

pub length-view :
    (k : Console) → Valid k → length (view k).committed + length (view k).editing ≡ total k
unfolding view
length-view k v = omega (
  arith,
  length-ring slot k.buf k.r (ready k),
  length-ring slot k.buf (k.r + ready k) (total k - ready k),
  v.order,
)

module _ (c : ℕ) (k : Console) (v : Valid k) (room : total k < input_buf_size) where
  stored : ℕ → ℕ
  stored = update k.buf (slot k.e) c

  here : slot (k.r + total k) ≡ slot k.e
  here = omega (arith, v.r, v.e, room)

  grown : sub32 (u32 (k.e + 1)) k.r ≡ suc (total k)
  grown = omega (arith, v.r, v.e, room)

  unchanged :
      (s j : ℕ) → k.r ≤ s → s + j ≤ k.r + total k → ring slot stored s j ≡ ring slot k.buf s j
  unfolding stored
  unchanged s j h g =
      ap (λ i. ring slot (update k.buf i c) s j) (sym here)
      ∙ ring-update slot input_buf_size slot-apart k.buf (k.r + total k) c s j g
          (omega (arith, h, room))

  line : ring slot stored (k.r + ready k) (suc (total k) - ready k) ≡ (view k).editing ++ c ∷ []
  unfolding stored view
  line =
      let s = k.r + ready k in
      let j = total k - ready k in
      let at : slot (s + j) ≡ slot k.e = omega (arith, v.r, v.e, room, v.order) in
      ap (ring slot stored s) {y = suc j} (omega (arith, v.order))
      ∙ ring_snoc slot stored s j
      ∙ ap₂ (λ xs x. xs ++ x ∷ []) (unchanged s j (omega arith) (omega (arith, v.order)))
          (ap stored at ∙ update_self k.buf (slot k.e) c)

  whole : ring slot stored k.r (suc (total k)) ≡ (view k).committed ++ ((view k).editing ++ c ∷ [])
  unfolding view
  whole =
      ap (ring slot stored k.r) {y = ready k + (suc (total k) - ready k)} (omega (arith, v.order))
      ∙ ring_append slot stored k.r (ready k) (suc (total k) - ready k)
      ∙ ap₂ (λ xs ys. xs ++ ys) (unchanged k.r (ready k) (omega arith) (omega (arith, v.order)))
          line

  test : ((c == 10) || (c == ctrl 68) || (sub32 (u32 (k.e + 1)) k.r == input_buf_size)) ≡ (
      (c == 10)
      || (c == ctrl 68)
      || (length (view k).committed + length ((view k).editing ++ c ∷ []) == input_buf_size))
  test =
      ap (λ j. (c == 10) || (c == ctrl 68) || (j == input_buf_size))
        (omega (arith, grown, length-view k v, length-append (view k).editing (c ∷ [])))

  ends : Bool
  ends = (c == 10) || (c == ctrl 68) || (sub32 (u32 (k.e + 1)) k.r == input_buf_size)

  not_newline : ends ≡ false → c ≢ 10
  unfolding ends
  not_newline t e = ground (arith, t, e)

  next : ℕ → Console
  unfolding stored
  next w = record { buf = stored; r = k.r; w = w; e = u32 (k.e + 1); out = (consputc c k).out }

  committed :
      Valid (next (u32 (k.e + 1)))
      × (view (next (u32 (k.e + 1)))
          ≡ record { committed = (view k).committed ++ ((view k).editing ++ c ∷ []); editing = [] })
  unfolding next view ring
  committed =
      let none_left : total (next (u32 (k.e + 1))) - ready (next (u32 (k.e + 1))) ≡ 0 =
        omega arith in
      (
        record {
          r = v.r;
          w = omega arith;
          e = omega arith;
          order = omega arith;
          fits = omega (arith, grown, room);
          unfinished =
              subst
                (λ j. All (λ x. x ≢ 10) (ring slot stored (k.r + ready (next (u32 (k.e + 1)))) j))
                (sym none_left) tt;
        },
        ap₂ (λ xs ys. record { committed = xs; editing = ys })
            (ap (ring slot stored k.r) grown ∙ whole)
            (ap (ring slot stored (k.r + ready (next (u32 (k.e + 1))))) none_left),
      )

  continued :
      c ≢ 10
      → Valid (next k.w)
        × (view (next k.w) ≡ record (view k) { editing = (view k).editing ++ c ∷ [] })
  unfolding next view
  continued other =
      let longer =
        ap (ring slot stored (k.r + ready k)) {x = total (next k.w) - ready k}
          (omega (arith, grown))
        ∙ line in
      (
        record {
          r = v.r;
          w = v.w;
          e = omega arith;
          order = omega (arith, grown, v.order);
          fits = omega (arith, grown, room);
          unfinished =
              subst (All (λ x. x ≢ 10)) (sym longer)
                (All-join (λ x. x ≢ 10) (view k).editing (c ∷ []) v.unfinished (other, tt));
        },
        ap₂ (λ xs ys. record { committed = xs; editing = ys })
            (unchanged k.r (ready k) (omega arith) (omega (arith, v.order))) longer,
      )

  -- A stored character is added to the line.
  pub store_char-add_char : Valid (store_char c k) × (view (store_char c k) ≡ add_char c (view k))
  unfolding store_char stored next ends
  store_char-add_char = elim (Bool-cases ends) [
    | inl t ↦ rw (sym test) (rw t committed)
    | inr t ↦ rw (sym test) (rw t (continued (not_newline t)))
  ]
