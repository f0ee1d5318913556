-- ===== src/String/Move.antt =====
-- `memmove` and `memset` of riscv/kernel/string.c.
use learn_xv.Prelude.{
  ℕ, zero, suc, ◌+◌, ◌-◌, ◌%◌, ◌^◌, ◌≡◌, ◌≢◌, ◌≤◌, ◌<◌, ◌⊎◌, inl, inr, sym, ap, ap₂, ◌∙◌,
  if◌then◌else◌, ◌==◌, ltb, leb, ◌&&◌, update, update_self, update_ne, arith, Bool-cases, eq_cases,
  lt_or_le, for_loop_inv,
}
use learn_xv.String.{Memory, memset, memmove, copy_up, copy_down}

-- The memory with the old bytes from `src` at the addresses from `dst` on.
unfoldable pub moved : ℕ → ℕ → ℕ → Memory → Memory
moved dst src n m a = if leb dst a && ltb a (dst + n) then m (src + (a - dst)) else m a

moved-inside :
    (dst src n : ℕ) (m : Memory) (a : ℕ)
    → dst ≤ a
    → a < dst + n
    → moved dst src n m a ≡ m (src + (a - dst))
unfolding moved
moved-inside dst src n m a h g = ground arith

moved-outside :
    (dst src n : ℕ) (m : Memory) (a : ℕ) → (a < dst) ⊎ (dst + n ≤ a) → moved dst src n m a ≡ m a
unfolding moved
moved-outside dst src n m a (inl h) = ground arith
moved-outside dst src n m a (inr h) = ground arith

-- Where an address lies by a range and one of its addresses.
data Place (low high x a : ℕ) : Type 0 where
  outside : (a < low) ⊎ (high ≤ a) → Place low high x a
  at : a ≡ x → Place low high x a
  inside : low ≤ a → a < high → a ≢ x → Place low high x a

place : (low high x a : ℕ) → Place low high x a
place low high x a = elim (eq_cases a x) [
  | inl e ↦ at e
  | inr f ↦ elim (lt_or_le a low) [
    | inl e ↦ outside (inl e)
    | inr e ↦ elim (lt_or_le a high) [ inl g ↦ inside e g f | inr g ↦ outside (inr g) ]
  ]
]

copy_up-moved :
    (n d s : ℕ) (m : Memory) (a : ℕ) → (d ≤ s) ⊎ (s + n ≤ d) → copy_up n d s m a ≡ moved d s n m a
unfolding copy_up moved
copy_up-moved zero d s m a h = ground arith
copy_up-moved (suc n) d s m a h =
    let m' = update m d (m s) in
    let h' : (d + 1 ≤ s + 1) ⊎ (s + 1 + n ≤ d + 1) = elim h [
      | inl h ↦ inl (omega (arith, h))
      | inr h ↦ inr (omega (arith, h))
    ] in
    copy_up-moved n (d + 1) (s + 1) m' a h' ∙ elim (place d (d + suc n) d a) [
      | outside o ↦
          moved-outside (d + 1) (s + 1) n m' a
            (elim o [ inl o ↦ inl (omega (arith, o)) | inr o ↦ inr (omega (arith, o)) ])
          ∙ update_ne m d (m s) a (λ e. ground (arith, e, o))
          ∙ sym (moved-outside d s (suc n) m a o)
      | at e ↦
          moved-outside (d + 1) (s + 1) n m' a (inl (omega (arith, e)))
          ∙ ap m' e
          ∙ update_self m d (m s)
          ∙ ap m (omega (arith, e))
          ∙ sym (moved-inside d s (suc n) m a (omega (arith, e)) (omega (arith, e)))
      | inside low high f ↦
          moved-inside (d + 1) (s + 1) n m' a (omega (arith, low, f)) (omega (arith, high))
          ∙ update_ne m d (m s) (s + 1 + (a - (d + 1))) (λ e. ground (arith, e, h, low, high, f))
          ∙ ap m (omega (arith, low, f))
          ∙ sym (moved-inside d s (suc n) m a low high)
    ]

copy_down-moved :
    (n d s : ℕ) (m : Memory) (a : ℕ) → s ≤ d → copy_down n (d + n) (s + n) m a ≡ moved d s n m a
unfolding copy_down moved
copy_down-moved zero d s m a h = ground arith
copy_down-moved (suc n) d s m a h =
    let m' = update m (d + n) (m (s + n)) in
    let start : copy_down (suc n) (d + suc n) (s + suc n) m a ≡ copy_down n (d + n) (s + n) m' a =
      ap₂ (λ x y. copy_down n x y (update m x (m y)) a) {y = d + n} (omega arith) (omega arith) in
    start ∙ copy_down-moved n d s m' a h ∙ elim (place d (d + suc n) (d + n) a) [
      | outside o ↦
          moved-outside d s n m' a (elim o [ inl o ↦ inl o | inr o ↦ inr (omega (arith, o)) ])
          ∙ update_ne m (d + n) (m (s + n)) a (λ e. ground (arith, e, o))
          ∙ sym (moved-outside d s (suc n) m a o)
      | at e ↦
          moved-outside d s n m' a (inr (omega (arith, e)))
          ∙ ap m' e
          ∙ update_self m (d + n) (m (s + n))
          ∙ ap m (omega (arith, e))
          ∙ sym (moved-inside d s (suc n) m a (omega (arith, e)) (omega (arith, e)))
      | inside low high f ↦
          moved-inside d s n m' a low (omega (arith, high, f))
          ∙ update_ne m (d + n) (m (s + n)) (s + (a - d)) (λ e. omega (arith, e, h, low, high, f))
          ∙ sym (moved-inside d s (suc n) m a low high)
    ]

-- `memmove` puts the old bytes at `src` to `dst`, also where the ranges overlap, and changes no
-- other byte.
pub memmove-moved :
    (dst src n : ℕ) (m : Memory) (a : ℕ) → memmove dst src n m a ≡ moved dst src n m a
unfolding memmove
memmove-moved dst src n m a = elim (Bool-cases (n == 0)) [
  | inl e ↦
      let h : (a < dst) ⊎ (dst + n ≤ a) = elim (lt_or_le a dst) [
        | inl h ↦ inl h
        | inr h ↦ inr (ground (arith, e, h))
      ] in
      rw e (sym (moved-outside dst src n m a h))
  | inr e ↦ rw e (elim (Bool-cases (ltb src dst && ltb dst (src + n))) [
    | inl f ↦ rw f (copy_down-moved n dst src m a (ground (arith, f)))
    | inr f ↦
        let h : (dst ≤ src) ⊎ (src + n ≤ dst) = elim (lt_or_le src dst) [
          | inl h ↦ inr (ground (arith, f, h))
          | inr h ↦ inl h
        ] in
        rw f (copy_up-moved n dst src m a h)
  ])
]

unfoldable pub filled : ℕ → ℕ → ℕ → Memory → Memory
filled dst v n m a = if leb dst a && ltb a (dst + n) then v else m a

filled-suc :
    (dst v k : ℕ) (m m' : Memory)
    → ((a : ℕ) → m' a ≡ filled dst v k m a)
    → (a : ℕ) → update m' (dst + k) v a ≡ filled dst v (suc k) m a
unfolding filled
filled-suc dst v k m m' h a = elim (eq_cases a (dst + k)) [
  | inl e ↦ ap (update m' (dst + k) v) e ∙ update_self m' (dst + k) v ∙ ground (arith, e)
  | inr e ↦ update_ne m' (dst + k) v a e ∙ h a ∙ ground (arith, e)
]

-- `memset` sets the `n` bytes from `dst` on, and no other.
pub memset-filled :
    (dst c n : ℕ) (m : Memory) (a : ℕ) → memset dst c n m a ≡ filled dst (c % 2 ^ 8) n m a
unfolding memset filled
memset-filled dst c n m =
    for_loop_inv (λ i m'. update m' (dst + i) (c % 2 ^ 8))
      (λ k m'. (a : ℕ) → m' a ≡ filled dst (c % 2 ^ 8) k m a) n
      (λ k m' h. filled-suc dst (c % 2 ^ 8) k m m') m (λ a. ground arith)
