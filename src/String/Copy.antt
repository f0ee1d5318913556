-- ===== src/String/Copy.antt =====
-- `strncpy` and `safestrcpy` of riscv/kernel/string.c.
use learn_xv.Prelude.{
  ℕ, zero, suc, ◌+◌, ◌-◌, ◌^◌, ◌≡◌, ◌≢◌, ◌≤◌, ◌<◌, ◌⊎◌, inl, inr, sym, ap, ◌∙◌, true, ◌==◌, arith,
  Bool-cases, int_ltb, int_rounds, int_rounds-eq, update, update_self, update_ne,
}
use learn_xv.String.{Memory, safestrcpy_loop, safestrcpy}

-- The `k` bytes at `t` of the first memory are no NUL, and are at `s` of the second one.
abbrev pub Copied : Memory → Memory → (s t k : ℕ) → Type 0
Copied m m' s t zero = Unit
Copied m m' s t (suc k) = (m' s ≡ m t) × (m t ≢ 0) × Copied m m' (s + 1) (t + 1) k

abbrev pub Zeros : Memory → (s k : ℕ) → Type 0
Zeros m s zero = Unit
Zeros m s (suc k) = (m s ≡ 0) × Zeros m (s + 1) k

-- Nothing outside the `n` bytes at `s` is written.
abbrev pub Keeps : Memory → Memory → (s n : ℕ) → Type 0
Keeps m m' s n = (a : ℕ) → (a < s) ⊎ (s + n ≤ a) → m' a ≡ m a

-- The `n` bytes at `s` and those at `t` are apart.
abbrev pub Apart : (s t n : ℕ) → Type 0
Apart s t n = (t + n ≤ s) ⊎ (s + n ≤ t)

pub Copied-store :
    (m m' : Memory) (x v s t k : ℕ)
    → (x < t) ⊎ (t + k ≤ x)
    → Copied (update m x v) m' s t k
    → Copied m m' s t k
Copied-store m m' x v s t zero h c = tt
Copied-store m m' x v s t (suc k) h c =
    let same = update_ne m x v t (λ e. ground (arith, e, h)) in
    let h' : (x < t + 1) ⊎ (t + 1 + k ≤ x) = elim h [
      | inl h ↦ inl (omega (arith, h))
      | inr h ↦ inr (omega (arith, h))
    ] in
    (c.0 ∙ same, (λ e. c.1 (same ∙ e)), Copied-store m m' x v (s + 1) (t + 1) k h' c.2)

pub Keeps-store :
    (m m' : Memory) (s v n : ℕ) → Keeps (update m s v) m' (s + 1) n → Keeps m m' s (suc n)
Keeps-store m m' s v n keep a h =
    let h' : (a < s + 1) ⊎ (s + 1 + n ≤ a) = elim h [
      | inl h ↦ inl (omega (arith, h))
      | inr h ↦ inr (omega (arith, h))
    ] in
    keep a h' ∙ update_ne m s v a (λ e. ground (arith, e, h))

-- `safestrcpy` copied the bytes before the first NUL, `n - 1` of them at most, and put a NUL.
pub record Terminated (m m' : Memory) (s t n : ℕ) : Type 0 where
  pub size : ℕ
  pub short : size < n
  pub copied : Copied m m' s t size
  pub nul : m' (s + size) ≡ 0
  pub whole : (suc size ≡ n) ⊎ (m (t + size) ≡ 0)
  pub keeps : Keeps m m' s n

pub Apart-next : (s t n : ℕ) → Apart s t (suc n) → Apart (s + 1) (t + 1) n
Apart-next s t n (inl h) = inl (omega (arith, h))
Apart-next s t n (inr h) = inr (omega (arith, h))

-- The byte stored at `s` is before the bytes from `t + 1` on, or after them.
pub Apart-store : (s t n k : ℕ) → k ≤ n → Apart s t (suc n) → (s < t + 1) ⊎ (t + 1 + k ≤ s)
Apart-store s t n k g (inl h) = inr (omega (arith, h, g))
Apart-store s t n k g (inr h) = inl (omega (arith, h))

pub Apart-read : (s t n : ℕ) → Apart s t (suc n) → t ≢ s
Apart-read s t n h e = ground (arith, h, e)

Terminated-next :
    (m m' : Memory) (s t n : ℕ)
    → Apart s t (suc n)
    → m t ≢ 0
    → Terminated (update m s (m t)) m' (s + 1) (t + 1) n
    → Terminated m m' s t (suc n)
Terminated-next m m' s t n h nz r =
    let stored = r.keeps s (inl (omega arith)) ∙ update_self m s (m t) in
    let k = r.size in
    let back =
      Copied-store m m' s (m t) (s + 1) (t + 1) k (Apart-store s t n k (omega (arith, r.short)) h)
        r.copied in
    record {
      size = suc k;
      short = omega (arith, r.short);
      copied = (stored, nz, back);
      nul = ap m' {y = s + 1 + k} (omega arith) ∙ r.nul;
      whole = elim r.whole [
        | inl e ↦ inl (ap suc e)
        | inr e ↦ inr (
            sym (update_ne m s (m t) (t + suc k) (λ f. ground (arith, f, h, r.short)))
            ∙ ap (update m s (m t)) {y = t + 1 + k} (omega arith)
            ∙ e)
      ];
      keeps = Keeps-store m m' s (m t) n r.keeps;
    }

Terminated-end :
    (n s t : ℕ) (m : Memory)
    → m t ≡ 0
    → Terminated m (update (update m s (m t)) (s + 1) 0) s t (suc (suc n))
Terminated-end n s t m e =
    let m' = update m s (m t) in
    record {
      size = 0;
      short = omega arith;
      copied = tt;
      nul =
          ap (update m' (s + 1) 0) {y = s} (omega arith)
          ∙ update_ne m' (s + 1) 0 s (λ f. omega (arith, f))
          ∙ update_self m s (m t)
          ∙ e;
      whole = inr (ap m (omega arith) ∙ e);
      keeps = λ a o.
          update_ne m' (s + 1) 0 a (λ f. ground (arith, f, o))
          ∙ update_ne m s (m t) a (λ f. ground (arith, f, o));
    }

safestrcpy_loop-Terminated :
    (n s t : ℕ) (m : Memory)
    → Apart s t (suc n)
    → Terminated m (safestrcpy_loop n s t m) s t (suc n)
unfolding safestrcpy_loop
safestrcpy_loop-Terminated zero s t m h = record {
  size = 0;
  short = omega arith;
  copied = tt;
  nul = ap (update m s 0) {y = s} (omega arith) ∙ update_self m s 0;
  whole = inl (omega arith);
  keeps = λ a o. update_ne m s 0 a (λ e. ground (arith, e, o));
}
safestrcpy_loop-Terminated (suc n) s t m h = elim (Bool-cases (m t == 0)) [
  | inl e ↦ rw (safestrcpy_loop, e) (Terminated-end n s t m (ground (arith, e)))
  | inr e ↦
      rw (safestrcpy_loop, e)
        (Terminated-next m _ s t (suc n) h (λ z. ground (arith, e, z))
          (safestrcpy_loop-Terminated n (s + 1) (t + 1) (update m s (m t))
            (Apart-next s t (suc n) h)))
]

-- `safestrcpy` copies the string as far as `n - 1` bytes reach, ends it with a NUL, and writes
-- nothing but the `n` bytes at `s`.
pub safestrcpy-Terminated :
    (n s t : ℕ) (m : Memory)
    → 0 < n
    → n < 2 ^ 31
    → Apart s t n
    → Terminated m (safestrcpy s t n m) s t n
unfolding safestrcpy
safestrcpy-Terminated zero s t m h small away = ground (arith, h)
safestrcpy-Terminated (suc n) s t m h small away =
    let test : int_ltb 0 (suc n) ≡ true = ground (arith, small) in
    let rounds : int_rounds (suc n) - 1 ≡ n = omega (arith, int_rounds-eq (suc n) small) in
    rw test (rw rounds (safestrcpy_loop-Terminated n s t m away))
