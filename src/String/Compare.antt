-- ===== src/String/Compare.antt =====
-- `memcmp`, `strncmp` and `strlen` of riscv/kernel/string.c.
use learn_xv.Prelude.{
  ℕ, zero, suc, ◌+◌, ◌^◌, ◌≡◌, ◌≢◌, ◌↔◌, ◌<◌, ◌⊎◌, inl, inr, refl, ap, ◌∙◌, true, false, not, ◌&&◌,
  ◌==◌, arith, Bool-cases, sub32, some,
}
use learn_xv.String.{Memory, memcmp, strncmp, strlen}

abbrev pub Bytes : Memory → Type 0
Bytes m = (a : ℕ) → m a < 2 ^ 8

-- The `n` bytes are the same.
abbrev pub Equal : ℕ → ℕ → ℕ → Memory → Type 0
Equal p q zero m = Unit
Equal p q (suc n) m = (m p ≡ m q) × Equal (p + 1) (q + 1) n m

-- The C strings are the same, as far as `n` bytes reach.
abbrev pub Agree : ℕ → ℕ → ℕ → Memory → Type 0
Agree p q zero m = Unit
Agree p q (suc n) m = (m p ≡ m q) × ((m p ≡ 0) ⊎ Agree (p + 1) (q + 1) n m)

no_match : (a b : ℕ) → (a == b) ≡ false → a ≢ b
no_match a b h e = ground (arith, h, e)

differ : (a b : ℕ) → a < 2 ^ 8 → b < 2 ^ 8 → sub32 a b ≡ 0 → a ≡ b
differ a b h g e = omega (arith, h, g, e)

-- `memcmp` is 0 just for equal bytes.
pub memcmp-Equal : (p q n : ℕ) (m : Memory) → Bytes m → (memcmp p q n m ≡ 0) ↔ Equal p q n m
unfolding memcmp
memcmp-Equal p q zero m bytes = ((λ e. tt), (λ e. refl))
memcmp-Equal p q (suc n) m bytes =
    let rest = memcmp-Equal (p + 1) (q + 1) n m bytes in
    elim (Bool-cases (m p == m q)) [
      | inl e ↦
          let same : m p ≡ m q = ground (arith, e) in
          ((λ z. (same, rest.0 (ground (arith, e, z)))), (λ z. ground (arith, e, rest.1 z.1)))
      | inr e ↦ (
        (λ z.
            elim (no_match (m p) (m q) e
              (differ (m p) (m q) (bytes p) (bytes q) (ground (arith, e, z)))) [ ]),
        (λ z. elim (no_match (m p) (m q) e z.0) [ ]),
      )
    ]

-- `strncmp` is 0 just for strings that agree in the first `n` bytes.
pub strncmp-Agree : (p q n : ℕ) (m : Memory) → Bytes m → (strncmp p q n m ≡ 0) ↔ Agree p q n m
unfolding strncmp
strncmp-Agree p q zero m bytes = ((λ e. tt), (λ e. refl))
strncmp-Agree p q (suc n) m bytes =
    let rest = strncmp-Agree (p + 1) (q + 1) n m bytes in
    elim (Bool-cases (not (m p == 0) && (m p == m q))) [
      | inl e ↦
          let same : m p ≡ m q = ground (arith, e) in
          let nonzero : m p ≢ 0 = λ z. ground (arith, e, z) in
          rw e (
            (λ z. (same, inr (rest.0 z))),
            (λ z. elim z.1 [ inl f ↦ elim (nonzero f) [ ] | inr f ↦ rest.1 f ]),
          )
      | inr e ↦ rw e (
        (λ z.
            let same = differ (m p) (m q) (bytes p) (bytes q) z in
            (same, inl (ground (arith, e, same)))),
        (λ z. omega (arith, z.0, bytes p)),
      )
    ]

-- `k` bytes other than NUL.
abbrev pub Nonzero : ℕ → ℕ → Memory → Type 0
Nonzero s zero m = Unit
Nonzero s (suc k) m = (m s ≢ 0) × Nonzero (s + 1) k m

-- `strlen` finds the first NUL.
pub strlen_lem :
    (k fuel s : ℕ) (m : Memory)
    → k < fuel
    → k < 2 ^ 32
    → Nonzero s k m
    → m (s + k) ≡ 0
    → strlen fuel s m ≡ some k
unfolding strlen
strlen_lem k zero s m h small nz e = ground (arith, h)
strlen_lem zero (suc fuel) s m h small nz e =
    let z : (m s == 0) ≡ true = ground (arith, ap m {x = s} {y = s + 0} (omega arith) ∙ e) in
    rw (strlen, z) refl
strlen_lem (suc k) (suc fuel) s m h small nz e =
    let z : (m s == 0) ≡ false = ground (arith, nz.0) in
    let next : m (s + 1 + k) ≡ 0 = ap m (omega arith) ∙ e in
    rw (strlen, z)
      (rw (strlen, strlen_lem k fuel (s + 1) m (omega (arith, h)) (omega (arith, small)) nz.1 next)
        (ap some (omega (arith, small))))
