-- ===== src/String/Pad.antt =====
-- `strncpy` of riscv/kernel/string.c.
use learn_xv.Prelude.{
  ℕ, zero, suc, ◌+◌, ◌^◌, ◌≡◌, ◌≢◌, ◌<◌, ◌⊎◌, inl, inr, refl, sym, ap, subst, ◌∙◌, ◌==◌, arith,
  Bool-cases, int_rounds-eq, update, update_self, update_ne,
}
use learn_xv.String.{Memory, pad, strncpy_loop, strncpy}
use learn_xv.String.Copy.{
  Copied, Zeros, Keeps, Apart, Copied-store, Keeps-store, Apart-next, Apart-store,
}

pad-Keeps : (n s : ℕ) (m : Memory) → Keeps m (pad n s m) s n
unfolding pad
pad-Keeps zero s m = λ a o. refl
pad-Keeps (suc n) s m =
    Keeps-store m (pad n (s + 1) (update m s 0)) s 0 n (pad-Keeps n (s + 1) (update m s 0))

pad-Zeros : (n s : ℕ) (m : Memory) → Zeros (pad n s m) s n
unfolding pad
pad-Zeros zero s m = tt
pad-Zeros (suc n) s m = (
  pad-Keeps n (s + 1) (update m s 0) s (inl (omega arith)) ∙ update_self m s 0,
  pad-Zeros n (s + 1) (update m s 0),
)

-- `strncpy` copied the bytes before the first NUL, `n` of them at most, and filled up with NULs.
pub record Padded (m m' : Memory) (s t n : ℕ) : Type 0 where
  pub size : ℕ
  pub fill : ℕ
  pub total : size + fill ≡ n
  pub copied : Copied m m' s t size
  pub zeros : Zeros m' (s + size) fill
  pub whole : (fill ≡ 0) ⊎ (m (t + size) ≡ 0)
  pub keeps : Keeps m m' s n

Padded-next :
    (m m' : Memory) (s t n : ℕ)
    → Apart s t (suc n)
    → m t ≢ 0
    → Padded (update m s (m t)) m' (s + 1) (t + 1) n
    → Padded m m' s t (suc n)
Padded-next m m' s t n h nz r =
    let k = r.size in
    record {
      size = suc k;
      fill = r.fill;
      total = omega (arith, r.total);
      copied = (
        r.keeps s (inl (omega arith)) ∙ update_self m s (m t),
        nz,
        Copied-store m m' s (m t) (s + 1) (t + 1) k (Apart-store s t n k (omega (arith, r.total)) h)
            r.copied,
      );
      zeros = subst (λ a. Zeros m' a r.fill) {x = s + 1 + k} (omega arith) r.zeros;
      whole = elim r.whole [
        | inl e ↦ inl e
        | inr e ↦
            elim r.fill as (λ f. r.fill ≡ f → (f ≡ 0) ⊎ (m (t + suc k) ≡ 0)) [
              | zero ↦ λ g. inl refl
              | suc f ↦ λ g. inr (
                  sym (update_ne m s (m t) (t + suc k) (λ d. ground (arith, d, h, r.total, g)))
                  ∙ ap (update m s (m t)) {y = t + 1 + k} (omega arith)
                  ∙ e)
            ]
              refl
      ];
      keeps = Keeps-store m m' s (m t) n r.keeps;
    }

strncpy_loop-Padded : (n s t : ℕ) (m : Memory) → Apart s t n → Padded m (strncpy_loop n s t m) s t n
unfolding strncpy_loop pad
strncpy_loop-Padded zero s t m h = record {
  size = 0;
  fill = 0;
  total = omega arith;
  copied = tt;
  zeros = tt;
  whole = inl refl;
  keeps = λ a o. refl;
}
strncpy_loop-Padded (suc n) s t m h = elim (Bool-cases (m t == 0)) [
  | inl e ↦
      let z : m t ≡ 0 = ground (arith, e) in
      rw (strncpy_loop, e)
        (record {
          size = 0;
          fill = suc n;
          total = omega arith;
          copied = tt;
          zeros =
              subst (λ v. Zeros (pad n (s + 1) (update m s v)) (s + 0) (suc n)) (sym z)
                (subst (λ a. Zeros (pad (suc n) s m) a (suc n)) {x = s} (omega arith)
                  (pad-Zeros (suc n) s m));
          whole = inr (ap m (omega arith) ∙ z);
          keeps =
              subst (λ v. Keeps m (pad n (s + 1) (update m s v)) s (suc n)) (sym z)
                (pad-Keeps (suc n) s m);
        })
  | inr e ↦
      rw (strncpy_loop, e)
        (Padded-next m _ s t n h (λ z. ground (arith, e, z))
          (strncpy_loop-Padded n (s + 1) (t + 1) (update m s (m t)) (Apart-next s t n h)))
]

-- `strncpy` copies the string as far as `n` bytes reach, fills the rest of the `n` bytes with NULs,
-- and writes nothing else.
pub strncpy-Padded :
    (n s t : ℕ) (m : Memory) → n < 2 ^ 31 → Apart s t n → Padded m (strncpy s t n m) s t n
unfolding strncpy
strncpy-Padded n s t m small away = rw (int_rounds-eq n small) (strncpy_loop-Padded n s t m away)
