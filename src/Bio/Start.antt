-- ===== src/Bio/Start.antt =====
-- The cache after `binit` of riscv/kernel/bio.c.
use learn_xv.Prelude.{
  ℕ, zero, suc, ◌<◌, ◌≡◌, ◌≢◌, inl, inr, refl, sym, ap, ◌∙◌, arith, false, length, update, for_loop,
  for_loop_inv, eq_cases,
}
use learn_xv.Bio.{Cache, nbuf, head, push_front, init_buf, binit}
use learn_xv.Bio.Links.{Occurs}
use learn_xv.Bio.Moves.{countdown, binit-IsRing}
use learn_xv.Bio.Taken.{IsFull}
use learn_xv.Bio.Coherence.{Coherent}

-- Static memory: every field is zero, so no buffer has a block of a device other than 0.
pub record IsBlank (c : Cache) : Type 0 where
  pub invalid : (b : ℕ) → (c.buf b).valid ≡ false
  pub dev : (b : ℕ) → (c.buf b).dev ≡ 0

countdown-Occurs : (k b : ℕ) → b < k → Occurs b (countdown k)
countdown-Occurs zero b h = absurd (omega arith)
countdown-Occurs (suc k) b h = elim (eq_cases k b) [
  | inl e ↦ inl e
  | inr ne ↦ inr (countdown-Occurs k b (omega arith))
]

length-countdown : (k : ℕ) → length (countdown k) ≡ k
length-countdown zero = refl
length-countdown (suc k) = ap suc (length-countdown k)

pub binit-IsFull : (c : Cache) → IsFull (binit c) (countdown nbuf)
binit-IsFull c = record {
  ring = binit-IsRing c;
  complete = λ b h. countdown-Occurs nbuf b h;
  short = omega (arith, length-countdown nbuf);
}

record Kept (c e : Cache) : Type 0 where
  blank : IsBlank e
  disk : e.disk ≡ c.disk

init_buf-Kept : (c : Cache) (k : ℕ) (e : Cache) → Kept c e → Kept c (init_buf k e)
unfolding init_buf push_front
init_buf-Kept c k e kept = record {
  blank = record {
    invalid = λ b. ground (arith, kept.blank.invalid b, kept.blank.invalid k);
    dev = λ b. ground (arith, kept.blank.dev b, kept.blank.dev k);
  };
  disk = kept.disk;
}

-- After `binit` the cache is a ring of all buffers, and each device but 0 shows the disk.
pub binit-Coherent :
    (c : Cache) (d : ℕ)
    → IsBlank c
    → d ≢ 0
    → IsFull (binit c) (countdown nbuf) × Coherent d (binit c) c.disk
unfolding binit
binit-Coherent c d blank ne =
    let start : Cache = record c {
      prev = update c.prev head head;
      next = update c.next head head;
    } in
    let kept : Kept c (for_loop init_buf 0 nbuf start) =
      for_loop_inv init_buf (λ k e. Kept c e) nbuf (λ k e h kept. init_buf-Kept c k e kept) start
        (record { blank = record { invalid = blank.invalid; dev = blank.dev }; disk = refl }) in
    (
      binit-IsFull c,
      record {
        unique = λ i j hi hj p q r. absurd (ne (sym p ∙ kept.blank.dev i));
        clean = λ b h p q r. absurd (ne (sym r ∙ kept.blank.dev b));
        cached = λ b h p q. absurd (ne (sym q ∙ kept.blank.dev b));
        absent = λ n miss. ap (λ f. f n) kept.disk;
      },
    )
