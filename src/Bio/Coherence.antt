-- ===== src/Bio/Coherence.antt =====
-- The buffers of riscv/kernel/bio.c as copies of the blocks of one device.
use learn_xv.Prelude.{
  ℕ, ◌<◌, ◌≡◌, ◌≢◌, inl, inr, sym, ap, subst, ◌∙◌, arith, true, false, eq_cases, Bool-cases, update,
  update_ne, ==_self, List,
}
use learn_xv.Store.{Disk}
use learn_xv.Bio.{Buf, Cache, nbuf, caches, set_buf}

-- Device `d` shows the blocks `v`: what a buffer holds, or else the disk. No block has two buffers,
-- and what no process refers to is not newer than the disk.
pub record Coherent (d : ℕ) (c : Cache) (v : Disk) : Type 0 where
  pub unique :
      (i j : ℕ)
      → i < nbuf
      → j < nbuf
      → (c.buf i).dev ≡ d
      → (c.buf j).dev ≡ d
      → (c.buf i).blockno ≡ (c.buf j).blockno
      → i ≡ j
  pub clean :
      (b : ℕ)
      → b < nbuf
      → (c.buf b).refcnt ≡ 0
      → (c.buf b).valid ≡ true
      → (c.buf b).dev ≡ d
      → (c.buf b).content ≡ c.disk (c.buf b).blockno
  pub cached :
      (b : ℕ)
      → b < nbuf
      → (c.buf b).valid ≡ true
      → (c.buf b).dev ≡ d
      → (c.buf b).content ≡ v (c.buf b).blockno
  pub absent :
      (n : ℕ)
      → ((b : ℕ) → b < nbuf → (c.buf b).valid ≡ true → (c.buf b).dev ≡ d → (c.buf b).blockno ≢ n)
      → c.disk n ≡ v n

-- `x` has the block of `y`, in the same state.
pub record SameBlock (x y : Buf) : Type 0 where
  pub dev : x.dev ≡ y.dev
  pub blockno : x.blockno ≡ y.blockno
  pub valid : x.valid ≡ y.valid
  pub content : x.content ≡ y.content

module _ {d : ℕ} {c : Cache} {v : Disk} (co : Coherent d c v) (b : ℕ) (h : b < nbuf) (x : Buf) where
  -- A change of a buffer's lock or count.
  pub Coherent-same :
      SameBlock x (c.buf b)
      → (x.refcnt ≡ 0 → x.valid ≡ true → x.dev ≡ d → x.content ≡ c.disk x.blockno)
      → Coherent d (set_buf b x c) v
  Coherent-same same clean = record {
    unique = λ i j hi hj p q e. ground (arith, co.unique i j);
    clean = λ i hi p q r. ground (arith, co.clean i, clean);
    cached = λ i hi p q. ground (arith, co.cached i);
    absent = λ n miss. co.absent n (λ i hi p q e. ground (arith, miss i));
  }

module _ {d : ℕ} {c : Cache} {v : Disk} (co : Coherent d c v) (b : ℕ) (h : b < nbuf) where
  -- The disk and the device agree on a block that no other buffer has, if `b` has it clean.
  absent_but :
      (n : ℕ)
      → (c.buf b).refcnt ≡ 0
      → ((i : ℕ)
          → i < nbuf
          → i ≢ b
          → (c.buf i).valid ≡ true
          → (c.buf i).dev ≡ d
          → (c.buf i).blockno ≢ n)
      → c.disk n ≡ v n
  absent_but n unused others = elim (Bool-cases (c.buf b).valid) [
    | inr e ↦ co.absent n (λ i hi p q r. others i hi (λ s. ground (arith, s)) p q r)
    | inl valid ↦ elim (eq_cases (c.buf b).dev d) [
      | inr ne ↦ co.absent n (λ i hi p q r. others i hi (λ s. ne (rw s at q)) p q r)
      | inl dev ↦ elim (eq_cases (c.buf b).blockno n) [
        | inl e ↦
            subst (λ k. c.disk k ≡ v k) e
              (sym (co.clean b h unused valid dev) ∙ co.cached b h valid dev)
        | inr ne ↦ co.absent n (λ i hi p q r. others i hi (λ s. ne (rw s at r)) p q r)
      ]
    ]
  ]

  -- An unused buffer is given to a block that has none.
  pub Coherent-recycled :
      (n : ℕ)
      → (c.buf b).refcnt ≡ 0
      → ((i : ℕ) → i < nbuf → caches c d n i ≡ false)
      → Coherent d
          (set_buf b (record (c.buf b) { dev = d; blockno = n; valid = false; refcnt = 1 }) c)
          v
  Coherent-recycled n unused none = record {
    unique = λ i j hi hj p q e. ground (arith, co.unique i j, none i, none j);
    clean = λ i hi p q r. ground (arith, co.clean i);
    cached = λ i hi p q. ground (arith, co.cached i);
    absent = λ k miss. absent_but k unused (λ i hi ne p q r. ground (arith, miss i));
  }

  -- A block is read into its buffer.
  pub Coherent-read :
      (c.buf b).valid ≡ false
      → (c.buf b).dev ≡ d
      → (c.disk (c.buf b).blockno ≡ v (c.buf b).blockno)
        × Coherent d
            (set_buf b (record (c.buf b) { valid = true; content = c.disk (c.buf b).blockno }) c)
            v
  Coherent-read invalid dev =
      let fresh : c.disk (c.buf b).blockno ≡ v (c.buf b).blockno =
        co.absent (c.buf b).blockno (λ i hi p q r. ground (arith, co.unique i b hi h q dev r)) in
      (
        fresh,
        record {
          unique = λ i j hi hj p q e. ground (arith, co.unique i j);
          clean = λ i hi p q r. ground (arith, co.clean i);
          cached = λ i hi p q. ground (arith, co.cached i);
          absent = λ k miss. co.absent k (λ i hi p q r. ground (arith, miss i));
        },
      )

  -- A block is written from its buffer.
  pub Coherent-write :
      (c.buf b).valid ≡ true
      → (c.buf b).dev ≡ d
      → (p : List Disk)
      → Coherent d
          (record c { disk = update c.disk (c.buf b).blockno (c.buf b).content; past = p })
          v
  Coherent-write valid dev p = record {
    unique = co.unique;
    clean = λ i hi p q r. elim (eq_cases (c.buf i).blockno (c.buf b).blockno) [
      | inl e ↦
          rw (e, ==_self (c.buf b).blockno)
            (co.cached i hi q r ∙ ap v e ∙ sym (co.cached b h valid dev))
      | inr ne ↦
          co.clean i hi p q r ∙ sym (update_ne c.disk (c.buf b).blockno _ (c.buf i).blockno ne)
    ];
    cached = co.cached;
    absent = λ n miss.
        update_ne c.disk (c.buf b).blockno _ n (λ e. miss b h valid dev (sym e)) ∙ co.absent n miss;
  }
