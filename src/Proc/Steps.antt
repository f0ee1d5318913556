-- ===== src/Proc/Steps.antt =====
-- The steps of the processes of riscv/kernel/proc.c, and what they keep of the table.
use learn_xv.Prelude.{
  ℕ, ◌+◌, ◌-◌, ◌^◌, ◌≡◌, ◌≢◌, ◌<◌, ◌≤◌, ◌⊎◌, refl, sym, ap, ◌∙◌, inl, inr, ◌==◌, arith, u32,
  eq_cases, Bool-cases, ok, sleeps,
}
use learn_xv.Proc.State.{
  nproc, unused, runnable, running, Proc, Kernel, Resources, proc_at, set_proc,
}
use learn_xv.Proc.Sleep.{sleep_on, awake, wakeup, kkill, yield_cpu}
use learn_xv.Proc.Fork.{userinit, kfork}
use learn_xv.Proc.Exit.{kexit, kwait}
use learn_xv.Proc.Kinds.{kind, Calm}
use learn_xv.Proc.Allocated.{OnlyAt}
use learn_xv.Proc.Exited.{Exited}

module _ {M : Type 0} where
  -- `me` runs on a processor.
  pub record Runs (me : ℕ) (k : Kernel M) : Type 0 where
    pub in_table : me < nproc
    pub is_running : (k.proc me).state ≡ running

  pub data Step (res : Resources M) (forkret : ℕ) (k : Kernel M) : Kernel M → Type 0 where
    -- Before the process numbers wrap around.
    forks :
        (me : ℕ)
        → Runs me k
        → k.nextpid < 2 ^ 32 - 1
        → Step res forkret k (kfork res forkret me k).1
    exits :
        (me status : ℕ) {l : Kernel M}
        → Runs me k
        → kexit res me status k ≡ sleeps l
        → Step res forkret k l
    waits_done :
        (me addr pid : ℕ) {l : Kernel M}
        → Runs me k
        → kwait res me addr k ≡ ok pid l
        → Step res forkret k l
    waits_more :
        (me addr : ℕ) {l : Kernel M}
        → Runs me k
        → kwait res me addr k ≡ sleeps l
        → Step res forkret k l
    goes_to_sleep : (me chan : ℕ) → Runs me k → Step res forkret k (sleep_on me chan k)
    tidies_up : (me : ℕ) → Runs me k → Step res forkret k (awake me k)
    wakes : (myproc chan : ℕ) → Step res forkret k (wakeup myproc chan k)
    kills : (pid : ℕ) → Step res forkret k (kkill pid k).1
    yields : (me : ℕ) → Runs me k → Step res forkret k (yield_cpu me k)
    -- The scheduler picks `i`.
    runs :
        (i : ℕ)
        → i < nproc
        → (k.proc i).state ≡ runnable
        → Step res forkret k (set_proc i (record (k.proc i) { state = running }) k)

  -- An empty table.
  pub record IsEmpty (k : Kernel M) : Type 0 where
    pub all_unused : (i : ℕ) → i < nproc → kind (k.proc i).state ≡ 0
    pub no_parents : (i : ℕ) → (k.proc i).parent ≡ 0
    pub no_init : k.initproc ≡ 0
    pub first_pid : k.nextpid ≡ 1

  pub data Reach (res : Resources M) (forkret : ℕ) : Kernel M → Type 0 where
    start : {k l : Kernel M} → IsEmpty k → userinit res forkret k ≡ ok tt l → Reach res forkret l
    later : {k l : Kernel M} → Reach res forkret k → Step res forkret k l → Reach res forkret l

  -- The numbers of the processes differ, and a parent is a process that lives, as init is.
  pub record Family (k : Kernel M) : Type 0 where
    pub init_lives : (r : ℕ) → k.initproc ≡ proc_at r → kind (k.proc r).state ≡ 1
    pub parent_lives :
        (i j : ℕ) → i < nproc → (k.proc i).parent ≡ proc_at j → kind (k.proc j).state ≡ 1
    pub numbered : (i : ℕ) → i < nproc → kind (k.proc i).state ≢ 0 → (k.proc i).pid < k.nextpid
    pub distinct :
        (i j : ℕ)
        → i < nproc
        → j < nproc
        → i ≢ j
        → kind (k.proc i).state ≢ 0
        → kind (k.proc j).state ≢ 0
        → (k.proc i).pid ≢ (k.proc j).pid

  pub Calm-Family : {k l : Kernel M} → Family k → Calm k l → Family l
  Calm-Family f c = record {
    init_lives = λ r e. c.kind_same r ∙ f.init_lives r (sym c.init_same ∙ e);
    parent_lives = λ i j lt e. c.kind_same j ∙ f.parent_lives i j lt (sym (c.parent_same i) ∙ e);
    numbered = λ i lt u.
        omega (arith, c.next_same, c.pid_same i, f.numbered i lt (λ z. u (c.kind_same i ∙ z)));
    distinct = λ i j li lj ne ui uj e.
        f.distinct i j li lj ne (λ z. ui (c.kind_same i ∙ z)) (λ z. uj (c.kind_same j ∙ z))
          (sym (c.pid_same i) ∙ e ∙ c.pid_same j);
  }

  pub Exited-Family :
      {k l : Kernel M} (me : ℕ)
      → Family k
      → proc_at me ≢ k.initproc
      → kind (k.proc me).state ≡ 1
      → Exited me k l
      → Family l
  Exited-Family {k} {l} me f ne live x =
      let used : (i : ℕ) → kind (l.proc i).state ≢ 0 → kind (k.proc i).state ≢ 0 = λ i u z.
        elim (eq_cases i me) [
          | inl same ↦ ground (arith, sym live ∙ ap (λ q. kind (k.proc q).state) (sym same) ∙ z)
          | inr nm ↦ u (x.others_same i nm ∙ z)
        ] in
      record {
        init_lives = λ r e.
            let was : k.initproc ≡ proc_at r = sym x.init_same ∙ e in
            x.others_same r (λ same. ne (ap proc_at (sym same) ∙ sym was)) ∙ f.init_lives r was;
        parent_lives = λ i j lt e. elim (Bool-cases ((k.proc i).parent == proc_at me)) [
          | inl c ↦
              let h : l.initproc ≡ k.initproc = x.init_same in
              let to_init : k.initproc ≡ proc_at j = sym (x.handed_on i lt ∙ rw c refl) ∙ e in
              x.others_same j (λ same. ne (ap proc_at (sym same) ∙ sym to_init))
              ∙ f.init_lives j to_init
          | inr c ↦
              let was : (k.proc i).parent ≡ proc_at j = sym (x.handed_on i lt ∙ rw c refl) ∙ e in
              x.others_same j (λ same. ground (arith, c, was ∙ ap proc_at same))
              ∙ f.parent_lives i j lt was
        ];
        numbered = λ i lt u. omega (arith, x.next_same, x.pid_same i, f.numbered i lt (used i u));
        distinct = λ i j li lj nij ui uj e.
            f.distinct i j li lj nij (used i ui) (used j uj)
              (sym (x.pid_same i) ∙ e ∙ x.pid_same j);
      }

  -- The entry of no process that lives becomes free.
  pub Freed-Family :
      {k l : Kernel M} (i : ℕ)
      → Family k
      → kind (k.proc i).state ≢ 1
      → OnlyAt i k l
      → k.nextpid ≤ l.nextpid
      → (l.proc i).state ≡ unused
      → (l.proc i).parent ≡ 0
      → Family l
  Freed-Family {k} {l} i f z kept next state parent =
      let other : (j : ℕ) → kind (l.proc j).state ≢ 0 → j ≢ i =
        λ j q eq. q (ap (λ x. kind (l.proc x).state) eq ∙ ap kind state) in
      let living : (j : ℕ) → kind (k.proc j).state ≡ 1 → j ≢ i =
        λ j q eq. z (ap (λ x. kind (k.proc x).state) (sym eq) ∙ q) in
      let same : (j : ℕ) → j ≢ i → l.proc j ≡ k.proc j = kept.others in
      record {
        init_lives = λ r e.
            let live = f.init_lives r (sym kept.init_kept ∙ e) in
            ap (λ (p : Proc). kind p.state) (same r (living r live)) ∙ live;
        parent_lives = λ j r lt e. elim (eq_cases j i) [
          | inl eq ↦ ground (arith, sym parent ∙ ap (λ x. (l.proc x).parent) (sym eq) ∙ e)
          | inr ne ↦
              let live =
                f.parent_lives j r lt (sym (ap (λ (p : Proc). p.parent) (same j ne)) ∙ e) in
              ap (λ (p : Proc). kind p.state) (same r (living r live)) ∙ live
        ];
        numbered = λ j lt q.
            let was : l.proc j ≡ k.proc j = same j (other j q) in
            omega (
              arith,
              next,
              ap (λ (p : Proc). p.pid) was,
              f.numbered j lt (λ w. q (ap (λ (p : Proc). kind p.state) was ∙ w)),
            );
        distinct = λ a b la lb ne qa qb e.
            let wa : l.proc a ≡ k.proc a = same a (other a qa) in
            let wb : l.proc b ≡ k.proc b = same b (other b qb) in
            f.distinct a b la lb ne (λ w. qa (ap (λ (p : Proc). kind p.state) wa ∙ w))
              (λ w. qb (ap (λ (p : Proc). kind p.state) wb ∙ w))
              (sym (ap (λ (p : Proc). p.pid) wa) ∙ e ∙ ap (λ (p : Proc). p.pid) wb);
      }

  -- A new process whose parent lives, if it has one.
  pub New-Family :
      {k l : Kernel M} (i : ℕ)
      → Family k
      → ((r : ℕ) → l.initproc ≡ proc_at r → (r ≡ i) ⊎ (k.initproc ≡ proc_at r))
      → k.nextpid < 2 ^ 32 - 1
      → ((j : ℕ) → j ≢ i → l.proc j ≡ k.proc j)
      → l.nextpid ≡ u32 (k.nextpid + 1)
      → (l.proc i).pid ≡ k.nextpid
      → kind (l.proc i).state ≡ 1
      → ((r : ℕ) → (l.proc i).parent ≡ proc_at r → kind (k.proc r).state ≡ 1)
      → Family l
  New-Family {k} {l} i f init small same next pid live mine =
      let still : (r : ℕ) → kind (k.proc r).state ≡ 1 → kind (l.proc r).state ≡ 1 = λ r q.
        elim (eq_cases r i) [
          | inl eq ↦ ap (λ x. kind (l.proc x).state) eq ∙ live
          | inr ne ↦ ap (λ (p : Proc). kind p.state) (same r ne) ∙ q
        ] in
      let number : (j : ℕ)
          → j < nproc
          → kind (l.proc j).state ≢ 0
          → j ≢ i
          → (l.proc j).pid < k.nextpid =
        λ j lt q ne. omega (
          arith,
          ap (λ (p : Proc). p.pid) (same j ne),
          f.numbered j lt (λ w. q (ap (λ (p : Proc). kind p.state) (same j ne) ∙ w)),
        ) in
      record {
        init_lives = λ r e. elim (init r e) [
          | inl eq ↦ ap (λ x. kind (l.proc x).state) eq ∙ live
          | inr q ↦ still r (f.init_lives r q)
        ];
        parent_lives = λ j r lt e. elim (eq_cases j i) [
          | inl eq ↦ still r (mine r (ap (λ x. (l.proc x).parent) (sym eq) ∙ e))
          | inr ne ↦
              still r (f.parent_lives j r lt (sym (ap (λ (p : Proc). p.parent) (same j ne)) ∙ e))
        ];
        numbered = λ j lt q. elim (eq_cases j i) [
          | inl eq ↦ omega (arith, ap (λ x. (l.proc x).pid) eq, pid, next, small)
          | inr ne ↦ omega (arith, number j lt q ne, next, small)
        ];
        distinct = λ a b la lb ne qa qb e. elim (eq_cases a i) [
          | inl eq ↦
              let nb : b ≢ i = λ w. ne (eq ∙ sym w) in
              omega (arith, number b lb qb nb, ap (λ x. (l.proc x).pid) eq, pid, e)
          | inr na ↦ elim (eq_cases b i) [
            | inl eq ↦ omega (arith, number a la qa na, ap (λ x. (l.proc x).pid) eq, pid, e)
            | inr nb ↦
                f.distinct a b la lb ne (λ w. qa (ap (λ (p : Proc). kind p.state) (same a na) ∙ w))
                  (λ w. qb (ap (λ (p : Proc). kind p.state) (same b nb) ∙ w))
                  (sym (ap (λ (p : Proc). p.pid) (same a na))
                    ∙ e
                    ∙ ap (λ (p : Proc). p.pid) (same b nb))
          ]
        ];
      }
