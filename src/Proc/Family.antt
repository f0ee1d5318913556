-- ===== src/Proc/Family.antt =====
-- The table of riscv/kernel/proc.c in every run of the processes.
use learn_xv.Prelude.{
  ℕ, ◌+◌, ◌-◌, ◌^◌, ◌≡◌, ◌≢◌, ◌<◌, ◌≤◌, refl, sym, ap, subst, ◌∙◌, inl, inr, ◌==◌, arith, u32,
  update, update_self, update_ne, Bool-cases, panic, sleeps, Run, After, Option, if_true,
}
use learn_xv.Proc.State.{runnable, Proc, Kernel, Resources, proc_at}
use learn_xv.Proc.Table.{freed}
use learn_xv.Proc.Fork.{user_entry, userinit, kfork}
use learn_xv.Proc.Exit.{kexit, gone}
use learn_xv.Proc.Kinds.{
  kind, sleep_on-Calm, awake-Calm, wakeup-Calm, kkill-Calm, yield_cpu-Calm, set_proc-Calm,
}
use learn_xv.Proc.Allocated.{Allocated, allocproc_cases}
use learn_xv.Proc.Forked.{no_memory, no_copy, forks, kfork-Child}
use learn_xv.Proc.Exited.{kexit-Exited}
use learn_xv.Proc.Reaped.{Waited, takes, fails, gives_up, waits, kwait-Waited}
use learn_xv.Proc.Steps.{
  forks, exits, waits_done, waits_more, goes_to_sleep, tidies_up, wakes, kills, yields, runs, start,
  later, Runs, Step, IsEmpty, Reach, Family, Calm-Family, Exited-Family, Freed-Family, New-Family,
}

module _ {M : Type 0} where
  first-Family :
      (i : ℕ) (root : ℕ × M) (k l : Kernel M)
      → Family k
      → IsEmpty k
      → Allocated i k l
      → Family (user_entry i root l)
  first-Family i root k l f v a =
      let u = user_entry i root l in
      let q = record (l.proc i) { cwd = root.0; state = runnable } in
      let new : update l.proc i q i ≡ q = update_self l.proc i q in
      New-Family {k = k} {l = u} i f (λ r e. inl (omega (arith, e))) (omega (arith, v.first_pid))
        (λ j ne. update_ne l.proc i q j ne ∙ a.kept.others j ne) a.counted
        (ap (λ (p : Proc). p.pid) new ∙ a.pid_new) (ap (λ (p : Proc). kind p.state) new)
        (λ r e. ground (arith, ap (λ (p : Proc). p.parent) new, a.parent_old, v.no_parents i, e))

  start-Family :
      (res : Resources M) (forkret : ℕ) (k : Kernel M)
      → IsEmpty k
      → After Family (userinit res forkret k)
  unfolding userinit
  start-Family res forkret k v =
      let empty : Family k = record {
        init_lives = λ r e. ground (arith, v.no_init, e);
        parent_lives = λ i j lt e. ground (arith, v.no_parents i, e);
        numbered = λ i lt u. elim (u (v.all_unused i lt)) [ ];
        distinct = λ i j li lj ne ui uj e. elim (ui (v.all_unused i li)) [ ];
      } in
      elim (allocproc_cases res forkret k) [
        | inl n ↦ rw (userinit, ap (λ (p : Option ℕ × Kernel M). p.0) n.0) tt
        | inr (i, z, lt, inl (n, u)) ↦ rw (userinit, n) tt
        | inr (i, z, lt, inr (s, a)) ↦ rw (userinit, s) (first-Family i _ k _ empty v a)
      ]

  fork-Family :
      (res : Resources M) (forkret me : ℕ) (k : Kernel M)
      → Family k
      → Runs me k
      → k.nextpid < 2 ^ 32 - 1
      → Family (kfork res forkret me k).1
  fork-Family res forkret me k f r small =
      let lives : kind (k.proc me).state ≡ 1 = ap kind r.is_running in
      let next : (l : Kernel M) → l.nextpid ≡ u32 (k.nextpid + 1) → k.nextpid ≤ l.nextpid =
        λ l c. omega (arith, c, small) in
      elim (kfork-Child res forkret me k (λ z. ground (arith, sym lives ∙ ap kind z))) [
        | inl (e, full) ↦ subst Family (sym (ap (λ (p : ℕ × Kernel M). p.1) e)) f
        | inr (i, z, lt, no_memory e s u) ↦
            Freed-Family i f (λ q. ground (arith, sym (ap kind z) ∙ q)) u.kept
              (next (kfork res forkret me k).1 u.counted) u.state_back u.parent_back
        | inr (i, z, lt, no_copy e s w u) ↦
            Freed-Family i f (λ q. ground (arith, sym (ap kind z) ∙ q)) u.kept
              (next (kfork res forkret me k).1 u.counted) u.state_back u.parent_back
        | inr (i, z, lt, forks e s w c m) ↦
            New-Family i f (λ p w. inr (sym c.kept.init_kept ∙ w)) small c.kept.others c.counted
              c.pid_new (ap kind c.ready)
              (λ p w.
                let same : me ≡ p = omega (arith, c.of_parent, w) in
                ap (λ x. kind (k.proc x).state) (sym same) ∙ lives)
      ]

  Waited-Family :
      (res : Resources M) (me addr : ℕ) (k : Kernel M)
      → Family k
      → Runs me k
      → (r : Run (Kernel M) ℕ) → Waited res me addr k r
      → After Family r
  Waited-Family res me addr k f run r (takes i z w) =
      let new : update k.proc i (freed (k.proc i)) i ≡ freed (k.proc i) = update_self k.proc i _ in
      Freed-Family i f (λ q. ground (arith, sym (ap kind z.exited) ∙ q))
        (record { init_kept = refl; others = update_ne k.proc i _ }) (omega arith)
        (ap (λ (p : Proc). p.state) new) (ap (λ (p : Proc). p.parent) new)
  Waited-Family res me addr k f run r (fails i z a c) = record {
    init_lives = f.init_lives;
    parent_lives = f.parent_lives;
    numbered = f.numbered;
    distinct = f.distinct;
  }
  Waited-Family res me addr k f run r (gives_up n w) = f
  Waited-Family res me addr k f run r (waits n j lt h d) =
      Calm-Family f (sleep_on-Calm me (proc_at me) k (ap kind run.is_running))

  exit-Family :
      (res : Resources M) (me status : ℕ) (k : Kernel M)
      → Family k
      → Runs me k
      → After Family (kexit res me status k)
  unfolding kexit
  exit-Family res me status k f run = elim (Bool-cases (proc_at me == k.initproc)) [
    | inl e ↦ subst (After Family) (sym (if_true panic (sleeps (gone res me status k)) e)) tt
    | inr e ↦
        let ne : proc_at me ≢ k.initproc = ground (arith, e) in
        let (eq, x) = kexit-Exited res me status k ne in
        subst (After Family) (sym eq) (Exited-Family me f ne (ap kind run.is_running) x)
  ]

  Step-Family :
      (res : Resources M) (forkret : ℕ) {k l : Kernel M}
      → Family k
      → Step res forkret k l
      → Family l
  Step-Family res forkret {k} f (forks me r small) = fork-Family res forkret me k f r small
  Step-Family res forkret {k} f (exits me status {l} r e) =
      subst (After Family) e (exit-Family res me status k f r)
  Step-Family res forkret {k} f (waits_done me addr pid {l} r e) =
      subst (After Family) e (Waited-Family res me addr k f r _ (kwait-Waited res me addr k))
  Step-Family res forkret {k} f (waits_more me addr {l} r e) =
      subst (After Family) e (Waited-Family res me addr k f r _ (kwait-Waited res me addr k))
  Step-Family res forkret {k} f (goes_to_sleep me chan r) =
      Calm-Family f (sleep_on-Calm me chan k (ap kind r.is_running))
  Step-Family res forkret {k} f (tidies_up me r) = Calm-Family f (awake-Calm me k)
  Step-Family res forkret {k} f (wakes p chan) = Calm-Family f (wakeup-Calm p chan k)
  Step-Family res forkret {k} f (kills pid) = Calm-Family f (kkill-Calm pid k)
  Step-Family res forkret {k} f (yields me r) =
      Calm-Family f (yield_cpu-Calm me k (ap kind r.is_running))
  Step-Family res forkret {k} f (runs i lt e) =
      Calm-Family f (set_proc-Calm k i _ refl refl (ap kind (sym e)))

  -- In every run of the processes from a table that holds init alone, as long as fewer than 2^32 have
  -- been made: the processes in the table have different numbers, below the next one, the parent of
  -- each of them lives, and so does init.
  pub reach-Family :
      {res : Resources M} {forkret : ℕ} {k : Kernel M} → Reach res forkret k → Family k
  reach-Family {res} {forkret} (start {k} {l} v e) =
      subst (After Family) e (start-Family res forkret k v)
  reach-Family {res} {forkret} (later r s) = Step-Family res forkret (reach-Family r) s
