-- ===== src/Proc/Exited.antt =====
-- What kexit of riscv/kernel/proc.c does to the table: the process becomes a zombie, and its children
-- those of init.
use learn_xv.Prelude.{
  ℕ, suc, ◌≡◌, ◌≢◌, ◌<◌, ◌≤◌, refl, sym, ap, subst, ◌∙◌, inl, inr, true, false, if◌then◌else◌, ◌==◌,
  arith, update, update_self, update_ne, eq_cases, if_false, Bool-cases, for_loop, for_loop_inv,
  panic, sleeps,
}
use learn_xv.Proc.State.{nproc, nofile, zombie, Proc, Kernel, Resources, proc_at, set_proc}
use learn_xv.Proc.Sleep.{wakeup}
use learn_xv.Proc.Exit.{
  reparent, reparent_round, close_file, close_files, leave_cwd, become_zombie, gone, kexit,
}
use learn_xv.Proc.Kinds.{
  kind, Calm, Calm-refl, Calm-trans, set_proc-Calm, set_proc-field, wakeup-Calm,
}

module _ {M : Type 0} where
  -- The parent of an entry after `me` has handed on its children.
  abbrev pub handed : (me : ℕ) → Kernel M → ℕ → ℕ
  handed me k i = if (k.proc i).parent == proc_at me then k.initproc else (k.proc i).parent

  -- Of the entries below `n` the children of `me` have been handed on.
  pub record HandedOn (me : ℕ) (k : Kernel M) (n : ℕ) (l : Kernel M) : Type 0 where
    pub init_same : l.initproc ≡ k.initproc
    pub next_same : l.nextpid ≡ k.nextpid
    pub pid_same : (i : ℕ) → (l.proc i).pid ≡ (k.proc i).pid
    pub kind_same : (i : ℕ) → kind (l.proc i).state ≡ kind (k.proc i).state
    pub done : (i : ℕ) → i < n → (l.proc i).parent ≡ handed me k i
    pub rest : (i : ℕ) → n ≤ i → (l.proc i).parent ≡ (k.proc i).parent

  HandedOn-Calm :
      (me : ℕ) (k : Kernel M) (n : ℕ) (l m : Kernel M)
      → HandedOn me k n l
      → Calm l m
      → HandedOn me k n m
  HandedOn-Calm me k n l m h c = record {
    init_same = c.init_same ∙ h.init_same;
    next_same = c.next_same ∙ h.next_same;
    pid_same = λ i. c.pid_same i ∙ h.pid_same i;
    kind_same = λ i. c.kind_same i ∙ h.kind_same i;
    done = λ i lt. c.parent_same i ∙ h.done i lt;
    rest = λ i le. c.parent_same i ∙ h.rest i le;
  }

  -- The entry `i` gets the parent `p`.
  hand :
      (me : ℕ) (k : Kernel M) (i : ℕ) (l : Kernel M) (p : ℕ)
      → HandedOn me k i l
      → p ≡ handed me k i
      → HandedOn me k (suc i) (set_proc i (record (l.proc i) { parent = p }) l)
  hand me k i l p h e =
      let q = record (l.proc i) { parent = p } in
      record {
        init_same = h.init_same;
        next_same = h.next_same;
        pid_same = λ j. set_proc-field (λ x. x.pid) l i q refl j ∙ h.pid_same j;
        kind_same = λ j. set_proc-field (λ x. kind x.state) l i q refl j ∙ h.kind_same j;
        done = λ j lt. elim (eq_cases j i) [
          | inl same ↦
              ap (λ x. (update l.proc i q x).parent) same
              ∙ ap (λ (x : Proc). x.parent) (update_self l.proc i q)
              ∙ e
              ∙ ap (handed me k) (sym same)
          | inr ne ↦
              ap (λ (x : Proc). x.parent) (update_ne l.proc i q j ne)
              ∙ h.done j (omega (arith, lt, ne))
        ];
        rest = λ j le.
            ap (λ (x : Proc). x.parent) (update_ne l.proc i q j (omega (arith, le)))
            ∙ h.rest j (omega (arith, le));
      }

  round-HandedOn :
      (me : ℕ) (k : Kernel M) (i : ℕ) (l : Kernel M)
      → HandedOn me k i l
      → HandedOn me k (suc i) (reparent_round me i l)
  unfolding reparent_round
  round-HandedOn me k i l h =
      let same : (l.proc i).parent ≡ (k.proc i).parent = h.rest i (omega arith) in
      elim (Bool-cases ((l.proc i).parent == proc_at me)) [
        | inl e ↦
            let was : ((k.proc i).parent == proc_at me) ≡ true =
              ap (λ x. x == proc_at me) (sym same) ∙ e in
            rw e (
              HandedOn-Calm me k (suc i) _ _ (hand me k i l l.initproc h (rw was h.init_same))
                (wakeup-Calm (proc_at me) l.initproc _))
        | inr e ↦
            let was : ((k.proc i).parent == proc_at me) ≡ false =
              ap (λ x. x == proc_at me) (sym same) ∙ e in
            rw e (record {
              init_same = h.init_same;
              next_same = h.next_same;
              pid_same = h.pid_same;
              kind_same = h.kind_same;
              done = λ j lt. elim (eq_cases j i) [
                | inl eq ↦ subst (λ x. (l.proc x).parent ≡ handed me k x) (sym eq) (rw was same)
                | inr ne ↦ h.done j (omega (arith, lt, ne))
              ];
              rest = λ j le. h.rest j (omega (arith, le));
            })
      ]

  pub reparent-HandedOn : (me : ℕ) (k : Kernel M) → HandedOn me k nproc (reparent me k)
  unfolding reparent
  reparent-HandedOn me k =
      for_loop_inv (reparent_round me) (HandedOn me k) nproc (λ i l lt h. round-HandedOn me k i l h)
        k
        (record {
          init_same = refl;
          next_same = refl;
          pid_same = λ i. refl;
          kind_same = λ i. refl;
          done = λ i lt. elim lt [ ];
          rest = λ i le. refl;
        })

  -- The entry of a process that has exited.
  pub record Exited (me : ℕ) (k l : Kernel M) : Type 0 where
    pub init_same : l.initproc ≡ k.initproc
    pub next_same : l.nextpid ≡ k.nextpid
    pub pid_same : (i : ℕ) → (l.proc i).pid ≡ (k.proc i).pid
    pub others_same : (i : ℕ) → i ≢ me → kind (l.proc i).state ≡ kind (k.proc i).state
    pub is_zombie : (l.proc me).state ≡ zombie
    pub handed_on : (i : ℕ) → i < nproc → (l.proc i).parent ≡ handed me k i

  module _ (res : Resources M) (me : ℕ) where
    close_file-Calm : (fd : ℕ) (k : Kernel M) → Calm k (close_file res me fd k)
    close_file-Calm fd k = elim (Bool-cases ((k.proc me).ofile fd == 0)) [
      | inl e ↦ rw e (Calm-refl k)
      | inr e ↦ rw e (
          let c =
            set_proc-Calm k me (record (k.proc me) { ofile = update (k.proc me).ofile fd 0 }) refl
              refl refl in
          record {
            init_same = c.init_same;
            next_same = c.next_same;
            pid_same = c.pid_same;
            parent_same = c.parent_same;
            kind_same = c.kind_same;
          })
    ]

    left-Calm : (k : Kernel M) → Calm k (leave_cwd res me (close_files res me k))
    unfolding for_loop
    left-Calm k =
        let l = close_files res me k in
        let a : Calm k l =
          for_loop_inv (close_file res me) (λ fd m. Calm k m) nofile
            (λ fd m lt c. Calm-trans c (close_file-Calm fd m)) k (Calm-refl k) in
        let c = set_proc-Calm l me (record (l.proc me) { cwd = 0 }) refl refl refl in
        Calm-trans a (record {
          init_same = c.init_same;
          next_same = c.next_same;
          pid_same = c.pid_same;
          parent_same = c.parent_same;
          kind_same = c.kind_same;
        })

    handed-Calm : (k l : Kernel M) (i : ℕ) → Calm k l → handed me l i ≡ handed me k i
    handed-Calm k l i c =
        ap (λ p. if p == proc_at me then l.initproc else p) (c.parent_same i)
        ∙ ap (λ q. if (k.proc i).parent == proc_at me then q else (k.proc i).parent) c.init_same

    zombie-Exited :
        (k l m : Kernel M) (status : ℕ)
        → Calm k l
        → HandedOn me l nproc m
        → Exited me k (become_zombie me status m)
    zombie-Exited k l m status c h =
        let q = record (m.proc me) { xstate = status; state = zombie } in
        record {
          init_same = h.init_same ∙ c.init_same;
          next_same = h.next_same ∙ c.next_same;
          pid_same = λ i. set_proc-field (λ p. p.pid) m me q refl i ∙ h.pid_same i ∙ c.pid_same i;
          others_same = λ i ne.
              ap (λ (p : Proc). kind p.state) (update_ne m.proc me q i ne)
              ∙ h.kind_same i
              ∙ c.kind_same i;
          is_zombie = ap (λ (p : Proc). p.state) (update_self m.proc me q);
          handed_on = λ i lt.
              set_proc-field (λ p. p.parent) m me q refl i ∙ h.done i lt ∙ handed-Calm k l i c;
        }

    gone-Exited : (status : ℕ) (k : Kernel M) → Exited me k (gone res me status k)
    unfolding gone for_loop
    gone-Exited status k =
        let l = leave_cwd res me (close_files res me k) in
        let m = reparent me l in
        zombie-Exited k l (wakeup (proc_at me) (m.proc me).parent m) status (left-Calm k) (
          HandedOn-Calm me l nproc m _ (reparent-HandedOn me l)
            (wakeup-Calm (proc_at me) (m.proc me).parent m))

    pub kexit-Exited :
        (status : ℕ) (k : Kernel M)
        → proc_at me ≢ k.initproc
        → (kexit res me status k ≡ sleeps (gone res me status k))
          × Exited me k (gone res me status k)
    unfolding kexit
    kexit-Exited status k ne =
        let test : (proc_at me == k.initproc) ≡ false = ground (arith, ne) in
        (if_false panic (sleeps (gone res me status k)) test, gone-Exited status k)
