-- ===== src/Proc/Kinds.antt =====
-- The steps of riscv/kernel/proc.c that change no process into an entry, a child or a zombie.
use learn_xv.Prelude.{
  ℕ, ◌≡◌, refl, sym, ap, ◌∙◌, inl, inr, true, if◌then◌else◌, ◌==◌, ◌&&◌, arith, update, update_self,
  update_ne, eq_cases, Bool-cases, Option-cases, for_loop_inv,
}
use learn_xv.Proc.State.{
  nproc, ProcState, unused, used, sleeping, runnable, running, zombie, code, is_state, Proc, Kernel,
  proc_at, set_proc,
}
use learn_xv.Proc.Sleep.{
  woken, wakeup, wakeup_round, sleep_on, awake, kill_proc, find_pid, kkill, yield_cpu,
}

-- 0 for an unused entry, 2 for a zombie, and 1 for a process that lives.
abbrev pub kind : ProcState → ℕ
kind unused = 0
kind used = 1
kind sleeping = 1
kind runnable = 1
kind running = 1
kind zombie = 2

abbrev decode : ℕ → ProcState
decode n =
    if n == 0
    then unused
    else if n == 1
    then used
    else if n == 2
    then sleeping
    else if n == 3
    then runnable
    else if n == 4
    then running
    else zombie

decode-code : (a : ProcState) → decode (code a) ≡ a
decode-code unused = refl
decode-code used = refl
decode-code sleeping = refl
decode-code runnable = refl
decode-code running = refl
decode-code zombie = refl

pub is_state-eq : (a b : ProcState) → is_state a b ≡ true → a ≡ b
is_state-eq a b e =
    let same : code a ≡ code b = ground (arith, e) in
    sym (decode-code a) ∙ ap decode same ∙ decode-code b

woken-kind : (chan : ℕ) (p : Proc) → kind (woken chan p).state ≡ kind p.state
woken-kind chan p = elim (Bool-cases (is_state p.state sleeping)) [
  | inl e ↦
      let was : p.state ≡ sleeping = is_state-eq p.state sleeping e in
      elim (Bool-cases (p.chan == chan)) [
        | inl c ↦ rw (e, c) (ap kind (sym was))
        | inr c ↦ rw (e, c) refl
      ]
  | inr e ↦ rw e refl
]

woken-pid : (chan : ℕ) (p : Proc) → (woken chan p).pid ≡ p.pid
woken-pid chan p = elim (Bool-cases (is_state p.state sleeping && (p.chan == chan))) [
  | inl e ↦ rw e refl
  | inr e ↦ rw e refl
]

woken-parent : (chan : ℕ) (p : Proc) → (woken chan p).parent ≡ p.parent
woken-parent chan p = elim (Bool-cases (is_state p.state sleeping && (p.chan == chan))) [
  | inl e ↦ rw e refl
  | inr e ↦ rw e refl
]

module _ {M : Type 0} where
  -- The same entries in use, with the same process numbers and parents.
  pub record Calm (k l : Kernel M) : Type 0 where
    pub init_same : l.initproc ≡ k.initproc
    pub next_same : l.nextpid ≡ k.nextpid
    pub pid_same : (i : ℕ) → (l.proc i).pid ≡ (k.proc i).pid
    pub parent_same : (i : ℕ) → (l.proc i).parent ≡ (k.proc i).parent
    pub kind_same : (i : ℕ) → kind (l.proc i).state ≡ kind (k.proc i).state

  pub Calm-refl : (k : Kernel M) → Calm k k
  Calm-refl k = record {
    init_same = refl;
    next_same = refl;
    pid_same = λ i. refl;
    parent_same = λ i. refl;
    kind_same = λ i. refl;
  }

  pub Calm-trans : {k l m : Kernel M} → Calm k l → Calm l m → Calm k m
  Calm-trans a b = record {
    init_same = b.init_same ∙ a.init_same;
    next_same = b.next_same ∙ a.next_same;
    pid_same = λ i. b.pid_same i ∙ a.pid_same i;
    parent_same = λ i. b.parent_same i ∙ a.parent_same i;
    kind_same = λ i. b.kind_same i ∙ a.kind_same i;
  }

  -- What holds of a field at the new entry holds at each of the entries.
  pub set_proc-field {ℓ} :
      {A : Type ℓ} (f : Proc → A) (k : Kernel M) (i : ℕ) (p : Proc)
      → f p ≡ f (k.proc i)
      → (j : ℕ) → f ((set_proc i p k).proc j) ≡ f (k.proc j)
  set_proc-field f k i p e j = elim (eq_cases j i) [
    | inl same ↦
        ap (λ x. f (update k.proc i p x)) same
        ∙ ap f (update_self k.proc i p)
        ∙ e
        ∙ ap (λ x. f (k.proc x)) (sym same)
    | inr ne ↦ ap f (update_ne k.proc i p j ne)
  ]

  pub set_proc-Calm :
      (k : Kernel M) (i : ℕ) (p : Proc)
      → p.pid ≡ (k.proc i).pid
      → p.parent ≡ (k.proc i).parent
      → kind p.state ≡ kind (k.proc i).state
      → Calm k (set_proc i p k)
  set_proc-Calm k i p a b c = record {
    init_same = refl;
    next_same = refl;
    pid_same = set_proc-field (λ q. q.pid) k i p a;
    parent_same = set_proc-field (λ q. q.parent) k i p b;
    kind_same = set_proc-field (λ q. kind q.state) k i p c;
  }

  round-Calm : (myproc chan i : ℕ) (k : Kernel M) → Calm k (wakeup_round myproc chan i k)
  round-Calm myproc chan i k = elim (Bool-cases (proc_at i == myproc)) [
    | inl e ↦ rw e (Calm-refl k)
    | inr e ↦ rw e (
        set_proc-Calm k i (woken chan (k.proc i)) (woken-pid chan (k.proc i))
          (woken-parent chan (k.proc i)) (woken-kind chan (k.proc i)))
  ]

  pub wakeup-Calm : (myproc chan : ℕ) (k : Kernel M) → Calm k (wakeup myproc chan k)
  unfolding wakeup
  wakeup-Calm myproc chan k =
      for_loop_inv (wakeup_round myproc chan) (λ i l. Calm k l) nproc
        (λ i l lt c. Calm-trans c (round-Calm myproc chan i l)) k (Calm-refl k)

  pub sleep_on-Calm :
      (me chan : ℕ) (k : Kernel M) → kind (k.proc me).state ≡ 1 → Calm k (sleep_on me chan k)
  unfolding sleep_on
  sleep_on-Calm me chan k e = set_proc-Calm k me _ refl refl (sym e)

  pub awake-Calm : (me : ℕ) (k : Kernel M) → Calm k (awake me k)
  unfolding awake
  awake-Calm me k = set_proc-Calm k me _ refl refl refl

  pub yield_cpu-Calm :
      (me : ℕ) (k : Kernel M) → kind (k.proc me).state ≡ 1 → Calm k (yield_cpu me k)
  unfolding yield_cpu
  yield_cpu-Calm me k e = set_proc-Calm k me _ refl refl (sym e)

  kill_proc-Calm : (i : ℕ) (k : Kernel M) → Calm k (set_proc i (kill_proc (k.proc i)) k)
  kill_proc-Calm i k = elim (Bool-cases (is_state (k.proc i).state sleeping)) [
    | inl e ↦
        rw e
          (set_proc-Calm k i _ refl refl (ap kind (sym (is_state-eq (k.proc i).state sleeping e))))
    | inr e ↦ rw e (set_proc-Calm k i _ refl refl refl)
  ]

  pub kkill-Calm : (pid : ℕ) (k : Kernel M) → Calm k (kkill pid k).1
  unfolding kkill
  kkill-Calm pid k = elim (Option-cases (find_pid pid nproc 0 k)) [
    | inl n ↦ rw (kkill, n) (Calm-refl k)
    | inr (i, h) ↦ rw (kkill, h) (kill_proc-Calm i k)
  ]
