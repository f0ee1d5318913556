-- ===== src/Proc/Reaped.antt =====
-- The child that kwait of riscv/kernel/proc.c takes out of the table.
use learn_xv.Prelude.{
  minus_one, ℕ, zero, suc, ◌+◌, ◌≡◌, ◌≢◌, ◌<◌, ◌≤◌, ◌⊎◌, refl, sym, ap, ◌∙◌, inl, inr, Bool, true,
  false, not, ◌||◌, if◌then◌else◌, ◌==◌, ==_iff, arith, Option, none, some, eq_cases, Bool-cases,
  subst, if_true, if_false, ok, sleeps, Run,
}
use learn_xv.Proc.State.{nproc, zombie, is_state, Kernel, Resources, proc_at, set_proc}
use learn_xv.Proc.Table.{freeproc, freed}
use learn_xv.Proc.Sleep.{sleep_on, is_killed}
use learn_xv.Proc.Exit.{scan, reap, kwait}
use learn_xv.Proc.Kinds.{is_state-eq}

module _ {M : Type 0} where
  pub record IsZombieChild (me i : ℕ) (k : Kernel M) : Type 0 where
    pub in_table : i < nproc
    pub of_me : (k.proc i).parent ≡ proc_at me
    pub exited : (k.proc i).state ≡ zombie

  abbrev pub has_child : (me i : ℕ) → Kernel M → Bool
  has_child me i k = (k.proc i).parent == proc_at me

  -- No child below `end` that stands at `i` or after it has exited; or there is none at all.
  abbrev pub NoneExited : (me i end : ℕ) → Kernel M → Type 0
  NoneExited me i end k =
      (j : ℕ) → i ≤ j → j < end → has_child me j k ≡ true → is_state (k.proc j).state zombie ≡ false

  abbrev pub NoChild : (me i end : ℕ) → Kernel M → Type 0
  NoChild me i end k = (j : ℕ) → i ≤ j → j < end → has_child me j k ≡ false

  -- What the scan from `i` to `end` comes to.
  data Scanned (me i end : ℕ) (kids : Bool) (k : Kernel M) : Bool × Option ℕ → Type 0 where
    found :
        (j : ℕ)
        → j < end
        → has_child me j k ≡ true
        → (k.proc j).state ≡ zombie
        → Scanned me i end kids k (true, some j)
    waiting :
        NoneExited me i end k
        → (kids ≡ true) ⊎ ((j : ℕ) × (j < end) × (has_child me j k ≡ true))
        → Scanned me i end kids k (true, none)
    childless : kids ≡ false → NoChild me i end k → Scanned me i end kids k (false, none)

  after_child :
      (me i end : ℕ) (kids : Bool) (k : Kernel M) (r : Bool × Option ℕ)
      → i < end
      → has_child me i k ≡ true
      → is_state (k.proc i).state zombie ≡ false
      → Scanned me (i + 1) end true k r
      → Scanned me i end kids k r
  after_child me i end kids k r lt c z (found j m h e) = found j m h e
  after_child me i end kids k r lt c z (waiting quiet some_kid) =
      waiting
        (λ j le m h. elim (eq_cases j i) [
          | inl same ↦ ap (λ x. is_state (k.proc x).state zombie) same ∙ z
          | inr ne ↦ quiet j (omega (arith, le, ne)) m h
        ])
        (inr (i, lt, c))
  after_child me i end kids k r lt c z (childless n none_at) = ground (arith, n)

  after_other :
      (me i end : ℕ) (kids : Bool) (k : Kernel M) (r : Bool × Option ℕ)
      → has_child me i k ≡ false
      → Scanned me (i + 1) end kids k r
      → Scanned me i end kids k r
  after_other me i end kids k r c (found j m h e) = found j m h e
  after_other me i end kids k r c (waiting quiet some_kid) =
      waiting
        (λ j le m h. elim (eq_cases j i) [
          | inl same ↦ ground (arith, sym h ∙ ap (λ x. has_child me x k) same ∙ c)
          | inr ne ↦ quiet j (omega (arith, le, ne)) m h
        ])
        some_kid
  after_other me i end kids k r c (childless n none_at) = childless n (λ j le m.
      elim (eq_cases j i) [
        | inl same ↦ ap (λ x. has_child me x k) same ∙ c
        | inr ne ↦ none_at j (omega (arith, le, ne)) m
      ])

  scan-Scanned :
      (me left i end : ℕ) (kids : Bool) (k : Kernel M)
      → i + left ≡ end
      → Scanned me i end kids k (scan me left i kids k)
  unfolding scan
  scan-Scanned me zero i end true k e = waiting (λ j le lt. ground (arith, le, lt, e)) (inl refl)
  scan-Scanned me zero i end false k e = childless refl (λ j le lt. ground (arith, le, lt, e))
  scan-Scanned me (suc left) i end kids k e = elim (Bool-cases (has_child me i k)) [
    | inl c ↦ elim (Bool-cases (is_state (k.proc i).state zombie)) [
      | inl z ↦ rw (scan, c, z) (found i (omega (arith, e)) c (is_state-eq _ _ z))
      | inr z ↦
          rw (scan, c, z)
            (after_child me i end kids k _ (omega (arith, e)) c z
              (scan-Scanned me left (i + 1) end true k (omega (arith, e))))
    ]
    | inr c ↦
        rw (scan, c)
          (after_other me i end kids k _ c
            (scan-Scanned me left (i + 1) end kids k (omega (arith, e))))
  ]

  module _ (res : Resources M) (me addr : ℕ) (k : Kernel M) where
    -- The table without the entry `i`.
    abbrev pub without : ℕ → M → Kernel M
    without i m = record (set_proc i (freed (k.proc i)) k) { memory = m }

    abbrev pub copied : ℕ → Bool × M
    copied i = res.copyout_int (k.proc me).pagetable addr (k.proc i).xstate k.memory

    -- The memory when the child's trapframe and page table were given back.
    abbrev pub given_back : ℕ → M → M
    given_back i m =
        let p = k.proc i in
        let m1 = if p.trapframe == 0 then m else res.kfree p.trapframe m in
        if p.pagetable == 0 then m1 else res.proc_freepagetable p.pagetable p.sz m1

    -- The memory after the exit status was written to `addr`, where that is not null.
    abbrev pub after_copy : ℕ → M
    after_copy i = if addr == 0 then k.memory else (copied i).1

    -- What a pass of `kwait` may come to.
    pub data Waited : Run (Kernel M) ℕ → Type 0 where
      takes :
          (i : ℕ)
          → IsZombieChild me i k
          → (addr ≡ 0) ⊎ ((addr ≢ 0) × ((copied i).0 ≡ false))
          → Waited (ok (k.proc i).pid (without i (given_back i (after_copy i))))
      fails :
          (i : ℕ)
          → IsZombieChild me i k
          → addr ≢ 0
          → (copied i).0 ≡ true
          → Waited (ok minus_one (record k { memory = (copied i).1 }))
      gives_up :
          NoneExited me 0 nproc k
          → NoChild me 0 nproc k ⊎ (is_killed me k ≡ true)
          → Waited (ok minus_one k)
      waits :
          NoneExited me 0 nproc k
          → (j : ℕ) → j < nproc
          → has_child me j k ≡ true
          → is_killed me k ≡ false
          → Waited (sleeps (sleep_on me (proc_at me) k))

    unfoldable kwait_with : Bool × Option ℕ → Run (Kernel M) ℕ
    unfolding reap is_killed sleep_on
    kwait_with r = elim r.1 [
      | some i ↦ let (result, k1) = reap res me addr i k in ok result k1
      | none ↦
          if not r.0 || is_killed me k then ok minus_one k else sleeps (sleep_on me (proc_at me) k)
    ]

    reap-Waited : (i : ℕ) → IsZombieChild me i k → Waited (kwait_with (true, some i))
    unfolding reap freeproc kwait_with
    reap-Waited i z = elim (Bool-cases (addr == 0)) [
      | inl e ↦
          rw (reap, e)
            (subst (λ m. Waited (ok (k.proc i).pid (without i (given_back i m))))
              (if_true k.memory (copied i).1 e) (takes i z (inl (ground (arith, e)))))
      | inr e ↦ elim (Bool-cases (copied i).0) [
        | inl f ↦ rw (reap, e, f) (fails i z (ground (arith, e)) f)
        | inr f ↦
            rw (reap, e, f)
              (subst (λ m. Waited (ok (k.proc i).pid (without i (given_back i m))))
                (if_false k.memory (copied i).1 e) (takes i z (inr (ground (arith, e), f))))
      ]
    ]

    Scanned-Waited : (r : Bool × Option ℕ) → Scanned me 0 nproc false k r → Waited (kwait_with r)
    unfolding is_killed sleep_on kwait_with
    Scanned-Waited r (found j lt h e) =
        reap-Waited j (record { in_table = lt; of_me = (==_iff _ _).0 h; exited = e })
    Scanned-Waited r (waiting quiet (inl n)) = ground (arith, n)
    Scanned-Waited r (waiting quiet (inr (j, lt, h))) = elim (Bool-cases (is_killed me k)) [
      | inl d ↦ rw d (gives_up quiet (inr d))
      | inr d ↦ rw d (waits quiet j lt h d)
    ]
    Scanned-Waited r (childless n none_at) =
        gives_up (λ j le lt h. ground (arith, h, none_at j le lt)) (inl none_at)

    pub kwait-Waited : Waited (kwait res me addr k)
    unfolding kwait kwait_with
    kwait-Waited = Scanned-Waited _ (scan-Scanned me nproc 0 nproc false k refl)
