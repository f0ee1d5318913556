-- ===== src/Proc/Wakeups.antt =====
-- sleep and wakeup of riscv/kernel/proc.c between one process and those that wake it, with the steps
-- of `sleep` at which another processor can come in between.
use learn_xv.Prelude.{
  ℕ, ◌≡◌, ◌≢◌, ◌⊎◌, refl, sym, ap, ◌∙◌, inl, inr, Bool, true, false, ◌==◌, ==_ne, arith,
  update_self,
}
use learn_xv.Proc.State.{sleeping, runnable, running, Proc, Kernel, proc_at, set_proc}
use learn_xv.Proc.Sleep.{sleep_on, awake, woken, wakeup_round}
use learn_xv.Proc.Meeting.{
  SleeperAt, outside, checking, entering, switching, asleep, tidying, returning, WakerAt, idle,
  changing, waking, leaving, lk_free, proc_free, Meeting, meeting, WillWake, Fits, busy, lock_lem,
  change_lem, woken-Runnable, woken-stays, unlock_lem,
}

module _ {M : Type 0} (me chan : ℕ) where
  pub data Meets : Meeting M → Meeting M → Type 0 where
    arrives :
        {k : Kernel M} {b : Bool} → Meets (meeting k b outside idle) (meeting k b checking idle)
    -- It uses up the condition.
    finds : {k : Kernel M} → Meets (meeting k true checking idle) (meeting k false outside idle)
    calls_sleep :
        {k : Kernel M} → Meets (meeting k false checking idle) (meeting k false entering idle)
    lets_go :
        {k : Kernel M} {b : Bool} {w : WakerAt}
        → Meets (meeting k b entering w) (meeting k b switching w)
    parks :
        {k : Kernel M} {b : Bool} {w : WakerAt}
        → Meets (meeting k b switching w) (meeting (sleep_on me chan k) b asleep w)
    runs_again :
        {k : Kernel M} {b : Bool} {w : WakerAt}
        → (k.proc me).state ≡ runnable
        → Meets
            (meeting k b asleep w)
            (meeting (set_proc me (record (k.proc me) { state = running }) k) b tidying w)
    tidies :
        {k : Kernel M} {b : Bool} {w : WakerAt}
        → Meets (meeting k b tidying w) (meeting (awake me k) b returning w)
    comes_back :
        {k : Kernel M} {b : Bool} → Meets (meeting k b returning idle) (meeting k b checking idle)
    locks :
        {k : Kernel M} {b : Bool} {p : SleeperAt}
        → lk_free p ≡ true
        → Meets (meeting k b p idle) (meeting k b p changing)
    changes :
        {k : Kernel M} {b : Bool} {p : SleeperAt}
        → Meets (meeting k b p changing) (meeting k true p waking)
    wakes :
        {k : Kernel M} {b : Bool} {p : SleeperAt} (myproc : ℕ)
        → proc_at me ≢ myproc
        → proc_free p ≡ true
        → Meets (meeting k b p waking) (meeting (wakeup_round myproc chan me k) b p leaving)
    unlocks :
        {k : Kernel M} {b : Bool} {p : SleeperAt}
        → Meets (meeting k b p leaving) (meeting k b p idle)

  pub data Met : Meeting M → Type 0 where
    begins : {k : Kernel M} {b : Bool} → Met (meeting k b outside idle)
    goes_on : {s t : Meeting M} → Met s → Meets s t → Met t

  abbrev Fit : Meeting M → Type 0
  Fit (meeting k b p w) = Fits chan p w b (k.proc me).state (k.proc me).chan

  parked :
      (k : Kernel M) (b : Bool) (w : WakerAt)
      → WillWake b w
      → Fit (meeting (sleep_on me chan k) b asleep w)
  unfolding sleep_on
  parked k b w h =
      let new = update_self k.proc me (record (k.proc me) { chan = chan; state = sleeping }) in
      inr (ap (λ (p : Proc). p.state) new, ap (λ (p : Proc). p.chan) new, h)

  round-state :
      (k : Kernel M) (myproc : ℕ)
      → proc_at me ≢ myproc
      → ((wakeup_round myproc chan me k).proc me).state ≡ (woken chan (k.proc me)).state
  round-state k myproc ne =
      let t : (proc_at me == myproc) ≡ false = ==_ne _ _ ne in
      rw t (ap (λ (p : Proc). p.state) (update_self k.proc me (woken chan (k.proc me))))

  wake_lem :
      (k : Kernel M) (b : Bool) (p : SleeperAt) (myproc : ℕ)
      → proc_at me ≢ myproc
      → proc_free p ≡ true
      → Fit (meeting k b p waking)
      → Fit (meeting (wakeup_round myproc chan me k) b p leaving)
  wake_lem k b outside myproc ne e f = tt
  wake_lem k b checking myproc ne e f = elim (busy waking refl f) [ ]
  wake_lem k b entering myproc ne e f = ground (arith, e)
  wake_lem k b switching myproc ne e f = ground (arith, e)
  wake_lem k b asleep myproc ne e (inl r) =
      inl (round-state k myproc ne ∙ woken-stays chan (k.proc me) r)
  wake_lem k b asleep myproc ne e (inr (s, h, w)) =
      inl (round-state k myproc ne ∙ woken-Runnable chan (k.proc me) s h)
  wake_lem k b tidying myproc ne e f = ground (arith, e)
  wake_lem k b returning myproc ne e f = tt

  Meets-Fit : {s t : Meeting M} → Fit s → Meets s t → Fit t
  Meets-Fit f arrives = refl
  Meets-Fit f finds = tt
  Meets-Fit f calls_sleep = (refl, refl)
  Meets-Fit f (lets_go {k} {b} {w}) = λ e. ground (arith, sym e ∙ f.1)
  Meets-Fit f (parks {k} {b} {w}) = parked k b w f
  Meets-Fit f (runs_again e) = tt
  Meets-Fit f tidies = tt
  Meets-Fit f comes_back = refl
  Meets-Fit f (locks {k} {b} {p} e) = lock_lem chan b p _ _ e f
  Meets-Fit f (changes {k} {b} {p}) = change_lem chan b p _ _ f
  Meets-Fit f (wakes {k} {b} {p} myproc ne e) = wake_lem k b p myproc ne e f
  Meets-Fit f (unlocks {k} {b} {p}) = unlock_lem chan b p _ _ f

  Met-Fit : {s : Meeting M} → Met s → Fit s
  Met-Fit begins = tt
  Met-Fit (goes_on m s) = Meets-Fit (Met-Fit m) s

  -- In every interleaving of the process with those that make the condition true and call `wakeup`
  -- while they hold the condition lock: where the condition is true and the process is asleep, it can
  -- run already, or a waker that is still to come to its entry makes it so.
  pub no_lost_wakeup :
      {k : Kernel M} {w : WakerAt} (myproc : ℕ)
      → proc_at me ≢ myproc
      → Met (meeting k true asleep w)
      → ((k.proc me).state ≡ runnable)
        ⊎ ((w ≡ waking) × (((wakeup_round myproc chan me k).proc me).state ≡ runnable))
  no_lost_wakeup {k} {w} myproc ne m = elim (Met-Fit m) [
    | inl r ↦ inl r
    | inr (s, h, c) ↦ inr (c refl, round-state k myproc ne ∙ woken-Runnable chan (k.proc me) s h)
  ]
