-- ===== src/Proc/Meeting.antt =====
-- Where a process in `sleep` of riscv/kernel/proc.c and one that wakes it can be, and what holds of the
-- sleeper there. The condition lock is held where the sleeper is at `checking` and `entering`, and where
-- a waker is not idle; the lock of the process is held where the sleeper is at `entering`, `switching`
-- and `tidying`.
use learn_xv.Prelude.{
  ℕ, ◌≡◌, ◌≢◌, ◌⊎◌, refl, sym, ap, ◌∙◌, inl, inr, Bool, true, false, ◌==◌, ==_iff, arith,
}
use learn_xv.Proc.State.{ProcState, sleeping, runnable, is_state, Proc, Kernel}
use learn_xv.Proc.Sleep.{woken}

pub data SleeperAt : Type 0 where
  outside : SleeperAt
  -- Before it looks at the condition.
  checking : SleeperAt
  -- In `sleep`, after `acquire(&p->lock)`.
  entering : SleeperAt
  -- After `release(lk)`.
  switching : SleeperAt
  -- In `sched`.
  asleep : SleeperAt
  -- After `sched`.
  tidying : SleeperAt
  -- After `release(&p->lock)`.
  returning : SleeperAt

pub data WakerAt : Type 0 where
  idle : WakerAt
  -- Before it makes the condition true.
  changing : WakerAt
  -- In `wakeup`, before it comes to the sleeper's entry.
  waking : WakerAt
  -- After it.
  leaving : WakerAt

-- The locks are free for a waker.
abbrev pub lk_free : SleeperAt → Bool
lk_free checking = false
lk_free entering = false
lk_free p = true

abbrev pub proc_free : SleeperAt → Bool
proc_free entering = false
proc_free switching = false
proc_free tidying = false
proc_free p = true

pub data Meeting (M : Type 0) : Type 0 where
  meeting : Kernel M → (ready : Bool) → SleeperAt → WakerAt → Meeting M

-- The waker has not come to the sleeper, wherever the condition is true.
abbrev pub WillWake : Bool → WakerAt → Type 0
WillWake b w = b ≡ true → w ≡ waking

abbrev pub Fits : ℕ → SleeperAt → WakerAt → Bool → ProcState → ℕ → Type 0
Fits chan outside w b state c = Unit
Fits chan checking w b state c = w ≡ idle
Fits chan entering w b state c = (w ≡ idle) × (b ≡ false)
Fits chan switching w b state c = WillWake b w
Fits chan asleep w b state c = (state ≡ runnable) ⊎ ((state ≡ sleeping) × (c ≡ chan) × WillWake b w)
Fits chan tidying w b state c = Unit
Fits chan returning w b state c = Unit

abbrev to_come : WakerAt → Bool
to_come waking = true
to_come w = false

-- A waker that is past the sleeper's entry, or not in `wakeup` yet, will not come in this call.
not_coming : (b : Bool) (w v : WakerAt) → to_come w ≡ false → WillWake b w → WillWake b v
not_coming b w v n h e = ground (arith, sym n ∙ ap to_come (h e))

abbrev is_idle : WakerAt → Bool
is_idle idle = true
is_idle w = false

pub busy : (w : WakerAt) → is_idle w ≡ false → w ≢ idle
busy w n e = ground (arith, sym n ∙ ap is_idle e)

module _ (chan : ℕ) where
  pub lock_lem :
      (b : Bool) (p : SleeperAt) (state : ProcState) (c : ℕ)
      → lk_free p ≡ true
      → Fits chan p idle b state c
      → Fits chan p changing b state c
  lock_lem b outside state c e f = tt
  lock_lem b checking state c e f = ground (arith, e)
  lock_lem b entering state c e f = ground (arith, e)
  lock_lem b switching state c e f = not_coming b idle changing refl f
  lock_lem b asleep state c e (inl r) = inl r
  lock_lem b asleep state c e (inr (s, h, w)) = inr (s, h, not_coming b idle changing refl w)
  lock_lem b tidying state c e f = tt
  lock_lem b returning state c e f = tt

  pub change_lem :
      (b : Bool) (p : SleeperAt) (state : ProcState) (c : ℕ)
      → Fits chan p changing b state c
      → Fits chan p waking true state c
  change_lem b outside state c f = tt
  change_lem b checking state c f = elim (busy changing refl f) [ ]
  change_lem b entering state c f = elim (busy changing refl f.0) [ ]
  change_lem b switching state c f = λ e. refl
  change_lem b asleep state c (inl r) = inl r
  change_lem b asleep state c (inr (s, h, w)) = inr (s, h, λ e. refl)
  change_lem b tidying state c f = tt
  change_lem b returning state c f = tt

  -- What `wakeup` makes of a process that sleeps on its channel.
  pub woken-Runnable :
      (p : Proc) → p.state ≡ sleeping → p.chan ≡ chan → (woken chan p).state ≡ runnable
  woken-Runnable p s c =
      let t : is_state p.state sleeping ≡ true = ap (λ x. is_state x sleeping) s in
      let u : (p.chan == chan) ≡ true = (==_iff p.chan chan).1 c in rw (t, u) refl

  pub woken-stays : (p : Proc) → p.state ≡ runnable → (woken chan p).state ≡ runnable
  woken-stays p s =
      let t : is_state p.state sleeping ≡ false = ap (λ x. is_state x sleeping) s in rw t s

  pub unlock_lem :
      (b : Bool) (p : SleeperAt) (state : ProcState) (c : ℕ)
      → Fits chan p leaving b state c
      → Fits chan p idle b state c
  unlock_lem b outside state c f = tt
  unlock_lem b checking state c f = refl
  unlock_lem b entering state c f = (refl, f.1)
  unlock_lem b switching state c f = not_coming b leaving idle refl f
  unlock_lem b asleep state c (inl r) = inl r
  unlock_lem b asleep state c (inr (s, h, w)) = inr (s, h, not_coming b leaving idle refl w)
  unlock_lem b tidying state c f = tt
  unlock_lem b returning state c f = tt
