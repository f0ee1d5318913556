-- ===== src/Spinlock/Steps.antt =====
-- `acquire` and `release` of riscv/kernel/spinlock.c on several processors: one lock, and the
-- accesses to it in any order.
use learn_xv.Prelude.{ℕ, ◌≡◌, true, false, Option, some, none, ok, update}
use learn_xv.Spinlock.{
  Cpu, pop_off, Spinlock, initlock, acquire_enter, acquire_check, release_check, clear_cpu,
  test_and_set, record_cpu, release_enter, unlock,
}

-- Where a processor stands: outside; in `acquire` before `holding` reads `lk->cpu`, in the loop, and
-- after the swap; in its critical section; in `release` before `holding` reads `lk->cpu`, before that
-- is cleared, before the lock is given up, and after it.
pub data Phase : Type 0 where
  outside : Phase
  testing : Phase
  spinning : Phase
  swapped : Phase
  critical : Phase
  checking : Phase
  clearing : Phase
  leaving : Phase
  left : Phase

pub record System : Type 0 where
  pub lock : Spinlock
  pub phase : ℕ → Phase
  pub cpu : ℕ → Cpu

abbrev pub move : ℕ → Phase → System → System
move me p s = record s { phase = update s.phase me p }

pub data Step (me : ℕ) (s : System) : System → Type 0 where
  enter_free :
      {c : Cpu}
      → s.phase me ≡ outside
      → acquire_enter s.lock (s.cpu me) ≡ (false, c)
      → Step me s (record (move me spinning s) { cpu = update s.cpu me c })
  enter_taken :
      {c : Cpu}
      → s.phase me ≡ outside
      → acquire_enter s.lock (s.cpu me) ≡ (true, c)
      → Step me s (record (move me testing s) { cpu = update s.cpu me c })
  test :
      s.phase me ≡ testing → acquire_check me s.lock ≡ ok tt s.lock → Step me s (move me spinning s)
  spin : s.phase me ≡ spinning → test_and_set s.lock ≡ none → Step me s s
  swap :
      {lk : Spinlock}
      → s.phase me ≡ spinning
      → test_and_set s.lock ≡ some lk
      → Step me s (record (move me swapped s) { lock = lk })
  own :
      s.phase me ≡ swapped → Step me s (record (move me critical s) { lock = record_cpu me s.lock })
  leave :
      s.phase me ≡ critical → release_enter s.lock ≡ ok tt s.lock → Step me s (move me checking s)
  check :
      s.phase me ≡ checking
      → release_check me s.lock ≡ ok tt s.lock
      → Step me s (move me clearing s)
  clear : s.phase me ≡ clearing → Step me s (record (move me leaving s) { lock = clear_cpu s.lock })
  give_up : s.phase me ≡ leaving → Step me s (record (move me left s) { lock = unlock s.lock })
  exit :
      {c : Cpu}
      → s.phase me ≡ left
      → pop_off (s.cpu me) ≡ ok tt c
      → Step me s (record (move me outside s) { cpu = update s.cpu me c })

pub data Reach : System → Type 0 where
  start : {s : System} → s.lock ≡ initlock → ((i : ℕ) → s.phase i ≡ outside) → Reach s
  later : {me : ℕ} {s t : System} → Reach s → Step me s t → Reach t

-- Between the swap and the unlocking.
abbrev pub Holds : Phase → Type 0
Holds outside = ⊥
Holds testing = ⊥
Holds spinning = ⊥
Holds swapped = Unit
Holds critical = Unit
Holds checking = Unit
Holds clearing = Unit
Holds leaving = Unit
Holds left = ⊥

-- What `lk->cpu` is while processor `h` stands at a phase.
abbrev pub owner : ℕ → Phase → Option ℕ
owner h outside = none
owner h testing = none
owner h spinning = none
owner h swapped = none
owner h critical = some h
owner h checking = some h
owner h clearing = some h
owner h leaving = none
owner h left = none
