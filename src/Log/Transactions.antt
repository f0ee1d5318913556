-- ===== src/Log/Transactions.antt =====
-- Several file-system calls share the log of riscv/kernel/log.c: `begin_op`, `log_write` and
-- `end_op` of different processes in any order, a critical section at a time.
use learn_xv.Prelude.{
  ℕ, zero, suc, ◌+◌, ◌-◌, ◌*◌, ◌≤◌, ◌<◌, ◌≡◌, ◌⊎◌, inl, inr, Bool, true, false, none, some, List,
  [], ◌∷◌, arith, length, get_elem?, set, length-set, ok, panic, refl, ap, ◌∙◌, ◌≢◌, Bool-cases,
  int_ltb, int_rounds, for_loop_inv,
}
use learn_xv.Store.{Store}
use learn_xv.Log.{
  Log, max_op_blocks, log_blocks, try_begin, log_write, leave_op, commit, write_head, write_log,
  log_block, install_trans, install_block,
}

-- The log, and for each call in progress how often it has called `log_write`.
pub record System : Type 0 where
  pub log : Log
  pub used : List ℕ

abbrev pub remove : List ℕ → ℕ → List ℕ
remove [] i = []
remove (u ∷ us) zero = us
remove (u ∷ us) (suc i) = u ∷ remove us i

-- `finish` is the rest of an `end_op` that found no other call in progress. `edit` is everything
-- that the calls do to the buffers.
pub data Step (s : System) : System → Type 0 where
  begin : {l : Log} → try_begin s.log ≡ some l → Step s (record { log = l; used = 0 ∷ s.used })
  edit : (store : Store) → Step s (record s { log = record s.log { store = store } })
  write :
      (i u b : ℕ) {l : Log}
      → get_elem? s.used i ≡ some u
      → u < max_op_blocks
      → log_write b s.log ≡ ok tt l
      → Step s (record { log = l; used = set s.used i (suc u) })
  leave :
      (i : ℕ) {do_commit : Bool} {l : Log}
      → i < length s.used
      → leave_op s.log ≡ ok do_commit l
      → Step s (record { log = l; used = remove s.used i })
  finish :
      s.log.committing ≡ true
      → Step s (record s { log = record (commit s.log) { committing = false } })

-- The log as `initlog` leaves it, and no call in progress.
pub record IsIdle (s : System) : Type 0 where
  pub empty : s.log.n ≡ 0
  pub nobody : s.log.outstanding ≡ 0
  pub quiet : s.log.committing ≡ false
  pub used : s.used ≡ []

pub data Reach : System → Type 0 where
  start : {s : System} → IsIdle s → Reach s
  later : {s t : System} → Reach s → Step s t → Reach t

-- The `log_write`s that the calls in progress may still make.
abbrev left : List ℕ → ℕ
left [] = 0
left (u ∷ us) = max_op_blocks - u + left us

record Inv (s : System) : Type 0 where
  counted : s.log.outstanding ≡ length s.used
  few : length s.used ≤ 3
  room : s.log.n + left s.used ≤ log_blocks
  alone : s.log.committing ≡ true → length s.used ≡ 0
  idle : length s.used ≡ 0 → s.log.committing ≡ false → s.log.n ≡ 0

left-le : (us : List ℕ) → left us ≤ max_op_blocks * length us
left-le [] = omega arith
left-le (u ∷ us) = omega (arith, left-le us)

left-set :
    (us : List ℕ) (i u : ℕ)
    → get_elem? us i ≡ some u
    → u < max_op_blocks
    → left (set us i (suc u)) + 1 ≡ left us
left-set [] i u e h = ground arith
left-set (x ∷ us) zero u e h = ground arith
left-set (x ∷ us) (suc i) u e h = omega (arith, left-set us i u e h)

left-get : (us : List ℕ) (i u : ℕ) → get_elem? us i ≡ some u → max_op_blocks - u ≤ left us
left-get [] i u e = ground arith
left-get (x ∷ us) zero u e = ground arith
left-get (x ∷ us) (suc i) u e = omega (arith, left-get us i u e)

length-get : (us : List ℕ) (i u : ℕ) → get_elem? us i ≡ some u → 0 < length us
length-get [] i u e = ground arith
length-get (x ∷ us) i u e = omega arith

left-remove : (us : List ℕ) (i : ℕ) → left (remove us i) ≤ left us
left-remove [] i = omega arith
left-remove (x ∷ us) zero = omega arith
left-remove (x ∷ us) (suc i) = omega (arith, left-remove us i)

length-remove : (us : List ℕ) (i : ℕ) → i < length us → length (remove us i) + 1 ≡ length us
length-remove [] i h = omega arith
length-remove (x ∷ us) zero h = omega arith
length-remove (x ∷ us) (suc i) h = omega (arith, length-remove us i)

begin-Inv :
    (s : System) {l : Log}
    → Inv s
    → try_begin s.log ≡ some l
    → Inv (record { log = l; used = 0 ∷ s.used })
unfolding try_begin
begin-Inv s v e = ground (arith, left-le s.used)

write-Inv :
    (s : System) (i u b : ℕ) {l : Log}
    → Inv s
    → get_elem? s.used i ≡ some u
    → u < max_op_blocks
    → log_write b s.log ≡ ok tt l
    → Inv (record { log = l; used = set s.used i (suc u) })
unfolding log_write
write-Inv s i u b v e h w =
    ground (arith, left-set s.used i u e h, length-get s.used i u e, length-set s.used i (suc u))

leave-Inv :
    (s : System) (i : ℕ) {do_commit : Bool} {l : Log}
    → Inv s
    → i < length s.used
    → leave_op s.log ≡ ok do_commit l
    → Inv (record { log = l; used = remove s.used i })
unfolding leave_op
leave-Inv s i v h e = ground (arith, left-remove s.used i, length-remove s.used i h)

write_head-outstanding : (l : Log) → (write_head l).outstanding ≡ l.outstanding
unfolding write_head
write_head-outstanding l = refl

write_log-outstanding : (l : Log) → (write_log l).outstanding ≡ l.outstanding
unfolding write_log log_block
write_log-outstanding l =
    for_loop_inv log_block (λ k m. m.outstanding ≡ l.outstanding) (int_rounds l.n) (λ k m h e. e) l
      refl

install_trans-outstanding :
    (recovering : Bool) (l : Log) → (install_trans recovering l).outstanding ≡ l.outstanding
unfolding install_trans install_block
install_trans-outstanding recovering l =
    for_loop_inv (install_block recovering) (λ k m. m.outstanding ≡ l.outstanding) (int_rounds l.n)
      (λ k m h e. e) l refl

-- `commit` empties the log in memory and leaves the count of calls alone.
pub commit-counters :
    (l : Log) → l.n ≤ log_blocks → ((commit l).n ≡ 0) × ((commit l).outstanding ≡ l.outstanding)
unfolding commit write_head
commit-counters l h = elim (Bool-cases (int_ltb 0 l.n)) [
  | inl e ↦
      rw e
        (refl, install_trans-outstanding false (write_head (write_log l)) ∙ write_log-outstanding l)
  | inr e ↦ rw e (ground arith, refl)
]

finish-Inv :
    (s : System)
    → Inv s
    → s.log.committing ≡ true
    → Inv (record s { log = record (commit s.log) { committing = false } })
finish-Inv s v e =
    let (n, out) = commit-counters s.log (omega (arith, v.room)) in
    record {
      counted = out ∙ v.counted;
      few = v.few;
      room = omega (arith, v.room);
      alone = λ h. cc;
      idle = λ h h'. n;
    }

Step-Inv : {s t : System} → Step s t → Inv s → Inv t
Step-Inv {s} (begin e) v = begin-Inv s v e
Step-Inv (edit store) v = record {
  counted = v.counted;
  few = v.few;
  room = v.room;
  alone = v.alone;
  idle = v.idle;
}
Step-Inv {s} (write i u b e h w) v = write-Inv s i u b v e h w
Step-Inv {s} (leave i h e) v = leave-Inv s i v h e
Step-Inv {s} (finish e) v = finish-Inv s v e

IsIdle-Inv : {s : System} → IsIdle s → Inv s
IsIdle-Inv {s} idle = ground (arith, ap length idle.used, ap left idle.used)

Reach-Inv : {s : System} → Reach s → Inv s
Reach-Inv (start idle) = IsIdle-Inv idle
Reach-Inv (later r st) = Step-Inv st (Reach-Inv r)

-- A call that stays within its `MAXOPBLOCKS` writes never meets the panics of `log_write`, and no
-- call meets that of `end_op`, however the calls interleave.
pub no_panic :
    {s : System} (i u b : ℕ)
    → Reach s
    → get_elem? s.used i ≡ some u
    → (u < max_op_blocks → log_write b s.log ≢ panic) × (leave_op s.log ≢ panic)
unfolding log_write leave_op
no_panic {s} i u b r e =
    let v = Reach-Inv r in
    (
      λ h. ground (arith, left-get s.used i u e, length-get s.used i u e, v.room, v.few),
      ground (arith, v.alone, length-get s.used i u e),
    )

-- `begin_op` never sleeps without a call in progress or a commit to wake it.
pub begin_progress :
    {s : System}
    → Reach s
    → try_begin s.log ≡ none
    → (s.log.committing ≡ true) ⊎ (0 < length s.used)
unfolding try_begin
begin_progress {s} r e = ground (arith, Reach-Inv r)
