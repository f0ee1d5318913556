-- ===== src/Bio/Examples.antt =====
-- Runs of riscv/kernel/bio.c, and the theorems at them.
use learn_xv.Prelude.{
  ℕ, ◌+◌, ◌<◌, ◌≡◌, refl, arith, false, List, zero, suc, [], ◌∷◌, Run, ok, for_loop, Ends, ltb→lt,
  ltb, holds_below, holds_below-at, ◌^◌,
}
use learn_xv.Store.{Disk}
use learn_xv.Bio.{
  Buf, Cache, nbuf, unlocked, walk, binit, init_buf, push_front, take_buf, bget, bread, read_in,
  acquiresleep, brelse,
}
use learn_xv.Bio.Moves.{countdown}
use learn_xv.Bio.Taken.{IsFull, Taken, take_buf-Taken}
use learn_xv.Bio.Coherence.{Coherent}
use learn_xv.Bio.Access.{FewRefs, Reads, Locked, bread-Reads}
use learn_xv.Bio.Release.{brelse_lem, released}
use learn_xv.Bio.Start.{IsBlank, binit-IsFull, binit-Coherent}

abbrev disk : Disk
disk n i = n

abbrev blank_buf : Buf
blank_buf = record {
  valid = false;
  dev = 0;
  blockno = 0;
  lock = unlocked;
  refcnt = 0;
  content = λ i. 0;
}

abbrev blank : Cache
blank = record { buf = λ b. blank_buf; prev = λ b. 0; next = λ b. 0; disk = disk; past = [] }

blank-IsBlank : IsBlank blank
blank-IsBlank = record { invalid = λ b. refl; dev = λ b. refl }

binit-Coherent_example : IsFull (binit blank) (countdown nbuf) × Coherent 1 (binit blank) disk
binit-Coherent_example = binit-Coherent blank 1 blank-IsBlank (omega arith)

binit-IsRing_example : IsFull (binit blank) (countdown nbuf)
binit-IsRing_example = binit-IsFull blank

-- The first `bread` takes the buffer that `binit` put in first, number 0.
abbrev which : Run Cache ℕ → ℕ
which (ok b c) = b
which _ = 99

first_read : which (bread 7 1 45 (binit blank)) ≡ 0
unfolding bread bget take_buf walk read_in acquiresleep binit init_buf push_front for_loop
first_read = refl

take_buf-Taken_example : Taken (binit blank) (countdown nbuf) 1 45 (take_buf 1 45 (binit blank))
take_buf-Taken_example = take_buf-Taken 1 45 (binit-IsFull blank)

few : FewRefs (binit blank)
unfolding binit init_buf push_front for_loop holds_below
few b h =
    ltb→lt _ _ (holds_below-at (λ b. ltb (((binit blank).buf b).refcnt + 1) (2 ^ 32)) 30 b h refl)

bread-Reads_example : Reads 7 1 45 disk (countdown nbuf) (binit blank) (bread 7 1 45 (binit blank))
bread-Reads_example = let (full, co) = binit-Coherent_example in bread-Reads 7 1 45 full co few

-- The cache after that read.
after_read : Cache
after_read = elim (bread 7 1 45 (binit blank)) [ ok b c ↦ c | _ ↦ blank ]

after_read-holds :
    IsFull after_read (countdown nbuf)
    × Coherent 1 after_read disk
    × (◌<◌ 0 nbuf)
    × Locked 7 1 45 disk (after_read.buf 0)
unfolding after_read bread bget take_buf walk read_in acquiresleep binit init_buf push_front
    for_loop
after_read-holds = bread-Reads_example

after_read-few : FewRefs after_read
unfolding after_read bread bget take_buf walk read_in acquiresleep binit init_buf push_front
    for_loop holds_below
after_read-few b h =
    ltb→lt _ _ (holds_below-at (λ b. ltb ((after_read.buf b).refcnt + 1) (2 ^ 32)) 30 b h refl)

after_read-clean : after_read.disk 45 ≡ disk 45
unfolding after_read bread bget take_buf walk read_in acquiresleep binit init_buf push_front
    for_loop
after_read-clean = refl

-- 29, 28, and so on down to 1.
abbrev front : ℕ → List ℕ
front zero = []
front (suc k) = suc k ∷ front k

brelse_lem_example :
    Ends
      (λ _ e.
        Coherent 1 e disk
        × IsFull e (released (after_read.buf 0) (front 29) 0 [])
        × ((e.buf 0).lock.locked ≡ false)
        × ((e.buf 0).refcnt + 1 ≡ (after_read.buf 0).refcnt))
      (brelse 7 0 after_read)
brelse_lem_example =
    let (full, co, h, l) = after_read-holds in
    brelse_lem 0 (front 29) [] co full h l after_read-few (λ e. after_read-clean)
