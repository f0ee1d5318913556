-- ===== src/Bio.antt =====
-- riscv/kernel/bio.c: the buffer cache, with the sleep lock of each buffer
-- (riscv/kernel/sleeplock.c). What a function holds `bcache.lock` for is one step. Buffers are
-- numbered from 0 to `NBUF - 1` as in `bcache.buf`, and `bcache.head` is number `NBUF`.
pub mod Access
pub mod Coherence
pub mod Links
pub mod Moves
pub mod Order
mod Examples
pub mod Release
pub mod Start
pub mod Taken
use learn_xv.Prelude.{
  ℕ, zero, suc, ◌+◌, ◌*◌, Bool, true, false, ◌&&◌, Option, none, some, List, ◌∷◌, if◌then◌else◌,
  ◌==◌, not, update, for_loop, Run, ok, panic, sleeps, Cmd, ◌>>=◌, ◌>>◌, u32, sub32,
}
use learn_xv.Store.{Block, Disk}

abbrev pub nbuf : ℕ
nbuf = 30

abbrev pub head : ℕ
head = nbuf

-- `struct sleeplock`.
pub record Sleeplock : Type 0 where
  pub locked : Bool
  pub pid : ℕ

-- `struct buf`, its links apart.
pub record Buf : Type 0 where
  pub valid : Bool
  pub dev : ℕ
  pub blockno : ℕ
  pub lock : Sleeplock
  pub refcnt : ℕ
  pub content : Block

-- `bcache`, with the disk behind it and the disk's past.
pub record Cache : Type 0 where
  pub buf : ℕ → Buf
  pub prev : ℕ → ℕ
  pub next : ℕ → ℕ
  pub disk : Disk
  pub past : List Disk

abbrev pub set_buf : ℕ → Buf → Cache → Cache
set_buf b x c = record c { buf = update c.buf b x }

-- `b->next = head.next; b->prev = head; head.next->prev = b; head.next = b`.
unfoldable pub push_front : ℕ → Cache → Cache
push_front b c =
    let next = update c.next b (c.next head) in
    let prev = update c.prev b head in
    record c { prev = update prev (next head) b; next = update next head b }

-- `b->next->prev = b->prev; b->prev->next = b->next`.
unfoldable pub unlink : ℕ → Cache → Cache
unlink b c =
    let prev = update c.prev (c.next b) (c.prev b) in
    record c { prev = prev; next = update c.next (prev b) (c.next b) }

-- `initsleeplock`.
abbrev pub unlocked : Sleeplock
unlocked = record { locked = false; pid = 0 }

-- One round of `binit`.
unfoldable pub init_buf : ℕ → Cache → Cache
init_buf b c = push_front b (set_buf b (record (c.buf b) { lock = unlocked }) c)

unfoldable pub binit : Cache → Cache
binit c =
    for_loop init_buf 0 nbuf
      (record c { prev = update c.prev head head; next = update c.next head head })

-- `for (; b != &bcache.head; b = link(b)) if (test(b)) return b;`, on fuel.
unfoldable pub walk : ℕ → (ℕ → ℕ) → (ℕ → Bool) → ℕ → Option ℕ
walk zero link test b = none
walk (suc f) link test b =
    let rest = walk f link test (link b) in
    if b == head then none else if test b then some b else rest

-- The tests of the two loops of `bget`.
abbrev pub caches : Cache → ℕ → ℕ → ℕ → Bool
caches c dev blockno b = (c.buf b).dev == dev && (c.buf b).blockno == blockno

abbrev pub is_unused : Cache → ℕ → Bool
is_unused c b = (c.buf b).refcnt == 0

-- `bget` up to the release of `bcache.lock`. A walk of the list takes `NBUF + 1` rounds at most.
unfoldable pub take_buf : ℕ → ℕ → Cmd Cache ℕ
take_buf dev blockno c = elim (walk (suc nbuf) c.next (caches c dev blockno) (c.next head)) [
  | some b ↦ ok b (set_buf b (record (c.buf b) { refcnt = u32 ((c.buf b).refcnt + 1) }) c)
  | none ↦ elim (walk (suc nbuf) c.prev (is_unused c) (c.prev head)) [
    | some b ↦
        ok b (
          set_buf b (record (c.buf b) { dev = dev; blockno = blockno; valid = false; refcnt = 1 })
            c)
    | none ↦ panic
  ]
]

-- `acquiresleep(&b->lock)` by the process `pid`.
unfoldable pub acquiresleep : ℕ → ℕ → Cmd Cache (Unit {0})
acquiresleep pid b c =
    if (c.buf b).lock.locked
    then sleeps c
    else ok tt (set_buf b (record (c.buf b) { lock = record { locked = true; pid = pid } }) c)

unfoldable pub releasesleep : ℕ → Cache → Cache
releasesleep b c = set_buf b (record (c.buf b) { lock = unlocked }) c

unfoldable pub holdingsleep : ℕ → ℕ → Cache → Bool
holdingsleep pid b c = (c.buf b).lock.locked && (c.buf b).lock.pid == pid

unfoldable pub bget : ℕ → ℕ → ℕ → Cmd Cache ℕ
bget pid dev blockno = do b ← take_buf dev blockno; acquiresleep pid b; ok b

-- `virtio_disk_rw(b, 0)` and `virtio_disk_rw(b, 1)`: the device moves one block.
abbrev pub disk_read : ℕ → Cache → Cache
disk_read b c = set_buf b (record (c.buf b) { content = c.disk (c.buf b).blockno }) c

abbrev pub disk_write : ℕ → Cache → Cache
disk_write b c =
    let d = update c.disk (c.buf b).blockno (c.buf b).content in
    record c { disk = d; past = d ∷ c.past }

-- `bread` after `bget`.
unfoldable pub read_in : ℕ → Cache → Cache
read_in b c =
    if (c.buf b).valid
    then c
    else let r = disk_read b c in set_buf b (record (r.buf b) { valid = true }) r

unfoldable pub bread : ℕ → ℕ → ℕ → Cmd Cache ℕ
bread pid dev blockno = do b ← bget pid dev blockno; λ c. ok b (read_in b c)

unfoldable pub bwrite : ℕ → ℕ → Cmd Cache (Unit {0})
unfolding holdingsleep
bwrite pid b c = if not (holdingsleep pid b c) then panic else ok tt (disk_write b c)

-- `brelse` after `releasesleep`, under `bcache.lock`.
unfoldable pub drop_ref : ℕ → Cache → Cache
drop_ref b c =
    let refcnt = sub32 (c.buf b).refcnt 1 in
    let d = set_buf b (record (c.buf b) { refcnt = refcnt }) c in
    if refcnt == 0 then push_front b (unlink b d) else d

unfoldable pub brelse : ℕ → ℕ → Cmd Cache (Unit {0})
brelse pid b c = if not (holdingsleep pid b c) then panic else ok tt (drop_ref b (releasesleep b c))

unfoldable pub bpin : ℕ → Cache → Cache
bpin b c = set_buf b (record (c.buf b) { refcnt = u32 ((c.buf b).refcnt + 1) }) c

unfoldable pub bunpin : ℕ → Cache → Cache
bunpin b c = set_buf b (record (c.buf b) { refcnt = sub32 (c.buf b).refcnt 1 }) c
