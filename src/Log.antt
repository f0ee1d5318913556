-- ===== src/Log.antt =====
-- riscv/kernel/log.c: the write-ahead log. One function for each function of the file; what one
-- holds `log.lock` for is one step. `sleep` is the result `none` of `try_begin`.
pub mod Absorb
pub mod Clear
pub mod Commit
pub mod Crash
mod Examples
pub mod Format
pub mod Head
pub mod Install
pub mod Recovery
pub mod Transactions
pub mod Write
use learn_xv.Prelude.{
  ℕ, zero, suc, ◌+◌, ◌-◌, ◌*◌, ◌%◌, ◌^◌, Bool, true, false, Option, none, some, if◌then◌else◌, ◌==◌,
  not, update, for_loop, ok, panic, sleeps, Cmd, u32, sub32, int_ltb, int_rounds,
}
use learn_xv.Store.{Block, Disk, Store, fill, bwrite, bpin, bunpin}

abbrev pub max_op_blocks : ℕ
max_op_blocks = 10

abbrev pub log_blocks : ℕ
log_blocks = max_op_blocks * 3

-- `struct log` with its `struct logheader`, beside the store that it works on.
pub record Log : Type 0 where
  pub store : Store
  pub start : ℕ
  pub outstanding : ℕ
  pub committing : Bool
  pub n : ℕ
  pub block : ℕ → ℕ

-- One round of `install_trans`.
unfoldable pub install_block : Bool → ℕ → Log → Log
unfolding fill bwrite bunpin
install_block recovering tail l =
    let dst = l.block tail in
    let copied = bwrite dst (fill dst (l.store.view (l.start + tail + 1)) l.store) in
    record l { store = if recovering then copied else bunpin dst copied }

unfoldable pub install_trans : Bool → Log → Log
install_trans recovering l = for_loop (install_block recovering) 0 (int_rounds l.n) l

-- The header block: word 0 is `lh->n`, word `i + 1` is `lh->block[i]`.
unfoldable pub read_head : Log → Log
read_head l =
    let lh = l.store.view l.start in
    for_loop (λ i m. record m { block = update m.block i (lh (i + 1)) }) 0 (int_rounds (lh 0))
      (record l { n = lh 0 })

-- The buffer's content after `write_head` filled in the header.
unfoldable pub head_block : Log → Block
head_block l =
    for_loop (λ i hb. update hb (i + 1) (l.block i)) 0 (int_rounds l.n)
      (update (l.store.view l.start) 0 l.n)

unfoldable pub write_head : Log → Log
unfolding head_block fill bwrite
write_head l = record l { store = bwrite l.start (fill l.start (head_block l) l.store) }

unfoldable pub recover_from_log : Log → Log
recover_from_log l = write_head (record (install_trans true (read_head l)) { n = 0 })

-- `initlog`; its size check, `4 + 4 * LOGBLOCKS < BSIZE`, is between constants and passes.
unfoldable pub initlog : ℕ → Log → Log
initlog logstart l = recover_from_log (record l { start = logstart })

-- One pass through the loop of `begin_op`: `none` where it sleeps.
unfoldable pub try_begin : Log → Option Log
try_begin l =
    if l.committing
    then none
    else if int_ltb log_blocks (u32 (l.n + u32 (l.outstanding + 1) * max_op_blocks))
    then none
    else some (record l { outstanding = u32 (l.outstanding + 1) })

-- One round of `write_log`.
unfoldable pub log_block : ℕ → Log → Log
unfolding fill bwrite
log_block tail l =
    let dst = l.start + tail + 1 in
    record l { store = bwrite dst (fill dst (l.store.view (l.block tail)) l.store) }

unfoldable pub write_log : Log → Log
write_log l = for_loop log_block 0 (int_rounds l.n) l

unfoldable pub commit : Log → Log
commit l =
    if int_ltb 0 l.n
    then write_head (record (install_trans false (write_head (write_log l))) { n = 0 })
    else l

-- `end_op` up to the first release, with `do_commit`; `wakeup` changes nothing of the log.
unfoldable pub leave_op : Cmd Log Bool
leave_op l =
    let out = sub32 l.outstanding 1 in
    if l.committing
    then panic
    else if out == 0
    then ok true (record l { outstanding = out; committing = true })
    else ok false (record l { outstanding = out })

unfoldable pub end_op : Cmd Log (Unit {0})
unfolding leave_op
end_op l = elim (leave_op l) [
  | ok do_commit m ↦ ok tt (if do_commit then record (commit m) { committing = false } else m)
  | panic ↦ panic
  | sleeps m ↦ sleeps m
]

-- The index at which the search loop of `log_write` stops.
unfoldable pub find_block : ℕ → ℕ → (ℕ → ℕ) → ℕ → ℕ
find_block zero i block b = i
find_block (suc r) i block b =
    let rest = find_block r (i + 1) block b in if block i == b then i else rest

unfoldable pub log_write : ℕ → Cmd Log (Unit {0})
unfolding find_block bpin
log_write b l =
    let i = find_block (int_rounds l.n) 0 l.block b in
    let written = record l { block = update l.block i b } in
    if not (int_ltb l.n log_blocks)
    then panic
    else if int_ltb l.outstanding 1
    then panic
    else if i == l.n
    then ok tt (record written { store = bpin b l.store; n = u32 (l.n + 1) })
    else ok tt written
