-- ===== src/Content.antt =====
-- riscv/kernel/fs.c: the content of inodes, by bmap, itrunc, readi and writei. The inode is locked, and
-- its blocks are those that the buffer cache shows within the transaction.
mod Examples
pub mod Lookup
pub mod Read
use learn_xv.Prelude.{
  ℕ, zero, suc, ◌+◌, ◌-◌, ◌*◌, ◌/◌, ◌%◌, ◌^◌, min, Bool, true, false, if◌then◌else◌, ◌==◌, ltb, not,
  ◌||◌, List, [], ◌∷◌, ◌++◌, get_or, Option, none, some, minus_one, u32, update, Run, sleeps, ok,
  panic, Cmd, and_then,
}
use learn_xv.Blocks.{Superblock, Disk, balloc, bfree}

abbrev pub bsize : ℕ
bsize = 1024

abbrev pub ndirect : ℕ
ndirect = 12

-- `BSIZE / sizeof(uint)`.
abbrev pub nindirect : ℕ
nindirect = 256

abbrev pub maxfile : ℕ
maxfile = ndirect + nindirect

-- The fields of `struct inode` that tell where the content is, and the blocks.
pub record Opened : Type 0 where
  pub addrs : ℕ → ℕ
  pub size : ℕ
  pub disk : Disk

-- `((uint*)data)[i]`, by its bytes from the lowest.
abbrev pub word_at : (ℕ → ℕ) → ℕ → ℕ
word_at bytes i =
    bytes (4 * i)
    + bytes (4 * i + 1) * 2 ^ 8
    + bytes (4 * i + 2) * 2 ^ 16
    + bytes (4 * i + 3) * 2 ^ 24

unfoldable pub set_word_at : ℕ → ℕ → (ℕ → ℕ) → ℕ → ℕ
set_word_at i v bytes =
    update
      (update (update (update bytes (4 * i) (v % 2 ^ 8)) (4 * i + 1) (v / 2 ^ 8 % 2 ^ 8))
        (4 * i + 2) (v / 2 ^ 16 % 2 ^ 8))
      (4 * i + 3) (v / 2 ^ 24 % 2 ^ 8)

-- The bytes `from`, `from + 1` and so on, `n` of them.
abbrev pub slice : (ℕ → ℕ) → (from n : ℕ) → List ℕ
slice bytes from zero = []
slice bytes from (suc n) = bytes from ∷ slice bytes (from + 1) n

-- The bytes with a list written over them from `from` on.
abbrev pub overwrite : List ℕ → ℕ → (ℕ → ℕ) → ℕ → ℕ
overwrite [] from bytes = bytes
overwrite (x ∷ xs) from bytes = overwrite xs (from + 1) (update bytes from x)

module _ (sb : Superblock) where
  -- `balloc` for the address field `i` of the inode, which is 0.
  abbrev pub alloc_addr : ℕ → Cmd Opened ℕ
  unfolding balloc
  alloc_addr i s =
      let r = balloc sb s.disk in
      elim r.0 [
        | none ↦ ok 0 s
        | some addr ↦ ok addr (record s { addrs = update s.addrs i addr; disk = r.1 })
      ]

  -- The entry `bn` of the indirect block at `table`.
  unfoldable pub indirect : (table bn : ℕ) → Cmd Opened ℕ
  unfolding balloc set_word_at
  indirect table bn s =
      let addr = word_at (s.disk table) bn in
      let r = balloc sb s.disk in
      if addr == 0
      then elim r.0 [
        | none ↦ ok 0 s
        | some new ↦
            ok new (record s { disk = update r.1 table (set_word_at bn new (s.disk table)) })
      ]
      else ok addr s

  unfoldable pub bmap : ℕ → Cmd Opened ℕ
  unfolding indirect
  bmap bn s =
      if ltb bn ndirect
      then if s.addrs bn == 0 then alloc_addr bn s else ok (s.addrs bn) s
      else if ltb (bn - ndirect) nindirect
      then if s.addrs ndirect == 0
        then and_then (alloc_addr ndirect s)
            (λ table t. if table == 0 then ok 0 t else indirect table (bn - ndirect) t)
        else indirect (s.addrs ndirect) (bn - ndirect) s
      else panic

  -- `fails dst m` is how many of `m` bytes `either_copyout` to `dst` copies before it fails, if it does.
  -- The bytes that went there are the second result.
  module _ (fails : ℕ → ℕ → Option ℕ) where
    -- The loop of `readi`, for at most `rounds` rounds.
    unfoldable pub read_from : (rounds dst off n tot : ℕ) (out : List ℕ) → Cmd Opened (ℕ × List ℕ)
    unfolding bmap
    read_from zero dst off n tot out s = ok (tot, out) s
    read_from (suc rounds) dst off n tot out s = elim (ltb tot n) [
      | false ↦ ok (tot, out) s
      | true ↦ and_then (bmap (off / bsize) s) (λ addr t. elim (addr == 0) [
        | true ↦ ok (tot, out) t
        | false ↦
            let m = min (n - tot) (bsize - off % bsize) in
            elim (fails dst m) [
              | some k ↦ ok (minus_one, out ++ slice (t.disk addr) (off % bsize) k) t
              | none ↦
                  read_from rounds (dst + m) (off + m) n (tot + m)
                    (out ++ slice (t.disk addr) (off % bsize) m) t
            ]
      ])
    ]

    unfoldable pub readi : (dst off n : ℕ) → Cmd Opened (ℕ × List ℕ)
    unfolding read_from
    readi dst off n s =
        if ltb s.size off || ltb (u32 (off + n)) off
        then ok (0, []) s
        else let m = if ltb s.size (u32 (off + n)) then s.size - off else n in
          read_from m dst off m 0 [] s

  -- `source src m` says whether `either_copyin` of `m` bytes from `src` succeeds, and which bytes it
  -- copies until it ends.
  module _ (source : ℕ → ℕ → Bool × List ℕ) where
    -- The loop of `writei`, for at most `rounds` rounds, with the offset where it ends.
    unfoldable pub write_from : (rounds src off n tot : ℕ) → Cmd Opened (ℕ × ℕ)
    unfolding bmap
    write_from zero src off n tot s = ok (tot, off) s
    write_from (suc rounds) src off n tot s = elim (ltb tot n) [
      | false ↦ ok (tot, off) s
      | true ↦ and_then (bmap (off / bsize) s) (λ addr t. elim (addr == 0) [
        | true ↦ ok (tot, off) t
        | false ↦
            let m = min (n - tot) (bsize - off % bsize) in
            let copy = source src m in
            let t1 = record t {
              disk = update t.disk addr (overwrite copy.1 (off % bsize) (t.disk addr));
            } in
            elim copy.0 [
              | false ↦ ok (tot, off) t1
              | true ↦ write_from rounds (src + m) (off + m) n (tot + m) t1
            ]
      ])
    ]

    -- The call of `iupdate`, which writes the fields of the inode to the disk, is left out.
    unfoldable pub writei : (src off n : ℕ) → Cmd Opened ℕ
    unfolding write_from
    writei src off n s =
        if ltb s.size off || ltb (u32 (off + n)) off
        then ok minus_one s
        else if ltb (maxfile * bsize) (u32 (off + n))
        then ok minus_one s
        else and_then (write_from n src off n 0 s)
            (λ r t. ok r.0 (if ltb t.size r.1 then record t { size = r.1 } else t))

  -- The frees of `itrunc`: `left` addresses from `i` on, given by `addr`.
  unfoldable pub free_blocks : (left i : ℕ) → (Disk → ℕ → ℕ) → Cmd Disk (Unit {0})
  unfolding bfree
  free_blocks zero i addr d = ok tt d
  free_blocks (suc left) i addr d =
      let rest = free_blocks left (i + 1) addr in
      if addr d i == 0 then rest d else and_then (bfree sb (addr d i) d) (λ u. rest)

  abbrev cleared : Opened → Disk → Opened
  cleared s d = record {
    addrs = λ i. if ltb i (ndirect + 1) then 0 else s.addrs i;
    size = 0;
    disk = d;
  }

  abbrev free_indirect : Opened → Cmd Disk (Unit {0})
  unfolding free_blocks bfree
  free_indirect s d =
      let table = s.addrs ndirect in
      if table == 0
      then ok tt d
      else and_then (free_blocks nindirect 0 (λ e. word_at (e table)) d) (λ u. bfree sb table)

  abbrev with_disk : Run Disk (Unit {0}) → Opened → Run Opened (Unit {0})
  with_disk (ok u d) s = ok tt (cleared s d)
  with_disk panic s = panic
  with_disk (sleeps d) s = panic

  -- Here too the call of `iupdate` is left out.
  unfoldable pub itrunc : Cmd Opened (Unit {0})
  unfolding free_blocks free_indirect
  itrunc s =
      with_disk (and_then (free_blocks ndirect 0 (λ e. s.addrs) s.disk) (λ u. free_indirect s)) s
