-- ===== src/Itable.antt =====
-- riscv/kernel/fs.c: the table of inodes in memory. `itable.lock` makes each of the functions one
-- step.
mod Examples
pub mod Unique
use learn_xv.Prelude.{
  ℕ, zero, suc, ◌+◌, Bool, true, false, if◌then◌else◌, ◌==◌, ◌&&◌, Option, none, some, update, u32,
  int_ltb, ok, panic, Cmd,
}

abbrev pub ninode : ℕ
ninode = 50

-- `struct inode` less its sleep lock.
pub record Inode : Type 0 where
  pub dev : ℕ
  pub inum : ℕ
  pub ref : ℕ
  pub valid : Bool
  pub type_ : ℕ
  pub major : ℕ
  pub minor : ℕ
  pub nlink : ℕ
  pub size : ℕ
  pub addrs : ℕ → ℕ

-- `itable.inode`
pub record Itable : Type 0 where
  pub inode : ℕ → Inode

abbrev pub set_inode : ℕ → Inode → Itable → Itable
set_inode i x t = record t { inode = update t.inode i x }

-- How the search of `iget` ends: at the entry of the inode, or with the first unused entry, or with
-- neither.
pub data Found : Type 0 where
  cached : ℕ → Found
  recycled : ℕ → Found
  full : Found

unfoldable pub is_inode : ℕ → ℕ → Inode → Bool
is_inode dev inum x = int_ltb 0 x.ref && (x.dev == dev) && (x.inum == inum)

-- `empty` once entry `i` was seen.
unfoldable pub remember : Option ℕ → ℕ → Itable → Option ℕ
remember none i t = if (t.inode i).ref == 0 then some i else none
remember (some e) i t = some e

abbrev pub found_empty : Option ℕ → Found
found_empty none = full
found_empty (some e) = recycled e

unfoldable pub search_inode : ℕ → ℕ → (left i : ℕ) → Option ℕ → Itable → Found
unfolding is_inode remember
search_inode dev inum zero i empty t = found_empty empty
search_inode dev inum (suc left) i empty t =
    let rest = search_inode dev inum left (i + 1) (remember empty i t) t in
    if is_inode dev inum (t.inode i) then cached i else rest

-- `iget` after its search.
unfoldable pub take_entry : ℕ → ℕ → Found → Cmd Itable ℕ
take_entry dev inum (cached i) t =
    ok i (set_inode i (record (t.inode i) { ref = u32 ((t.inode i).ref + 1) }) t)
take_entry dev inum (recycled i) t =
    ok i (set_inode i (record (t.inode i) { dev = dev; inum = inum; ref = 1; valid = false }) t)
take_entry dev inum full t = panic

unfoldable pub iget : ℕ → ℕ → Cmd Itable ℕ
unfolding search_inode take_entry
iget dev inum t = take_entry dev inum (search_inode dev inum ninode 0 none t) t

unfoldable pub idup : ℕ → Cmd Itable ℕ
idup i t = ok i (set_inode i (record (t.inode i) { ref = u32 ((t.inode i).ref + 1) }) t)
