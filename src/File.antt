-- ===== src/File.antt =====
-- riscv/kernel/file.c: the table of open files. `ftable.lock` makes each of the functions one step,
-- up to the closing of what the file stands for.
mod Examples
pub mod Counts
pub mod Holders
use learn_xv.Prelude.{
  ℕ, zero, suc, ◌+◌, ◌^◌, Bool, true, false, if◌then◌else◌, ◌==◌, Option, none, some, update, u32,
  sub32, int_ltb, ok, panic, Cmd,
}

abbrev pub nfile : ℕ
nfile = 100

pub data FileType : Type 0 where
  fd_none : FileType
  fd_pipe : FileType
  fd_inode : FileType
  fd_device : FileType

-- `struct file`; pointers are addresses.
pub record File : Type 0 where
  pub type_ : FileType
  pub ref : ℕ
  pub readable : Bool
  pub writable : Bool
  pub pipe : ℕ
  pub ip : ℕ
  pub off : ℕ
  pub major : ℕ

-- `ftable.file`
pub record Ftable : Type 0 where
  pub file : ℕ → File

abbrev pub set_ref : ℕ → ℕ → Ftable → Ftable
set_ref f n t = record t { file = update t.file f (record (t.file f) { ref = n }) }

-- The search of `filealloc` from entry `f` on, over `left` entries.
unfoldable pub find_unused : (left f : ℕ) → Ftable → Option ℕ
find_unused zero f t = none
find_unused (suc left) f t =
    let rest = find_unused left (f + 1) t in if (t.file f).ref == 0 then some f else rest

unfoldable pub filealloc : Ftable → Option ℕ × Ftable
unfolding find_unused
filealloc t = elim (find_unused nfile 0 t) [ none ↦ (none, t) | some f ↦ (some f, set_ref f 1 t) ]

unfoldable pub filedup : ℕ → Cmd Ftable ℕ
filedup f t =
    let ref = (t.file f).ref in if int_ltb ref 1 then panic else ok f (set_ref f (u32 (ref + 1)) t)

-- What is left to do after the last reference: `pipeclose` of a pipe's end, or `iput` of an inode
-- in a transaction.
pub data Closing : Type 0 where
  nothing : Closing
  pipe_end : (pipe : ℕ) (writable : Bool) → Closing
  inode : (ip : ℕ) → Closing

unfoldable pub closing : File → Closing
closing f = elim f.type_ [
  | fd_none ↦ nothing
  | fd_pipe ↦ pipe_end f.pipe f.writable
  | fd_inode ↦ inode f.ip
  | fd_device ↦ inode f.ip
]

unfoldable pub fileclose : ℕ → Cmd Ftable Closing
unfolding closing
fileclose f t =
    let ff = t.file f in
    let ref = sub32 ff.ref 1 in
    if int_ltb ff.ref 1
    then panic
    else if int_ltb 0 ref
    then ok nothing (set_ref f ref t)
    else ok (closing ff)
        (record t { file = update t.file f (record ff { ref = 0; type_ = fd_none }) })
