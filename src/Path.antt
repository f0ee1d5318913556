-- ===== src/Path.antt =====
-- riscv/kernel/fs.c: path names, by skipelem, namex, namei and nameiparent. A string is the list of its
-- characters before the NUL. Of the inodes, by their numbers, the model has the references, the locks
-- and what the code reads of them; a directory's entries are as `dirlookup` finds them.
pub mod Elements
mod Examples
pub mod References
pub mod Walk
pub mod Resolve
use learn_xv.Prelude.{
  ℕ, zero, suc, ◌+◌, ◌^◌, Bool, true, false, if◌then◌else◌, ◌==◌, not, ◌&&◌, ◌||◌, List, [], ◌∷◌,
  length, take, Option, none, some, u32, sub32, int_ltb, leb, update, Run, ok, panic, sleeps, Cmd,
  and_then,
}
use learn_xv.Itable.{ninode}

abbrev pub slash : ℕ
slash = 47

abbrev pub dirsiz : ℕ
dirsiz = 14

-- `while(*path == '/') path++`.
unfoldable pub skip_slashes : List ℕ → List ℕ
skip_slashes [] = []
skip_slashes (c ∷ path) = let rest = skip_slashes path in if c == slash then rest else c ∷ path

-- What `while(*path != '/' && *path != 0) path++` passes over, and where it stops.
unfoldable pub take_element : List ℕ → List ℕ
take_element [] = []
take_element (c ∷ path) = let rest = take_element path in if c == slash then [] else c ∷ rest

unfoldable pub after_element : List ℕ → List ℕ
after_element [] = []
after_element (c ∷ path) = let rest = after_element path in if c == slash then c ∷ path else rest

-- The element, of DIRSIZ bytes at most, and the rest of the path.
unfoldable pub skipelem : List ℕ → Option (List ℕ × List ℕ)
unfolding skip_slashes take_element after_element
skipelem path = elim (skip_slashes path) [
  | [] ↦ none
  | c ∷ s ↦ some (take dirsiz (take_element (c ∷ s)), skip_slashes (after_element (c ∷ s)))
]

-- What the code reads of an inode: the fields, and the entries of a directory. The fields that the
-- table has of a valid inode are those on the disk.
pub record Node : Type 0 where
  pub type_ : ℕ
  pub nlink : ℕ
  pub entry : List ℕ → Option ℕ

-- By the number of the inode: the references, the process that holds the lock, whether the table has
-- the fields, and the inode.
pub record Inodes : Type 0 where
  pub ref : ℕ → ℕ
  pub owner : ℕ → Option ℕ
  pub valid : ℕ → Bool
  pub node : ℕ → Node

-- The entries of the table in use: an inode with references has one. Numbers are below `count`, the
-- `ninodes` of the disk.
abbrev pub entries_used : (count : ℕ) (ref : ℕ → ℕ) → ℕ
entries_used zero ref = 0
entries_used (suc n) ref = entries_used n ref + (if ref n == 0 then 0 else 1)

-- `ip->ref++`.
unfoldable pub add_ref : ℕ → Inodes → Inodes
add_ref i s = record s { ref = update s.ref i (u32 (s.ref i + 1)) }

-- `iget` of the inode `i`; an inode without references takes an unused entry of the table.
unfoldable pub get_inode : (count i : ℕ) → Cmd Inodes (Unit {0})
unfolding add_ref
get_inode count i s =
    if s.ref i == 0
    then if leb ninode (entries_used count s.ref)
      then panic
      else ok tt (record s { ref = update s.ref i 1; valid = update s.valid i false })
    else ok tt (add_ref i s)

unfoldable pub drop_inode : ℕ → Inodes → Inodes
drop_inode i s = record s { ref = update s.ref i (sub32 (s.ref i) 1) }

-- The inode without content and type, between the `acquiresleep` and the `releasesleep` of `iput`.
unfoldable pub free_inode : ℕ → Inodes → Inodes
free_inode i s = record s {
  node = update s.node i (record (s.node i) { type_ = 0; entry = λ name. none });
  valid = update s.valid i false;
}

unfoldable pub iput : ℕ → Cmd Inodes (Unit {0})
unfolding drop_inode free_inode
iput i s =
    if (s.ref i == 1) && s.valid i && ((s.node i).nlink == 0)
    then elim (s.owner i) [ some q ↦ sleeps s | none ↦ ok tt (drop_inode i (free_inode i s)) ]
    else ok tt (drop_inode i s)

-- `me` is the number of the process that runs.
unfoldable pub ilock : (me i : ℕ) → Cmd Inodes (Unit {0})
ilock me i s = if int_ltb (s.ref i) 1 then panic else elim (s.owner i) [
  | some q ↦ sleeps s
  | none ↦
      let t = record s { owner = update s.owner i (some me) } in
      if s.valid i
      then ok tt t
      else if (s.node i).type_ == 0
      then panic
      else ok tt (record t { valid = update s.valid i true })
]

abbrev pub is_holder : ℕ → Option ℕ → Bool
is_holder me none = false
is_holder me (some q) = q == me

unfoldable pub iunlock : (me i : ℕ) → Cmd Inodes (Unit {0})
iunlock me i s =
    if not (is_holder me (s.owner i)) || int_ltb (s.ref i) 1
    then panic
    else ok tt (record s { owner = update s.owner i none })

unfoldable pub iunlockput : (me i : ℕ) → Cmd Inodes (Unit {0})
unfolding iunlock iput
iunlockput me i s = and_then (iunlock me i s) (λ u. iput i)

abbrev pub is_empty : List ℕ → Bool
is_empty [] = true
is_empty (c ∷ path) = false

abbrev pub t_dir : ℕ
t_dir = 1

abbrev pub is_dir : Node → Bool
is_dir n = n.type_ == t_dir

module _ (count me : ℕ) (parent : Bool) where
  abbrev pub fails : ℕ → Cmd Inodes (Option (ℕ × List ℕ))
  unfolding iunlockput
  fails ip s = and_then (iunlockput me ip s) (λ u. ok none)

  -- `dirlookup` has the reference to the next inode from `iget`.
  abbrev pub goes_to : (ip next : ℕ) → Cmd Inodes (Unit {0})
  unfolding get_inode iunlockput
  goes_to ip next s = and_then (get_inode count next s) (λ u. iunlockput me ip)

  -- The loop of `namex`, for at most `rounds` rounds; `name` is what the caller's buffer holds.
  unfoldable pub namex_from :
      (rounds ip : ℕ) (path name : List ℕ) → Cmd Inodes (Option (ℕ × List ℕ))
  unfolding skipelem ilock iunlock iunlockput get_inode iput
  namex_from zero ip path name s = panic
  namex_from (suc rounds) ip path name s = elim (skipelem path) [
    | none ↦ if parent then and_then (iput ip s) (λ u. ok none) else ok (some (ip, name)) s
    | some (elem, rest) ↦ and_then (ilock me ip s) (λ u t.
        if not (is_dir (t.node ip))
        then fails ip t
        else if parent && is_empty rest
        then and_then (iunlock me ip t) (λ v. ok (some (ip, elem)))
        else elim ((t.node ip).entry elem) [
          | none ↦ fails ip t
          | some next ↦ and_then (goes_to ip next t) (λ v. namex_from rounds next rest elem)
        ])
  ]

  -- The inode that the walk starts at, and the reference to it.
  abbrev pub starts_at : (root cwd : ℕ) → List ℕ → ℕ
  starts_at root cwd [] = cwd
  starts_at root cwd (c ∷ path) = if c == slash then root else cwd

  abbrev pub first_ref : (root cwd : ℕ) → List ℕ → Cmd Inodes (Unit {0})
  unfolding get_inode add_ref
  first_ref root cwd [] s = ok tt (add_ref cwd s)
  first_ref root cwd (c ∷ path) s =
      if c == slash then get_inode count root s else ok tt (add_ref cwd s)

  unfoldable pub namex : (root cwd : ℕ) (path name : List ℕ) → Cmd Inodes (Option (ℕ × List ℕ))
  unfolding namex_from first_ref
  namex root cwd path name s =
      and_then (first_ref root cwd path s)
        (λ u. namex_from (length path + 1) (starts_at root cwd path) path name)
