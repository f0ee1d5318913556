-- ===== src/Itable/Examples.antt =====
-- A run of `iget` of riscv/kernel/fs.c.
use learn_xv.Prelude.{ℕ, ◌+◌, ◌≡◌, ◌⊎◌, false, arith, panic, Ends}
use learn_xv.Itable.{Inode, Itable, iget}
use learn_xv.Itable.Unique.{IsUnique, Got, IsFull, iget-Got}

abbrev entry : ℕ → ℕ → Inode
entry inum ref = record {
  dev = 1;
  inum = inum;
  ref = ref;
  valid = false;
  type_ = 0;
  major = 0;
  minor = 0;
  nlink = 0;
  size = 0;
  addrs = λ i. 0;
}

-- Each entry is for its own inode.
abbrev each : Itable
each = record { inode = λ i. entry (i + 5) 1 }

each-IsUnique : IsUnique each
each-IsUnique i j a b p s = omega (arith, s.2)

iget-Got_example :
    (Ends (Got 1 7 each) (iget 1 7 each) × ¬ IsFull 1 7 each)
    ⊎ ((iget 1 7 each ≡ panic) × IsFull 1 7 each)
iget-Got_example = iget-Got 1 7 each (λ j. omega arith) each-IsUnique
