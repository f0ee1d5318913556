-- ===== src/Blocks/Examples.antt =====
-- Runs of balloc and bfree of riscv/kernel/fs.c.
use learn_xv.Prelude.{
  ℕ, ◌≡◌, ◌≢◌, ◌<◌, ◌⊎◌, ap, true, false, if◌then◌else◌, ◌==◌, ltb, ◌&&◌, none, some, arith, panic,
  Ends,
}
use learn_xv.Blocks.{Superblock, Disk, bblock, balloc, bfree}
use learn_xv.Blocks.Search.{in_use}
use learn_xv.Blocks.Taken.{Takes, balloc_lem, bfree_lem}

abbrev layout : Superblock
layout = record { size = 100; bmapstart = 45 }

-- The blocks up to 47 are in use.
abbrev disk : Disk
disk b i = if b == 45 && ltb i 6 then 255 else 0

disk_bytes : (b i : ℕ) → disk b i < 256
disk_bytes b i = ground arith

bits_in_use : (m : ℕ) → m < 100 → in_use layout disk (bblock layout m) ≡ true
bits_in_use m lt =
    let same : bblock layout m ≡ 45 = omega (arith, lt) in ap (in_use layout disk) same

balloc_lem_example :
    ((balloc layout disk ≡ (none, disk)) × ((n : ℕ) → n < 100 → in_use layout disk n ≡ true))
    ⊎ ((n : ℕ) × (e : Disk) × (balloc layout disk ≡ (some n, e))
        × Takes layout disk disk_bytes n e
        × ((m : ℕ) → m < n → in_use layout disk m ≡ true))
balloc_lem_example = balloc_lem layout disk disk_bytes bits_in_use

bfree_lem_example :
    ((in_use layout disk 47 ≡ false) × (bfree layout 47 disk ≡ panic))
    ⊎ ((in_use layout disk 47 ≡ true)
        × Ends
            (λ u e.
              ((m : ℕ) → in_use layout e m ≡ (if m == 47 then false else in_use layout disk m))
              × ((b : ℕ) → b ≢ bblock layout 47 → e b ≡ disk b))
            (bfree layout 47 disk))
bfree_lem_example = bfree_lem layout disk disk_bytes 47
