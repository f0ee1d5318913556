-- ===== src/Blocks.antt =====
-- riscv/kernel/fs.c: the blocks that are in use, by bzero, balloc and bfree. Within a transaction a
-- block is its content in the buffer cache, which `bread` gives and `log_write` keeps.
pub mod Bits
mod Examples
pub mod Search
pub mod Taken
use learn_xv.Prelude.{
  ℕ, zero, suc, ◌+◌, ◌-◌, ◌*◌, ◌/◌, ◌%◌, ◌^◌, Bool, true, false, if◌then◌else◌, ◌==◌, ltb, not,
  update, Option, none, some, Run, ok, panic, Cmd,
}

-- The bits of a block: BSIZE * 8.
abbrev pub bpb : ℕ
bpb = 1024 * 8

-- The fields of `struct superblock` that tell where the bits are.
pub record Superblock : Type 0 where
  pub size : ℕ
  pub bmapstart : ℕ

-- The bytes of each block.
abbrev pub Disk : Type 0
Disk = ℕ → ℕ → ℕ

-- `(byte & m) != 0` with `m = 1 << j`.
abbrev pub bit : ℕ → ℕ → Bool
bit byte j = byte / 2 ^ j % 2 == 1

-- `data[bi/8] & (1 << (bi % 8))`.
abbrev pub bit_at : (ℕ → ℕ) → ℕ → Bool
bit_at bytes bi = bit (bytes (bi / 8)) (bi % 8)

-- `data[bi/8] |= m`, where the bit is clear, and `data[bi/8] &= ~m`, where it is set.
unfoldable pub set_bit : ℕ → (ℕ → ℕ) → ℕ → ℕ
set_bit bi bytes = update bytes (bi / 8) (bytes (bi / 8) + 2 ^ (bi % 8))

unfoldable pub clear_bit : ℕ → (ℕ → ℕ) → ℕ → ℕ
clear_bit bi bytes = update bytes (bi / 8) (bytes (bi / 8) - 2 ^ (bi % 8))

unfoldable pub bzero : ℕ → Disk → Disk
bzero bno d = update d bno (λ i. 0)

module _ (sb : Superblock) where
  -- BBLOCK.
  abbrev pub bblock : ℕ → ℕ
  bblock b = b / bpb + sb.bmapstart

  -- The inner loop of `balloc` at `bi`, with `left` bits to go.
  unfoldable pub scan_bits : (left bi b : ℕ) → (ℕ → ℕ) → Option ℕ
  scan_bits zero bi b bytes = none
  scan_bits (suc left) bi b bytes =
      let rest = scan_bits left (bi + 1) b bytes in
      if not (ltb (b + bi) sb.size) then none else if bit_at bytes bi then rest else some bi

  unfoldable pub take_block : (b bi : ℕ) → Disk → Disk
  unfolding set_bit bzero
  take_block b bi d = bzero (b + bi) (update d (bblock b) (set_bit bi (d (bblock b))))

  -- The outer loop at `b`, for at most `rounds` rounds. `none` stands for the 0 of no block.
  unfoldable pub balloc_from : (rounds b : ℕ) → Disk → Option ℕ × Disk
  balloc_from zero b d = (none, d)
  balloc_from (suc rounds) b d =
      let rest = balloc_from rounds (b + bpb) d in
      if not (ltb b sb.size) then (none, d) else elim (scan_bits bpb 0 b (d (bblock b))) [
        | some bi ↦ (some (b + bi), take_block b bi d)
        | none ↦ rest
      ]

  unfoldable pub balloc : Disk → Option ℕ × Disk
  unfolding balloc_from
  balloc d = balloc_from (sb.size / bpb + 1) 0 d

  unfoldable pub bfree : ℕ → Cmd Disk (Unit {0})
  unfolding clear_bit
  bfree b d =
      let bi = b % bpb in
      if not (bit_at (d (bblock b)) bi)
      then panic
      else ok tt (update d (bblock b) (clear_bit bi (d (bblock b))))
