-- ===== src/Store.antt =====
-- The disk behind the buffer cache, as riscv/kernel/log.c uses it through riscv/kernel/bio.c:
-- `view` is what a buffer of `bread` holds, `disk` what the device holds, `pins` the references
-- that `bpin` took. `past` records every state that the disk went through, the newest first, for
-- a crash between two writes; the device writes one block whole or not at all.
use learn_xv.Prelude.{ℕ, ◌+◌, ◌-◌, List, ◌∷◌, update}

-- A block is its 32-bit words, `BSIZE / sizeof(uint)` of them.
abbrev pub Block : Type 0
Block = ℕ → ℕ

abbrev pub Disk : Type 0
Disk = ℕ → Block

pub record Store : Type 0 where
  pub disk : Disk
  pub past : List Disk
  pub view : Disk
  pub pins : ℕ → ℕ

-- `memmove(b->data, data, BSIZE)` on the buffer of block `b`.
unfoldable pub fill : ℕ → Block → Store → Store
fill b content s = record s { view = update s.view b content }

-- `bwrite`.
unfoldable pub bwrite : ℕ → Store → Store
bwrite b s = let d = update s.disk b (s.view b) in record s { disk = d; past = d ∷ s.past }

-- `bpin` and `bunpin`.
unfoldable pub bpin : ℕ → Store → Store
bpin b s = record s { pins = update s.pins b (s.pins b + 1) }

unfoldable pub bunpin : ℕ → Store → Store
bunpin b s = record s { pins = update s.pins b (s.pins b - 1) }
