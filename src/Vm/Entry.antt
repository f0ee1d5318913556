-- ===== src/Vm/Entry.antt =====
-- The entries of page tables in riscv/kernel/riscv.h. The low ten bits of an entry are its flags.
use learn_xv.Prelude.{ℕ, ◌+◌, ◌*◌, ◌/◌, ◌%◌, ◌^◌, Bool, if◌then◌else◌, ◌==◌, not}

-- `1L << (9 + 9 + 9 + 12 - 1)`.
abbrev pub maxva : ℕ
maxva = 2 ^ 38

abbrev pub pte_w : ℕ
pte_w = 4

-- `PTE_R | PTE_U`.
abbrev pub pte_ru : ℕ
pte_ru = 18

-- `PTE_W | PTE_U | PTE_R`.
abbrev pub pte_wur : ℕ
pte_wur = 22

-- The test of PTE_V.
abbrev pub is_valid : ℕ → Bool
is_valid pte = pte % 2 == 1

-- The test of PTE_U.
abbrev pub is_user : ℕ → Bool
is_user pte = pte / 16 % 2 == 1

-- The test of PTE_W.
abbrev pub is_writable : ℕ → Bool
is_writable pte = pte / 4 % 2 == 1

-- The test of PTE_R, PTE_W and PTE_X together.
abbrev pub is_leaf : ℕ → Bool
is_leaf pte = not (pte / 2 % 8 == 0)

abbrev pub pte_flags : ℕ → ℕ
pte_flags pte = pte % 2 ^ 10

abbrev pub pte2pa : ℕ → ℕ
pte2pa pte = pte / 2 ^ 10 * 2 ^ 12 % 2 ^ 64

-- `PA2PTE(pa) | perm | PTE_V`, for permissions in the ten bits of the flags.
abbrev pub pte_of : ℕ → ℕ → ℕ
pte_of pa perm = pa / 2 ^ 12 * 2 ^ 10 + (if perm % 2 == 1 then perm else perm + 1)

-- PX: the index of level `level`.
abbrev pub px : ℕ → ℕ → ℕ
px level va = va / 2 ^ (12 + 9 * level) % 512

-- `&pagetable[PX(level, va)]`.
abbrev pub entry_at : (pagetable level va : ℕ) → ℕ
entry_at pagetable level va = pagetable + 8 * px level va
