-- ===== src/Kalloc.antt =====
-- riscv/kernel/kalloc.c: the allocator of physical pages. `kmem.lock` makes each critical section
-- one step.
pub mod Chain
mod Examples
pub mod Init
pub mod Pages
pub mod Owners
use learn_xv.Prelude.{
  ℕ, zero, suc, ◌+◌, ◌-◌, ◌*◌, ◌/◌, ◌%◌, ◌^◌, Bool, true, false, if◌then◌else◌, ◌==◌, ltb, leb, not,
  ◌&&◌, ◌||◌, update, ok, panic, Cmd, pure, ◌>>◌, ◌>>=◌, and_then,
}

abbrev pub pgsize : ℕ
pgsize = 4096

abbrev pub phystop : ℕ
phystop = 0x80000000 + 128 * 1024 * 1024

abbrev pub pgroundup : ℕ → ℕ
pgroundup sz = (sz + pgsize - 1) / pgsize * pgsize

-- The memory by its 8-byte words, and `kmem.freelist`. A free page's first word is `r->next`.
pub record Kmem : Type 0 where
  pub word : ℕ → ℕ
  pub freelist : ℕ

-- `memset(pa, c, PGSIZE)`, with the word of eight bytes `c`.
unfoldable pub fill_page : ℕ → ℕ → (ℕ → ℕ) → ℕ → ℕ
fill_page pa c word a = if leb pa a && ltb a (pa + pgsize) then c * 0x0101010101010101 else word a

-- `end` is the first address after the kernel, which the linker sets.
module _ (end_ : ℕ) where
  unfoldable pub kfree : ℕ → Cmd Kmem (Unit {0})
  unfolding fill_page
  kfree pa k =
      if not (pa % pgsize == 0) || ltb pa end_ || leb phystop pa
      then panic
      else ok tt (record { word = update (fill_page pa 1 k.word) pa k.freelist; freelist = pa })

  -- The loop of `freerange` at `p`, for at most `rounds` rounds.
  unfoldable pub free_from : (rounds pa_end p : ℕ) → Cmd Kmem (Unit {0})
  unfolding kfree
  free_from zero pa_end p k = ok tt k
  free_from (suc rounds) pa_end p k = elim (leb (p + pgsize) pa_end) [
    | true ↦ and_then (kfree p k) (λ u. free_from rounds pa_end (p + pgsize))
    | false ↦ ok tt k
  ]

  unfoldable pub freerange : ℕ → ℕ → Cmd Kmem (Unit {0})
  freerange pa_start pa_end = free_from (pa_end / pgsize) pa_end (pgroundup pa_start)

  unfoldable pub kinit : Cmd Kmem (Unit {0})
  unfolding freerange
  kinit = freerange end_ phystop

unfoldable pub kalloc : Cmd Kmem ℕ
unfolding fill_page
kalloc k =
    let r = k.freelist in
    if r == 0 then ok r k else ok r (record { word = fill_page r 5 k.word; freelist = k.word r })
