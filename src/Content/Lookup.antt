-- ===== src/Content/Lookup.antt =====
-- The blocks of a file and its bytes, and bmap of riscv/kernel/fs.c where the block is there.
use learn_xv.Prelude.{
  ℕ, zero, suc, ◌+◌, ◌-◌, ◌*◌, ◌/◌, ◌%◌, ◌≡◌, ◌≢◌, ◌≤◌, ◌<◌, refl, ap, ap₂, ◌∙◌, inl, inr, true,
  false, if◌then◌else◌, ◌==◌, ==_ne, ltb, ◌∷◌, ◌++◌, Bool-cases, arith, ok,
}
use learn_xv.Blocks.{Superblock}
use learn_xv.Content.{bsize, ndirect, nindirect, maxfile, Opened, word_at, slice, indirect, bmap}

-- The block of the file's block `bn`, and 0 where there is none.
unfoldable pub block_of : Opened → ℕ → ℕ
block_of s bn =
    if ltb bn ndirect then s.addrs bn else word_at (s.disk (s.addrs ndirect)) (bn - ndirect)

-- The byte of the file at the offset `o`.
unfoldable pub content : Opened → ℕ → ℕ
content s o = s.disk (block_of s (o / bsize)) (o % bsize)

-- Every block of the file is there.
pub record HasBlocks (s : Opened) : Type 0 where
  pub fits : s.size ≤ maxfile * bsize
  pub blocks : (bn : ℕ) → bn * bsize < s.size → block_of s bn ≢ 0
  pub table : ndirect * bsize < s.size → s.addrs ndirect ≢ 0

pub bmap-block_of :
    (sb : Superblock) (s : Opened) (bn : ℕ)
    → HasBlocks s
    → bn * bsize < s.size
    → bmap sb bn s ≡ ok (block_of s bn) s
unfolding bmap block_of indirect
bmap-block_of sb s bn h lt = elim (Bool-cases (ltb bn ndirect)) [
  | inl e ↦
      let some_block : (s.addrs bn == 0) ≡ false =
        ==_ne (s.addrs bn) 0 (rw e at (h.blocks bn lt)) in
      rw (e, some_block) refl
  | inr e ↦
      let inside : ltb (bn - ndirect) nindirect ≡ true = ground (arith, e, lt, h.fits) in
      let some_table : (s.addrs ndirect == 0) ≡ false =
        ==_ne (s.addrs ndirect) 0 (h.table (ground (arith, e, lt))) in
      let some_block : (word_at (s.disk (s.addrs ndirect)) (bn - ndirect) == 0) ≡ false =
        ==_ne _ 0 (rw e at (h.blocks bn lt)) in
      rw (e, inside, some_table, some_block) refl
]

pub slice-append :
    (bytes : ℕ → ℕ) (from m n : ℕ)
    → slice bytes from (m + n) ≡ slice bytes from m ++ slice bytes (from + m) n
slice-append bytes from zero n =
    let count : 0 + n ≡ n = omega arith in
    let start : from ≡ from + 0 = omega arith in
    ap (slice bytes from) count ∙ ap (λ x. slice bytes x n) start
slice-append bytes from (suc m) n =
    let count : suc m + n ≡ suc (m + n) = omega arith in
    let start : from + 1 + m ≡ from + suc m = omega arith in
    ap (slice bytes from) count
    ∙ ap (λ l. bytes from ∷ l) (slice-append bytes (from + 1) m n)
    ∙ ap (λ x. bytes from ∷ (slice bytes (from + 1) m ++ slice bytes x n)) start

slice-same :
    (f g : ℕ → ℕ) (a b m : ℕ)
    → ((i : ℕ) → i < m → f (a + i) ≡ g (b + i))
    → slice f a m ≡ slice g b m
slice-same f g a b zero h = refl
slice-same f g a b (suc m) h =
    let at_a : a ≡ a + 0 = omega arith in
    let at_b : b + 0 ≡ b = omega arith in
    let first : f a ≡ g b = ap f at_a ∙ h 0 (omega arith) ∙ ap g at_b in
    let rest : slice f (a + 1) m ≡ slice g (b + 1) m = slice-same f g (a + 1) (b + 1) m (λ i lt.
      let next_a : a + 1 + i ≡ a + suc i = omega arith in
      let next_b : b + suc i ≡ b + 1 + i = omega arith in
      ap f next_a ∙ h (suc i) (omega (arith, lt)) ∙ ap g next_b) in
    ap₂ (λ x l. x ∷ l) first rest

-- The bytes of one block are bytes of the file.
pub slice-content :
    (s : Opened) (o m : ℕ)
    → o % bsize + m ≤ bsize
    → slice (s.disk (block_of s (o / bsize))) (o % bsize) m ≡ slice (content s) o m
unfolding content
slice-content s o m le =
    slice-same (s.disk (block_of s (o / bsize))) (content s) (o % bsize) o m (λ i lt.
      let block : o / bsize ≡ (o + i) / bsize = omega (arith, le, lt) in
      let byte : o % bsize + i ≡ (o + i) % bsize = omega (arith, le, lt) in
      ap (λ x. s.disk (block_of s (o / bsize)) x) byte
      ∙ ap (λ x. s.disk (block_of s x) ((o + i) % bsize)) block)
