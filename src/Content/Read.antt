-- ===== src/Content/Read.antt =====
-- readi of riscv/kernel/fs.c against the bytes of the file.
use learn_xv.Prelude.{
  ℕ, zero, suc, ◌+◌, ◌-◌, ◌*◌, ◌/◌, ◌%◌, ◌^◌, min, ◌≡◌, ◌≤◌, ◌<◌, refl, ap, ap₂, sym, ◌∙◌, inl, inr,
  false, if◌then◌else◌, ◌==◌, ==_ne, ltb, ◌||◌, List, [], ◌++◌, append_nil, none, u32, Bool-cases,
  arith, ok, Run, and_then,
}
use mathlib.Core.List.{append_assoc}
use learn_xv.Blocks.{Superblock}
use learn_xv.Content.{bsize, Opened, slice, read_from, readi}
use learn_xv.Content.Lookup.{
  block_of, content, HasBlocks, bmap-block_of, slice-append, slice-content,
}

module _ (sb : Superblock) (s : Opened) (h : HasBlocks s) where
  abbrev returned : ℕ → List ℕ → Run Opened (ℕ × List ℕ)
  returned k bytes = ok (k, bytes) s

  finished :
      (off n tot : ℕ) (out : List ℕ)
      → n ≤ tot
      → tot ≤ n
      → returned tot out ≡ returned n (out ++ slice (content s) off (n - tot))
  finished off n tot out ge le =
      let same : tot ≡ n = omega (arith, ge, le) in
      let none_left : 0 ≡ n - tot = omega (arith, ge, le) in
      ap₂ returned same (sym (append_nil out) ∙ ap (λ k. out ++ slice (content s) off k) none_left)

  -- The bytes of a round and of the rest are the bytes of all of them.
  joined :
      (off m k : ℕ) (out : List ℕ)
      → off % bsize + m ≤ bsize
      → (out ++ slice (s.disk (block_of s (off / bsize))) (off % bsize) m)
          ++ slice (content s) (off + m) k
        ≡ out ++ slice (content s) off (m + k)
  joined off m k out le =
      append_assoc out (slice (s.disk (block_of s (off / bsize))) (off % bsize) m)
        (slice (content s) (off + m) k)
      ∙ ap (λ l. out ++ (l ++ slice (content s) (off + m) k)) (slice-content s off m le)
      ∙ ap (λ l. out ++ l) (sym (slice-append (content s) off m k))

  read_from-content :
      (rounds dst off n tot : ℕ) (out : List ℕ)
      → n ≤ tot + rounds
      → tot ≤ n
      → off + (n - tot) ≤ s.size
      → read_from sb (λ d m. none) rounds dst off n tot out s
        ≡ ok (n, out ++ slice (content s) off (n - tot)) s
  unfolding read_from
  read_from-content zero dst off n tot out enough le inside =
      finished off n tot out (omega (arith, enough)) le
  read_from-content (suc rounds) dst off n tot out enough le inside =
      elim (Bool-cases (ltb tot n)) [
        | inr e ↦ rw (read_from, e) (finished off n tot out (ground (arith, e)) le)
        | inl e ↦
            let m = min (n - tot) (bsize - off % bsize) in
            let less : tot < n = ground (arith, e) in
            let small : m ≤ n - tot = omega arith in
            let in_block : off % bsize + m ≤ bsize = omega arith in
            let some_byte : 0 < m = omega (arith, less) in
            let there : off / bsize * bsize < s.size = omega (arith, inside, less) in
            let some_block : (block_of s (off / bsize) == 0) ≡ false =
              ==_ne _ 0 (h.blocks (off / bsize) there) in
            let left : m + (n - (tot + m)) ≡ n - tot = omega (arith, small) in
            rw (read_from, e, bmap-block_of sb s (off / bsize) h there)
              (rw (and_then, some_block)
                (read_from-content rounds (dst + m) (off + m) n (tot + m)
                    (out ++ slice (s.disk (block_of s (off / bsize))) (off % bsize) m)
                    (omega (arith, enough, some_byte)) (omega (arith, small, less))
                    (omega (arith, inside, small, less))
                  ∙ ap (returned n) (
                      joined off m (n - (tot + m)) out in_block
                      ∙ ap (λ k. out ++ slice (content s) off k) left)))
      ]

  -- `readi` of a file that has all its blocks, to memory that can be written: it returns 0 beyond the
  -- end of the file, and where the offset and the length overflow; otherwise it returns the number of
  -- bytes up to the end of the file, at most `n`, and gives the file's bytes from the offset on.
  pub readi-content :
      (dst off n : ℕ)
      → off < 2 ^ 32
      → n < 2 ^ 32
      → s.size < 2 ^ 32
      → let k = if ltb s.size off || ltb (u32 (off + n)) off then 0 else min n (s.size - off) in
        readi sb (λ d m. none) dst off n s ≡ ok (k, slice (content s) off k) s
  unfolding readi
  readi-content dst off n lo ln ls = elim (Bool-cases (ltb s.size off || ltb (u32 (off + n)) off)) [
    | inl e ↦ rw (readi, e) refl
    | inr e ↦
        let fits : off + n < 2 ^ 32 = ground (arith, e, lo, ln) in
        let inside : off ≤ s.size = ground (arith, e) in
        let k = if ltb s.size (u32 (off + n)) then s.size - off else n in
        let same : k ≡ min n (s.size - off) = ground (arith, fits, inside) in
        let all : k - 0 ≡ min n (s.size - off) = ground (arith, same) in
        rw (readi, e)
          (read_from-content k dst off k 0 [] (omega arith) (omega arith)
              (ground (arith, same, inside))
            ∙ ap₂ (λ a b. returned a (slice (content s) off b)) same all)
  ]
