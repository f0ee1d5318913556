-- ===== src/Content/Examples.antt =====
-- A run of readi of riscv/kernel/fs.c.
use learn_xv.Prelude.{◌≡◌, ap, ◌∙◌, if◌then◌else◌, ◌==◌, [], ◌∷◌, get_or, none, arith, ok}
use learn_xv.Blocks.{Superblock}
use learn_xv.Content.{Opened, slice, readi}
use learn_xv.Content.Lookup.{block_of, content, HasBlocks}
use learn_xv.Content.Read.{readi-content}

abbrev layout : Superblock
layout = record { size = 100; bmapstart = 45 }

-- "hello" in block 50.
abbrev hello : Opened
hello = record {
  addrs = λ i. if i == 0 then 50 else 0;
  size = 5;
  disk = λ b i. if b == 50 then get_or (104 ∷ 101 ∷ 108 ∷ 108 ∷ 111 ∷ []) i 0 else 0;
}

hello-HasBlocks : HasBlocks hello
unfolding block_of
hello-HasBlocks = record {
  fits = omega arith;
  blocks = λ bn lt e.
      let first : 0 ≡ bn = omega (arith, lt) in ground (arith, ap (block_of hello) first ∙ e);
  table = λ lt e. omega (arith, lt);
}

readi-content_example :
    readi layout (λ d m. none) 0 1 100 hello ≡ ok (4, slice (content hello) 1 4) hello
readi-content_example =
    readi-content layout hello hello-HasBlocks 0 1 100 (omega arith) (omega arith) (omega arith)
