-- ===== src/Path/Examples.antt =====
-- A run of namex of riscv/kernel/fs.c.
use learn_xv.Prelude.{
  ℕ, ◌≢◌, refl, inl, false, if◌then◌else◌, ◌==◌, List, [], ◌∷◌, none, some, arith, Ends,
}
use learn_xv.Path.{slash, Node, Inodes, starts_at, namex}
use learn_xv.Path.Elements.{elements}
use learn_xv.Path.Walk.{Resolved, resolve, IsLinked}
use learn_xv.Path.Resolve.{namex-Resolved}

-- Inode 1 is the root, a directory whose entries lead to the file 2.
abbrev disk : ℕ → Node
disk i = record {
  type_ = if i == 1 then 1 else 2;
  nlink = 1;
  entry = λ name. if i == 1 then some 2 else none;
}

abbrev at_rest : Inodes
at_rest = record { ref = λ i. 0; owner = λ i. none; valid = λ i. false; node = disk }

-- "/a".
abbrev name_a : List ℕ
name_a = slash ∷ 97 ∷ []

typed : (i : ℕ) → (disk i).type_ ≢ 0
typed i = λ e. ground (arith, e)

disk-IsLinked : IsLinked (λ i. 0) disk
disk-IsLinked i j name v e = (typed j, inl (λ z. omega (arith, z)))

namex-Resolved_example :
    Ends
      (Resolved
        (λ i. 0)
        disk
        (resolve false disk (starts_at 3 7 false 1 5 name_a) [] (elements name_a)))
      (namex 3 7 false 1 5 name_a [] at_rest)
namex-Resolved_example =
    namex-Resolved 3 7 false 1 5 name_a [] at_rest (λ i. omega arith) (λ i. refl) (omega arith)
      disk-IsLinked (typed 1, inl (λ z. omega (arith, z)))
