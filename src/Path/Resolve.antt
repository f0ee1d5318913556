-- ===== src/Path/Resolve.antt =====
-- What namex of riscv/kernel/fs.c comes to, and the references and locks that it leaves.
use learn_xv.Prelude.{
  ℕ, ◌+◌, ◌^◌, ◌≡◌, ◌<◌, refl, inl, inr, Bool, ◌==◌, List, [], ◌∷◌, length, none, Bool-cases, arith,
  Ends, Ends-and_then, Ends-map,
}
use learn_xv.Itable.{ninode}
use learn_xv.Path.{
  slash, Inodes, entries_used, add_ref, get_inode, namex_from, starts_at, first_ref, namex,
}
use learn_xv.Path.Elements.{elements}
use learn_xv.Path.References.{one, At, unlocked, At-same, add-At, get-At}
use learn_xv.Path.Walk.{Resolved, resolve, Live, IsLinked, namex_from-Resolved}

module _ (count me : ℕ) (parent : Bool) where
  first-At : (s : Inodes) → ((i : ℕ) → s.owner i ≡ none) → At s.ref (λ i. 0) unlocked s.node s
  first-At s free = record { refs = λ i. omega arith; owners = free; same = refl }

  -- The first reference.
  one-At :
      (j : ℕ) (s t : Inodes)
      → At s.ref (λ i. 0 + one j i) unlocked s.node t
      → At s.ref (one j) unlocked s.node t
  one-At j s t a =
      At-same count me s.node s.ref (λ i. 0 + one j i) (one j) unlocked t (λ i. omega arith) a

  cwd-At :
      (cwd : ℕ) (s : Inodes)
      → ((i : ℕ) → s.ref i < 2 ^ 29)
      → ((i : ℕ) → s.owner i ≡ none)
      → At s.ref (one cwd) unlocked s.node (add_ref cwd s)
  cwd-At cwd s small free = one-At cwd s (add_ref cwd s) (
      add-At count me s.node s.ref (λ i. 0) unlocked cwd s (omega (arith, small cwd))
        (first-At s free))

  first_ref-At :
      (root cwd : ℕ) (path : List ℕ) (s : Inodes)
      → ((i : ℕ) → s.ref i < 2 ^ 29)
      → ((i : ℕ) → s.owner i ≡ none)
      → entries_used count s.ref + 1 < ninode
      → Ends
          (λ u t. At s.ref (one (starts_at count me parent root cwd path)) unlocked s.node t)
          (first_ref count me parent root cwd path s)
  unfolding first_ref
  first_ref-At root cwd [] s small free room = cwd-At cwd s small free
  first_ref-At root cwd (c ∷ path) s small free room = elim (Bool-cases (c == slash)) [
    | inl e ↦ rw e (
        Ends-map (λ u t a. one-At root s t a) (get_inode count root s)
          (get-At count me s.node s.ref (λ i. 0) unlocked root s (omega (arith, small root))
            (omega (arith, room)) (first-At s free)))
    | inr e ↦ rw e (cwd-At cwd s small free)
  ]

  -- `namex` from a state without locks, where fewer than 2 ^ 29 references stand for each inode, two
  -- entries of the table are unused, and the inode where it starts and those that directories lead to
  -- are in use on the disk, ends: it comes to what the elements of the path lead to from the root or
  -- the current directory, or to nothing, holds one reference more to the inode that it returns, none
  -- to any other, and no lock, and frees no inode.
  pub namex-Resolved :
      (root cwd : ℕ) (path name : List ℕ) (s : Inodes)
      → ((i : ℕ) → s.ref i < 2 ^ 29)
      → ((i : ℕ) → s.owner i ≡ none)
      → entries_used count s.ref + 1 < ninode
      → IsLinked s.ref s.node
      → Live s.ref s.node (starts_at count me parent root cwd path)
      → let ip = starts_at count me parent root cwd path in
        Ends
          (Resolved s.ref s.node (resolve parent s.node ip name (elements path)))
          (namex count me parent root cwd path name s)
  unfolding namex
  namex-Resolved root cwd path name s small free room linked live =
      let ip = starts_at count me parent root cwd path in
      Ends-and_then (λ u t. At s.ref (one ip) unlocked s.node t)
        (Resolved s.ref s.node (resolve parent s.node ip name (elements path)))
        (first_ref count me parent root cwd path s)
        (λ u. namex_from count me parent (length path + 1) ip path name)
        (λ u t a.
          namex_from-Resolved count me parent s.ref s.node small room linked (length path + 1) ip
            path name t (omega arith) live a)
        (first_ref-At root cwd path s small free room)
