-- ===== src/Path/Walk.antt =====
-- The rounds of the loop of namex of riscv/kernel/fs.c, by the elements of the path.
use learn_xv.Prelude.{
  ℕ, zero, suc, ◌≢◌, ◌⊎◌, ◌+◌, ◌^◌, ◌≡◌, ◌<◌, refl, sym, ap, ◌∙◌, inl, inr, Bool, true, false,
  if◌then◌else◌, ==_self, not, ◌&&◌, List, [], ◌∷◌, length, Option, none, some, Bool-cases,
  Option-cases, arith, ok, Cmd, and_then, Ends, Ends-and_then,
}
use learn_xv.Itable.{ninode}
use learn_xv.Path.{
  Node, Inodes, entries_used, get_inode, iput, ilock, iunlock, iunlockput, is_empty, is_dir, fails,
  goes_to, namex_from,
}
use learn_xv.Path.Elements.{elements, is_nil, skipelem_cases}
use learn_xv.Path.References.{
  one, held, At, unlocked, only, entries_used-one, At-same, alone-At, get-At, put-At, lock-At,
  unlock-At, unlockput-At,
}

-- One reference more to the inode that is returned, no lock, and the inodes as they were.
abbrev pub Resolved :
    (ℕ → ℕ) → (ℕ → Node) → Option (ℕ × List ℕ) → Option (ℕ × List ℕ) → Inodes → Type 0
Resolved base nodes want r s = (r ≡ want) × At base (held r) unlocked nodes s

module _ (parent : Bool) (nodes : ℕ → Node) where
  -- The inode that the elements lead to from `ip`: for `nameiparent` the last directory, with the last
  -- element as the name.
  unfoldable pub resolve : (ip : ℕ) (name : List ℕ) → List (List ℕ) → Option (ℕ × List ℕ)
  resolve ip name [] = if parent then none else some (ip, name)
  resolve ip name (n ∷ ns) =
      if not (is_dir (nodes ip))
      then none
      else if parent && is_nil ns
      then some (ip, n)
      else elim ((nodes ip).entry n) [ none ↦ none | some next ↦ resolve next n ns ]

-- An inode that is in use on the disk: it has a type, and a link or another reference.
abbrev pub Live : (ℕ → ℕ) → (ℕ → Node) → ℕ → Type 0
Live base nodes i = ((nodes i).type_ ≢ 0) × (((nodes i).nlink ≢ 0) ⊎ (0 < base i))

-- The entries of a directory that is in use lead to inodes in use.
abbrev pub IsLinked : (ℕ → ℕ) → (ℕ → Node) → Type 0
IsLinked base nodes =
    (i j : ℕ) (name : List ℕ)
    → Live base nodes i
    → (nodes i).entry name ≡ some j
    → Live base nodes j

module _ (count me : ℕ) (parent : Bool) (base : ℕ → ℕ) (nodes : ℕ → Node)
    (small : (i : ℕ) → base i < 2 ^ 29) (room : entries_used count base + 1 < ninode)
    (linked : IsLinked base nodes) where
  fails-Resolved :
      (ip : ℕ) (s : Inodes)
      → Live base nodes ip
      → At base (one ip) (only me ip) nodes s
      → Ends (Resolved base nodes none) (fails count me parent ip s)
  unfolding fails
  fails-Resolved ip s v a =
      Ends-and_then (λ u t. At base (λ i. 0) unlocked nodes t) (Resolved base nodes none)
        (iunlockput me ip s) (λ u. ok none) (λ u t b. (refl, b))
        (unlockput-At count me nodes base (λ i. 0) ip s (omega (arith, small ip)) v.1
          (alone-At count me nodes base (only me ip) ip s a))

  -- To `next`, with the reference to it taken before the one to `ip` is given back.
  next-At :
      (ip next : ℕ) (s : Inodes)
      → Live base nodes ip
      → At base (one ip) (only me ip) nodes s
      → Ends (λ u t. At base (one next) unlocked nodes t) (goes_to count me parent ip next s)
  unfolding goes_to
  next-At ip next s v a =
      let used = entries_used-one count ip s.ref base a.refs in
      Ends-and_then (λ u t. At base (λ i. one ip i + one next i) (only me ip) nodes t)
        (λ u t. At base (one next) unlocked nodes t) (get_inode count next s)
        (λ u. iunlockput me ip)
        (λ u t b. unlockput-At count me nodes base (one next) ip t (ground (arith, small ip)) v.1 (
          At-same count me nodes base (λ i. one ip i + one next i) (λ i. one next i + one ip i)
            (only me ip) t (λ i. omega arith) b))
        (get-At count me nodes base (one ip) (only me ip) next s (ground (arith, small next))
          (ground (arith, used, room)) a)

  -- A round of the loop at the inode `ip`, which is locked, with the element `elem`.
  abbrev round :
      (ℕ → List ℕ → List ℕ → Cmd Inodes (Option (ℕ × List ℕ)))
      → (ip : ℕ) (elem rest : List ℕ) → Cmd Inodes (Option (ℕ × List ℕ))
  unfolding iunlock iunlockput get_inode
  round loop ip elem rest t =
      if not (is_dir (t.node ip))
      then fails count me parent ip t
      else if parent && is_empty rest
      then and_then (iunlock me ip t) (λ v. ok (some (ip, elem)))
      else elim ((t.node ip).entry elem) [
        | none ↦ fails count me parent ip t
        | some next ↦ and_then (goes_to count me parent ip next t) (λ v. loop next rest elem)
      ]

  round-Resolved :
      (loop : ℕ → List ℕ → List ℕ → Cmd Inodes (Option (ℕ × List ℕ))) (ip : ℕ) (elem rest : List ℕ)
      → is_empty rest ≡ is_nil (elements rest)
      → Live base nodes ip
      → ((next : ℕ) (t : Inodes)
          → Live base nodes next
          → At base (one next) unlocked nodes t
          → Ends
              (Resolved base nodes (resolve parent nodes next elem (elements rest)))
              (loop next rest elem t))
      → (name : List ℕ) (t : Inodes) → At base (one ip) (only me ip) nodes t
      → Ends
          (Resolved base nodes (resolve parent nodes ip name (elem ∷ elements rest)))
          (round loop ip elem rest t)
  unfolding round resolve
  round-Resolved loop ip elem rest last v ih name t a =
      let here : t.node ip ≡ nodes ip = ap (λ f. f ip) a.same in
      elim (Bool-cases (is_dir (nodes ip))) [
        | inr d ↦ rw (here, d) (fails-Resolved ip t v a)
        | inl d ↦ elim (Bool-cases (parent && is_empty rest)) [
          | inl p ↦
              let q : (parent && is_nil (elements rest)) ≡ true =
                ap (λ b. parent && b) (sym last) ∙ p in
              rw (here, d, p, q)
                (Ends-and_then (λ u s. At base (one ip) unlocked nodes s)
                  (Resolved base nodes (some (ip, elem))) (iunlock me ip t)
                  (λ v. ok (some (ip, elem))) (λ u s b. (refl, b))
                  (unlock-At count me nodes base (one ip) ip t (ground (arith, ==_self ip))
                    (ground (arith, small ip)) a))
          | inr p ↦
              let q : (parent && is_nil (elements rest)) ≡ false =
                ap (λ b. parent && b) (sym last) ∙ p in
              elim (Option-cases ((nodes ip).entry elem)) [
                | inl n ↦ rw (here, d, p, q, n) (fails-Resolved ip t v a)
                | inr (next, h) ↦
                    rw (here, d, p, q, h)
                      (Ends-and_then (λ u s. At base (one next) unlocked nodes s)
                        (Resolved base nodes (resolve parent nodes next elem (elements rest)))
                        (goes_to count me parent ip next t) (λ v. loop next rest elem)
                        (λ u s b. ih next s (linked ip next elem v h) b) (next-At ip next t v a))
              ]
        ]
      ]

  pub namex_from-Resolved :
      (rounds ip : ℕ) (path name : List ℕ) (s : Inodes)
      → length path < rounds
      → Live base nodes ip
      → At base (one ip) unlocked nodes s
      → Ends
          (Resolved base nodes (resolve parent nodes ip name (elements path)))
          (namex_from count me parent rounds ip path name s)
  unfolding namex_from resolve
  namex_from-Resolved zero ip path name s lt v a = elim lt [ ]
  namex_from-Resolved (suc rounds) ip path name s lt v a = elim (skipelem_cases path) [
    | inl (n, none_left) ↦
        rw (namex_from, n, none_left)
          (elim (Bool-cases parent) [
            | inl p ↦ rw p (
                Ends-and_then (λ u t. At base (λ i. 0) unlocked nodes t) (Resolved base nodes none)
                  (iput ip s) (λ u. ok none) (λ u t b. (refl, b))
                  (put-At count me nodes base (λ i. 0) unlocked ip s (omega (arith, small ip)) v.1
                    (alone-At count me nodes base unlocked ip s a)))
            | inr p ↦ rw p (refl, a)
          ])
    | inr (elem, rest, h, k) ↦
        rw (namex_from, h, k.is_first)
          (Ends-and_then (λ u t. At base (one ip) (only me ip) nodes t)
            (Resolved base nodes (resolve parent nodes ip name (elem ∷ elements rest)))
            (ilock me ip s) (λ u. round (namex_from count me parent rounds) ip elem rest)
            (λ u t b.
              round-Resolved (namex_from count me parent rounds) ip elem rest k.last_iff v
                (λ next t' v' b'.
                  namex_from-Resolved rounds next rest elem t' (omega (arith, k.shorter, lt)) v' b')
                name t b)
            (lock-At count me nodes base (one ip) ip s (ground (arith, ==_self ip))
              (ground (arith, small ip)) v.0 a))
  ]
