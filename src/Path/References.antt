-- ===== src/Path/References.antt =====
-- The references to inodes and the locks that the calls of riscv/kernel/fs.c take and give back.
use learn_xv.Prelude.{
  ℕ, zero, suc, ◌&&◌, leb, ltb, ◌≤◌, ◌≢◌, ◌⊎◌, if_true, if_false, ==_iff, Bool-cases, ◌+◌, ◌^◌, ◌≡◌,
  ◌<◌, sym, ap, ◌∙◌, inl, inr, Bool, true, false, if◌then◌else◌, ◌==◌, ==_self, ==_ne, List, Option,
  none, some, u32, sub32, int_ltb, update, update_self, update_ne, eq_cases, arith, Ends,
  Ends-and_then,
}
use learn_xv.Itable.{ninode}
use learn_xv.Path.{
  Node, Inodes, entries_used, add_ref, get_inode, drop_inode, iput, is_holder, ilock, iunlock,
  iunlockput,
}

abbrev pub one : ℕ → ℕ → ℕ
one j i = if i == j then 1 else 0

abbrev pub held : Option (ℕ × List ℕ) → ℕ → ℕ
held none i = 0
held (some (ip, name)) i = one ip i

-- The references beyond those of `base`, the locks, and the inodes.
pub record At (base more : ℕ → ℕ) (locks : ℕ → Option ℕ) (nodes : ℕ → Node) (s : Inodes)
    : Type 0 where
  pub refs : (i : ℕ) → s.ref i ≡ base i + more i
  pub owners : (i : ℕ) → s.owner i ≡ locks i
  pub same : s.node ≡ nodes

abbrev pub unlocked : ℕ → Option ℕ
unlocked i = none

-- The process has the lock of `ip`.
abbrev pub only : (me ip : ℕ) → ℕ → Option ℕ
only me ip i = if i == ip then some me else none

pub entries_used-one :
    (count j : ℕ) (ref base : ℕ → ℕ)
    → ((i : ℕ) → ref i ≡ base i + one j i)
    → entries_used count ref ≤ entries_used count base + (if ltb j count then 1 else 0)
entries_used-one zero j ref base e = omega arith
entries_used-one (suc n) j ref base e = ground (arith, entries_used-one n j ref base e, e n)

module _ (count me : ℕ) (nodes : ℕ → Node) where
  pub At-same :
      (base h g : ℕ → ℕ) (l : ℕ → Option ℕ) (s : Inodes)
      → ((i : ℕ) → h i ≡ g i)
      → At base h l nodes s
      → At base g l nodes s
  At-same base h g l s e a = record {
    refs = λ i. a.refs i ∙ ap (λ n. base i + n) (e i);
    owners = a.owners;
    same = a.same;
  }

  pub alone-At :
      (base : ℕ → ℕ) (l : ℕ → Option ℕ) (ip : ℕ) (s : Inodes)
      → At base (one ip) l nodes s
      → At base (λ i. 0 + one ip i) l nodes s
  alone-At base l ip s a = At-same base (one ip) (λ i. 0 + one ip i) l s (λ i. omega arith) a

  pub add-At :
      (base h : ℕ → ℕ) (l : ℕ → Option ℕ) (j : ℕ) (s : Inodes)
      → base j + h j < 2 ^ 31
      → At base h l nodes s
      → At base (λ i. h i + one j i) l nodes (add_ref j s)
  unfolding add_ref
  add-At base h l j s lt a = record {
    refs = λ i. elim (eq_cases i j) [
      | inl e ↦
          ap (update s.ref j (u32 (s.ref j + 1))) e
          ∙ update_self s.ref j _
          ∙ ground (arith, a.refs j, lt, ap h e, ap base e, e)
      | inr ne ↦ update_ne s.ref j _ i ne ∙ ground (arith, a.refs i, ne)
    ];
    owners = a.owners;
    same = a.same;
  }

  pub get-At :
      (base h : ℕ → ℕ) (l : ℕ → Option ℕ) (j : ℕ) (s : Inodes)
      → base j + h j < 2 ^ 31
      → entries_used count s.ref < ninode
      → At base h l nodes s
      → Ends (λ u t. At base (λ i. h i + one j i) l nodes t) (get_inode count j s)
  unfolding get_inode
  get-At base h l j s lt room a =
      let there : leb ninode (entries_used count s.ref) ≡ false = ground (arith, room) in
      elim (Bool-cases (s.ref j == 0)) [
        | inl z ↦
            rw (Ends, z, there)
              (record {
                refs = λ i. elim (eq_cases i j) [
                  | inl e ↦
                      ap (update s.ref j 1) e
                      ∙ update_self s.ref j 1
                      ∙ ground (arith, a.refs j, z, ap h e, ap base e, e)
                  | inr ne ↦ update_ne s.ref j 1 i ne ∙ ground (arith, a.refs i, ne)
                ];
                owners = a.owners;
                same = a.same;
              })
        | inr z ↦ rw (Ends, z) (add-At base h l j s lt a)
      ]

  -- The inode has a link or another reference, so that it is not freed.
  pub put-At :
      (base h : ℕ → ℕ) (l : ℕ → Option ℕ) (j : ℕ) (s : Inodes)
      → base j + h j < 2 ^ 31
      → ((nodes j).nlink ≢ 0) ⊎ (0 < base j)
      → At base (λ i. h i + one j i) l nodes s
      → Ends (λ u t. At base h l nodes t) (iput j s)
  unfolding iput drop_inode
  put-At base h l j s lt live a =
      let mine : one j j ≡ 1 = ground (arith, ==_self j) in
      let links : (s.node j).nlink ≡ (nodes j).nlink = ap (λ f. (f j).nlink) a.same in
      let stays : (s.ref j == 1) && s.valid j && ((s.node j).nlink == 0) ≡ false = elim live [
        | inl k ↦ ground (arith, links, k)
        | inr b ↦ ground (arith, a.refs j, mine, b)
      ] in
      rw (Ends, stays)
        (record {
          refs = λ i. elim (eq_cases i j) [
            | inl e ↦
                ap (update s.ref j (sub32 (s.ref j) 1)) e
                ∙ update_self s.ref j _
                ∙ ground (arith, a.refs j, lt, ap h e, ap base e, e, ==_self j)
            | inr ne ↦ update_ne s.ref j _ i ne ∙ ground (arith, a.refs i, ne)
          ];
          owners = a.owners;
          same = a.same;
        })

  locked-At :
      (base h : ℕ → ℕ) (ip : ℕ) (s : Inodes) (v : ℕ → Bool)
      → At base h unlocked nodes s
      → At base h (only me ip) nodes (record s { owner = update s.owner ip (some me); valid = v })
  locked-At base h ip s v a = record {
    refs = a.refs;
    owners = λ i. elim (eq_cases i ip) [
      | inl e ↦
          ap (update s.owner ip (some me)) e
          ∙ update_self s.owner ip (some me)
          ∙ sym (if_true (some me) none ((==_iff i ip).1 e))
      | inr ne ↦
          update_ne s.owner ip (some me) i ne
          ∙ a.owners i
          ∙ sym (if_false (some me) none (==_ne i ip ne))
    ];
    same = a.same;
  }

  pub lock-At :
      (base h : ℕ → ℕ) (ip : ℕ) (s : Inodes)
      → 0 < base ip + h ip
      → base ip + h ip < 2 ^ 31
      → (nodes ip).type_ ≢ 0
      → At base h unlocked nodes s
      → Ends (λ u t. At base h (only me ip) nodes t) (ilock me ip s)
  unfolding ilock
  lock-At base h ip s pos lt typed a =
      let t : int_ltb (s.ref ip) 1 ≡ false = ground (arith, a.refs ip, pos, lt) in
      let has : ((s.node ip).type_ == 0) ≡ false =
        ap (λ f. (f ip).type_ == 0) a.same ∙ ==_ne _ _ typed in
      elim (Bool-cases (s.valid ip)) [
        | inl v ↦ rw (Ends, t, a.owners ip, v) (locked-At base h ip s s.valid a)
        | inr v ↦
            rw (Ends, t, a.owners ip, v, has) (locked-At base h ip s (update s.valid ip true) a)
      ]

  pub unlock-At :
      (base h : ℕ → ℕ) (ip : ℕ) (s : Inodes)
      → 0 < base ip + h ip
      → base ip + h ip < 2 ^ 31
      → At base h (only me ip) nodes s
      → Ends (λ u t. At base h unlocked nodes t) (iunlock me ip s)
  unfolding iunlock
  unlock-At base h ip s pos lt a =
      let t : int_ltb (s.ref ip) 1 ≡ false = ground (arith, a.refs ip, pos, lt) in
      let mine : s.owner ip ≡ some me = a.owners ip ∙ if_true (some me) none (==_self ip) in
      let u : is_holder me (s.owner ip) ≡ true = ap (is_holder me) mine ∙ ==_self me in
      rw (Ends, u, t)
        (record {
          refs = a.refs;
          owners = λ i. elim (eq_cases i ip) [
            | inl e ↦ ap (update s.owner ip none) e ∙ update_self s.owner ip none
            | inr ne ↦
                update_ne s.owner ip none i ne
                ∙ a.owners i
                ∙ if_false (some me) none (==_ne i ip ne)
          ];
          same = a.same;
        })

  pub unlockput-At :
      (base h : ℕ → ℕ) (ip : ℕ) (s : Inodes)
      → base ip + h ip < 2 ^ 30
      → ((nodes ip).nlink ≢ 0) ⊎ (0 < base ip)
      → At base (λ i. h i + one ip i) (only me ip) nodes s
      → Ends (λ u t. At base h unlocked nodes t) (iunlockput me ip s)
  unfolding iunlockput
  unlockput-At base h ip s lt live a =
      Ends-and_then (λ u t. At base (λ i. h i + one ip i) unlocked nodes t)
        (λ u t. At base h unlocked nodes t) (iunlock me ip s) (λ u. iput ip)
        (λ u t b. put-At base h unlocked ip t (omega (arith, lt)) live b)
        (unlock-At base (λ i. h i + one ip i) ip s (ground (arith, ==_self ip))
          (ground (arith, lt, ==_self ip)) a)
