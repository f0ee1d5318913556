-- ===== src/Proc/Allocated.antt =====
-- The entry that allocproc of riscv/kernel/proc.c takes.
use learn_xv.Prelude.{
  ℕ, zero, suc, ◌+◌, ◌≡◌, ◌≢◌, ◌<◌, ◌≤◌, sym, eq_cases, ◌⊎◌, refl, ap, subst, ◌∙◌, inl, inr,
  if◌then◌else◌, ◌==◌, arith, none, some, none-ne-some, some-injective, u32, update, update_self,
  update_ne, Bool-cases, Option-cases,
}
use learn_xv.Proc.State.{nproc, unused, is_state, Proc, Kernel, Resources, set_proc}
use learn_xv.Proc.Table.{
  find_proc, claim, freeproc, freed, give_trapframe, give_pagetable, alloc_at, allocproc,
}
use learn_xv.Proc.Kinds.{is_state-eq}

module _ {M : Type 0} where
  -- No other entry than `i` is changed.
  pub record OnlyAt (i : ℕ) (k l : Kernel M) : Type 0 where
    pub init_kept : l.initproc ≡ k.initproc
    pub others : (j : ℕ) → j ≢ i → l.proc j ≡ k.proc j

  pub OnlyAt-refl : (i : ℕ) (k : Kernel M) → OnlyAt i k k
  OnlyAt-refl i k = record { init_kept = refl; others = λ j ne. refl }

  pub OnlyAt-trans : {i : ℕ} {k l m : Kernel M} → OnlyAt i k l → OnlyAt i l m → OnlyAt i k m
  OnlyAt-trans a b = record {
    init_kept = b.init_kept ∙ a.init_kept;
    others = λ j ne. b.others j ne ∙ a.others j ne;
  }

  pub set_proc-OnlyAt : (i : ℕ) (p : Proc) (k : Kernel M) → OnlyAt i k (set_proc i p k)
  set_proc-OnlyAt i p k = record { init_kept = refl; others = update_ne k.proc i p }

  pub find_proc-Found :
      (left i j : ℕ) (k : Kernel M)
      → find_proc left i k ≡ some j
      → ((k.proc j).state ≡ unused) × (j < i + left)
  unfolding find_proc
  find_proc-Found zero i j k e = elim (none-ne-some _ e) [ ]
  find_proc-Found (suc left) i j k e = elim (Bool-cases (is_state (k.proc i).state unused)) [
    | inl b ↦
        let h : i ≡ j =
          some-injective _ _
            (subst (λ c. (if c then some i else find_proc left (i + 1) k) ≡ some j) b e) in
        (subst (λ x. (k.proc x).state ≡ unused) h (is_state-eq _ _ b), omega (arith, h))
    | inr b ↦
        let (z, h) =
          find_proc-Found left (i + 1) j k
            (subst (λ c. (if c then some i else find_proc left (i + 1) k) ≡ some j) b e) in
        (z, omega (arith, h))
  ]

  abbrev pub NoUnused : Kernel M → Type 0
  NoUnused k = (j : ℕ) → j < nproc → (k.proc j).state ≢ unused

  find_proc-none :
      (left i : ℕ) (k : Kernel M)
      → find_proc left i k ≡ none
      → (j : ℕ) → i ≤ j
      → j < i + left
      → (k.proc j).state ≢ unused
  unfolding find_proc
  find_proc-none zero i k e j le lt = λ z. omega (arith, le, lt)
  find_proc-none (suc left) i k e j le lt = elim (Bool-cases (is_state (k.proc i).state unused)) [
    | inl b ↦
        elim (none-ne-some i
          (sym (subst (λ c. (if c then some i else find_proc left (i + 1) k) ≡ none) b e))) [ ]
    | inr b ↦ elim (eq_cases j i) [
      | inl same ↦ λ z. ground (
        arith,
        b,
        ap (λ x. is_state (k.proc x).state unused) (sym same) ∙ ap (λ s. is_state s unused) z,
      )
      | inr ne ↦
          find_proc-none left (i + 1) k
            (subst (λ c. (if c then some i else find_proc left (i + 1) k) ≡ none) b e) j
            (omega (arith, le, ne)) (omega (arith, lt))
    ]
  ]

  -- The entry and the counter of a process that could not be made.
  pub record Undone (i : ℕ) (k l : Kernel M) : Type 0 where
    pub kept : OnlyAt i k l
    pub counted : l.nextpid ≡ u32 (k.nextpid + 1)
    pub state_back : (l.proc i).state ≡ unused
    pub pid_back : (l.proc i).pid ≡ 0
    pub parent_back : (l.proc i).parent ≡ 0

  -- A new entry with its number, in which all else that a process inherits is as it was.
  pub record Allocated (i : ℕ) (k l : Kernel M) : Type 0 where
    pub kept : OnlyAt i k l
    pub counted : l.nextpid ≡ u32 (k.nextpid + 1)
    pub pid_new : (l.proc i).pid ≡ k.nextpid
    pub ofile_old : (l.proc i).ofile ≡ (k.proc i).ofile
    pub parent_old : (l.proc i).parent ≡ (k.proc i).parent

  module _ (res : Resources M) where
    pub freeproc-Undone :
        (i : ℕ) (k l : Kernel M)
        → OnlyAt i k l
        → l.nextpid ≡ u32 (k.nextpid + 1)
        → Undone i k (freeproc res i l)
    unfolding freeproc
    freeproc-Undone i k l o e =
        let new : update l.proc i (freed (l.proc i)) i ≡ freed (l.proc i) =
          update_self l.proc i _ in
        record {
          kept = record {
            init_kept = o.init_kept;
            others = λ j ne. update_ne l.proc i _ j ne ∙ o.others j ne;
          };
          counted = e;
          state_back = ap (λ (p : Proc). p.state) new;
          pid_back = ap (λ (p : Proc). p.pid) new;
          parent_back = ap (λ (p : Proc). p.parent) new;
        }

    pub claim-Allocated : (i : ℕ) (k : Kernel M) → Allocated i k (claim i k)
    unfolding claim
    claim-Allocated i k =
        let new : update k.proc i (record (k.proc i) { pid = k.nextpid; state = _ }) i ≡ _ =
          update_self k.proc i _ in
        record {
          kept = record { init_kept = refl; others = update_ne k.proc i _ };
          counted = refl;
          pid_new = ap (λ (p : Proc). p.pid) new;
          ofile_old = ap (λ (p : Proc). p.ofile) new;
          parent_old = ap (λ (p : Proc). p.parent) new;
        }

    -- A store into the new entry that keeps its number and its files, and a change of the memory.
    filled-Allocated :
        (i : ℕ) (k l : Kernel M) (p : Proc) (m : M)
        → Allocated i k l
        → p.pid ≡ (l.proc i).pid
        → p.ofile ≡ (l.proc i).ofile
        → p.parent ≡ (l.proc i).parent
        → Allocated i k (record (set_proc i p l) { memory = m })
    filled-Allocated i k l p m a e f g =
        let new : update l.proc i p i ≡ p = update_self l.proc i p in
        record {
          kept = record {
            init_kept = a.kept.init_kept;
            others = λ j ne. update_ne l.proc i p j ne ∙ a.kept.others j ne;
          };
          counted = a.counted;
          pid_new = ap (λ (q : Proc). q.pid) new ∙ e ∙ a.pid_new;
          ofile_old = ap (λ (q : Proc). q.ofile) new ∙ f ∙ a.ofile_old;
          parent_old = ap (λ (q : Proc). q.parent) new ∙ g ∙ a.parent_old;
        }

    alloc_at_cases :
        (forkret i : ℕ) (k : Kernel M)
        → let r = alloc_at res forkret i k in
          ((r.0 ≡ none) × Undone i k r.1) ⊎ ((r.0 ≡ some i) × Allocated i k r.1)
    unfolding alloc_at
    alloc_at_cases forkret i k =
        let c = claim i k in
        let ac : Allocated i k c = claim-Allocated i k in
        let frame = res.kalloc c.memory in
        let k1 = give_trapframe i frame c in
        let a1 : Allocated i k k1 = filled-Allocated i k c _ frame.1 ac refl refl refl in
        let table = res.proc_pagetable frame.0 k1.memory in
        let k2 = give_pagetable i table k1 in
        let a2 : Allocated i k k2 = filled-Allocated i k k1 _ table.1 a1 refl refl refl in
        elim (Bool-cases (frame.0 == 0)) [
          | inl e ↦ inl (rw (alloc_at, e) (refl, freeproc-Undone i k k1 a1.kept a1.counted))
          | inr e ↦ elim (Bool-cases (table.0 == 0)) [
            | inl f ↦ inl (rw (alloc_at, e, f) (refl, freeproc-Undone i k k2 a2.kept a2.counted))
            | inr f ↦
                inr (
                  rw (alloc_at, e, f) (refl, filled-Allocated i k k2 _ k2.memory a2 refl refl refl))
          ]
        ]

    pub allocproc_cases :
        (forkret : ℕ) (k : Kernel M)
        → let r = allocproc res forkret k in
          ((r ≡ (none, k)) × NoUnused k)
          ⊎ ((i : ℕ) × ((k.proc i).state ≡ unused)
              × (i < nproc)
              × (((r.0 ≡ none) × Undone i k r.1) ⊎ ((r.0 ≡ some i) × Allocated i k r.1)))
    unfolding allocproc
    allocproc_cases forkret k = elim (Option-cases (find_proc nproc 0 k)) [
      | inl n ↦ inl (rw (allocproc, n) refl, λ j lt. find_proc-none nproc 0 k n j (omega arith) lt)
      | inr (i, h) ↦
          let (z, lt) = find_proc-Found nproc 0 i k h in
          inr (i, z, lt, rw (allocproc, h) (alloc_at_cases forkret i k))
    ]
