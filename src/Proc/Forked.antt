-- ===== src/Proc/Forked.antt =====
-- The child that kfork of riscv/kernel/proc.c makes.
use learn_xv.Prelude.{
  minus_one, ℕ, zero, suc, Bool, ◌+◌, ◌≡◌, ◌≢◌, ◌<◌, ◌≤◌, ◌⊎◌, refl, sym, ap, ap₂, subst, ◌∙◌, inl,
  inr, true, false, if◌then◌else◌, ◌==◌, arith, Option, none, some, u32, update, update_self,
  update_ne, eq_cases, Bool-cases, if_true, if_false, for_loop, for_loop_inv,
}
use learn_xv.Proc.State.{nproc, nofile, unused, runnable, Proc, Kernel, Resources, proc_at}
use learn_xv.Proc.Table.{allocproc, freeproc}
use learn_xv.Proc.Fork.{dup_file, copy_user, copy_files, finish, fork_into, kfork}
use learn_xv.Proc.Allocated.{
  OnlyAt, OnlyAt-refl, OnlyAt-trans, Undone, Allocated, freeproc-Undone, allocproc_cases, NoUnused,
}

module _ {M : Type 0} where
  -- What `kfork` makes of the new entry.
  pub record Child (me i : ℕ) (k l : Kernel M) : Type 0 where
    pub kept : OnlyAt i k l
    pub counted : l.nextpid ≡ u32 (k.nextpid + 1)
    pub pid_new : (l.proc i).pid ≡ k.nextpid
    pub ready : (l.proc i).state ≡ runnable
    pub of_parent : (l.proc i).parent ≡ proc_at me
    pub size : (l.proc i).sz ≡ (k.proc me).sz
    pub directory : (l.proc i).cwd ≡ (k.proc me).cwd
    -- A file that the parent has open is open in the child.
    pub files :
        (fd : ℕ)
        → fd < nofile
        → (l.proc i).ofile fd
          ≡ (if (k.proc me).ofile fd == 0 then (k.proc i).ofile fd else (k.proc me).ofile fd)

  -- The memory after `filedup` of the open files among the first `n`.
  abbrev pub dup_open : Resources M → (ℕ → ℕ) → (n : ℕ) → M → M
  dup_open res ofile zero m = m
  dup_open res ofile (suc n) m =
      if ofile n == 0
      then dup_open res ofile n m
      else res.filedup (ofile n) (dup_open res ofile n m)

  module _ (res : Resources M) (me i : ℕ) where
    -- The copy of the parent's memory for the child, by the table after `allocproc`.
    abbrev pub copied_user : Kernel M → Bool × M
    copied_user l = res.uvmcopy (l.proc me).pagetable (l.proc i).pagetable (l.proc me).sz l.memory

    -- The memory when the child has the user's memory, the registers with a result of 0, and a
    -- reference to each open file and to the directory.
    abbrev pub inherited : Kernel M → M
    inherited l =
        let m = res.copy_trapframe (l.proc me).trapframe (l.proc i).trapframe (copied_user l).1 in
        let m1 = res.set_a0 (l.proc i).trapframe 0 m in
        res.idup (l.proc me).cwd (dup_open res (l.proc me).ofile nofile m1)

    -- `a` is what `allocproc` gives, and `r` what `kfork` makes of it: it fails with the entry taken
    -- where no memory was left, or the user's memory could not be copied; or there is a child.
    pub data Forks (k : Kernel M) (a : Option ℕ × Kernel M) (r : ℕ × Kernel M) : Type 0 where
      no_memory : r ≡ (minus_one, a.1) → a.0 ≡ none → Undone i k r.1 → Forks k a r
      no_copy :
          r ≡ (minus_one, freeproc res i (record a.1 { memory = (copied_user a.1).1 }))
          → a.0 ≡ some i
          → (copied_user a.1).0 ≡ true
          → Undone i k r.1
          → Forks k a r
      forks :
          r.0 ≡ k.nextpid
          → a.0 ≡ some i
          → (copied_user a.1).0 ≡ false
          → Child me i k r.1
          → r.1.memory ≡ inherited a.1
          → Forks k a r

  module _ (res : Resources M) (me i : ℕ) (ne : me ≢ i) where
    -- What the child has at a descriptor after the loop.
    abbrev inherits : Kernel M → ℕ → ℕ
    inherits k g = if (k.proc me).ofile g == 0 then (k.proc i).ofile g else (k.proc me).ofile g

    -- The loop over the files, at descriptor `fd`.
    record Duping (k : Kernel M) (fd : ℕ) (l : Kernel M) : Type 0 where
      pub same : OnlyAt i k l
      pub next_same : l.nextpid ≡ k.nextpid
      pub pid_same : (l.proc i).pid ≡ (k.proc i).pid
      pub sz_same : (l.proc i).sz ≡ (k.proc i).sz
      pub dups : l.memory ≡ dup_open res (k.proc me).ofile fd k.memory
      pub before : (g : ℕ) → g < fd → (l.proc i).ofile g ≡ inherits k g
      pub after : (g : ℕ) → fd ≤ g → (l.proc i).ofile g ≡ (k.proc i).ofile g

    open_file-Duping :
        (k : Kernel M) (fd : ℕ) (l : Kernel M)
        → Duping k fd l
        → ((l.proc me).ofile fd == 0) ≡ false
        → Duping k (suc fd) (dup_file res me i fd l)
    open_file-Duping k fd l d e =
        let f_same : (l.proc me).ofile fd ≡ (k.proc me).ofile fd =
          ap (λ (p : Proc). p.ofile fd) (d.same.others me ne) in
        let closed : ((k.proc me).ofile fd == 0) ≡ false = ap (λ f. f == 0) (sym f_same) ∙ e in
        let q = record (l.proc i) { ofile = update (l.proc i).ofile fd ((l.proc me).ofile fd) } in
        let new : update l.proc i q i ≡ q = update_self l.proc i q in
        rw e (record {
          same = OnlyAt-trans d.same (record { init_kept = refl; others = update_ne l.proc i q });
          next_same = d.next_same;
          pid_same = ap (λ (p : Proc). p.pid) new ∙ d.pid_same;
          sz_same = ap (λ (p : Proc). p.sz) new ∙ d.sz_same;
          dups = ap₂ (λ f m. res.filedup f m) f_same d.dups ∙ sym (if_false _ _ closed);
          before = λ g lt. ap (λ (p : Proc). p.ofile g) new ∙ elim (eq_cases g fd) [
            | inl eq ↦
                ap (λ x. update (l.proc i).ofile fd ((l.proc me).ofile fd) x) eq
                ∙ update_self (l.proc i).ofile fd _
                ∙ f_same
                ∙ subst (λ x. (k.proc me).ofile fd ≡ inherits k x) (sym eq) (rw closed refl)
            | inr nq ↦ update_ne (l.proc i).ofile fd _ g nq ∙ d.before g (omega (arith, lt, nq))
          ];
          after = λ g le.
              ap (λ (p : Proc). p.ofile g) new
              ∙ update_ne (l.proc i).ofile fd _ g (omega (arith, le))
              ∙ d.after g (omega (arith, le));
        })

    no_file-Duping :
        (k : Kernel M) (fd : ℕ) (l : Kernel M)
        → Duping k fd l
        → ((l.proc me).ofile fd == 0) ≡ true
        → Duping k (suc fd) (dup_file res me i fd l)
    no_file-Duping k fd l d e =
        let f_same : (l.proc me).ofile fd ≡ (k.proc me).ofile fd =
          ap (λ (p : Proc). p.ofile fd) (d.same.others me ne) in
        let closed : ((k.proc me).ofile fd == 0) ≡ true = ap (λ f. f == 0) (sym f_same) ∙ e in
        rw e (record {
          same = d.same;
          next_same = d.next_same;
          pid_same = d.pid_same;
          sz_same = d.sz_same;
          dups = d.dups ∙ sym (if_true _ _ closed);
          before = λ g lt. elim (eq_cases g fd) [
            | inl eq ↦
                subst (λ x. (l.proc i).ofile x ≡ inherits k x) (sym eq)
                  (d.after fd (omega arith) ∙ rw closed refl)
            | inr nq ↦ d.before g (omega (arith, lt, nq))
          ];
          after = λ g le. d.after g (omega (arith, le));
        })

    dup_file-Duping :
        (k : Kernel M) (fd : ℕ) (l : Kernel M)
        → Duping k fd l
        → Duping k (suc fd) (dup_file res me i fd l)
    dup_file-Duping k fd l d = elim (Bool-cases ((l.proc me).ofile fd == 0)) [
      | inl e ↦ no_file-Duping k fd l d e
      | inr e ↦ open_file-Duping k fd l d e
    ]

    copy_files-Duping : (k : Kernel M) → Duping k nofile (copy_files res me i k)
    unfolding for_loop
    copy_files-Duping k =
        for_loop_inv (dup_file res me i) (Duping k) nofile (λ fd l lt d. dup_file-Duping k fd l d) k
          (record {
            same = OnlyAt-refl i k;
            next_same = refl;
            pid_same = refl;
            sz_same = refl;
            dups = refl;
            before = λ g lt. elim lt [ ];
            after = λ g le. refl;
          })

    fork-Child :
        (k l : Kernel M) (m : M)
        → Allocated i k l
        → Child me i k (finish res me i (copy_files res me i (copy_user res me i m l)))
    fork-Child k l m a =
        let u = copy_user res me i m l in
        let p = record (l.proc i) { sz = (l.proc me).sz } in
        let user : u.proc i ≡ p = update_self l.proc i p in
        let ku : OnlyAt i k u =
          OnlyAt-trans a.kept (record { init_kept = refl; others = update_ne l.proc i p }) in
        let w = copy_files res me i u in
        let d : Duping u nofile w = copy_files-Duping u in
        let kw : OnlyAt i k w = OnlyAt-trans ku d.same in
        let last = finish res me i w in
        let new : last.proc i ≡ _ = update_self w.proc i _ in
        let parent : u.proc me ≡ k.proc me = ku.others me ne in
        record {
          kept = record {
            init_kept = kw.init_kept;
            others = λ j nj. update_ne w.proc i _ j nj ∙ kw.others j nj;
          };
          counted = d.next_same ∙ a.counted;
          pid_new =
              ap (λ (q : Proc). q.pid) new ∙ d.pid_same ∙ ap (λ (q : Proc). q.pid) user ∙ a.pid_new;
          ready = ap (λ (q : Proc). q.state) new;
          of_parent = ap (λ (q : Proc). q.parent) new;
          size =
              ap (λ (q : Proc). q.sz) new
              ∙ d.sz_same
              ∙ ap (λ (q : Proc). q.sz) user
              ∙ ap (λ (q : Proc). q.sz) (a.kept.others me ne);
          directory = ap (λ (q : Proc). q.cwd) new ∙ ap (λ (q : Proc). q.cwd) (kw.others me ne);
          files = λ fd lt.
              ap (λ (q : Proc). q.ofile fd) new
              ∙ d.before fd lt
              ∙ ap₂ (λ (x y : Proc). if x.ofile fd == 0 then y.ofile fd else x.ofile fd) parent user
              ∙ ap (λ (f : ℕ → ℕ). if (k.proc me).ofile fd == 0 then f fd else (k.proc me).ofile fd)
                  a.ofile_old;
        }

    -- The parent is at another entry than the child.
    fork-memory :
        (l : Kernel M)
        → let u = copy_user res me i (copied_user res me i l).1 l in
          (finish res me i (copy_files res me i u)).memory ≡ inherited res me i l
    fork-memory l =
        let u = copy_user res me i (copied_user res me i l).1 l in
        let w = copy_files res me i u in
        let d : Duping u nofile w = copy_files-Duping u in
        let parent : u.proc me ≡ l.proc me = update_ne l.proc i _ me ne in
        ap₂ (λ (p : Proc) m. res.idup p.cwd m) (d.same.others me ne ∙ parent)
          (d.dups ∙ ap (λ (p : Proc). dup_open res p.ofile nofile u.memory) parent)

    pub fork_into_cases :
        (k l : Kernel M)
        → Allocated i k l
        → let r = fork_into res me i l in Forks res me i k (some i, l) r
    unfolding fork_into
    fork_into_cases k l a =
        let copy = res.uvmcopy (l.proc me).pagetable (l.proc i).pagetable (l.proc me).sz l.memory in
        elim (Bool-cases copy.0) [
          | inl e ↦
              rw (fork_into, e)
                (no_copy refl refl e (
                  freeproc-Undone res i k (record l { memory = copy.1 })
                    (record { init_kept = a.kept.init_kept; others = a.kept.others }) a.counted))
          | inr e ↦
              rw (fork_into, e) (forks a.pid_new refl e (fork-Child k l copy.1 a) (fork-memory l))
        ]

  module _ (res : Resources M) where
    none_cases :
        (forkret me : ℕ) (k : Kernel M)
        → (allocproc res forkret k).0 ≡ none
        → kfork res forkret me k ≡ (minus_one, (allocproc res forkret k).1)
    unfolding kfork
    none_cases forkret me k e = rw (kfork, e) refl

    some_cases :
        (forkret me i : ℕ) (k : Kernel M)
        → (allocproc res forkret k).0 ≡ some i
        → kfork res forkret me k ≡ fork_into res me i (allocproc res forkret k).1
    unfolding kfork
    some_cases forkret me i k e = rw (kfork, e) refl

    pub kfork-Child :
        (forkret me : ℕ) (k : Kernel M)
        → (k.proc me).state ≢ unused
        → let r = kfork res forkret me k in
          ((r ≡ (minus_one, k)) × NoUnused k)
          ⊎ ((i : ℕ) × ((k.proc i).state ≡ unused)
              × (i < nproc)
              × Forks res me i k (allocproc res forkret k) r)
    kfork-Child forkret me k live =
        let a = allocproc res forkret k in
        elim (allocproc_cases res forkret k) [
          | inl (n, full) ↦ inl (
            none_cases forkret me k (ap (λ (p : Option ℕ × Kernel M). p.0) n)
                ∙ ap (λ (p : Option ℕ × Kernel M). (minus_one, p.1)) n,
            full,
          )
          | inr (i, z, lt, c) ↦
              let ne : me ≢ i = λ eq. live (ap (λ x. (k.proc x).state) eq ∙ z) in
              elim c [
                | inl (n, u) ↦ inr (i, z, lt, rw (none_cases forkret me k n) (no_memory refl n u))
                | inr (s, al) ↦ inr (
                  i,
                  z,
                  lt,
                  rw (some_cases forkret me i k s) (
                      subst (λ x. Forks res me i k (x, a.1) (fork_into res me i a.1)) (sym s)
                        (fork_into_cases res me i ne k a.1 al)),
                )
              ]
        ]
