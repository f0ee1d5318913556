-- ===== src/Log/Crash.antt =====
-- A crash in `commit` of riscv/kernel/log.c, then a boot.
use learn_xv.Prelude.{ℕ, ◌≡◌, ◌⊎◌, inl, inr, [], All, All-map, subst, sym}
use learn_xv.Store.{Disk}
use learn_xv.Log.{Log, commit, initlog}
use learn_xv.Log.Format.{Holds}
use learn_xv.Log.Recovery.{IsFresh, Recovered, initlog-Recovered}
use learn_xv.Log.Write.{CanCommit}
use learn_xv.Log.Commit.{OldOrNew, commit_atomic}

-- What a boot from the disk `d` comes to, whatever the memory held.
abbrev pub BootsTo : ℕ → Disk → Disk → Type 0
BootsTo start c d =
    (m : Log) → IsFresh m.store → m.store.disk ≡ d → Recovered start c (initlog start m)

boots : {start : ℕ} {c d : Disk} → Holds start c d → BootsTo start c d
boots {start} {c} h m fresh e = initlog-Recovered start m fresh (subst (Holds start c) (sym e) h)

-- A transaction is atomic: from each disk that a crash during `commit` can leave, `initlog`
-- recovers the home blocks from before the transaction, or those after it.
pub crash_recovery :
    {l : Log}
    → CanCommit l
    → l.store.past ≡ []
    → All
        (λ d. BootsTo l.start l.store.disk d ⊎ BootsTo l.start l.store.view d)
        (commit l).store.past
crash_recovery {l} can none =
    All-map (λ d. choose d) (commit l).store.past (commit_atomic can none).past
  where
    choose :
        (d : Disk) → OldOrNew l d → BootsTo l.start l.store.disk d ⊎ BootsTo l.start l.store.view d
    choose d (inl h) = inl (boots h)
    choose d (inr h) = inr (boots h)
