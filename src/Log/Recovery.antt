-- ===== src/Log/Recovery.antt =====
-- `initlog` and `recover_from_log` of riscv/kernel/log.c, at boot.
use learn_xv.Prelude.{ℕ, ◌+◌, ◌≡◌, refl, ap, ◌∙◌, true, [], All}
use learn_xv.Store.{Disk, Store}
use learn_xv.Log.{Log, read_head, install_trans, recover_from_log, initlog}
use learn_xv.Log.Format.{SameContent, Holds}
use learn_xv.Log.Head.{HeadRead, read_head-HeadRead}
use learn_xv.Log.Install.{CanInstall, Installed, install_trans-Installed}
use learn_xv.Log.Clear.{Cleared, write_head-Cleared}

-- After a boot every buffer that is read shows the disk.
pub record IsFresh (s : Store) : Type 0 where
  pub view : s.view ≡ s.disk
  pub past : s.past ≡ []

-- What recovery leaves: an empty log, the home blocks `c` on the disk and in the buffers, and no
-- moment at which the disk did not hold `c`.
pub record Recovered (at : ℕ) (c : Disk) (m : Log) : Type 0 where
  pub start : m.start ≡ at
  pub cleared : Cleared c m
  pub view : SameContent at m.store.view c
  pub past : All (Holds at c) m.store.past

module _ {c : Disk} (l : Log) (fresh : IsFresh l.store) (holds : Holds l.start c l.store.disk) where
  head : HeadRead l (read_head l)
  head = read_head-HeadRead l (rw fresh.view holds.log.fits)

  on_disk : (i : ℕ) → l.store.view l.start i ≡ (read_head l).store.disk (read_head l).start i
  on_disk i = ap (λ d. d l.start i) fresh.view ∙ rw (head.store, head.start)

  read_head-CanInstall : CanInstall (Holds l.start c) c (read_head l)
  read_head-CanInstall = record {
    holds = rw (head.store, head.start) holds;
    count = head.count ∙ on_disk 0;
    entries = λ i h. head.entries i h ∙ on_disk (i + 1);
    clean = rw (head.store, head.start, fresh.view) (record { head = refl; body = λ i h. refl });
    keeps = λ d h. rw head.start at h;
    past = rw (head.store, fresh.past) tt;
  }

  installed :
      Installed (Holds l.start c) (read_head l) (read_head l).n (install_trans true (read_head l))
  installed = install_trans-Installed true read_head-CanInstall

  -- The buffers of the home blocks show the installed content too.
  installed-view : SameContent l.start (install_trans true (read_head l)).store.view c
  installed-view b h =
      installed.view.home b (rw head.start h)
      ∙ rw (head.count, head.store, head.start, fresh.view) (holds.means b h)

  pub recover_from_log-Recovered : Recovered l.start c (recover_from_log l)
  unfolding recover_from_log
  recover_from_log-Recovered =
      let (cleared, st, view, past) = write_head-Cleared read_head-CanInstall installed in
      record {
        start = st ∙ head.start;
        cleared = cleared;
        view = λ b h. view b (rw head.start h) ∙ installed-view b h;
        past = past;
      }

-- Recovery from any disk with a well-formed log empties the log, leaves the logical content of
-- that disk in the home blocks, on the disk and in the buffers, and every disk on the way still
-- holds that content: a crash during recovery loses nothing.
pub initlog-Recovered :
    {c : Disk} (logstart : ℕ) (l : Log)
    → IsFresh l.store
    → Holds logstart c l.store.disk
    → Recovered logstart c (initlog logstart l)
unfolding initlog
initlog-Recovered logstart l fresh holds =
    recover_from_log-Recovered (record l { start = logstart }) fresh holds
