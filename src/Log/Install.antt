-- ===== src/Log/Install.antt =====
-- `install_trans` of riscv/kernel/log.c, and what the disk means between two of its writes.
use learn_xv.Prelude.{
  ℕ, suc, ◌+◌, ◌≤◌, ◌<◌, ◌≡◌, inl, inr, refl, sym, ap, ◌∙◌, arith, Bool, true, false, eq_cases,
  ==_ne, ==_self, All, update, update_self, update_ne, for_loop_inv, int_rounds-eq,
}
use learn_xv.Store.{Block, Disk, Store, fill, bwrite, bunpin}
use learn_xv.Log.{Log, log_blocks, install_block, install_trans}
use learn_xv.Log.Format.{content_after, IsHome, SameLog, Holds, content-absorb}

-- A store that is the disk `d` with the first `k` entries of its log copied into place.
pub record Copied (start k : ℕ) (d e : Disk) : Type 0 where
  pub log : SameLog start d e
  pub home : (b : ℕ) → IsHome start b → e b ≡ content_after start k d b

pub Copied-refl : (start : ℕ) (d : Disk) → Copied start 0 d d
Copied-refl start d = record {
  log = record { head = refl; body = λ i h. refl };
  home = λ b h. refl;
}

module _ {start : ℕ} {d e : Disk} where
  -- A copy of the next entry into place.
  pub Copied-update :
      {k dst : ℕ} {x : Block}
      → Copied start k d e
      → d start 0 ≤ log_blocks
      → IsHome start dst
      → dst ≡ d start (k + 1)
      → x ≡ d (start + k + 1)
      → Copied start (suc k) d (update e dst x)
  Copied-update {k} {dst} {x} c fits out p q = record {
    log = record {
      head = update_ne e dst x start (ground arith) ∙ c.log.head;
      body = λ i h. update_ne e dst x (start + i + 1) (ground arith) ∙ c.log.body i h;
    };
    home = λ b h. elim (eq_cases b dst) [
      | inl hit ↦ rw (hit, ← p, ==_self dst) q
      | inr miss ↦ rw (update_ne e dst x b miss, ← p, ==_ne dst b (λ r. miss (sym r))) (c.home b h)
    ];
  }

  pub Copied-Holds :
      {c : Disk} {k : ℕ} → Copied start k d e → k ≤ d start 0 → Holds start c d → Holds start c e
  Copied-Holds {c} {k} copied le holds = record {
    log = record {
      fits = rw copied.log.head holds.log.fits;
      home = rw copied.log.head holds.log.home;
    };
    means = λ b h. content-absorb start copied.log k b le (copied.home b h) ∙ holds.means b h;
  }

-- What `install_trans` starts from: the disk has a log, the header in memory is the disk's, and the
-- buffers of the log are clean.
-- Every disk of the past satisfies `q`, which any disk that holds `c` does.
pub record CanInstall (q : Disk → Type 0) (c : Disk) (l : Log) : Type 0 where
  pub holds : Holds l.start c l.store.disk
  pub count : l.n ≡ l.store.disk l.start 0
  pub entries : (i : ℕ) → i < l.n → l.block i ≡ l.store.disk l.start (i + 1)
  pub clean : SameLog l.start l.store.disk l.store.view
  pub keeps : (d : Disk) → Holds l.start c d → q d
  pub past : All q l.store.past

-- After `k` rounds, started at `l`.
pub record Installed (q : Disk → Type 0) (l : Log) (k : ℕ) (m : Log) : Type 0 where
  pub start : m.start ≡ l.start
  pub count : m.n ≡ l.n
  pub block : m.block ≡ l.block
  pub outstanding : m.outstanding ≡ l.outstanding
  pub disk : Copied l.start k l.store.disk m.store.disk
  pub view : Copied l.start k l.store.view m.store.view
  pub past : All q m.store.past

module _ {q : Disk → Type 0} {c : Disk} {l : Log} (can : CanInstall q c l) (k : ℕ) (m : Log)
    (h : k < l.n) where
  open can use {holds, count, entries, clean, keeps}

  -- The store after one round, its pins apart.
  record Round (i : Installed q l k m) (s : Store) : Type 0 where
    disk : Copied l.start (suc k) l.store.disk s.disk
    view : Copied l.start (suc k) l.store.view s.view
    past : All q s.past

  Round-copied :
      (i : Installed q l k m)
      → Round i (bwrite (m.block k) (fill (m.block k) (m.store.view (m.start + k + 1)) m.store))
  unfolding fill bwrite
  Round-copied i = record {
    disk = disk';
    view = view';
    past = (keeps _ (Copied-Holds disk' within holds), i.past);
  }
    where
      dst : ℕ
      dst = m.block k

      source : m.store.view (m.start + k + 1) ≡ l.store.view (l.start + k + 1)
      source = rw i.start (i.view.log.body k (rw clean.head (omega (arith, count))))

      entry : dst ≡ l.store.disk l.start (k + 1)
      entry = ap (λ f. f k) i.block ∙ entries k h

      out : IsHome l.start dst
      out = rw entry (holds.log.home k (omega (arith, count)))

      within : suc k ≤ l.store.disk l.start 0
      within = omega (arith, count)

      view' :
          Copied l.start
            (suc k)
            l.store.view
            (update m.store.view dst (m.store.view (m.start + k + 1)))
      view' =
          Copied-update i.view (rw clean.head holds.log.fits) out
            (entry ∙ ap (λ f. f (k + 1)) (sym clean.head)) source

      disk' :
          Copied l.start
            (suc k)
            l.store.disk
            (update m.store.disk dst (update m.store.view dst (m.store.view (m.start + k + 1)) dst))
      disk' =
          Copied-update i.disk holds.log.fits out entry
            (update_self m.store.view dst _ ∙ source ∙ clean.body k (omega (arith, count)))

  install_block-Installed :
      (recovering : Bool) → Installed q l k m → Installed q l (suc k) (install_block recovering k m)
  unfolding install_block bunpin
  install_block-Installed true i = ground (arith, Round-copied i)
  install_block-Installed false i = ground (arith, Round-copied i)

Installed-start : {q : Disk → Type 0} {c : Disk} {l : Log} → CanInstall q c l → Installed q l 0 l
Installed-start {l} can = record {
  start = refl;
  count = refl;
  block = refl;
  outstanding = refl;
  disk = Copied-refl l.start l.store.disk;
  view = Copied-refl l.start l.store.view;
  past = can.past;
}

pub install_trans-Installed :
    {q : Disk → Type 0} {c : Disk} {l : Log} (recovering : Bool)
    → CanInstall q c l
    → Installed q l l.n (install_trans recovering l)
unfolding install_trans
install_trans-Installed {q = q} {l = l} recovering can =
    rw (int_rounds-eq l.n (omega (arith, can.holds.log.fits, can.count))) (
      for_loop_inv (install_block recovering) (Installed q l) l.n
        (λ k m h i. install_block-Installed can k m h recovering i) l (Installed-start can))
