-- ===== src/Log/Commit.antt =====
-- `commit` of riscv/kernel/log.c, with a crash between any two of its writes.
use learn_xv.Prelude.{
  ℕ, ◌+◌, ◌≤◌, ◌<◌, ◌≡◌, ◌≢◌, ◌⊎◌, inl, inr, refl, sym, ap, subst, ◌∙◌, arith, false, Bool-cases,
  int_ltb, [], All, update, update_self, update_ne,
}
use learn_xv.Store.{Block, Disk, fill, bwrite}
use learn_xv.Log.{Log, log_blocks, head_block, write_head, write_log, commit}
use learn_xv.Log.Format.{content_after, content, IsHome, SameContent, Holds, content-written}
use learn_xv.Log.Head.{head_block-count, head_block-entries}
use learn_xv.Log.Install.{CanInstall, Installed, install_trans-Installed}
use learn_xv.Log.Clear.{Cleared, write_head-Cleared}
use learn_xv.Log.Write.{CanCommit, Logged, write_log-Logged}

-- The header write is the commit point: from there on the disk holds the new content.
module _ {q : Disk → Type 0} {l : Log} (can : CanCommit l)
    (keeps : (d : Disk) → Holds l.start l.store.view d → q d) {m : Log} (g : Logged q l l.n m) where
  hb : Block
  hb = head_block m

  after : Disk
  after = update m.store.disk m.start (update m.store.view m.start hb m.start)

  fits : m.n ≤ log_blocks
  fits = rw g.count can.fits

  after_head : after m.start ≡ hb
  unfolding after
  after_head = update_self m.store.disk m.start _ ∙ update_self m.store.view m.start hb

  count : after m.start 0 ≡ m.n
  unfolding hb
  count = ap (λ x. x 0) after_head ∙ head_block-count m fits

  entries : (i : ℕ) → i < m.n → after m.start (i + 1) ≡ m.block i
  unfolding hb
  entries i h = ap (λ x. x (i + 1)) after_head ∙ head_block-entries m fits i h

  body : (i : ℕ) → i < m.n → after (m.start + i + 1) ≡ l.store.view (m.block i)
  unfolding after
  body i h =
      update_ne m.store.disk m.start _ (m.start + i + 1) (omega arith)
      ∙ rw (g.start, g.block) (g.disk_body i (omega (arith, g.count)))

  home : (b : ℕ) → IsHome m.start b → after b ≡ l.store.disk b
  unfolding after
  home b out =
      update_ne m.store.disk m.start _ b (ground arith)
      ∙ g.disk_home b (subst (λ st. IsHome st b) g.start out)

  view_body : (i : ℕ) → i < m.n → m.store.view (m.start + i + 1) ≡ l.store.view (m.block i)
  view_body i h = rw (g.start, g.block) (g.view_body i (omega (arith, g.count)))

  -- The buffers of the home blocks, read as a disk with the same log, show their own content.
  view_content :
      (b : ℕ)
      → IsHome m.start b
      → content m.start (update m.store.view m.start hb) b ≡ l.store.view b
  unfolding hb
  view_content b out =
      let head = update_self m.store.view m.start hb in
      content-written m.start m.n (update m.store.view m.start hb) l.store.view m.block b
        (ap (λ x. x 0) head ∙ head_block-count m fits)
        (λ i h. ap (λ x. x (i + 1)) head ∙ head_block-entries m fits i h)
        (λ i h. update_ne m.store.view m.start hb (m.start + i + 1) (omega arith) ∙ view_body i h)
        (λ miss.
          update_ne m.store.view m.start hb b (ground arith)
          ∙ g.view_home b (subst (λ st. IsHome st b) g.start out))

  after-Holds : Holds m.start l.store.view after
  after-Holds = record {
    log = record {
      fits = rw count fits;
      home = λ i h.
          let h' : i < m.n = omega (arith, count) in
          rw (entries i h', g.block, g.start) (can.home i (omega (arith, g.count)));
    };
    means = λ b out.
        content-written m.start m.n after l.store.view m.block b count entries body (λ miss.
          home b out
          ∙ can.clean b (subst (λ st. IsHome st b) g.start out)
              (λ i h. subst (λ f. f i ≢ b) g.block (miss i (omega (arith, g.count)))));
  }

  write_head-CanInstall : CanInstall q l.store.view (write_head m)
  unfolding write_head fill bwrite after hb
  write_head-CanInstall = record {
    holds = after-Holds;
    count = sym count;
    entries = λ i h. sym (entries i h);
    clean = record {
      head = update_self m.store.view m.start hb ∙ sym after_head;
      body = λ i h.
          update_ne m.store.view m.start hb (m.start + i + 1) (omega arith)
          ∙ view_body i (omega (arith, count))
          ∙ sym (body i (omega (arith, count)));
    };
    keeps = λ d h. keeps d (subst (λ st. Holds st l.store.view d) g.start h);
    past = (keeps _ (subst (λ st. Holds st l.store.view after) g.start after-Holds), g.past);
  }

  -- The buffers after `install_trans` are those of the transaction.
  Installed-view :
      {k : Log} (i : Installed q (write_head m) (write_head m).n k)
      → SameContent m.start k.store.view l.store.view
  unfolding write_head fill bwrite hb
  Installed-view i b out =
      let view = update m.store.view m.start hb in
      let n = ap (λ x. x 0) (update_self m.store.view m.start hb) ∙ head_block-count m fits in
      i.view.home b out ∙ ap (λ j. content_after m.start j view b) (sym n) ∙ view_content b out

-- What `commit` leaves: an empty log, the new content on the disk and in the buffers.
pub record Committed (q : Disk → Type 0) (l m : Log) : Type 0 where
  pub start : m.start ≡ l.start
  pub cleared : Cleared l.store.view m
  pub view : SameContent l.start m.store.view l.store.view
  pub past : All q m.store.past

start-write_head : (m : Log) → (write_head m).start ≡ m.start
unfolding write_head
start-write_head m = refl

module _ (q : Disk → Type 0) {l : Log} (can : CanCommit l) (past : All q l.store.past) where
  -- The states of the disk may be those before the commit point or those after it.
  commit-Committed :
      ((d : Disk) → Holds l.start l.store.disk d → q d)
      → ((d : Disk) → Holds l.start l.store.view d → q d)
      → Committed q l (commit l)
  unfolding commit
  commit-Committed old new = elim (Bool-cases (int_ltb 0 l.n)) [
    | inl some_blocks ↦ rw some_blocks (
        let g = write_log-Logged can old past in
        let place = start-write_head (write_log l) ∙ g.start in
        let w = write_head-CanInstall can new g in
        let i = install_trans-Installed false w in
        let (cleared, st, view, after) = write_head-Cleared w i in
        record {
          start = st ∙ place;
          cleared = cleared;
          view = λ b out. view b (rw place out) ∙ Installed-view can new g i b (rw g.start out);
          past = after;
        })
    | inr no_block ↦ rw no_block (record {
      start = refl;
      cleared = record {
        none_in_memory = ground (arith, can.fits);
        none_on_disk = can.empty;
        home = λ b out. can.clean b out (λ i h. absurd (ground (arith, can.fits)));
      };
      view = λ b out. refl;
      past = past;
    })
  ]

-- A disk that holds the old content or the new one, whole.
abbrev pub OldOrNew : Log → Disk → Type 0
OldOrNew l d = Holds l.start l.store.disk d ⊎ Holds l.start l.store.view d

-- `commit` puts the buffers' content on the disk and empties the log. Whenever the machine stops
-- between two of its disk writes, the disk holds the content from before the transaction or the
-- content after it, for all blocks at once.
pub commit_atomic :
    {l : Log} → CanCommit l → l.store.past ≡ [] → Committed (OldOrNew l) l (commit l)
commit_atomic {l} can none =
    commit-Committed (OldOrNew l) can (rw none tt) (λ d h. inl h) (λ d h. inr h)
