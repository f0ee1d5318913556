-- ===== src/Log/Write.antt =====
-- `write_log` of riscv/kernel/log.c: the logged blocks are copied from the buffers to the log.
use learn_xv.Prelude.{
  ℕ, suc, ◌+◌, ◌≤◌, ◌<◌, ◌≡◌, ◌≢◌, inl, inr, refl, ap, ◌∙◌, arith, eq_cases, ==_self, All, update,
  update_self, update_ne, for_loop_inv, int_rounds-eq,
}
use learn_xv.Store.{Block, Disk, fill, bwrite}
use learn_xv.Log.{Log, log_blocks, log_block, write_log}
use learn_xv.Log.Format.{IsHome, SameContent, Holds}
use learn_xv.Log.Clear.{Holds-of_empty}

-- A transaction that can be committed: the log on disk is empty, the logged blocks are home blocks,
-- and only they may differ between the buffers and the disk.
pub record CanCommit (l : Log) : Type 0 where
  pub fits : l.n ≤ log_blocks
  pub home : (i : ℕ) → i < l.n → IsHome l.start (l.block i)
  pub empty : l.store.disk l.start 0 ≡ 0
  pub clean :
      (b : ℕ)
      → IsHome l.start b
      → ((i : ℕ) → i < l.n → l.block i ≢ b)
      → l.store.disk b ≡ l.store.view b

pub record Logged (q : Disk → Type 0) (l : Log) (k : ℕ) (m : Log) : Type 0 where
  pub start : m.start ≡ l.start
  pub count : m.n ≡ l.n
  pub block : m.block ≡ l.block
  pub outstanding : m.outstanding ≡ l.outstanding
  pub disk_home : SameContent l.start m.store.disk l.store.disk
  pub disk_head : m.store.disk l.start 0 ≡ 0
  pub disk_body : (i : ℕ) → i < k → m.store.disk (l.start + i + 1) ≡ l.store.view (l.block i)
  pub view_home : SameContent l.start m.store.view l.store.view
  pub view_body : (i : ℕ) → i < k → m.store.view (l.start + i + 1) ≡ l.store.view (l.block i)
  pub past : All q m.store.past

module _ {q : Disk → Type 0} {l : Log} (can : CanCommit l)
    (keeps : (d : Disk) → Holds l.start l.store.disk d → q d) where
  module _ (k : ℕ) (m : Log) (h : k < l.n) (g : Logged q l k m) where
    logged : m.store.view (m.block k) ≡ l.store.view (l.block k)
    logged = rw g.block (g.view_home (l.block k) (can.home k h))

    -- The block behind the `k` entries of the log gets the content `x`.
    module _ (dst : ℕ) (e : dst ≡ l.start + k + 1) (x : Block)
        (p : x ≡ l.store.view (l.block k)) where
      body :
          (f : Disk)
          → ((i : ℕ) → i < k → f (l.start + i + 1) ≡ l.store.view (l.block i))
          → (i : ℕ) → i < suc k
          → update f dst x (l.start + i + 1) ≡ l.store.view (l.block i)
      body f old i h' = elim (eq_cases i k) [
        | inl same ↦ rw (same, e, ==_self (l.start + k + 1)) p
        | inr ne ↦ update_ne f dst x (l.start + i + 1) (omega arith) ∙ old i (omega arith)
      ]

      home : (f c : Disk) → SameContent l.start f c → SameContent l.start (update f dst x) c
      home f c same b out = update_ne f dst x b (ground (arith, can.fits)) ∙ same b out

      head : (f : Disk) → f l.start 0 ≡ 0 → update f dst x l.start 0 ≡ 0
      head f z = ap (λ c. c 0) (update_ne f dst x l.start (omega arith)) ∙ z

    log_block-Logged : Logged q l (suc k) (log_block k m)
    unfolding log_block fill bwrite
    log_block-Logged =
        let dst = m.start + k + 1 in
        let e : dst ≡ l.start + k + 1 = rw g.start in
        let x = m.store.view (m.block k) in
        let y = update m.store.view dst x dst in
        let p : y ≡ l.store.view (l.block k) = update_self m.store.view dst x ∙ logged in
        let home' = home dst e y p m.store.disk l.store.disk g.disk_home in
        let head' = head dst e y p m.store.disk g.disk_head in
        record {
          start = g.start;
          count = g.count;
          block = g.block;
          outstanding = g.outstanding;
          disk_home = home';
          disk_head = head';
          disk_body = body dst e y p m.store.disk g.disk_body;
          view_home = home dst e x logged m.store.view l.store.view g.view_home;
          view_body = body dst e x logged m.store.view g.view_body;
          past = (keeps _ (Holds-of_empty l.start l.store.disk _ head' home'), g.past);
        }

  pub write_log-Logged : All q l.store.past → Logged q l l.n (write_log l)
  unfolding write_log
  write_log-Logged past = rw (int_rounds-eq l.n (omega (arith, can.fits))) (
      for_loop_inv log_block (Logged q l) l.n log_block-Logged l (record {
        start = refl;
        count = refl;
        block = refl;
        outstanding = refl;
        disk_home = λ b out. refl;
        disk_head = can.empty;
        disk_body = λ i h. absurd (omega arith);
        view_home = λ b out. refl;
        view_body = λ i h. absurd (omega arith);
        past = past;
      }))
