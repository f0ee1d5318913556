-- ===== src/Log/Absorb.antt =====
-- `log_write` of riscv/kernel/log.c: a changed buffer joins the transaction, once.
use learn_xv.Prelude.{
  ℕ, zero, suc, ◌+◌, ◌≤◌, ◌<◌, ◌^◌, ◌≡◌, ◌≢◌, inl, inr, refl, sym, ◌∙◌, arith, true, false, int_ltb,
  u32, Ends, eq_cases, int_rounds-eq, update_self, update_ne, update, ==_self, ==_ne,
}
use learn_xv.Store.{Block, fill, bpin}
use learn_xv.Log.{Log, log_blocks, find_block, log_write}
use learn_xv.Log.Format.{IsHome}
use learn_xv.Log.Write.{CanCommit}

-- The search stops at the first index with the block, or at the end.
record Found (r i : ℕ) (block : ℕ → ℕ) (b j : ℕ) : Type 0 where
  from : i ≤ j
  to : j ≤ i + r
  hit : j < i + r → block j ≡ b
  before : (k : ℕ) → i ≤ k → k < j → block k ≢ b

find_block-Found : (r i : ℕ) (block : ℕ → ℕ) (b : ℕ) → Found r i block b (find_block r i block b)
unfolding find_block
find_block-Found zero i block b = record {
  from = omega arith;
  to = omega arith;
  hit = λ h. absurd (omega arith);
  before = λ k p q. absurd (omega arith);
}
find_block-Found (suc r) i block b = elim (eq_cases (block i) b) [
  | inl e ↦
      rw (e, ==_self b)
        (record {
          from = omega arith;
          to = omega arith;
          hit = λ h. e;
          before = λ k p q. absurd (omega arith);
        })
  | inr ne ↦ rw (==_ne (block i) b ne) (
      let f = find_block-Found r (i + 1) block b in
      record {
        from = omega (arith, f.from);
        to = omega (arith, f.to);
        hit = λ h. f.hit (omega arith);
        before = λ k p q. elim (eq_cases k i) [
          | inl same ↦ rw same ne
          | inr other ↦ f.before k (omega arith) q
        ];
      })
]

-- No block is logged twice.
abbrev pub IsDistinct : Log → Type 0
IsDistinct l = (i j : ℕ) → i < l.n → j < l.n → l.block i ≡ l.block j → i ≡ j

-- What a `log_write` of block `b` makes of the transaction `l`.
pub record Joined (b : ℕ) (l m : Log) : Type 0 where
  pub commits : CanCommit m
  pub distinct : IsDistinct m
  pub logged : (i : ℕ) × (i < m.n) × (m.block i ≡ b)
  pub grows : (l.n ≤ m.n) × (m.n ≤ l.n + 1)
  pub same_view : m.store.view ≡ l.store.view
  pub same_disk : m.store.disk ≡ l.store.disk

module _ {l : Log} (can : CanCommit l) (distinct : IsDistinct l) (b : ℕ) (x : Block) where
  abbrev changed : Log
  changed = record l { store = fill b x l.store }

  module _ (out : IsHome l.start b) (room : l.n < log_blocks) where
    -- A block that is not in the log yet is appended, and its buffer pinned.
    append-Joined :
        ((k : ℕ) → 0 ≤ k → k < l.n → l.block k ≢ b)
        → Joined b changed (record changed {
          block = update l.block l.n b;
          store = bpin b changed.store;
          n = u32 (l.n + 1);
        })
    unfolding fill bpin
    append-Joined before = record {
      commits = record {
        fits = omega arith;
        home = λ i h. elim (eq_cases i l.n) [
          | inl e ↦ rw (e, update_self l.block l.n b) out
          | inr ne ↦ rw (update_ne l.block l.n b i ne) (can.home i (omega arith))
        ];
        empty = can.empty;
        clean = λ c home miss.
            can.clean c home
              (λ i h e. miss i (omega arith) (update_ne l.block l.n b i (omega arith) ∙ e))
            ∙ sym (
                update_ne l.store.view b x c
                  (λ e. miss l.n (omega arith) (update_self l.block l.n b ∙ sym e)));
      };
      distinct = λ i j h h' e. ground (arith, distinct i j, before i, before j);
      logged = (l.n, omega arith, update_self l.block l.n b);
      grows = (omega arith, omega arith);
      same_view = refl;
      same_disk = refl;
    }

    -- A block that is in the log stays at its place.
    absorb-Joined :
        (j : ℕ)
        → j < l.n
        → l.block j ≡ b
        → Joined b changed (record changed { block = update l.block j b })
    unfolding fill
    absorb-Joined j h hit = record {
      commits = record {
        fits = can.fits;
        home = λ i h'. rw same (can.home i h');
        empty = can.empty;
        clean = λ c home miss.
            can.clean c home (λ i h' e. miss i h' (same i ∙ e))
            ∙ sym (update_ne l.store.view b x c (λ e. miss j h (same j ∙ hit ∙ sym e)));
      };
      distinct = λ i k h' h'' e. distinct i k h' h'' (sym (same i) ∙ e ∙ same k);
      logged = (j, h, same j ∙ hit);
      grows = (omega arith, omega arith);
      same_view = refl;
      same_disk = refl;
    }
      where
        same : (i : ℕ) → update l.block j b i ≡ l.block i
        same i = elim (eq_cases i j) [
          | inl e ↦ rw (e, update_self l.block j b) (sym hit)
          | inr ne ↦ update_ne l.block j b i ne
        ]

  pub log_write-Joined :
      IsHome l.start b
      → l.n < log_blocks
      → 0 < l.outstanding
      → l.outstanding < 2 ^ 31
      → Ends (λ _ m. Joined b changed m) (log_write b changed)
  unfolding log_write
  log_write-Joined out room active small =
      let f = find_block-Found l.n 0 l.block b in
      let p : int_ltb l.n log_blocks ≡ true = ground arith in
      let q : int_ltb l.outstanding 1 ≡ false = ground arith in
      rw (int_rounds-eq l.n (omega arith), p, q)
        (elim (eq_cases (find_block l.n 0 l.block b) l.n) [
          | inl e ↦
              rw (e, ==_self l.n) (append-Joined out room (λ k h h'. f.before k h (omega arith)))
          | inr ne ↦ rw (==_ne (find_block l.n 0 l.block b) l.n ne) (
              absorb-Joined out room (find_block l.n 0 l.block b) (omega (arith, f.to))
                (f.hit (omega (arith, f.to))))
        ])
