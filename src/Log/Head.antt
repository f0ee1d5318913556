-- ===== src/Log/Head.antt =====
-- `read_head` and `write_head` of riscv/kernel/log.c: the header in memory and the header block.
use learn_xv.Prelude.{
  ℕ, suc, ◌+◌, ◌≤◌, ◌<◌, ◌≡◌, inl, inr, refl, ◌∙◌, arith, eq_cases, update, update_self, update_ne,
  for_loop_inv, int_rounds-eq,
}
use learn_xv.Store.{Block}
use learn_xv.Log.{Log, log_blocks, read_head, head_block}

-- Only the header in memory is read from the store.
pub record HeadRead (l m : Log) : Type 0 where
  pub store : m.store ≡ l.store
  pub start : m.start ≡ l.start
  pub outstanding : m.outstanding ≡ l.outstanding
  pub count : m.n ≡ l.store.view l.start 0
  pub entries : (i : ℕ) → i < m.n → m.block i ≡ l.store.view l.start (i + 1)

record Reading (l : Log) (k : ℕ) (m : Log) : Type 0 where
  store : m.store ≡ l.store
  start : m.start ≡ l.start
  outstanding : m.outstanding ≡ l.outstanding
  count : m.n ≡ l.store.view l.start 0
  entries : (i : ℕ) → i < k → m.block i ≡ l.store.view l.start (i + 1)

read_one :
    (l : Log) (k : ℕ) (m : Log)
    → Reading l k m
    → Reading l (suc k) (record m { block = update m.block k (l.store.view l.start (k + 1)) })
read_one l k m r = record {
  store = r.store;
  start = r.start;
  outstanding = r.outstanding;
  count = r.count;
  entries = λ i h. elim (eq_cases i k) [
    | inl e ↦ rw e (update_self m.block k _)
    | inr ne ↦ update_ne m.block k _ i ne ∙ r.entries i (omega arith)
  ];
}

pub read_head-HeadRead : (l : Log) → l.store.view l.start 0 ≤ log_blocks → HeadRead l (read_head l)
unfolding read_head
read_head-HeadRead l h = rw (int_rounds-eq (l.store.view l.start 0) (omega arith)) (
    let r =
      for_loop_inv (λ i m. record m { block = update m.block i (l.store.view l.start (i + 1)) })
        (Reading l) (l.store.view l.start 0) (λ k m _ r. read_one l k m r)
        (record l { n = l.store.view l.start 0 })
        (record {
          store = refl;
          start = refl;
          outstanding = refl;
          count = refl;
          entries = λ i h. absurd (omega arith);
        }) in
    record {
      store = r.store;
      start = r.start;
      outstanding = r.outstanding;
      count = r.count;
      entries = λ i h. r.entries i (omega (arith, r.count));
    })

record Filled (l : Log) (k : ℕ) (hb : Block) : Type 0 where
  count : hb 0 ≡ l.n
  entries : (i : ℕ) → i < k → hb (i + 1) ≡ l.block i

fill_one :
    (l : Log) (k : ℕ) (hb : Block)
    → Filled l k hb
    → Filled l (suc k) (update hb (k + 1) (l.block k))
fill_one l k hb f = record {
  count = update_ne hb (k + 1) _ 0 (omega arith) ∙ f.count;
  entries = λ i h. elim (eq_cases i k) [
    | inl e ↦ rw e (update_self hb (k + 1) _)
    | inr ne ↦ update_ne hb (k + 1) _ (i + 1) (omega arith) ∙ f.entries i (omega arith)
  ];
}

filled : (l : Log) → l.n ≤ log_blocks → Filled l l.n (head_block l)
unfolding head_block
filled l h = rw (int_rounds-eq l.n (omega arith)) (
    for_loop_inv (λ i hb. update hb (i + 1) (l.block i)) (Filled l) l.n
      (λ k hb _ f. fill_one l k hb f) (update (l.store.view l.start) 0 l.n)
      (record {
        count = update_self (l.store.view l.start) 0 l.n;
        entries = λ i h. absurd (omega arith);
      }))

-- The written header counts `n` entries, and entry `i` names `block[i]`.
pub head_block-count : (l : Log) → l.n ≤ log_blocks → head_block l 0 ≡ l.n
head_block-count l h = (filled l h).count

pub head_block-entries :
    (l : Log) → l.n ≤ log_blocks → (i : ℕ) → i < l.n → head_block l (i + 1) ≡ l.block i
head_block-entries l h = (filled l h).entries
