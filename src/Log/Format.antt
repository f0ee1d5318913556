-- ===== src/Log/Format.antt =====
-- The on-disk log format of riscv/kernel/log.c, read without running the code: what a disk with a
-- log at `start` stands for. A later entry for a block hides an earlier one.
use learn_xv.Prelude.{
  ℕ, zero, suc, ◌+◌, ◌≤◌, ◌<◌, ◌≡◌, ◌≢◌, ◌⊎◌, inl, inr, arith, if◌then◌else◌, ◌==◌, eq_cases, ==_ne,
  ==_self, dec_lt, ◌∙◌, ap,
}
use learn_xv.Store.{Disk}
use learn_xv.Log.{log_blocks}

module _ (start : ℕ) where
  -- The content of block `b` when the first `k` entries of the log are installed.
  abbrev pub content_after : ℕ → Disk → Disk
  content_after zero d b = d b
  content_after (suc k) d b =
      if d start (k + 1) == b then d (start + k + 1) else content_after k d b

  -- The logical content: all entries that the header counts are installed.
  abbrev pub content : Disk → Disk
  content d = content_after (d start 0) d

  abbrev pub IsHome : ℕ → Type 0
  IsHome b = (b < start) ⊎ (start + log_blocks < b)

  -- Two disks that mean the same to a reader of the file system's own blocks.
  abbrev pub SameContent : Disk → Disk → Type 0
  SameContent d e = (b : ℕ) → IsHome b → d b ≡ e b

  -- The logs of `d` and `e` are the same blocks.
  pub record SameLog (d e : Disk) : Type 0 where
    pub head : e start ≡ d start
    pub body : (i : ℕ) → i < d start 0 → e (start + i + 1) ≡ d (start + i + 1)

  -- A header that counts at most `LOGBLOCKS` entries, each for a home block.
  pub record HasLog (d : Disk) : Type 0 where
    pub fits : d start 0 ≤ log_blocks
    pub home : (i : ℕ) → i < d start 0 → IsHome (d start (i + 1))

  -- A disk with a log from which the home blocks `c` are recovered.
  pub record Holds (c d : Disk) : Type 0 where
    pub log : HasLog d
    pub means : SameContent (content d) c

module _ (start : ℕ) where
  content_after-miss :
      (k : ℕ) (d : Disk) (b : ℕ)
      → d start (k + 1) ≢ b
      → content_after start (suc k) d b ≡ content_after start k d b
  content_after-miss k d b ne = rw (==_ne (d start (k + 1)) b ne)

  -- Entries that are already installed may be installed again.
  pub content_after-absorb :
      (n k : ℕ) {d e : Disk} (b : ℕ)
      → SameLog start d e
      → n ≤ d start 0
      → k ≤ n
      → e b ≡ content_after start k d b
      → content_after start n e b ≡ content_after start n d b
  content_after-absorb zero zero b same h le p = p
  content_after-absorb zero (suc k) b same h le p = elim le [ ]
  content_after-absorb (suc n) k {d} {e} b same h le p = elim (eq_cases (d start (n + 1)) b) [
    | inl hit ↦ rw (same.head, hit, ==_self b) (same.body n (omega arith))
    | inr miss ↦
        rw (same.head, ==_ne (d start (n + 1)) b miss)
          (elim (dec_lt n k) [
            | yes last ↦
                let q : k ≡ suc n = omega arith in
                let p' : e b ≡ content_after start (suc n) d b = rw q at p in
                content_after-absorb n n b same (omega arith) (omega arith)
                  (p' ∙ content_after-miss n d b miss)
            | no inside ↦ content_after-absorb n k b same (omega arith) (omega arith) p
          ])
  ]

  -- After `e` copied the home blocks of the first `k` entries into place, it still means the same.
  pub content-absorb :
      {d e : Disk}
      → SameLog start d e
      → (k b : ℕ) → k ≤ d start 0
      → e b ≡ content_after start k d b
      → content start e b ≡ content start d b
  content-absorb {d} same k b le p =
      rw same.head (content_after-absorb (d start 0) k b same (omega arith) le p)

-- A log that holds the entries `block`, each with its content in `v`, stands for `v`.
module _ (start n : ℕ) (d v : Disk) (block : ℕ → ℕ) (b : ℕ) where
  content_after-written :
      (k : ℕ)
      → ((i : ℕ) → i < n → d start (i + 1) ≡ block i)
      → ((i : ℕ) → i < n → d (start + i + 1) ≡ v (block i))
      → (((i : ℕ) → i < n → block i ≢ b) → d b ≡ v b)
      → k ≤ n
      → ((i : ℕ) → k ≤ i → i < n → block i ≢ b)
      → content_after start k d b ≡ v b
  content_after-written zero entries body clean le later = clean (λ i h. later i (omega arith) h)
  content_after-written (suc k) entries body clean le later = elim (eq_cases (block k) b) [
    | inl hit ↦ rw (entries k le, hit, ==_self b) (body k le ∙ ap v hit)
    | inr miss ↦
        rw (entries k le, ==_ne (block k) b miss)
          (content_after-written k entries body clean (omega arith) (λ i h h'. elim (eq_cases i k) [
            | inl e ↦ rw e miss
            | inr ne ↦ later i (omega arith) h'
          ]))
  ]

  pub content-written :
      d start 0 ≡ n
      → ((i : ℕ) → i < n → d start (i + 1) ≡ block i)
      → ((i : ℕ) → i < n → d (start + i + 1) ≡ v (block i))
      → (((i : ℕ) → i < n → block i ≢ b) → d b ≡ v b)
      → content start d b ≡ v b
  content-written count entries body clean =
      rw count
        (content_after-written n entries body clean (omega arith) (λ i h h'. absurd (omega arith)))
