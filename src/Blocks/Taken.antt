-- ===== src/Blocks/Taken.antt =====
-- The blocks that balloc and bfree of riscv/kernel/fs.c take and give back.
use learn_xv.Prelude.{
  ℕ, ◌+◌, ◌/◌, ◌%◌, ◌≡◌, ◌≢◌, ◌<◌, ◌⊎◌, refl, sym, ap, ◌∙◌, inl, inr, Bool, true, false,
  if◌then◌else◌, ◌==◌, ==_ne, ==_iff, update, update_self, update_ne, Option, none, some,
  Bool-cases, eq_cases, arith, panic, Ends,
}
use learn_xv.Blocks.{
  bpb, Superblock, Disk, bit_at, set_bit, clear_bit, bblock, bzero, take_block, balloc, bfree,
}
use learn_xv.Blocks.Bits.{set_bit-at, clear_bit-at}
use learn_xv.Blocks.Search.{in_use, Searched, full, found, balloc-Searched}

module _ (sb : Superblock) (d : Disk) (bytes : (b i : ℕ) → d b i < 256) where
  -- The bits after a change of the bit of block `n`, in all the blocks of bits.
  changed_bits :
      (n : ℕ) (v : ℕ → ℕ) (want : Bool)
      → ((i : ℕ) → bit_at v i ≡ (if i == n % bpb then want else bit_at (d (bblock sb n)) i))
      → (m : ℕ) → in_use sb (update d (bblock sb n) v) m ≡ (if m == n then want else in_use sb d m)
  changed_bits n v want at_bit m = elim (eq_cases (m / bpb) (n / bpb)) [
    | inr ne ↦
        let other : (m == n) ≡ false = ==_ne m n (λ e. ne (ap (λ x. x / bpb) e)) in
        let apart : bblock sb m ≢ bblock sb n = λ e. ne (omega (arith, e)) in
        rw other (ap (λ x. bit_at x (m % bpb)) (update_ne d (bblock sb n) v (bblock sb m) apart))
    | inl e ↦
        let same : bblock sb m ≡ bblock sb n = ap (λ x. x + sb.bmapstart) e in
        ap (λ x. bit_at (update d (bblock sb n) v x) (m % bpb)) same
        ∙ ap (λ x. bit_at x (m % bpb)) (update_self d (bblock sb n) v)
        ∙ at_bit (m % bpb)
        ∙ elim (eq_cases m n) [
          | inl q ↦ rw ((==_iff (m % bpb) (n % bpb)).1 (ap (λ x. x % bpb) q), (==_iff m n).1 q) refl
          | inr ne ↦
              rw (==_ne (m % bpb) (n % bpb) (λ q. ne (omega (arith, q, e))), ==_ne m n ne)
                (ap (λ x. bit_at (d x) (m % bpb)) (sym same))
        ]
  ]

  -- The block `n` was not in use and is taken: it is zero, and no other block changes but the one with
  -- its bit.
  pub record Takes (n : ℕ) (e : Disk) : Type 0 where
    pub inside : n < sb.size
    pub was_free : in_use sb d n ≡ false
    pub zeros : (i : ℕ) → e n i ≡ 0
    pub marked : (m : ℕ) → m < sb.size → in_use sb e m ≡ (if m == n then true else in_use sb d m)
    pub same : (b : ℕ) → b ≢ n → b ≢ bblock sb n → e b ≡ d b

  take_block-Takes :
      (c bi : ℕ)
      → c % bpb ≡ 0
      → bi < bpb
      → c + bi < sb.size
      → in_use sb d (c + bi) ≡ false
      → ((m : ℕ) → m < sb.size → in_use sb d (bblock sb m) ≡ true)
      → Takes (c + bi) (take_block sb c bi d)
  unfolding take_block bzero
  take_block-Takes c bi al lt s u bits =
      let n = c + bi in
      let group : bblock sb c ≡ bblock sb n = omega (arith, al, lt) in
      let index : n % bpb ≡ bi = omega (arith, al, lt) in
      let v = set_bit bi (d (bblock sb c)) in
      let e = update d (bblock sb c) v in
      let clear : bit_at (d (bblock sb c)) bi ≡ false =
        ap (λ x. bit_at (d x) bi) group ∙ ap (bit_at (d (bblock sb n))) (sym index) ∙ u in
      record {
        inside = s;
        was_free = u;
        zeros = λ i. ap (λ (f : ℕ → ℕ). f i) (update_self e n (λ j. 0));
        marked = λ m ms.
            let away : bblock sb m ≢ n =
              λ q. ground (arith, sym (bits m ms) ∙ ap (in_use sb d) q ∙ u) in
            ap (λ x. bit_at x (m % bpb)) (update_ne e n (λ j. 0) (bblock sb m) away)
            ∙ ap (λ b. in_use sb (update d b v) m) group
            ∙ changed_bits n v true
                (λ i.
                  set_bit-at (d (bblock sb c)) (bytes (bblock sb c)) bi clear i
                  ∙ ap (λ x. if i == x then true else bit_at (d (bblock sb c)) i) (sym index)
                  ∙ ap (λ x. if i == n % bpb then true else bit_at (d x) i) group)
                m;
        same = λ b nb ng.
            update_ne e n (λ j. 0) b nb ∙ update_ne d (bblock sb c) v b (λ q. ng (q ∙ group));
      }

  -- Where the blocks of bits are marked as in use, `balloc` takes a block that is not in use, the first
  -- one, marks it and no other, and clears it; it finds none just when all blocks are in use, and then
  -- changes nothing.
  pub balloc_lem :
      ((m : ℕ) → m < sb.size → in_use sb d (bblock sb m) ≡ true)
      → ((balloc sb d ≡ (none, d)) × ((n : ℕ) → n < sb.size → in_use sb d n ≡ true))
        ⊎ ((n : ℕ) × (e : Disk) × (balloc sb d ≡ (some n, e))
            × Takes n e
            × ((m : ℕ) → m < n → in_use sb d m ≡ true))
  balloc_lem bits = by_search (balloc sb d) refl (balloc-Searched sb d)
    where
      by_search :
          (r : Option ℕ × Disk)
          → balloc sb d ≡ r
          → Searched sb d 0 r
          → ((balloc sb d ≡ (none, d)) × ((n : ℕ) → n < sb.size → in_use sb d n ≡ true))
            ⊎ ((n : ℕ) × (e : Disk) × (balloc sb d ≡ (some n, e))
                × Takes n e
                × ((m : ℕ) → m < n → in_use sb d m ≡ true))
      by_search r e (full h) = inl (e, λ n lt. h n (omega arith) lt)
      by_search r e (found c bi al lt s u h) = inr (
        c + bi,
        take_block sb c bi d,
        e,
        take_block-Takes c bi al lt s u bits,
        λ m l. h m (omega arith) l,
      )

  -- `bfree` of a block in use unmarks it and no other, and changes no block but the one with its bit;
  -- of a block that is not in use it panics.
  pub bfree_lem :
      (n : ℕ)
      → ((in_use sb d n ≡ false) × (bfree sb n d ≡ panic))
        ⊎ ((in_use sb d n ≡ true)
            × Ends
                (λ u e.
                  ((m : ℕ) → in_use sb e m ≡ (if m == n then false else in_use sb d m))
                  × ((b : ℕ) → b ≢ bblock sb n → e b ≡ d b))
                (bfree sb n d))
  unfolding bfree
  bfree_lem n = elim (Bool-cases (in_use sb d n)) [
    | inr e ↦ inl (e, rw (bfree, e) refl)
    | inl e ↦ inr (
      e,
      rw (Ends, e)
          (
            changed_bits n (clear_bit (n % bpb) (d (bblock sb n))) false
                (clear_bit-at (d (bblock sb n)) (bytes (bblock sb n)) (n % bpb) e),
            update_ne d (bblock sb n) _,
          ),
    )
  ]
