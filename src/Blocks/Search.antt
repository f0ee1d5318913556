-- ===== src/Blocks/Search.antt =====
-- The search of balloc of riscv/kernel/fs.c for a block that is not in use.
use learn_xv.Prelude.{
  ℕ, zero, suc, lt_or_le, ◌-◌, ◌+◌, ◌*◌, ◌/◌, ◌%◌, ◌≡◌, ◌≤◌, ◌<◌, refl, sym, ap, ◌∙◌, inl, inr,
  Bool, true, false, ltb, Option, none, some, Bool-cases, eq_cases, arith,
}
use learn_xv.Blocks.{
  bpb, Superblock, Disk, bit_at, bblock, scan_bits, take_block, balloc_from, balloc,
}

-- The bit of block `n`.
abbrev pub in_use : Superblock → Disk → ℕ → Bool
in_use sb d n = bit_at (d (bblock sb n)) (n % bpb)

module _ (sb : Superblock) where
  -- What the inner loop finds.
  data Scanned (end b : ℕ) (bytes : ℕ → ℕ) (bi : ℕ) : Option ℕ → Type 0 where
    all_set :
        ((i : ℕ) → bi ≤ i → i < end → b + i < sb.size → bit_at bytes i ≡ true)
        → Scanned end b bytes bi none
    first_clear :
        (j : ℕ)
        → j < end
        → b + j < sb.size
        → bit_at bytes j ≡ false
        → ((i : ℕ) → bi ≤ i → i < j → bit_at bytes i ≡ true)
        → Scanned end b bytes bi (some j)

  after_set :
      (end b : ℕ) (bytes : ℕ → ℕ) (bi : ℕ) (r : Option ℕ)
      → bit_at bytes bi ≡ true
      → Scanned end b bytes (bi + 1) r
      → Scanned end b bytes bi r
  after_set end b bytes bi r e (all_set h) = all_set (λ i le lt s. elim (eq_cases i bi) [
    | inl same ↦ ap (bit_at bytes) same ∙ e
    | inr ne ↦ h i (omega (arith, le, ne)) lt s
  ])
  after_set end b bytes bi r e (first_clear j lt s c h) = first_clear j lt s c (λ i le l.
      elim (eq_cases i bi) [
        | inl same ↦ ap (bit_at bytes) same ∙ e
        | inr ne ↦ h i (omega (arith, le, ne)) l
      ])

  scan_bits-Scanned :
      (left bi end b : ℕ) (bytes : ℕ → ℕ)
      → bi + left ≡ end
      → Scanned end b bytes bi (scan_bits sb left bi b bytes)
  unfolding scan_bits
  scan_bits-Scanned zero bi end b bytes e = all_set (λ i le lt s. ground (arith, le, lt, e))
  scan_bits-Scanned (suc left) bi end b bytes e = elim (Bool-cases (ltb (b + bi) sb.size)) [
    | inr out ↦ rw (scan_bits, out) (all_set (λ i le lt s. ground (arith, out, le, s)))
    | inl inside ↦ elim (Bool-cases (bit_at bytes bi)) [
      | inl h ↦
          rw (scan_bits, inside, h)
            (after_set end b bytes bi _ h
              (scan_bits-Scanned left (bi + 1) end b bytes (omega (arith, e))))
      | inr h ↦
          rw (scan_bits, inside, h)
            (first_clear bi (omega (arith, e)) (ground (arith, inside)) h
              (λ i le lt. ground (arith, le, lt)))
    ]
  ]

  -- The first block from `b` on that is not in use, or none.
  pub data Searched (d : Disk) (b : ℕ) : Option ℕ × Disk → Type 0 where
    full : ((n : ℕ) → b ≤ n → n < sb.size → in_use sb d n ≡ true) → Searched d b (none, d)
    found :
        (c bi : ℕ)
        → c % bpb ≡ 0
        → bi < bpb
        → c + bi < sb.size
        → in_use sb d (c + bi) ≡ false
        → ((n : ℕ) → b ≤ n → n < c + bi → in_use sb d n ≡ true)
        → Searched d b (some (c + bi), take_block sb c bi d)

  -- The bit of a block by the start of its group.
  in_group :
      (d : Disk) (b i : ℕ)
      → b % bpb ≡ 0
      → i < bpb
      → in_use sb d (b + i) ≡ bit_at (d (bblock sb b)) i
  in_group d b i al lt =
      let same : (b + i) / bpb ≡ b / bpb = omega (arith, al, lt) in
      let index : (b + i) % bpb ≡ i = omega (arith, al, lt) in
      ap (λ x. bit_at (d (x + sb.bmapstart)) ((b + i) % bpb)) same
      ∙ ap (bit_at (d (bblock sb b))) index

  group_set :
      (d : Disk) (b n : ℕ)
      → b % bpb ≡ 0
      → ((i : ℕ) → 0 ≤ i → i < bpb → b + i < sb.size → bit_at (d (bblock sb b)) i ≡ true)
      → b ≤ n
      → n < b + bpb
      → n < sb.size
      → in_use sb d n ≡ true
  group_set d b n al h le lt s =
      let sum : b + (n - b) ≡ n = omega (arith, le) in
      ap (in_use sb d) (sym sum)
      ∙ in_group d b (n - b) al (omega (arith, le, lt))
      ∙ h (n - b) (omega arith) (omega (arith, le, lt)) (omega (arith, le, s))

  after_group :
      (d : Disk) (b : ℕ) (r : Option ℕ × Disk)
      → b % bpb ≡ 0
      → ((i : ℕ) → 0 ≤ i → i < bpb → b + i < sb.size → bit_at (d (bblock sb b)) i ≡ true)
      → Searched d (b + bpb) r
      → Searched d b r
  after_group d b r al h (full g) = full (λ n le lt. elim (lt_or_le n (b + bpb)) [
    | inl l ↦ group_set d b n al h le l lt
    | inr m ↦ g n m lt
  ])
  after_group d b r al h (found c bi ca lt s u g) = found c bi ca lt s u (λ n le l.
      elim (lt_or_le n (b + bpb)) [
        | inl k ↦ group_set d b n al h le k (omega (arith, l, s))
        | inr m ↦ g n m l
      ])

  -- The round at `b`, by what its inner loop finds.
  round-Searched :
      (d : Disk) (b : ℕ) (rest : Option ℕ × Disk)
      → b % bpb ≡ 0
      → Searched d (b + bpb) rest
      → (r : Option ℕ) → Scanned bpb b (d (bblock sb b)) 0 r
      → Searched d b (elim r [ some bi ↦ (some (b + bi), take_block sb b bi d) | none ↦ rest ])
  round-Searched d b rest al later r (all_set h) = after_group d b rest al h later
  round-Searched d b rest al later r (first_clear j lt s c h) =
      found b j al lt s (in_group d b j al lt ∙ c) (λ n le l.
        let sum : b + (n - b) ≡ n = omega (arith, le) in
        ap (in_use sb d) (sym sum)
        ∙ in_group d b (n - b) al (omega (arith, le, l, lt))
        ∙ h (n - b) (omega arith) (omega (arith, le, l)))

  balloc_from-Searched :
      (rounds b : ℕ) (d : Disk)
      → b % bpb ≡ 0
      → sb.size ≤ b + rounds * bpb
      → Searched d b (balloc_from sb rounds b d)
  unfolding balloc_from
  balloc_from-Searched zero b d al enough = full (λ n le lt. ground (arith, enough, le, lt))
  balloc_from-Searched (suc rounds) b d al enough = elim (Bool-cases (ltb b sb.size)) [
    | inr e ↦ rw (balloc_from, e) (full (λ n le lt. ground (arith, e, le, lt)))
    | inl e ↦
        rw (balloc_from, e)
          (round-Searched d b _ al
            (balloc_from-Searched rounds (b + bpb) d (omega (arith, al)) (omega (arith, enough)))
            (scan_bits sb bpb 0 b (d (bblock sb b)))
            (scan_bits-Scanned bpb 0 bpb b (d (bblock sb b)) refl))
  ]

  pub balloc-Searched : (d : Disk) → Searched d 0 (balloc sb d)
  unfolding balloc
  balloc-Searched d = balloc_from-Searched (sb.size / bpb + 1) 0 d refl (omega arith)
