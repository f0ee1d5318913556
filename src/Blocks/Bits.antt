-- ===== src/Blocks/Bits.antt =====
-- The bits of the bytes that balloc and bfree of riscv/kernel/fs.c change.
use learn_xv.Prelude.{
  ℕ, ◌+◌, ◌-◌, ◌/◌, ◌%◌, ◌^◌, ◌≡◌, ◌<◌, refl, sym, ap, ◌∙◌, inl, inr, Bool, true, false,
  if◌then◌else◌, ◌==◌, ==_ne, ==_iff, not, update, update_self, update_ne, eq_cases, arith,
  holds_below, holds_below-at,
}
use learn_xv.Blocks.{bit, bit_at, set_bit, clear_bit}

abbrev same_bool : Bool → Bool → Bool
same_bool true b = b
same_bool false b = not b

same_bool-eq : (a b : Bool) → same_bool a b ≡ true → a ≡ b
same_bool-eq true true e = refl
same_bool-eq true false e = sym e
same_bool-eq false false e = refl
same_bool-eq false true e = e

-- Bit `j` of a byte is set or cleared, and bit `k` is as expected after it.
abbrev byte_test : ℕ → ℕ → ℕ → Bool
byte_test byte j k =
    if bit byte j
    then same_bool (bit (byte - 2 ^ j) k) (if k == j then false else bit byte k)
    else same_bool (bit (byte + 2 ^ j) k) (if k == j then true else bit byte k)

all_bytes : holds_below (λ byte. holds_below (λ j. holds_below (byte_test byte j) 8) 8) 256 ≡ true
unfolding holds_below
all_bytes = refl

byte_lem : (byte j k : ℕ) → byte < 256 → j < 8 → k < 8 → byte_test byte j k ≡ true
byte_lem byte j k b lj lk = holds_below-at (byte_test byte j) 8 k lk (
    holds_below-at (λ i. holds_below (byte_test byte i) 8) 8 j lj
      (holds_below-at (λ n. holds_below (λ i. holds_below (byte_test n i) 8) 8) 256 byte b
        all_bytes))

set_lem :
    (byte j k : ℕ)
    → byte < 256
    → j < 8
    → k < 8
    → bit byte j ≡ false
    → bit (byte + 2 ^ j) k ≡ (if k == j then true else bit byte k)
set_lem byte j k b lj lk e = same_bool-eq _ _ (rw e at (byte_lem byte j k b lj lk))

clear_lem :
    (byte j k : ℕ)
    → byte < 256
    → j < 8
    → k < 8
    → bit byte j ≡ true
    → bit (byte - 2 ^ j) k ≡ (if k == j then false else bit byte k)
clear_lem byte j k b lj lk e = same_bool-eq _ _ (rw e at (byte_lem byte j k b lj lk))

module _ (bytes : ℕ → ℕ) (small : (i : ℕ) → bytes i < 256) (bi : ℕ) where
  -- A change of one byte, at another bit.
  other_bit :
      (v : ℕ) (want : Bool)
      → ((k : ℕ) → k < 8 → bit v k ≡ (if k == bi % 8 then want else bit (bytes (bi / 8)) k))
      → (ci : ℕ)
      → bit_at (update bytes (bi / 8) v) ci ≡ (if ci == bi then want else bit_at bytes ci)
  other_bit v want at_byte ci = elim (eq_cases (ci / 8) (bi / 8)) [
    | inr ne ↦
        let other : (ci == bi) ≡ false = ==_ne ci bi (λ e. ne (ap (λ x. x / 8) e)) in
        rw other (ap (λ x. bit x (ci % 8)) (update_ne bytes (bi / 8) v (ci / 8) ne))
    | inl e ↦
        ap (λ x. bit (update bytes (bi / 8) v x) (ci % 8)) e
        ∙ ap (λ x. bit x (ci % 8)) (update_self bytes (bi / 8) v)
        ∙ at_byte (ci % 8) (omega arith)
        ∙ elim (eq_cases ci bi) [
          | inl same ↦
              rw ((==_iff (ci % 8) (bi % 8)).1 (ap (λ x. x % 8) same), (==_iff ci bi).1 same) refl
          | inr ne ↦
              rw (==_ne (ci % 8) (bi % 8) (λ q. ne (omega (arith, q, e))), ==_ne ci bi ne)
                (ap (λ x. bit (bytes x) (ci % 8)) (sym e))
        ]
  ]

  pub set_bit-at :
      bit_at bytes bi ≡ false
      → (ci : ℕ) → bit_at (set_bit bi bytes) ci ≡ (if ci == bi then true else bit_at bytes ci)
  unfolding set_bit
  set_bit-at e =
      other_bit (bytes (bi / 8) + 2 ^ (bi % 8)) true
        (λ k lt. set_lem (bytes (bi / 8)) (bi % 8) k (small (bi / 8)) (omega arith) lt e)

  pub clear_bit-at :
      bit_at bytes bi ≡ true
      → (ci : ℕ) → bit_at (clear_bit bi bytes) ci ≡ (if ci == bi then false else bit_at bytes ci)
  unfolding clear_bit
  clear_bit-at e =
      other_bit (bytes (bi / 8) - 2 ^ (bi % 8)) false
        (λ k lt. clear_lem (bytes (bi / 8)) (bi % 8) k (small (bi / 8)) (omega arith) lt e)
