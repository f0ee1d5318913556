-- ===== src/Decimal/Digits.antt =====
-- The digits that printint of riscv/user/printf.c puts into its buffer.
use native.Mathlib.Numerals.{unary_clauses}
use learn_xv.Prelude.{
  ℕ, zero, suc, ◌+◌, ◌-◌, ◌*◌, ◌/◌, ◌%◌, ◌^◌, ◌≡◌, ◌≤◌, ◌<◌, ◌≢◌, inl, inr, ◌==◌, List, [], ◌∷◌,
  All, Bool-cases, arith,
}
use learn_xv.Decimal.{digit, fill_digits}

-- The number that decimal digits stand for, the last one first.
abbrev pub value : List ℕ → ℕ
value [] = 0
value (c ∷ s) = c - 48 + 10 * value s

abbrev pub IsDigit : ℕ → Type 0
IsDigit c = (48 ≤ c) × (c ≤ 57)

power : (n : ℕ) → 2 ^ suc n ≡ 2 * 2 ^ n
power n = simp unary_clauses (omega arith)

digit-IsDigit : (x : ℕ) → IsDigit (digit (x % 10)) × (digit (x % 10) - 48 ≡ x % 10)
digit-IsDigit x = ((ground arith, ground arith), ground arith)

-- With rounds for all bits of the number the digits stand for it.
pub value-fill_digits :
    (rounds x : ℕ)
    → x < 2 ^ rounds
    → (value (fill_digits rounds x 10) ≡ x) × All IsDigit (fill_digits rounds x 10)
unfolding fill_digits
value-fill_digits zero x lt = (omega (arith, lt), tt)
value-fill_digits (suc rounds) x lt =
    let (isd, val) = digit-IsDigit x in
    elim (Bool-cases (x / 10 == 0)) [
      | inl e ↦
          let small : x / 10 ≡ 0 = ground (arith, e) in rw e (omega (arith, val, small), (isd, tt))
      | inr e ↦
          let (v, a) = value-fill_digits rounds (x / 10) (omega (arith, lt, power rounds)) in
          rw e (omega (arith, val, v), (isd, a))
    ]

-- The first character of a string, and the last one of `d ∷ s`.
abbrev pub first : List ℕ → ℕ
first [] = 0
first (c ∷ s) = c

abbrev pub last : ℕ → List ℕ → ℕ
last d [] = d
last d (c ∷ s) = last c s

-- The digit of the highest place is not 0.
pub last-fill_digits :
    (rounds x d : ℕ) → x < 2 ^ rounds → 0 < x → last d (fill_digits rounds x 10) ≢ 48
unfolding fill_digits
last-fill_digits zero x d lt pos = λ e. omega (arith, lt, pos)
last-fill_digits (suc rounds) x d lt pos = elim (Bool-cases (x / 10 == 0)) [
  | inl e ↦ rw e (λ q. ground (arith, e, q, pos))
  | inr e ↦ rw e (
      last-fill_digits rounds (x / 10) (digit (x % 10)) (omega (arith, lt, power rounds))
        (ground (arith, e)))
]
