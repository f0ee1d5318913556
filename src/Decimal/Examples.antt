-- ===== src/Decimal/Examples.antt =====
-- printint and atoi at a concrete number.
use learn_xv.Prelude.{
  ℕ, All, ◌<◌, length, ◌^◌, ◌+◌, ◌-◌, ◌≡◌, refl, true, false, List, [], ◌∷◌, ◌++◌,
}
use learn_xv.Decimal.{fill_digits, write_back, buffer, printint, atoi}
use learn_xv.Decimal.Digits.{IsDigit, first}
use learn_xv.Decimal.RoundTrip.{sign, printint-Read}

printint_minus : printint (2 ^ 64 - 42) 10 true ≡ 45 ∷ 52 ∷ 50 ∷ []
unfolding printint buffer fill_digits write_back
printint_minus = refl

printint_cut : printint (2 ^ 32 + 7) 10 false ≡ 55 ∷ []
unfolding printint buffer fill_digits write_back
printint_cut = refl

printint-Read_example :
    (s : List ℕ) × (printint (2 ^ 64 - 42) 10 true ≡ sign true ++ s)
    × All IsDigit s
    × (0 < length s)
    × (first s ≡ 48 → length s ≡ 1)
    × (atoi s ≡ 42)
printint-Read_example = printint-Read (2 ^ 64 - 42) true
