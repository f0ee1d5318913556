-- ===== src/Decimal/RoundTrip.antt =====
-- atoi of riscv/user/ulib.c after printint of riscv/user/printf.c.
use learn_xv.Prelude.{
  ℕ, zero, suc, length, sym, ◌==◌, not, ◌/◌, ◌%◌, ◌+◌, ◌-◌, ◌*◌, ◌^◌, ◌≡◌, ◌≤◌, ◌<◌, refl, ap, ◌∙◌,
  Bool, true, false, if◌then◌else◌, leb, ◌&&◌, List, [], ◌∷◌, ◌++◌, All, u32, arith, append_nil,
}
use learn_xv.Decimal.{
  digit, fill_digits, write_back, minus, is_negative, magnitude, buffer, printint, atoi_from, atoi,
}
use learn_xv.Decimal.Digits.{value, IsDigit, value-fill_digits, first, last, last-fill_digits}

digit-read : (c : ℕ) → IsDigit c → (leb 48 c && leb c 57) ≡ true
digit-read c d = ground (arith, d)

atoi_from-digit :
    (n c : ℕ) (s : List ℕ) → IsDigit c → atoi_from n (c ∷ s) ≡ atoi_from (u32 (n * 10 + c - 48)) s
unfolding atoi_from
atoi_from-digit n c s d = rw (digit-read c d) refl

shift_in : (v c : ℕ) → 48 ≤ c → u32 (u32 v * 10 + c - 48) ≡ u32 (c - 48 + 10 * v)
shift_in v c le = omega (arith, le)

-- The digits are read from the last one of the buffer on.
atoi_from-write_back :
    (ds acc : List ℕ)
    → All IsDigit ds
    → atoi_from 0 (write_back ds acc) ≡ atoi_from (u32 (value ds)) acc
unfolding write_back
atoi_from-write_back [] acc all = refl
atoi_from-write_back (c ∷ ds) acc (d, all) =
    atoi_from-write_back ds (c ∷ acc) all
    ∙ atoi_from-digit (u32 (value ds)) c acc d
    ∙ ap (λ n. atoi_from n acc) (shift_in (value ds) c d.0)

write_back-last :
    (ds acc : List ℕ) (c : ℕ) → write_back (ds ++ (c ∷ [])) acc ≡ c ∷ write_back ds acc
unfolding write_back
write_back-last [] acc c = refl
write_back-last (d ∷ ds) acc c = write_back-last ds (d ∷ acc) c

atoi-digits : (x : ℕ) → x < 2 ^ 32 → atoi (write_back (fill_digits 32 x 10) []) ≡ x
unfolding atoi atoi_from
atoi-digits x lt =
    let (v, a) = value-fill_digits 32 x lt in
    atoi_from-write_back (fill_digits 32 x 10) [] a ∙ ap u32 v ∙ omega (arith, lt)

write_back-IsDigit :
    (ds acc : List ℕ) → All IsDigit ds → All IsDigit acc → All IsDigit (write_back ds acc)
unfolding write_back
write_back-IsDigit [] acc all done = done
write_back-IsDigit (d ∷ ds) acc (i, all) done = write_back-IsDigit ds (d ∷ acc) all (i, done)

length-write_back : (ds acc : List ℕ) → length (write_back ds acc) ≡ length ds + length acc
unfolding write_back
length-write_back [] acc = omega arith
length-write_back (d ∷ ds) acc = length-write_back ds (d ∷ acc) ∙ omega arith

first-write_back : (ds acc : List ℕ) (d : ℕ) → first (write_back ds (d ∷ acc)) ≡ last d ds
unfolding write_back
first-write_back [] acc d = refl
first-write_back (e ∷ ds) acc d = first-write_back ds (d ∷ acc) e

-- There is one digit or more, and a leading 0 stands alone.
fill_digits-write_back :
    (rounds x : ℕ)
    → x < 2 ^ suc rounds
    → let s = write_back (fill_digits (suc rounds) x 10) [] in
      (0 < length s) × (first s ≡ 48 → length s ≡ 1)
unfolding fill_digits write_back
fill_digits-write_back rounds zero lt = (omega arith, λ e. refl)
fill_digits-write_back rounds (suc x) lt =
    let ds = fill_digits (suc rounds) (suc x) 10 in
    let rest = if not (suc x / 10 == 0) then fill_digits rounds (suc x / 10) 10 else [] in
    (
      omega (arith, length-write_back ds []),
      λ e.
          elim (last-fill_digits (suc rounds) (suc x) 0 lt (omega arith)
            (sym (first-write_back rest [] (digit (suc x % 10))) ∙ e)) [ ],
    )

abbrev pub sign : Bool → List ℕ
sign negative = if negative then minus ∷ [] else []

signed : (ds : List ℕ) (b : Bool) → write_back (ds ++ sign b) [] ≡ sign b ++ write_back ds []
signed ds true = write_back-last ds [] minus
signed ds false = ap (λ s. write_back s []) (append_nil ds)

u32-if : (b : Bool) (x y : ℕ) → (if b then u32 x else u32 y) ≡ u32 (if b then x else y)
u32-if true x y = refl
u32-if false x y = refl

magnitude-bound : (xx : ℕ) (sgn : Bool) → magnitude xx sgn < 2 ^ 32
magnitude-bound xx sgn = ground arith

-- printint in base ten writes a minus sign just when the number is signed and below 0, and after it
-- one or more digits, the first of them not 0 unless it is the only one, that atoi reads as the low
-- 32 bits of the number's absolute value: of all numbers from 2 ^ 32 on the upper bits are lost.
pub printint-Read :
    (xx : ℕ) (sgn : Bool)
    → (s : List ℕ) × (printint xx 10 sgn ≡ sign (is_negative xx sgn) ++ s)
      × All IsDigit s
      × (0 < length s)
      × (first s ≡ 48 → length s ≡ 1)
      × (atoi s ≡ u32 (if is_negative xx sgn then 2 ^ 64 - xx else xx))
unfolding printint buffer
printint-Read xx sgn = (
  write_back (fill_digits 32 (magnitude xx sgn) 10) [],
  signed (fill_digits 32 (magnitude xx sgn) 10) (is_negative xx sgn),
  write_back-IsDigit (fill_digits 32 (magnitude xx sgn) 10) []
      (value-fill_digits 32 (magnitude xx sgn) (magnitude-bound xx sgn)).1 tt,
  (fill_digits-write_back 31 (magnitude xx sgn) (magnitude-bound xx sgn)).0,
  (fill_digits-write_back 31 (magnitude xx sgn) (magnitude-bound xx sgn)).1,
  atoi-digits (magnitude xx sgn) (magnitude-bound xx sgn)
      ∙ u32-if (is_negative xx sgn) (2 ^ 64 - xx) xx,
)
