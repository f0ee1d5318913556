-- ===== src/Decimal.antt =====
-- riscv/user/printf.c: printint. riscv/user/ulib.c: atoi. A `long long` is its 64-bit pattern, and a
-- string the list of its characters before the NUL.
mod Examples
pub mod Digits
pub mod RoundTrip
use learn_xv.Prelude.{
  ℕ, zero, suc, ◌+◌, ◌-◌, ◌*◌, ◌/◌, ◌%◌, ◌^◌, Bool, true, false, if◌then◌else◌, ◌==◌, ltb, leb, not,
  ◌&&◌, List, [], ◌∷◌, ◌++◌, u32,
}

-- `digits[v]`, with letters from 10 on.
abbrev pub digit : ℕ → ℕ
digit v = if ltb v 10 then 48 + v else 55 + v

abbrev pub minus : ℕ
minus = 45

-- The loop that fills the buffer, for at most `rounds` rounds.
unfoldable pub fill_digits : (rounds x base : ℕ) → List ℕ
fill_digits zero x base = []
fill_digits (suc rounds) x base =
    let rest = fill_digits rounds (x / base) base in
    digit (x % base) ∷ (if not (x / base == 0) then rest else [])

-- The loop that writes the buffer from its end, before `out`.
unfoldable pub write_back : (buf out : List ℕ) → List ℕ
write_back [] out = out
write_back (c ∷ buf) out = write_back buf (c ∷ out)

abbrev pub is_negative : (xx : ℕ) (sgn : Bool) → Bool
is_negative xx sgn = sgn && leb (2 ^ 63) xx

-- `uint x`.
abbrev pub magnitude : (xx : ℕ) (sgn : Bool) → ℕ
magnitude xx sgn = if is_negative xx sgn then u32 (2 ^ 64 - xx) else u32 xx

-- The buffer, whose 20 bytes the code fills from the start.
unfoldable pub buffer : (xx base : ℕ) (sgn : Bool) → List ℕ
unfolding fill_digits
buffer xx base sgn =
    fill_digits 32 (magnitude xx sgn) base ++ (if is_negative xx sgn then minus ∷ [] else [])

unfoldable pub printint : (xx base : ℕ) (sgn : Bool) → List ℕ
unfolding buffer write_back
printint xx base sgn = write_back (buffer xx base sgn) []

-- The loop of `atoi`.
unfoldable pub atoi_from : ℕ → List ℕ → ℕ
atoi_from n [] = n
atoi_from n (c ∷ s) =
    let rest = atoi_from (u32 (n * 10 + c - 48)) s in if leb 48 c && leb c 57 then rest else n

unfoldable pub atoi : List ℕ → ℕ
unfolding atoi_from
atoi s = atoi_from 0 s
