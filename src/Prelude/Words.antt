-- ===== src/Prelude/Words.antt =====
-- The machine's integers. A 32-bit word is its bit pattern, below 2 ^ 32, also where C reads it as
-- a signed `int`: a signed comparison is the unsigned one of the patterns moved by 2 ^ 31.
use Prim.Native.Nat.{ℕ, ◌+◌, ◌-◌, ◌%◌, ◌^◌, ◌<◌}
use mathlib.Core.Path.{◌≡◌}
use mathlib.Core.Bool.{Bool}
use native.Mathlib.Omega.{arith}
use learn_xv.Prelude.Tests.{ltb, if◌then◌else◌}

abbrev pub u32 : ℕ → ℕ
u32 n = n % 2 ^ 32

-- `a - b` on 32-bit words.
abbrev pub sub32 : ℕ → ℕ → ℕ
sub32 a b = (a + 2 ^ 32 - b) % 2 ^ 32

-- -1 as a 32-bit word.
abbrev pub minus_one : ℕ
minus_one = 2 ^ 32 - 1

-- `a < b` on `int`s.
abbrev pub int_ltb : ℕ → ℕ → Bool
int_ltb a b = ltb ((a + 2 ^ 31) % 2 ^ 32) ((b + 2 ^ 31) % 2 ^ 32)

-- The rounds of `for (i = 0; i < n; i++)` over an `int n`.
abbrev pub int_rounds : ℕ → ℕ
int_rounds n = if ltb n (2 ^ 31) then n else 0

pub int_rounds-eq : (n : ℕ) → n < 2 ^ 31 → int_rounds n ≡ n
int_rounds-eq n h = ground arith
