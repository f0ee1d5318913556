-- ===== src/String.antt =====
-- riscv/kernel/string.c: the functions on memory and on C strings. A pointer is an address, and a
-- byte is a number below 256.
pub mod Compare
pub mod Copy
mod Examples
pub mod Move
pub mod Pad
use learn_xv.Prelude.{
  ℕ, zero, suc, ◌+◌, ◌-◌, ◌%◌, ◌^◌, Bool, true, false, if◌then◌else◌, ◌==◌, ltb, not, ◌&&◌, ◌||◌,
  update, for_loop, u32, sub32, int_ltb, int_rounds, Option, none, some,
}

abbrev pub Memory : Type 0
Memory = ℕ → ℕ

-- `memset`: byte `c` for all of the `n` bytes.
unfoldable pub memset : ℕ → ℕ → ℕ → Memory → Memory
memset dst c n m = for_loop (λ i m'. update m' (dst + i) (c % 2 ^ 8)) 0 n m

unfoldable pub memcmp : ℕ → ℕ → ℕ → Memory → ℕ
memcmp s1 s2 zero m = 0
memcmp s1 s2 (suc n) m =
    let rest = memcmp (s1 + 1) (s2 + 1) n m in
    if not (m s1 == m s2) then sub32 (m s1) (m s2) else rest

-- `while(n-- > 0) *d++ = *s++`.
unfoldable pub copy_up : ℕ → ℕ → ℕ → Memory → Memory
copy_up zero d s m = m
copy_up (suc n) d s m = copy_up n (d + 1) (s + 1) (update m d (m s))

-- `while(n-- > 0) *--d = *--s`.
unfoldable pub copy_down : ℕ → ℕ → ℕ → Memory → Memory
copy_down zero d s m = m
copy_down (suc n) d s m = copy_down n (d - 1) (s - 1) (update m (d - 1) (m (s - 1)))

unfoldable pub memmove : ℕ → ℕ → ℕ → Memory → Memory
memmove dst src n m =
    if n == 0
    then m
    else if ltb src dst && ltb dst (src + n)
    then copy_down n (dst + n) (src + n) m
    else copy_up n dst src m

unfoldable pub memcpy : ℕ → ℕ → ℕ → Memory → Memory
memcpy dst src n m = memmove dst src n m

unfoldable pub strncmp : ℕ → ℕ → ℕ → Memory → ℕ
strncmp p q zero m = 0
strncmp p q (suc n) m =
    let rest = strncmp (p + 1) (q + 1) n m in
    if not (m p == 0) && (m p == m q) then rest else sub32 (m p) (m q)

-- `while(n-- > 0) *s++ = 0`.
unfoldable pub pad : ℕ → ℕ → Memory → Memory
pad zero s m = m
pad (suc n) s m = pad n (s + 1) (update m s 0)

-- The first loop of `strncpy`, and the second one after it.
unfoldable pub strncpy_loop : ℕ → ℕ → ℕ → Memory → Memory
unfolding pad
strncpy_loop zero s t m = m
strncpy_loop (suc n) s t m = elim (m t == 0) [
  | true ↦ pad n (s + 1) (update m s (m t))
  | false ↦ strncpy_loop n (s + 1) (t + 1) (update m s (m t))
]

unfoldable pub strncpy : ℕ → ℕ → ℕ → Memory → Memory
strncpy s t n m = strncpy_loop (int_rounds n) s t m

-- The loop of `safestrcpy`, with `n` bytes left for the string.
unfoldable pub safestrcpy_loop : ℕ → ℕ → ℕ → Memory → Memory
safestrcpy_loop zero s t m = update m s 0
safestrcpy_loop (suc n) s t m = elim (m t == 0) [
  | true ↦ update (update m s (m t)) (s + 1) 0
  | false ↦ safestrcpy_loop n (s + 1) (t + 1) (update m s (m t))
]

unfoldable pub safestrcpy : ℕ → ℕ → ℕ → Memory → Memory
safestrcpy s t n m = if int_ltb 0 n then safestrcpy_loop (int_rounds n - 1) s t m else m

-- `strlen`, or nothing if no NUL is found in `fuel` bytes.
unfoldable pub strlen : ℕ → ℕ → Memory → Option ℕ
strlen zero s m = none
strlen (suc fuel) s m = elim (m s == 0) [
  | true ↦ some 0
  | false ↦ elim (strlen fuel (s + 1) m) [ none ↦ none | some k ↦ some (u32 (k + 1)) ]
]
