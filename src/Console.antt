-- ===== src/Console.antt =====
-- riscv/kernel/console.c: the line discipline of the console. `cons.lock` makes each call of the
-- interrupt handler one step; `consoleread` runs up to its end or to its `sleep`.
mod Examples
pub mod Input
pub mod Lines
pub mod Taken
pub mod Read
mod Store
use learn_xv.Prelude.{
  ℕ, zero, suc, ◌+◌, ◌-◌, ◌*◌, ◌%◌, ◌^◌, Bool, true, false, if◌then◌else◌, ◌==◌, ltb, not, ◌&&◌,
  ◌||◌, List, [], ◌∷◌, update, u32, sub32, int_rounds,
}

abbrev pub input_buf_size : ℕ
input_buf_size = 128

-- `C(x)`, for the letter with the code `x`.
abbrev pub ctrl : ℕ → ℕ
ctrl x = x - 64

-- `cons` less its lock, and the characters that went to `uartputc_sync`, the last one first.
pub record Console : Type 0 where
  pub buf : ℕ → ℕ
  pub r : ℕ
  pub w : ℕ
  pub e : ℕ
  pub out : List ℕ

abbrev pub backspace : ℕ
backspace = 0x100

unfoldable pub consputc : ℕ → Console → Console
consputc c k = record k { out = if c == backspace then 8 ∷ 32 ∷ 8 ∷ k.out else c ∷ k.out }

-- The erasing of one character.
unfoldable pub erase : Console → Console
unfolding consputc
erase k = consputc backspace (record k { e = sub32 k.e 1 })

-- The loop of `^U`, for at most `rounds` rounds.
unfoldable pub kill_line : ℕ → Console → Console
unfolding erase
kill_line zero k = k
kill_line (suc rounds) k =
    elim (not (k.e == k.w) && not (k.buf (sub32 k.e 1 % input_buf_size) == 10)) [
      | true ↦ kill_line rounds (erase k)
      | false ↦ k
    ]

unfoldable pub store_char : ℕ → Console → Console
unfolding consputc
store_char c k =
    let echoed = consputc c k in
    let e = u32 (k.e + 1) in
    record echoed {
      buf = update k.buf (k.e % input_buf_size) c;
      e = e;
      w = if (c == 10) || (c == ctrl 68) || (sub32 e k.r == input_buf_size) then e else k.w;
    }

-- `^P` prints the processes and changes nothing of the console's state.
unfoldable pub consoleintr : ℕ → Console → Console
unfolding kill_line erase store_char
consoleintr c k =
    if c == ctrl 80
    then k
    else if c == ctrl 85
    then kill_line input_buf_size k
    else if (c == ctrl 72) || (c == 0x7f)
    then if not (k.e == k.w) then erase k else k
    else if not (c == 0) && ltb (sub32 k.e k.r) input_buf_size
    then store_char (if c == 13 then 10 else c) k
    else k

-- The memory of the process that reads, as far as `either_copyout` changes it.
abbrev pub User : Type 0
User = ℕ → ℕ

abbrev pub minus_one : ℕ
minus_one = 2 ^ 32 - 1

-- A run of `consoleread` returns, or sleeps with `n` and `dst`.
pub data ReadRun : Type 0 where
  returns : ℕ → User → Console → ReadRun
  waits : (n dst : ℕ) → User → Console → ReadRun

unfoldable pub next_char : Console → Console
next_char k = record k { r = u32 (k.r + 1) }

-- `writable a`: `either_copyout` of a byte to `a` succeeds.
module _ (killed : Bool) (writable : ℕ → Bool) (target : ℕ) where
  -- The loop of `consoleread` with `n` characters to go.
  unfoldable pub read_loop : (n dst : ℕ) → User → Console → ReadRun
  unfolding next_char
  read_loop zero dst m k = returns (sub32 target 0) m k
  read_loop (suc n) dst m k = elim (k.r == k.w) [
    | true ↦ if killed then returns minus_one m k else waits (suc n) dst m k
    | false ↦
        let c = k.buf (k.r % input_buf_size) in
        let k' = next_char k in
        elim (c == ctrl 68) [
          | true ↦
              returns (sub32 target (suc n)) m
                (if ltb (suc n) target then record k' { r = sub32 k'.r 1 } else k')
          | false ↦ elim (writable dst) [
            | false ↦ returns (sub32 target (suc n)) m k'
            | true ↦ elim (c == 10) [
              | true ↦ returns (sub32 target n) (update m dst c) k'
              | false ↦ read_loop n (dst + 1) (update m dst c) k'
            ]
          ]
        ]
  ]

unfoldable pub consoleread : Bool → (ℕ → Bool) → (dst n : ℕ) → User → Console → ReadRun
consoleread killed writable dst n m k = read_loop killed writable n (int_rounds n) dst m k
