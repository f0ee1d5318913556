-- ===== src/Pipe.antt =====
-- riscv/kernel/pipe.c: pipes. `pipewrite` and `piperead` run under `pi->lock` up to their end or to
-- a `sleep`; one run is one step here, and a process that is woken starts another run where it was.
pub mod Close
pub mod Contents
mod Examples
pub mod Read
pub mod RoundTrip
pub mod Write
use learn_xv.Prelude.{
  ℕ, zero, suc, ◌+◌, ◌-◌, ◌%◌, ◌^◌, ◌≡◌, Bool, true, false, Option, none, some, if◌then◌else◌, ◌==◌,
  not, ◌&&◌, ◌||◌, update, u32, int_rounds,
}

abbrev pub pipesize : ℕ
pipesize = 512

-- `struct pipe` less its lock. The flags, which the code sets to 0 or 1, are Booleans.
pub record Pipe : Type 0 where
  pub data_ : ℕ → ℕ
  pub nread : ℕ
  pub nwrite : ℕ
  pub readopen : Bool
  pub writeopen : Bool

-- What `pipealloc` sets on a fresh page, whose bytes are arbitrary.
unfoldable pub init_pipe : Pipe → Pipe
init_pipe p = record p { readopen = true; writeopen = true; nwrite = 0; nread = 0 }

-- The pipe after `pipeclose`, and whether its page is given back.
pub record Closed : Type 0 where
  pub pipe : Pipe
  pub freed : Bool

unfoldable pub pipeclose : Bool → Pipe → Closed
pipeclose writable p =
    let q = if writable then record p { writeopen = false } else record p { readopen = false } in
    record { pipe = q; freed = not q.readopen && not q.writeopen }

-- -1 as an `int`.
abbrev pub minus_one : ℕ
minus_one = 2 ^ 32 - 1

-- A user address as 64 bits.
abbrev pub u64 : ℕ → ℕ
u64 a = a % 2 ^ 64

-- A run of `pipewrite` returns, or sleeps with its counter `i`.
pub data WriteRun : Type 0 where
  returns : ℕ → Pipe → WriteRun
  waits : ℕ → Pipe → WriteRun

unfoldable pub put : ℕ → Pipe → Pipe
put ch p = record p { data_ = update p.data_ (p.nwrite % pipesize) ch; nwrite = u32 (p.nwrite + 1) }

-- `killed i` is the answer of `killed(pr)` in round `i`; `copyin a` is the byte at the user address
-- `a`, where there is one.
module _ (killed : ℕ → Bool) (copyin : ℕ → Option ℕ) (addr : ℕ) where
  -- The loop with `left` rounds to go, the counter at `i`.
  unfoldable pub write_loop : (left i : ℕ) → Pipe → WriteRun
  unfolding put
  write_loop zero i p = returns i p
  write_loop (suc left) i p = elim (not p.readopen || killed i) [
    | true ↦ returns minus_one p
    | false ↦ elim (p.nwrite == u32 (p.nread + pipesize)) [
      | true ↦ waits i p
      | false ↦ elim (copyin (u64 (addr + i))) [
        | none ↦ returns i p
        | some ch ↦ write_loop left (i + 1) (put ch p)
      ]
    ]
  ]

  -- `pipewrite` of `n` bytes, from its start or from its `sleep` in round `i`.
  unfoldable pub pipewrite_from : (n i : ℕ) → Pipe → WriteRun
  pipewrite_from n i p = write_loop (int_rounds n - i) i p

  unfoldable pub pipewrite : ℕ → Pipe → WriteRun
  pipewrite n p = pipewrite_from n 0 p

-- The memory of the process that reads, as far as `copyout` changes it.
abbrev pub User : Type 0
User = ℕ → ℕ

pub data ReadRun : Type 0 where
  returns : ℕ → User → Pipe → ReadRun
  waits : User → Pipe → ReadRun

unfoldable pub get : Pipe → Pipe
get p = record p { nread = u32 (p.nread + 1) }

-- `writable a`: `copyout` of a byte to the user address `a` succeeds.
module _ (killed : Bool) (writable : ℕ → Bool) (addr : ℕ) where
  unfoldable pub read_loop : (left i : ℕ) → User → Pipe → ReadRun
  unfolding get
  read_loop zero i m p = returns i m p
  read_loop (suc left) i m p = elim (p.nread == p.nwrite) [
    | true ↦ returns i m p
    | false ↦
        let ch = p.data_ (p.nread % pipesize) in
        let a = u64 (addr + i) in
        elim (writable a) [
          | false ↦ returns i m (get p)
          | true ↦ read_loop left (i + 1) (update m a ch) (get p)
        ]
  ]

  -- `piperead` of `n` bytes; a process that is woken starts anew.
  unfoldable pub piperead : ℕ → User → Pipe → ReadRun
  piperead n m p =
      if (p.nread == p.nwrite) && p.writeopen
      then if killed then returns minus_one m p else waits m p
      else read_loop (int_rounds n) 0 m p
