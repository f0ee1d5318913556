-- ===== src/Pipe/Close.antt =====
-- `pipeclose` of riscv/kernel/pipe.c, and what a run at the other end does after it.
use learn_xv.Prelude.{
  ℕ, zero, suc, ◌-◌, ◌^◌, ◌≡◌, ◌<◌, refl, Bool, true, false, not, ◌||◌, ◌&&◌, Option, arith,
  int_rounds, int_rounds-eq, ◌==◌, ◌∙◌, ap,
}
use learn_xv.Pipe.{
  Pipe, User, WriteRun, pipeclose, minus_one, piperead, pipewrite, pipewrite_from, write_loop,
}
use learn_xv.Pipe.Contents.{contents, Valid}
use learn_xv.Pipe.Read.{Copied, read_loop-Copied}

and_true : (b : Bool) → b && true ≡ b
and_true true = refl
and_true false = refl

close-contents : (writable : Bool) (p : Pipe) → contents (pipeclose writable p).pipe ≡ contents p
unfolding pipeclose contents
close-contents true p = refl
close-contents false p = refl

pub close-Valid : (writable : Bool) (p : Pipe) → Valid p → Valid (pipeclose writable p).pipe
unfolding pipeclose
close-Valid true p v = record { nread = v.nread; nwrite = v.nwrite; fits = v.fits }
close-Valid false p v = record { nread = v.nread; nwrite = v.nwrite; fits = v.fits }

drains :
    (killed : Bool) (writable : ℕ → Bool) (addr n : ℕ) (m : User) (p : Pipe)
    → Valid p
    → n < 2 ^ 31
    → p.writeopen ≡ false
    → Copied writable addr n 0 m p (piperead killed writable addr n m p)
unfolding piperead
drains killed writable addr n m p v small e =
    let test : (p.nread == p.nwrite) && p.writeopen ≡ false = ground (arith, e) in
    rw (Copied, test)
      (rw (Copied, int_rounds-eq n small) (read_loop-Copied writable addr killed n 0 m p v))

refused :
    (killed : ℕ → Bool) (copyin : ℕ → Option ℕ) (addr n : ℕ) (p : Pipe)
    → 0 < n
    → n < 2 ^ 31
    → p.readopen ≡ false
    → pipewrite killed copyin addr n p ≡ WriteRun.returns minus_one p
unfolding pipewrite pipewrite_from write_loop
refused killed copyin addr (suc n) p h small e =
    let test : not p.readopen || killed 0 ≡ true = ground (arith, e) in
    let rounds : int_rounds (suc n) - 0 ≡ suc n = omega (arith, int_rounds-eq (suc n) small) in
    ap (λ k. write_loop killed copyin addr k 0 p) rounds ∙ rw (write_loop, test) refl
refused killed copyin addr zero p h small e =
    let absurd : ⊥ = omega (arith, h) in
    elim absurd as (λ x. pipewrite killed copyin addr 0 p ≡ WriteRun.returns minus_one p) [ ]

-- After the writer's end is closed a `piperead` does not sleep, and delivers from the bytes that
-- were there; after the reader's end is closed a `pipewrite` returns -1 and leaves the pipe. The
-- page is given back by the close of the end that was open last, and by no other.
pub pipeclose_lem :
    (killed : Bool) (writable : ℕ → Bool) (addr n : ℕ) (m : User) (stopped : ℕ → Bool)
    (copyin : ℕ → Option ℕ) (p : Pipe)
    → Valid p
    → 0 < n
    → n < 2 ^ 31
    → let q = (pipeclose true p).pipe in
      let r = (pipeclose false p).pipe in
      (contents q ≡ contents p)
      × Copied writable addr n 0 m q (piperead killed writable addr n m q)
      × (pipewrite stopped copyin addr n r ≡ WriteRun.returns minus_one r)
      × ((pipeclose true p).freed ≡ not p.readopen)
      × ((pipeclose false p).freed ≡ not p.writeopen)
      × (q.readopen ≡ p.readopen)
      × (r.writeopen ≡ p.writeopen)
      × ((pipeclose false q).freed ≡ true)
      × ((pipeclose true r).freed ≡ true)
unfolding pipeclose
pipeclose_lem killed writable addr n m stopped copyin p v h small = (
  close-contents true p,
  drains killed writable addr n m (pipeclose true p).pipe (close-Valid true p v) small refl,
  refused stopped copyin addr n (pipeclose false p).pipe h small refl,
  and_true (not p.readopen),
  refl,
  refl,
  refl,
  refl,
  refl,
)
