-- ===== src/Pipe/Write.antt =====
-- `pipewrite` of riscv/kernel/pipe.c as an operation on the queue of bytes.
use learn_xv.Prelude.{
  ℕ, zero, suc, ◌+◌, ◌-◌, ◌^◌, ◌≡◌, ◌≤◌, ◌<◌, ◌⊎◌, inl, inr, refl, ap, sym, ◌∙◌, List, [], ◌∷◌,
  ◌++◌, Bool, true, false, not, ◌||◌, Option, none, some, length, append_nil, append_snoc, subst,
  arith, u32, sub32, int_rounds-eq, ◌==◌, ==_iff, Bool-cases, Option-cases,
}
use learn_xv.Pipe.{
  Pipe, WriteRun, returns, waits, pipesize, put, u64, minus_one, write_loop, pipewrite_from,
}
use learn_xv.Pipe.Contents.{contents, Valid, full, not_full, contents-put, put-Valid}

stop : (a b : Bool) → not a || b ≡ true → (a ≡ false) ⊎ (b ≡ true)
stop true b e = inr e
stop false b e = inl refl

go_on : (a b : Bool) → not a || b ≡ false → a ≡ true
go_on true b e = refl
go_on false b e = ground (arith, e)

-- The bytes are those at the user addresses from `addr + i` on.
abbrev pub Copied : (ℕ → Option ℕ) → ℕ → ℕ → List ℕ → Type 0
Copied copyin addr i [] = Unit
Copied copyin addr i (b ∷ bs) = (copyin (u64 (addr + i)) ≡ some b) × Copied copyin addr (i + 1) bs

-- A run put `sent` at the end of the queue.
pub record Sent (copyin : ℕ → Option ℕ) (addr i : ℕ) (p : Pipe) (sent : List ℕ) (q : Pipe)
    : Type 0 where
  pub copied : Copied copyin addr i sent
  pub queue : contents q ≡ contents p ++ sent
  pub valid : Valid q
  pub ends : (q.readopen ≡ p.readopen) × (q.writeopen ≡ p.writeopen)

module _ (killed : ℕ → Bool) (copyin : ℕ → Option ℕ) (addr : ℕ) where
  -- How a run from counter `i` to the bound `n` may end.
  abbrev pub Written : (n i : ℕ) → Pipe → WriteRun → Type 0
  Written n i p (returns r q) =
      (sent : List ℕ) × Sent copyin addr i p sent q
      × (((r ≡ minus_one) × ((p.readopen ≡ false) ⊎ (killed (i + length sent) ≡ true)))
          ⊎ ((r ≡ i + length sent) × ((r ≡ n) ⊎ (copyin (u64 (addr + r)) ≡ none))))
  Written n i p (waits j q) =
      (sent : List ℕ) × Sent copyin addr i p sent q
      × (j ≡ i + length sent)
      × (length (contents q) ≡ pipesize)
      × (p.readopen ≡ true)

  Sent-nothing : (i : ℕ) (p : Pipe) → Valid p → Sent copyin addr i p [] p
  Sent-nothing i p v = record {
    copied = tt;
    queue = sym (append_nil (contents p));
    valid = v;
    ends = (refl, refl);
  }

  Sent-put :
      {i ch : ℕ} {p q : Pipe} {sent : List ℕ}
      → Valid p
      → sub32 p.nwrite p.nread < pipesize
      → copyin (u64 (addr + i)) ≡ some ch
      → Sent copyin addr (i + 1) (put ch p) sent q
      → Sent copyin addr i p (ch ∷ sent) q
  unfolding put
  Sent-put {ch = ch} {p = p} {sent = sent} v room e s = record {
    copied = (e, s.copied);
    queue =
        s.queue ∙ ap (λ l. l ++ sent) (contents-put p v ch room) ∙ append_snoc (contents p) ch sent;
    valid = s.valid;
    ends = s.ends;
  }

  Written-put :
      (n i ch : ℕ) (p : Pipe)
      → Valid p
      → sub32 p.nwrite p.nread < pipesize
      → copyin (u64 (addr + i)) ≡ some ch
      → (run : WriteRun) → Written n (i + 1) (put ch p) run
      → Written n i p run
  unfolding put
  Written-put n i ch p v room e (returns r q) (sent, s, inl (a, inl b)) =
      (ch ∷ sent, Sent-put v room e s, inl (a, inl b))
  Written-put n i ch p v room e (returns r q) (sent, s, inl (a, inr b)) =
      (ch ∷ sent, Sent-put v room e s, inl (a, inr (subst (λ j. killed j ≡ true) (omega arith) b)))
  Written-put n i ch p v room e (returns r q) (sent, s, inr (a, b)) =
      (ch ∷ sent, Sent-put v room e s, inr (omega (arith, a), b))
  Written-put n i ch p v room e (waits j q) (sent, s, a, f, o) =
      (ch ∷ sent, Sent-put v room e s, omega (arith, a), f, o)

  write_loop-Written :
      (n left i : ℕ) (p : Pipe)
      → Valid p
      → left + i ≡ n
      → Written n i p (write_loop killed copyin addr left i p)
  unfolding write_loop
  write_loop-Written n zero i p v e =
      ([], Sent-nothing i p v, inr (omega arith, inl (omega (arith, e))))
  write_loop-Written n (suc left) i p v e = elim (Bool-cases (not p.readopen || killed i)) [
    | inl b ↦
        let start : i ≡ i + 0 = omega arith in
        let why = subst (λ j. not p.readopen || killed j ≡ true) start b in
        rw (Written, b) ([], Sent-nothing i p v, inl (refl, stop _ _ why))
    | inr b ↦
        let run = write_loop-Written n left (i + 1) in
        rw (Written, b)
          (elim (Bool-cases (p.nwrite == u32 (p.nread + pipesize))) [
            | inl t ↦
                let f = (==_iff p.nwrite (u32 (p.nread + pipesize))).0 t in
                rw (Written, t) ([], Sent-nothing i p v, omega arith, full p v f, go_on _ _ b)
            | inr t ↦
                rw (Written, t)
                  (elim (Option-cases (copyin (u64 (addr + i)))) [
                    | inl g ↦ rw (Written, g) ([], Sent-nothing i p v, inr (omega arith, inr g))
                    | inr (ch, g) ↦
                        let room = not_full p v (λ f. ground (arith, f, t)) in
                        rw (Written, g)
                          (Written-put n i ch p v room g _
                            (run (put ch p) (put-Valid p v ch room) (omega (arith, e))))
                  ])
          ])
  ]

  -- A run of `pipewrite` puts a run of the user's bytes, in order, at the end of the queue. It
  -- returns the count, which is short of `n` only where the user's memory ends; or -1, if the
  -- reader has closed or the process is killed; or it sleeps with the ring full and the reader's
  -- end open.
  pub pipewrite_from-Written :
      (n i : ℕ) (p : Pipe)
      → Valid p
      → i ≤ n
      → n < 2 ^ 31
      → Written n i p (pipewrite_from killed copyin addr n i p)
  unfolding pipewrite_from
  pipewrite_from-Written n i p v h small =
      rw (int_rounds-eq n small) (write_loop-Written n (n - i) i p v (omega (arith, h)))
