-- ===== src/Pipe/Read.antt =====
-- `piperead` of riscv/kernel/pipe.c as an operation on the queue of bytes.
use learn_xv.Prelude.{
  ℕ, zero, suc, ◌+◌, ◌%◌, ◌^◌, ◌≡◌, ◌≢◌, ◌<◌, ◌⊎◌, inl, inr, refl, ap, ◌∙◌, List, [], ◌∷◌, ◌++◌,
  Bool, true, false, ◌&&◌, length, arith, int_rounds-eq, ◌==◌, ==_iff, Bool-cases, update,
}
use learn_xv.Pipe.{
  Pipe, User, ReadRun, returns, waits, pipesize, get, u64, minus_one, read_loop, piperead,
}
use learn_xv.Pipe.Contents.{
  contents, Valid, contents-get, contents-empty, get-Valid, length-contents,
}

both : (a b : Bool) → a && b ≡ true → (a ≡ true) × (b ≡ true)
both true b e = (refl, e)
both false b e = ground (arith, e)

either : (a b : Bool) → a && b ≡ false → (a ≡ false) ⊎ (b ≡ false)
either true b e = inr e
either false b e = inl refl

-- The memory after the bytes went to the user addresses from `addr + i` on.
abbrev pub deliver : ℕ → ℕ → List ℕ → User → User
deliver addr i [] m = m
deliver addr i (b ∷ bs) m = deliver addr (i + 1) bs (update m (u64 (addr + i)) b)

-- A run took `taken` off the front of the queue.
pub record Received (p : Pipe) (taken : List ℕ) (q : Pipe) : Type 0 where
  pub queue : contents p ≡ taken ++ contents q
  pub valid : Valid q
  pub ends : (q.readopen ≡ p.readopen) × (q.writeopen ≡ p.writeopen)

module _ (writable : ℕ → Bool) (addr : ℕ) where
  -- How the copying loop may end that has `left` rounds to go: it delivers what it takes, and stops
  -- at the bound or at the end of the queue; or it stops at an address that cannot be written, with
  -- one byte more taken than delivered.
  abbrev pub Copied : (left i : ℕ) → User → Pipe → ReadRun → Type 0
  Copied left i m p (returns r m' q) =
      (taken : List ℕ) × (r ≡ i + length taken)
      × (m' ≡ deliver addr i taken m)
      × ((Received p taken q × ((length taken ≡ left) ⊎ (contents q ≡ [])))
          ⊎ ((b : ℕ) × Received p (taken ++ b ∷ []) q × (writable (u64 (addr + r)) ≡ false)))
  Copied left i m p (waits m' q) = ⊥

  Received-nothing : (p : Pipe) → Valid p → Received p [] p
  Received-nothing p v = record { queue = refl; valid = v; ends = (refl, refl) }

  Received-get :
      {p q : Pipe} {taken : List ℕ}
      → Valid p
      → p.nread ≢ p.nwrite
      → Received (get p) taken q
      → Received p (p.data_ (p.nread % pipesize) ∷ taken) q
  unfolding get
  Received-get {p = p} v h s = record {
    queue = contents-get p v h ∙ ap (λ l. p.data_ (p.nread % pipesize) ∷ l) s.queue;
    valid = s.valid;
    ends = s.ends;
  }

  Copied-get :
      (left i : ℕ) (m : User) (p : Pipe)
      → Valid p
      → p.nread ≢ p.nwrite
      → (run : ReadRun)
      → Copied left (i + 1) (update m (u64 (addr + i)) (p.data_ (p.nread % pipesize))) (get p) run
      → Copied (suc left) i m p run
  Copied-get left i m p v h (returns r m' q) (taken, e, d, inl (s, inl f)) =
      (_ ∷ taken, omega (arith, e), d, inl (Received-get v h s, inl (ap suc f)))
  Copied-get left i m p v h (returns r m' q) (taken, e, d, inl (s, inr f)) =
      (_ ∷ taken, omega (arith, e), d, inl (Received-get v h s, inr f))
  Copied-get left i m p v h (returns r m' q) (taken, e, d, inr (b, s, f)) =
      (_ ∷ taken, omega (arith, e), d, inr (b, Received-get v h s, f))
  Copied-get left i m p v h (waits m' q) c = elim c [ ]

  pub read_loop-Copied :
      (killed : Bool) (left i : ℕ) (m : User) (p : Pipe)
      → Valid p
      → Copied left i m p (read_loop killed writable addr left i m p)
  unfolding read_loop
  read_loop-Copied killed zero i m p v =
      ([], omega arith, refl, inl (Received-nothing p v, inl refl))
  read_loop-Copied killed (suc left) i m p v = elim (Bool-cases (p.nread == p.nwrite)) [
    | inl t ↦
        rw (Copied, t)
          (
            [],
            omega arith,
            refl,
            inl (Received-nothing p v, inr (contents-empty p v ((==_iff p.nread p.nwrite).0 t))),
          )
    | inr t ↦
        let h : p.nread ≢ p.nwrite = λ e. ground (arith, e, t) in
        rw (Copied, t)
          (elim (Bool-cases (writable (u64 (addr + i)))) [
            | inl w ↦
                rw (Copied, w)
                  (Copied-get left i m p v h _
                    (read_loop-Copied killed left (i + 1) _ (get p) (get-Valid p v h)))
            | inr w ↦
                rw (Copied, w)
                  (
                    [],
                    omega arith,
                    refl,
                    inr (
                      p.data_ (p.nread % pipesize),
                      Received-get v h (Received-nothing (get p) (get-Valid p v h)),
                      w,
                    ),
                  )
          ])
  ]

module _ (killed : Bool) (writable : ℕ → Bool) (addr : ℕ) where
  -- How a run of `piperead` may end: it is killed while it waits; or it copies; or it sleeps.
  abbrev pub ReadEnds : ℕ → User → Pipe → ReadRun → Type 0
  ReadEnds n m p (returns r m' q) =
      ((r ≡ minus_one)
        × (m' ≡ m)
        × (q ≡ p)
        × (contents p ≡ [])
        × (p.writeopen ≡ true)
        × (killed ≡ true))
      ⊎ (Copied writable addr n 0 m p (returns r m' q)
          × ((0 < length (contents p)) ⊎ (p.writeopen ≡ false)))
  ReadEnds n m p (waits m' q) =
      (m' ≡ m) × (q ≡ p) × (contents p ≡ []) × (p.writeopen ≡ true) × (killed ≡ false)

  copies :
      (n : ℕ) (m : User) (p : Pipe)
      → (0 < length (contents p)) ⊎ (p.writeopen ≡ false)
      → (run : ReadRun) → Copied writable addr n 0 m p run
      → ReadEnds n m p run
  copies n m p why (returns r m' q) c = inr (c, why)
  copies n m p why (waits m' q) c = elim c [ ]

  copy_cases :
      (p : Pipe)
      → Valid p
      → ((p.nread == p.nwrite) ≡ false) ⊎ (p.writeopen ≡ false)
      → (0 < length (contents p)) ⊎ (p.writeopen ≡ false)
  copy_cases p v (inl t) = inl (ground (arith, length-contents p v, v.nread, v.nwrite, t))
  copy_cases p v (inr o) = inr o

  -- A run of `piperead` takes a run of bytes off the front of the queue and delivers them in order.
  -- It sleeps only on an empty queue with the writer's end open, and then returns -1 if killed. It
  -- returns 0 for an empty queue only after the writer closed.
  pub piperead-ReadEnds :
      (n : ℕ) (m : User) (p : Pipe)
      → Valid p
      → n < 2 ^ 31
      → ReadEnds n m p (piperead killed writable addr n m p)
  unfolding piperead
  piperead-ReadEnds n m p v small =
      let run = read_loop-Copied writable addr killed n 0 m p v in
      let rounds = int_rounds-eq n small in
      elim (Bool-cases ((p.nread == p.nwrite) && p.writeopen)) [
        | inl t ↦
            let (same, o) = both _ _ t in
            let empty = contents-empty p v ((==_iff p.nread p.nwrite).0 same) in
            rw (ReadEnds, t)
              (elim (Bool-cases killed) [
                | inl k ↦ rw (ReadEnds, k) (inl (refl, refl, refl, empty, o, k))
                | inr k ↦ rw (ReadEnds, k) (refl, refl, empty, o, k)
              ])
        | inr t ↦
            let why = copy_cases p v (either _ _ t) in
            rw (ReadEnds, t) (rw rounds (copies n m p why _ run))
      ]
