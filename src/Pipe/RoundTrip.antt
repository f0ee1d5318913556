-- ===== src/Pipe/RoundTrip.antt =====
-- A `pipewrite` and a `piperead` after it, of riscv/kernel/pipe.c.
use learn_xv.Prelude.{
  ℕ, ◌+◌, ◌-◌, ◌%◌, ◌≡◌, ◌≢◌, ◌≤◌, ◌<◌, ap, ap₂, sym, ◌∙◌, List, [], ◌∷◌, ◌++◌, Bool, true, false,
  not, ◌||◌, Option, length, length-append, append_nil, append_snoc, drop, get_or, arith, u32,
  sub32, int_rounds, int_rounds-eq, ==_ne, update,
}
use learn_xv.Pipe.{
  Pipe, User, WriteRun, ReadRun, pipesize, put, get, u64, write_loop, pipewrite_from, pipewrite,
  read_loop, piperead,
}
use learn_xv.Pipe.Contents.{
  contents, Valid, contents-put, contents-get, contents-empty, put-Valid, get-Valid,
  length-contents, full,
}
use learn_xv.Pipe.Write.{Copied}
use learn_xv.Pipe.Read.{deliver}

-- A writer that is not stopped.
pub record IsWrite (killed : ℕ → Bool) (copyin : ℕ → Option ℕ) (addr i : ℕ) (bytes : List ℕ)
    (p : Pipe) : Type 0 where
  pub copied : Copied copyin addr i bytes
  pub alive : (j : ℕ) → killed j ≡ false
  pub reader : p.readopen ≡ true
  pub room : length (contents p) + length bytes ≤ pipesize
  pub valid : Valid p

module _ (killed : ℕ → Bool) (copyin : ℕ → Option ℕ) (addr : ℕ) where
  rest :
      (b : ℕ) (bytes : List ℕ) (i : ℕ) (p : Pipe)
      → IsWrite killed copyin addr i (b ∷ bytes) p
      → sub32 p.nwrite p.nread < pipesize
      → IsWrite killed copyin addr (i + 1) bytes (put b p)
  unfolding put
  rest b bytes i p w room = record {
    copied = w.copied.1;
    alive = w.alive;
    reader = w.reader;
    room = omega (
      arith,
      w.room,
      ap length (contents-put p w.valid b room),
      length-append (contents p) (b ∷ []),
    );
    valid = put-Valid p w.valid b room;
  }

  write_all :
      (bytes : List ℕ) (i : ℕ) (p : Pipe)
      → IsWrite killed copyin addr i bytes p
      → (q : Pipe) × (write_loop killed copyin addr (length bytes) i p
          ≡ WriteRun.returns (i + length bytes) q)
        × (contents q ≡ contents p ++ bytes)
        × Valid q
  unfolding write_loop
  write_all [] i p w =
      (p, ap (λ r. WriteRun.returns r p) (omega arith), sym (append_nil (contents p)), w.valid)
  write_all (b ∷ bytes) i p w =
      let room : sub32 p.nwrite p.nread < pipesize =
        omega (arith, length-contents p w.valid, w.room) in
      let test : p.nwrite ≢ u32 (p.nread + pipesize) =
        λ e. omega (arith, full p w.valid e, w.room) in
      let go : not p.readopen || killed i ≡ false = rw w.reader (w.alive i) in
      let (q, run, queue, valid) = write_all bytes (i + 1) (put b p) (rest b bytes i p w room) in
      (
        q,
        rw (write_loop, go)
            (rw (write_loop, ==_ne p.nwrite (u32 (p.nread + pipesize)) test)
              (rw (write_loop, w.copied.0) (run ∙ ap (λ r. WriteRun.returns r q) (omega arith)))),
        queue
            ∙ ap (λ l. l ++ bytes) (contents-put p w.valid b room)
            ∙ append_snoc (contents p) b bytes,
        valid,
      )

module _ (killed : Bool) (writable : ℕ → Bool) (addr : ℕ) (can : (a : ℕ) → writable a ≡ true) where
  read_all :
      (bytes later : List ℕ) (i : ℕ) (m : User) (p : Pipe)
      → Valid p
      → contents p ≡ bytes ++ later
      → (q : Pipe) × (read_loop killed writable addr (length bytes) i m p
          ≡ ReadRun.returns (i + length bytes) (deliver addr i bytes m) q)
        × (contents q ≡ later)
  unfolding read_loop
  read_all [] later i m p v e = (p, ap (λ r. ReadRun.returns r m p) (omega arith), e)
  read_all (b ∷ bytes) later i m p v e =
      let test : p.nread ≢ p.nwrite =
        λ f. ground (arith, ap length (sym e ∙ contents-empty p v f)) in
      let split = sym (contents-get p v test) ∙ e in
      let head : p.data_ (p.nread % pipesize) ≡ b = ap (λ l. get_or l 0 0) split in
      let (q, run, queue) =
        read_all bytes later (i + 1) (update m (u64 (addr + i)) b) (get p) (get-Valid p v test)
          (ap (drop 1) split) in
      (
        q,
        rw (read_loop, ==_ne p.nread p.nwrite test)
            (rw (read_loop, can (u64 (addr + i)))
              (rw (read_loop, head)
                (run
                  ∙ ap
                      (λ r.
                        ReadRun.returns r (deliver addr (i + 1) bytes (update m (u64 (addr + i)) b))
                          q)
                      (omega arith)))),
        queue,
      )

-- With room for the bytes, a `pipewrite` that is not stopped takes all of them, and a `piperead` of
-- the length of the queue then delivers the bytes that were in it before and these, in order, and
-- leaves it empty.
pub write_read :
    (addr : ℕ) (killed : ℕ → Bool) (copyin : ℕ → Option ℕ) (to : ℕ) (writable : ℕ → Bool)
    (bytes : List ℕ) (m : User) (p : Pipe)
    → IsWrite killed copyin addr 0 bytes p
    → ((a : ℕ) → writable a ≡ true)
    → 0 < length bytes
    → (q r : Pipe) × (pipewrite killed copyin addr (length bytes) p
        ≡ WriteRun.returns (length bytes) q)
      × (piperead false writable to (length (contents q)) m q
          ≡ ReadRun.returns (length (contents q)) (deliver to 0 (contents p ++ bytes) m) r)
      × (contents r ≡ [])
unfolding pipewrite pipewrite_from piperead
write_read addr killed copyin to writable bytes m p w can some_ =
    let (q, run, queue, v) = write_all killed copyin addr bytes 0 p w in
    let total = contents q in
    let (r, back, left) =
      read_all false writable to can total [] 0 m q v (sym (append_nil total)) in
    let size : length total ≡ length (contents p) + length bytes =
      ap length queue ∙ length-append (contents p) bytes in
    let test : q.nread ≢ q.nwrite =
      λ f. omega (arith, size, some_, ap length (contents-empty q v f)) in
    let rounds : int_rounds (length bytes) - 0 ≡ length bytes =
      omega (arith, int_rounds-eq (length bytes) (omega (arith, w.room))) in
    (
      q,
      r,
      ap (λ k. write_loop killed copyin addr k 0 p) rounds
          ∙ run
          ∙ ap (λ k. WriteRun.returns k q) (omega arith),
      rw (piperead, ==_ne q.nread q.nwrite test)
          (rw (piperead, int_rounds-eq (length total) (omega (arith, size, w.room)))
            (back
              ∙ ap₂ (λ k l. ReadRun.returns k (deliver to 0 l m) r) {y = length total} (omega arith)
                  queue)),
      left,
    )
