-- ===== src/Console/Read.antt =====
-- `consoleread` of riscv/kernel/console.c: a line at a time.
use learn_xv.Prelude.{
  ℕ, suc, inl, inr, ◌+◌, ◌-◌, ◌^◌, ◌≡◌, ◌≢◌, ◌<◌, List, [], ◌∷◌, ◌++◌, All, length, arith, sub32,
  Bool, true, false, if◌then◌else◌, ◌==◌, ltb, ==_ne, ap, ap₂, refl, ◌∙◌, update, int_rounds-eq,
  Bool-cases,
}
use learn_xv.Console.{Console, User, ReadRun, ctrl, next_char, read_loop, consoleread}
use learn_xv.Console.Lines.{slot, Lines, view, Valid}
use learn_xv.Console.Taken.{First, first}

-- The memory after the characters went to the addresses from `dst` on.
abbrev pub deliver : ℕ → List ℕ → User → User
deliver dst [] m = m
deliver dst (c ∷ cs) m = deliver (dst + 1) cs (update m dst c)

-- A run that returns, with what the console then holds.
abbrev pub Returns : ReadRun → ℕ → User → Lines → Type 0
Returns run r m l = (k : Console) × (run ≡ ReadRun.returns r m k) × Valid k × (view k ≡ l)

-- Neither a newline nor `^D`.
abbrev pub Plain : ℕ → Type 0
Plain c = (c ≢ ctrl 68) × (c ≢ 10)

module _ (killed : Bool) (writable : ℕ → Bool) (can : (a : ℕ) → writable a ≡ true)
    (target : ℕ) where
  -- The loop takes a character.
  take_char :
      (n dst c : ℕ) (cs : List ℕ) (m : User) (k : Console)
      → Plain c
      → First k c cs
      → read_loop killed writable target (suc n) dst m k
        ≡ read_loop killed writable target n (dst + 1) (update m dst c) (next_char k)
  unfolding read_loop
  take_char n dst c cs m k plain f =
      let b = k.buf (slot k.r) in
      let d : (b == ctrl 68) ≡ false = rw f.char (==_ne c (ctrl 68) plain.0) in
      let l : (b == 10) ≡ false = rw f.char (==_ne c 10 plain.1) in
      rw (read_loop, ==_ne k.r k.w f.ne)
        (rw (read_loop, d)
          (rw (read_loop, can dst)
            (rw (read_loop, l)
              (ap (λ z. read_loop killed writable target n (dst + 1) (update m dst z) (next_char k))
                f.char))))

  newline :
      (n dst : ℕ) (cs : List ℕ) (m : User) (k : Console)
      → First k 10 cs
      → read_loop killed writable target (suc n) dst m k
        ≡ ReadRun.returns (sub32 target n) (update m dst 10) (next_char k)
  unfolding read_loop
  newline n dst cs m k f =
      let b = k.buf (slot k.r) in
      let d : (b == ctrl 68) ≡ false = rw f.char refl in
      let l : (b == 10) ≡ true = rw f.char refl in
      rw (read_loop, ==_ne k.r k.w f.ne)
        (rw (read_loop, d)
          (rw (read_loop, can dst)
            (rw (read_loop, l)
              (ap (λ z. ReadRun.returns (sub32 target n) (update m dst z) (next_char k)) f.char))))

  end_of_file :
      (n dst : ℕ) (cs : List ℕ) (m : User) (k : Console)
      → Valid k
      → First k (ctrl 68) cs
      → read_loop killed writable target (suc n) dst m k
        ≡ ReadRun.returns (sub32 target (suc n)) m (if ltb (suc n) target then k else next_char k)
  unfolding read_loop next_char
  end_of_file n dst cs m k v f =
      let d : (k.buf (slot k.r) == ctrl 68) ≡ true = rw f.char refl in
      rw (read_loop, ==_ne k.r k.w f.ne)
        (rw (read_loop, d)
          (ap
            (λ z.
              ReadRun.returns (sub32 target (suc n)) m
                (if ltb (suc n) target then record k { r = z } else next_char k))
            (omega (arith, v.r))))

  -- Through the characters before the end of a line.
  through :
      (line after : List ℕ) (n dst : ℕ) (m : User) (k : Console)
      → Valid k
      → All Plain line
      → (view k).committed ≡ line ++ after
      → (k' : Console) × (read_loop killed writable target (length line + n) dst m k
          ≡ read_loop killed writable target n (dst + length line) (deliver dst line m) k')
        × Valid k'
        × ((view k').committed ≡ after)
        × ((view k').editing ≡ (view k).editing)
  through [] after n dst m k v plain e = (
    k,
    ap₂ (λ i j. read_loop killed writable target i j m k) {y = n} (omega arith) (omega arith),
    v,
    e,
    refl,
  )
  through (c ∷ line) after n dst m k v plain e =
      let f = first k c (line ++ after) v e in
      let (k', go, v', rest, same) =
        through line after n (dst + 1) (update m dst c) (next_char k) f.valid plain.1 f.rest in
      (
        k',
        ap (λ i. read_loop killed writable target i dst m k) {y = suc (length line + n)}
              (omega arith)
            ∙ take_char (length line + n) dst c (line ++ after) m k plain.0 f
            ∙ go
            ∙ ap (λ j. read_loop killed writable target n j (deliver dst (c ∷ line) m) k')
                (omega arith),
        v',
        rest,
        same ∙ f.line,
      )

  -- A line with its newline.
  whole_line :
      (line after : List ℕ) (n dst : ℕ) (m : User) (k : Console)
      → Valid k
      → All Plain line
      → (view k).committed ≡ line ++ 10 ∷ after
      → Returns
          (read_loop killed writable target (length line + suc n) dst m k)
          (sub32 target n)
          (update (deliver dst line m) (dst + length line) 10)
          (record { committed = after; editing = (view k).editing })
  whole_line line after n dst m k v plain e =
      let (k', go, v', rest, same) = through line (10 ∷ after) (suc n) dst m k v plain e in
      let f = first k' 10 after v' rest in
      (
        next_char k',
        go ∙ newline n (dst + length line) after (deliver dst line m) k' f,
        f.valid,
        ap₂ (λ xs ys. record { committed = xs; editing = ys }) f.rest (f.line ∙ same),
      )

  -- What stands before a `^D`, which stays unless nothing was read.
  up_to_end :
      (line after : List ℕ) (n dst : ℕ) (m : User) (k : Console)
      → Valid k
      → All Plain line
      → (view k).committed ≡ line ++ ctrl 68 ∷ after
      → Returns
          (read_loop killed writable target (length line + suc n) dst m k)
          (sub32 target (suc n))
          (deliver dst line m)
          (record {
            committed = if ltb (suc n) target then ctrl 68 ∷ after else after;
            editing = (view k).editing;
          })
  up_to_end line after n dst m k v plain e =
      let (k', go, v', rest, same) = through line (ctrl 68 ∷ after) (suc n) dst m k v plain e in
      let f = first k' (ctrl 68) after v' rest in
      let whole = go ∙ end_of_file n (dst + length line) after (deliver dst line m) k' v' f in
      let r = ReadRun.returns (sub32 target (suc n)) (deliver dst line m) in
      elim (Bool-cases (ltb (suc n) target)) [
        | inl t ↦ rw t (
          k',
          whole ∙ ap (λ b. r (if b then k' else next_char k')) t,
          v',
          ap₂ (λ xs ys. record { committed = xs; editing = ys }) rest same,
        )
        | inr t ↦ rw t (
          next_char k',
          whole ∙ ap (λ b. r (if b then k' else next_char k')) t,
          f.valid,
          ap₂ (λ xs ys. record { committed = xs; editing = ys }) f.rest (f.line ∙ same),
        )
      ]

module _ (killed : Bool) (writable : ℕ → Bool) where
  -- `consoleread` of a line that is committed and fits gives the line with its newline, and leaves
  -- the input after it.
  pub consoleread-line :
      (line after : List ℕ) (n dst : ℕ) (m : User) (k : Console)
      → ((a : ℕ) → writable a ≡ true)
      → Valid k
      → All Plain line
      → (view k).committed ≡ line ++ 10 ∷ after
      → length line < n
      → n < 2 ^ 31
      → Returns
          (consoleread killed writable dst n m k)
          (length line + 1)
          (update (deliver dst line m) (dst + length line) 10)
          (record { committed = after; editing = (view k).editing })
  unfolding consoleread
  consoleread-line line after n dst m k can v plain e short small =
      let left = n - length line - 1 in
      let (k', go, valid, rest) =
        whole_line killed writable can n line after left dst m k v plain e in
      (
        k',
        rw (int_rounds-eq n small) (
            ap (λ i. read_loop killed writable n i dst m k) {y = length line + suc left}
              (omega (arith, short))
            ∙ go
            ∙ ap (λ r. ReadRun.returns r (update (deliver dst line m) (dst + length line) 10) k')
                (omega (arith, short, small))),
        valid,
        rest,
      )

  -- `consoleread` of an input with `^D` gives what stands before it. The `^D` stays for the next
  -- call if something stands before it, and is taken otherwise.
  pub consoleread-end :
      (line after : List ℕ) (n dst : ℕ) (m : User) (k : Console)
      → ((a : ℕ) → writable a ≡ true)
      → Valid k
      → All Plain line
      → (view k).committed ≡ line ++ ctrl 68 ∷ after
      → length line < n
      → n < 2 ^ 31
      → Returns (consoleread killed writable dst n m k) (length line) (deliver dst line m) (record {
        committed = if length line == 0 then after else ctrl 68 ∷ after;
        editing = (view k).editing;
      })
  unfolding consoleread
  consoleread-end line after n dst m k can v plain e short small =
      let left = n - length line - 1 in
      let (k', go, valid, rest) =
        up_to_end killed writable can n line after left dst m k v plain e in
      let kept : (if ltb (suc left) n then ctrl 68 ∷ after else after)
          ≡ (if length line == 0 then after else ctrl 68 ∷ after) =
        ground (arith, short) in
      (
        k',
        rw (int_rounds-eq n small) (
            ap (λ i. read_loop killed writable n i dst m k) {y = length line + suc left}
              (omega (arith, short))
            ∙ go
            ∙ ap (λ r. ReadRun.returns r (deliver dst line m) k') (omega (arith, short, small))),
        valid,
        rest ∙ ap (λ xs. record { committed = xs; editing = (view k).editing }) kept,
      )
