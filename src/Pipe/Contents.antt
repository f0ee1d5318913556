-- ===== src/Pipe/Contents.antt =====
-- The ring of riscv/kernel/pipe.c as a queue of bytes.
use learn_xv.Prelude.{
  ℕ, suc, ◌+◌, ◌%◌, ◌^◌, ◌≡◌, ◌≢◌, ◌≤◌, ◌<◌, ap, ap₂, sym, ◌∙◌, List, [], ◌∷◌, ◌++◌, length, ring,
  length-ring, ring_snoc, ring-update, ring_shift, update, update_self, arith, u32, sub32,
}
use learn_xv.Pipe.{Pipe, pipesize, put, get}

abbrev pub slot : ℕ → ℕ
slot i = i % pipesize

-- The bytes written and not yet read, the oldest first.
unfoldable pub contents : Pipe → List ℕ
contents p = ring slot p.data_ p.nread (sub32 p.nwrite p.nread)

pub record Valid (p : Pipe) : Type 0 where
  pub nread : p.nread < 2 ^ 32
  pub nwrite : p.nwrite < 2 ^ 32
  pub fits : sub32 p.nwrite p.nread ≤ pipesize

slot-apart : (i j : ℕ) → i < j → j < i + pipesize → slot i ≢ slot j
slot-apart i j h g e = omega (arith, e, h, g)

module _ (p : Pipe) (v : Valid p) where
  pub length-contents : length (contents p) ≡ sub32 p.nwrite p.nread
  unfolding contents
  length-contents = length-ring slot p.data_ p.nread (sub32 p.nwrite p.nread)

  -- The code's test for a full ring.
  pub full : p.nwrite ≡ u32 (p.nread + pipesize) → length (contents p) ≡ pipesize
  full e = length-contents ∙ omega (arith, e, v.nread)

  pub not_full : p.nwrite ≢ u32 (p.nread + pipesize) → sub32 p.nwrite p.nread < pipesize
  not_full h = omega (arith, h, v.nread, v.nwrite, v.fits)

  pub contents-put :
      (ch : ℕ) → sub32 p.nwrite p.nread < pipesize → contents (put ch p) ≡ contents p ++ ch ∷ []
  unfolding contents put
  contents-put ch h =
      let k = sub32 p.nwrite p.nread in
      let w = p.nread + k in
      let f = update p.data_ (p.nwrite % pipesize) ch in
      let here : w % pipesize ≡ p.nwrite % pipesize = omega (arith, v.nread, v.nwrite, h) in
      ap (ring slot f p.nread) {y = suc k} (omega (arith, v.nread, v.nwrite, h))
      ∙ ring_snoc slot f p.nread k
      ∙ ap₂ (λ xs x. xs ++ x ∷ [])
          (ap (λ j. ring slot (update p.data_ j ch) p.nread k) (sym here)
            ∙ ring-update slot pipesize slot-apart p.data_ w ch p.nread k (omega arith)
                (omega (arith, h)))
          (ap f here ∙ update_self p.data_ (p.nwrite % pipesize) ch)

  pub put-Valid : (ch : ℕ) → sub32 p.nwrite p.nread < pipesize → Valid (put ch p)
  unfolding put
  put-Valid ch h = record {
    nread = v.nread;
    nwrite = omega arith;
    fits = omega (arith, v.nread, v.nwrite, h);
  }

  pub contents-get :
      p.nread ≢ p.nwrite → contents p ≡ p.data_ (p.nread % pipesize) ∷ contents (get p)
  unfolding contents get ring
  contents-get h =
      let k = sub32 p.nwrite (u32 (p.nread + 1)) in
      ap (ring slot p.data_ p.nread) {y = suc k} (omega (arith, v.nread, v.nwrite, h))
      ∙ ap (λ xs. p.data_ (p.nread % pipesize) ∷ xs)
          (ring_shift slot p.data_ (p.nread + 1) (u32 (p.nread + 1)) k (λ j. omega arith))

  pub get-Valid : p.nread ≢ p.nwrite → Valid (get p)
  unfolding get
  get-Valid h = record {
    nread = omega arith;
    nwrite = v.nwrite;
    fits = omega (arith, v.nread, v.nwrite, v.fits, h);
  }

  pub contents-empty : p.nread ≡ p.nwrite → contents p ≡ []
  unfolding contents ring
  contents-empty e = ap (ring slot p.data_ p.nread) {y = 0} (omega (arith, e, v.nread, v.nwrite))
