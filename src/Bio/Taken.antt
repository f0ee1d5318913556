-- ===== src/Bio/Taken.antt =====
-- What `bget` of riscv/kernel/bio.c finds under `bcache.lock`.
use mathlib.Core.List.{reverse, reverse-reverse}
use learn_xv.Prelude.{
  ℕ, ◌+◌, ◌≤◌, ◌<◌, ◌≡◌, ◌≢◌, inl, inr, subst, ◌∙◌, arith, Bool, true, false, none, some, List, [],
  ◌∷◌, length, All, Bool-cases, Option-cases, u32, Run, ok, panic,
}
use learn_xv.Bio.{Cache, nbuf, caches, is_unused, take_buf, set_buf}
use learn_xv.Bio.Links.{Occurs, All-Occurs}
use learn_xv.Bio.Order.{IsRing, search_in, walk-next, walk-prev, All-reverse}

-- A ring of all buffers.
pub record IsFull (c : Cache) (xs : List ℕ) : Type 0 where
  pub ring : IsRing c xs
  pub complete : (b : ℕ) → b < nbuf → Occurs b xs
  pub short : length xs ≤ nbuf

search_in-none :
    (test : ℕ → Bool) (xs : List ℕ) → search_in test xs ≡ none → All (λ x. test x ≡ false) xs
search_in-none test [] e = tt
search_in-none test (x ∷ xs) e = elim (Bool-cases (test x)) [
  | inl h ↦ ground arith
  | inr h ↦ (h, search_in-none test xs (rw h at e))
]

search_in-some :
    (test : ℕ → Bool) (P : ℕ → Type 0) (xs : List ℕ) (b : ℕ)
    → All P xs
    → search_in test xs ≡ some b
    → (test b ≡ true) × P b
search_in-some test P [] b h e = ground arith
search_in-some test P (x ∷ xs) b h e = elim (Bool-cases (test x)) [
  | inl t ↦ let q : x ≡ b = ground arith in (subst (λ y. test y ≡ true) q t, subst P q h.0)
  | inr t ↦ search_in-some test P xs b h.1 (rw t at e)
]

-- `xs` is the order of use, the latest first.
pub data Taken (c : Cache) (xs : List ℕ) (dev blockno : ℕ) : Run Cache ℕ → Type 0 where
  hit :
      (b : ℕ)
      → b < nbuf
      → caches c dev blockno b ≡ true
      → Taken c xs dev blockno
          (ok b (set_buf b (record (c.buf b) { refcnt = u32 ((c.buf b).refcnt + 1) }) c))
  recycled :
      (b : ℕ)
      → b < nbuf
      → ((i : ℕ) → i < nbuf → caches c dev blockno i ≡ false)
      → search_in (is_unused c) (reverse xs) ≡ some b
      → (c.buf b).refcnt ≡ 0
      → Taken c xs dev blockno (
          ok b (
            set_buf b
              (record (c.buf b) { dev = dev; blockno = blockno; valid = false; refcnt = 1 })
              c))
  exhausted :
      ((i : ℕ) → i < nbuf → caches c dev blockno i ≡ false)
      → ((i : ℕ) → i < nbuf → (c.buf i).refcnt ≢ 0)
      → Taken c xs dev blockno panic

-- `bget` takes a buffer that has the block; else the unused buffer that was released longest ago;
-- and it panics just when no buffer has the block and none is unused.
pub take_buf-Taken :
    {c : Cache} {xs : List ℕ} (dev blockno : ℕ)
    → IsFull c xs
    → Taken c xs dev blockno (take_buf dev blockno c)
unfolding take_buf
take_buf-Taken {c} {xs} dev blockno f = elim (Option-cases (search_in (caches c dev blockno) xs)) [
  | inr (b, e) ↦
      let (t, h) = search_in-some (caches c dev blockno) (λ x. x < nbuf) xs b f.ring.below e in
      rw (walk-next f.ring (caches c dev blockno) f.short ∙ e, take_buf) (hit b h t)
  | inl e ↦
      let miss = λ (i : ℕ) (h : i < nbuf).
        All-Occurs (λ x. caches c dev blockno x ≡ false) xs
          (search_in-none (caches c dev blockno) xs e) (f.complete i h) in
      elim (Option-cases (search_in (is_unused c) (reverse xs))) [
        | inr (b, e') ↦
            let (t, h) =
              search_in-some (is_unused c) (λ x. x < nbuf) (reverse xs) b
                (All-reverse (λ x. x < nbuf) xs f.ring.below) e' in
            rw
              (
                walk-next f.ring (caches c dev blockno) f.short ∙ e,
                walk-prev f.ring (is_unused c) f.short ∙ e',
                take_buf,
              )
              (recycled b h miss e' (ground arith))
        | inl e' ↦
            let used = subst (All (λ x. is_unused c x ≡ false)) (reverse-reverse xs) (
              All-reverse (λ x. is_unused c x ≡ false) (reverse xs)
                (search_in-none (is_unused c) (reverse xs) e')) in
            rw
              (
                walk-next f.ring (caches c dev blockno) f.short ∙ e,
                walk-prev f.ring (is_unused c) f.short ∙ e',
                take_buf,
              )
              (exhausted miss (λ i h z.
                let u : is_unused c i ≡ false =
                  All-Occurs (λ x. is_unused c x ≡ false) xs used (f.complete i h) in
                ground arith))
      ]
]
