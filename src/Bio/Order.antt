-- ===== src/Bio/Order.antt =====
-- The list of riscv/kernel/bio.c is a ring of all buffers, most recently used first, and the loops
-- of `bget` search it from either end.
use mathlib.Core.List.{reverse, reverse-append}
use learn_xv.Prelude.{
  ℕ, zero, suc, ◌≤◌, ◌<◌, ◌≡◌, ◌≢◌, inl, inr, refl, arith, Bool, Option, none, some, List, [], ◌∷◌,
  length, length-append, All, All-join, Bool-cases, if◌then◌else◌, ==_ne,
}
use learn_xv.Bio.{Cache, nbuf, head, walk}
use learn_xv.Bio.Links.{Linked, Avoids, IsDistinct, Linked-join}

-- The list `xs` of buffers, in the order of the links.
pub record IsRing (c : Cache) (xs : List ℕ) : Type 0 where
  pub linked : Linked c.next c.prev head xs head
  pub distinct : IsDistinct xs
  pub below : All (λ x. x < nbuf) xs

-- The first buffer of `xs` that passes the test.
abbrev pub search_in : (ℕ → Bool) → List ℕ → Option ℕ
search_in test [] = none
search_in test (x ∷ xs) = if test x then some x else search_in test xs

pub below-Avoids : (xs : List ℕ) → All (λ x. x < nbuf) xs → Avoids head xs
below-Avoids [] h = tt
below-Avoids (x ∷ xs) h = (omega arith, below-Avoids xs h.1)

module _ (next prev : ℕ → ℕ) (test : ℕ → Bool) where
  -- With a round for each buffer and one more, a walk is a search.
  pub walk-search :
      (f a : ℕ) (xs : List ℕ)
      → Linked next prev a xs head
      → Avoids head xs
      → length xs < f
      → walk f next test (next a) ≡ search_in test xs
  unfolding walk
  walk-search zero a xs l av h = absurd (omega arith)
  walk-search (suc f) a [] l av h = rw l.0
  walk-search (suc f) a (x ∷ xs) l av h =
      rw (l.0, ==_ne x head av.0)
        (elim (Bool-cases (test x)) [
          | inl e ↦ rw e
          | inr e ↦ rw e (walk-search f x xs l.2 av.1 (omega arith))
        ])

-- Read from the other end, the links swap.
pub Linked-reverse :
    (next prev : ℕ → ℕ) (a z : ℕ) (xs : List ℕ)
    → Linked next prev a xs z
    → Linked prev next z (reverse xs) a
Linked-reverse next prev a z [] l = (l.1, l.0)
Linked-reverse next prev a z (x ∷ xs) l =
    rw (reverse-append (x ∷ []) xs)
      (Linked-join prev next z x a (reverse xs) [] (Linked-reverse next prev x z xs l.2) (l.1, l.0))

pub All-reverse : (P : ℕ → Type 0) (xs : List ℕ) → All P xs → All P (reverse xs)
All-reverse P [] h = tt
All-reverse P (x ∷ xs) h =
    rw (reverse-append (x ∷ []) xs)
      (All-join P (reverse xs) (x ∷ []) (All-reverse P xs h.1) (h.0, tt))

pub length-reverse : (xs : List ℕ) → length (reverse xs) ≡ length xs
length-reverse [] = refl
length-reverse (x ∷ xs) =
    rw (reverse-append (x ∷ []) xs)
      (omega (arith, length-append (reverse xs) (x ∷ []), length-reverse xs))

module _ {c : Cache} {xs : List ℕ} (r : IsRing c xs) where
  -- The walk of `bget` along `next` meets the most recently used buffers first.
  pub walk-next :
      (test : ℕ → Bool)
      → length xs ≤ nbuf
      → walk (suc nbuf) c.next test (c.next head) ≡ search_in test xs
  walk-next test h =
      walk-search c.next c.prev test (suc nbuf) head xs r.linked (below-Avoids xs r.below)
        (omega arith)

  -- The walk along `prev` meets the least recently used ones first.
  pub walk-prev :
      (test : ℕ → Bool)
      → length xs ≤ nbuf
      → walk (suc nbuf) c.prev test (c.prev head) ≡ search_in test (reverse xs)
  walk-prev test h =
      walk-search c.prev c.next test (suc nbuf) head (reverse xs)
        (Linked-reverse c.next c.prev head head xs r.linked)
        (All-reverse (λ x. x ≢ head) xs (below-Avoids xs r.below))
        (omega (arith, length-reverse xs))
