-- ===== src/Kalloc/Chain.antt =====
-- The free list of riscv/kernel/kalloc.c in memory, as a list of pages.
use learn_xv.Prelude.{
  ℕ, ◌%◌, ◌≡◌, ◌≢◌, ◌≤◌, ◌<◌, List, [], ◌∷◌, All, All-map, All-zip, arith, update, update_ne,
}
use learn_xv.Kalloc.{pgsize, phystop, fill_page}

-- The pages that `kfree` takes.
pub record IsPage (end_ p : ℕ) : Type 0 where
  pub aligned : p % pgsize ≡ 0
  pub above : end_ ≤ p
  pub below : p < phystop

abbrev pub Avoids : ℕ → List ℕ → Type 0
Avoids p = All (λ q. q ≢ p)

abbrev pub Distinct : List ℕ → Type 0
Distinct [] = Unit
Distinct (p ∷ ps) = Avoids p ps × Distinct ps

-- The links from `r` on lead through the pages and end at 0.
abbrev pub Chain : (ℕ → ℕ) → ℕ → List ℕ → Type 0
Chain word r [] = r ≡ 0
Chain word r (p ∷ ps) = (r ≡ p) × Chain word (word p) ps

pub Chain-frame :
    (word word' : ℕ → ℕ) (r : ℕ) (ps : List ℕ)
    → All (λ p. word' p ≡ word p) ps
    → Chain word r ps
    → Chain word' r ps
Chain-frame word word' r [] f c = c
Chain-frame word word' r (p ∷ ps) f c = (c.0, Chain-frame word word' (word' p) ps f.1 (rw f.0 c.1))

pub fill-other :
    (pa c : ℕ) (word : ℕ → ℕ) (q : ℕ)
    → pa % pgsize ≡ 0
    → q % pgsize ≡ 0
    → q ≢ pa
    → fill_page pa c word q ≡ word q
unfolding fill_page
fill-other pa c word q a b h = ground arith

-- A fill of a page leaves a chain that avoids it.
pub Chain-fill :
    (end_ pa c r : ℕ) (word : ℕ → ℕ) (ps : List ℕ)
    → pa % pgsize ≡ 0
    → All (IsPage end_) ps
    → Avoids pa ps
    → Chain word r ps
    → Chain (fill_page pa c word) r ps
Chain-fill end_ pa c r word ps a pages away =
    Chain-frame word (fill_page pa c word) r ps
      (All-zip (λ q page h. fill-other pa c word q a page.aligned h) ps pages away)

pub Chain-store :
    (pa v r : ℕ) (word : ℕ → ℕ) (ps : List ℕ)
    → Avoids pa ps
    → Chain word r ps
    → Chain (update word pa v) r ps
Chain-store pa v r word ps away =
    Chain-frame word (update word pa v) r ps (All-map (λ q h. update_ne word pa v q h) ps away)
