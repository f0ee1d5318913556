-- ===== src/Prelude/Rings.antt =====
-- A ring buffer: an array whose entry for the counter `i` is at `slot i`.
use Prim.Native.Nat.{ℕ, zero, suc, ◌+◌, ◌≤◌, ◌<◌}
use mathlib.Core.Path.{◌≡◌, refl, ap, ap₂, ◌∙◌}
use mathlib.Core.Logic.{◌≢◌}
use mathlib.Core.List.{List, [], ◌∷◌, ◌++◌}
use native.Mathlib.Omega.{arith}
use learn_xv.Prelude.Lists.{length}
use learn_xv.Prelude.Arrays.{update, update_ne}

module _ {ℓ} {A : Type ℓ} (slot : ℕ → ℕ) where
  -- The `count` entries from counter `r` on.
  unfoldable pub ring : (ℕ → A) → (r count : ℕ) → List A
  ring f r zero = []
  ring f r (suc k) = f (slot r) ∷ ring f (r + 1) k

  pub length-ring : (f : ℕ → A) (r k : ℕ) → length (ring f r k) ≡ k
  unfolding ring
  length-ring f r zero = refl
  length-ring f r (suc k) = ap suc (length-ring f (r + 1) k)

  pub ring_append : (f : ℕ → A) (r j k : ℕ) → ring f r (j + k) ≡ ring f r j ++ ring f (r + j) k
  unfolding ring
  ring_append f r zero k = ap₂ (ring f) {y = r + 0} (omega arith) (omega arith)
  ring_append f r (suc j) k =
      ap (ring f r) {y = suc (j + k)} (omega arith)
      ∙ ap (λ xs. f (slot r) ∷ xs)
          (ring_append f (r + 1) j k
            ∙ ap (λ i. ring f (r + 1) j ++ ring f i k) {y = r + suc j} (omega arith))

  pub ring_snoc : (f : ℕ → A) (r k : ℕ) → ring f r (suc k) ≡ ring f r k ++ f (slot (r + k)) ∷ []
  unfolding ring
  ring_snoc f r k = ap (ring f r) {x = suc k} {y = k + 1} (omega arith) ∙ ring_append f r k 1

  -- The ring starts over where the slots do.
  pub ring_shift :
      (f : ℕ → A) (r s k : ℕ) → ((j : ℕ) → slot (r + j) ≡ slot (s + j)) → ring f r k ≡ ring f s k
  unfolding ring
  ring_shift f r s zero same = refl
  ring_shift f r s (suc k) same =
      ap₂ (λ x xs. f x ∷ xs)
        (ap slot {y = r + 0} (omega arith) ∙ same 0 ∙ ap slot {x = s + 0} (omega arith))
        (ring_shift f (r + 1) (s + 1) k (λ j.
          ap slot {y = r + (j + 1)} (omega arith)
          ∙ same (j + 1)
          ∙ ap slot {x = s + (j + 1)} (omega arith)))

  -- A store ahead of the entries that the ring holds leaves them.
  pub ring-update :
      (size : ℕ)
      → ((i j : ℕ) → i < j → j < i + size → slot i ≢ slot j)
      → (f : ℕ → A) (w : ℕ) (v : A) (r k : ℕ) → r + k ≤ w
      → w < r + size
      → ring (update f (slot w) v) r k ≡ ring f r k
  unfolding ring
  ring-update size apart f w v r zero h g = refl
  ring-update size apart f w v r (suc k) h g =
      ap₂ (λ x xs. x ∷ xs) (update_ne f (slot w) v (slot r) (apart r w (omega (arith, h)) g))
        (ring-update size apart f w v (r + 1) k (omega (arith, h)) (omega (arith, g)))
