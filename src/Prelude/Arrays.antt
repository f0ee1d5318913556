-- ===== src/Prelude/Arrays.antt =====
-- Arrays and maps as functions of the index, and the stores into them.
use Prim.Native.Nat.{ℕ}
use mathlib.Core.Path.{◌≡◌}
use mathlib.Core.Logic.{◌≢◌}
use learn_xv.Prelude.Tests.{◌==◌, if◌then◌else◌, ==_self, ==_ne}

abbrev pub update {ℓ} : {A : Type ℓ} → (ℕ → A) → ℕ → A → ℕ → A
update f i v j = if j == i then v else f j

module _ {ℓ} {A : Type ℓ} (f : ℕ → A) (i : ℕ) (v : A) where
  pub update_self : update f i v i ≡ v
  update_self = rw (==_self i)

  pub update_ne : (j : ℕ) → j ≢ i → update f i v j ≡ f j
  update_ne j h = rw (==_ne j i h)
