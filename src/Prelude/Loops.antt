-- ===== src/Prelude/Loops.antt =====
-- Counted loops.
use Prim.Native.Nat.{ℕ, zero, suc, ◌+◌, ◌<◌}
use mathlib.Core.Path.{◌≡◌, subst}
use native.Mathlib.Omega.{arith}

module _ {ℓ} {S : Type ℓ} (body : ℕ → S → S) where
  -- `rounds` rounds of `body`, the first one with the counter at `k`.
  unfoldable pub for_loop : (k rounds : ℕ) → S → S
  for_loop k zero state = state
  for_loop k (suc left) state = for_loop (k + 1) left (body k state)

  module _ {κ} (P : ℕ → S → Type κ) (end : ℕ)
      (step : (k : ℕ) (state : S) → k < end → P k state → P (suc k) (body k state)) where
    from : (left k : ℕ) (state : S) → left + k ≡ end → P k state → P end (for_loop k left state)
    unfolding for_loop
    from zero k state e p = subst (λ j. P j state) (omega arith) p
    from (suc left) k state e p =
        from left (k + 1) (body k state) (omega arith)
          (subst (λ j. P j (body k state)) (omega arith) (step k state (omega arith) p))

    -- What each round carries on holds after the last one.
    pub for_loop_inv : (state : S) → P 0 state → P end (for_loop 0 end state)
    for_loop_inv state = from end 0 state (omega arith)
