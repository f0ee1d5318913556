-- ===== src/Prelude/Commands.antt =====
-- Kernel code over a state: it returns with a new state, it stops the machine by `panic`, or the
-- process sleeps, and looks again when it is woken.

use mathlib.Core.Path.{subst}
use mathlib.Core.Logic.{◌≢◌}

pub data Run (S A : Type 0) : Type 0 where
  ok : A → S → Run S A
  panic : Run S A
  sleeps : S → Run S A

abbrev pub Cmd : Type 0 → Type 0 → Type 0
Cmd S A = S → Run S A

module _ {S : Type 0} where
  abbrev pub pure : {A : Type 0} → A → Cmd S A
  pure a s = ok a s

  abbrev pub and_then : {A B : Type 0} → Run S A → (A → Cmd S B) → Run S B
  and_then (ok a s) k = k a s
  and_then panic k = panic
  and_then (sleeps s) k = sleeps s

  infixl 5 ◌>>=◌ ◌>>◌
  abbrev pub ◌>>=◌ : {A B : Type 0} → Cmd S A → (A → Cmd S B) → Cmd S B
  ◌>>=◌ m k s = and_then (m s) k

  abbrev pub ◌>>◌ : {A B : Type 0} → Cmd S A → Cmd S B → Cmd S B
  m >> k = m >>= λ _. k

  abbrev pub modify : (S → S) → Cmd S (Unit {0})
  modify f s = ok tt (f s)

-- The command returns, and `p` holds of its result and its new state.
abbrev pub Ends : {S A : Type 0} → (A → S → Type 0) → Run S A → Type 0
Ends p (ok a s) = p a s
Ends p panic = ⊥
Ends p (sleeps s) = ⊥

pub Ends-map :
    {S A : Type 0} {p q : A → S → Type 0}
    → ((a : A) (s : S) → p a s → q a s)
    → (r : Run S A) → Ends p r
    → Ends q r
Ends-map f (ok a s) h = f a s h
Ends-map f panic h = h
Ends-map f (sleeps s) h = h

pub Ends-panic : {S A : Type 0} (p : A → S → Type 0) (r : Run S A) → Ends p r → r ≢ panic
Ends-panic p r h e = subst (Ends p) e h

pub Ends-and_then :
    {S A B : Type 0} (p : A → S → Type 0) (q : B → S → Type 0) (r : Run S A) (f : A → Cmd S B)
    → ((a : A) (s : S) → p a s → Ends q (f a s))
    → Ends p r
    → Ends q (and_then r f)
Ends-and_then p q (ok a s) f h e = h a s e
Ends-and_then p q panic f h e = elim e [ ]
Ends-and_then p q (sleeps s) f h e = elim e [ ]

-- `p` holds of the new state, whether the command returns or the process sleeps.
abbrev pub After : {S A : Type 0} → (S → Type 0) → Run S A → Type 0
After p (ok a s) = p s
After p panic = Unit
After p (sleeps s) = p s

-- What holds after the command ends, also where the next one does not return.
pub Ends-then :
    {S A B : Type 0} (p : A → S → Type 0) (q : Run S B → Type 0) (r : Run S A) (f : A → Cmd S B)
    → ((a : A) (s : S) → p a s → q (f a s))
    → Ends p r
    → q (and_then r f)
Ends-then p q (ok a s) f h e = h a s e
Ends-then p q panic f h e = elim e [ ]
Ends-then p q (sleeps s) f h e = elim e [ ]
