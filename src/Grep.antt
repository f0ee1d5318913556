-- ===== src/Grep.antt =====
-- riscv/user/grep.c: the matcher. A string is the list of its characters before the NUL.
mod Examples
pub mod Items
pub mod Match
use learn_xv.Prelude.{ℕ, Bool, true, false, if◌then◌else◌, ◌==◌, ◌&&◌, ◌||◌, List, [], ◌∷◌}

abbrev pub caret : ℕ
caret = 94

abbrev pub dot : ℕ
dot = 46

abbrev pub star : ℕ
star = 42

abbrev pub dollar : ℕ
dollar = 36

-- `matchhere(re, text)` is `here text`.
unfoldable pub matchstar : (ℕ → (List ℕ → Bool) → List ℕ → Bool)
matchstar c here [] = here []
matchstar c here (x ∷ text) =
    let rest = matchstar c here text in
    if here (x ∷ text) then true else if x == c || (c == dot) then rest else false

-- The character `c` at the beginning, and the rest of the pattern after it.
unfoldable pub matchone : ℕ → (List ℕ → Bool) → List ℕ → Bool
matchone c here [] = false
matchone c here (x ∷ text) = if c == dot || (c == x) then here text else false

abbrev pub is_end : List ℕ → Bool
is_end [] = true
is_end (x ∷ text) = false

unfoldable pub matchhere : List ℕ → List ℕ → Bool
unfolding matchstar matchone
matchhere [] text = true
matchhere (c ∷ []) text = if c == dollar then is_end text else matchone c (matchhere []) text
matchhere (c ∷ d ∷ re) text =
    if d == star then matchstar c (matchhere re) text else matchone c (matchhere (d ∷ re)) text

-- The loop of `match`.
unfoldable pub match_from : (List ℕ → Bool) → List ℕ → Bool
match_from here [] = here []
match_from here (x ∷ text) =
    let rest = match_from here text in if here (x ∷ text) then true else rest

unfoldable pub match_line : List ℕ → List ℕ → Bool
unfolding matchhere match_from
match_line [] text = match_from (matchhere []) text
match_line (c ∷ re) text =
    if c == caret then matchhere re text else match_from (matchhere (c ∷ re)) text
