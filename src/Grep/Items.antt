-- ===== src/Grep/Items.antt =====
-- What the patterns of riscv/user/grep.c stand for.
use learn_xv.Prelude.{ℕ, ◌≡◌, Bool, true, false, if◌then◌else◌, ◌==◌, ◌||◌, List, [], ◌∷◌, ◌++◌}
use learn_xv.Grep.{caret, dot, star, dollar}

-- A character, where `.` stands for any, once or any number of times.
pub data Item : Type 0 where
  once : ℕ → Item
  any : ℕ → Item

abbrev pub fits : ℕ → ℕ → Bool
fits c x = (c == dot) || (c == x)

-- A pattern less its `^`: its items, and whether it ends in `$`.
pub record Pattern : Type 0 where
  pub items : List Item
  pub to_end : Bool

abbrev pub add : Item → Pattern → Pattern
add i p = record p { items = i ∷ p.items }

unfoldable pub parse : List ℕ → Pattern
parse [] = record { items = []; to_end = false }
parse (c ∷ []) =
    if c == dollar
    then record { items = []; to_end = true }
    else record { items = once c ∷ []; to_end = false }
parse (c ∷ d ∷ re) =
    let starred = parse re in
    let plain = parse (d ∷ re) in if d == star then add (any c) starred else add (once c) plain

-- The string that the items stand for, one after the other.
pub data Spells : List Item → List ℕ → Type 0 where
  nothing : Spells [] []
  next :
      {c x : ℕ} {is : List Item} {s : List ℕ}
      → fits c x ≡ true
      → Spells is s
      → Spells (once c ∷ is) (x ∷ s)
  no_more : {c : ℕ} {is : List Item} {s : List ℕ} → Spells is s → Spells (any c ∷ is) s
  one_more :
      {c x : ℕ} {is : List Item} {s : List ℕ}
      → fits c x ≡ true
      → Spells (any c ∷ is) s
      → Spells (any c ∷ is) (x ∷ s)

-- The text begins with what the pattern stands for, and ends there if it says so.
pub record Begins (p : Pattern) (text : List ℕ) : Type 0 where
  pub part : List ℕ
  pub rest : List ℕ
  pub splits : text ≡ part ++ rest
  pub spelled : Spells p.items part
  pub at_end : p.to_end ≡ true → rest ≡ []

pub record Somewhere (p : Pattern) (text : List ℕ) : Type 0 where
  pub before : List ℕ
  pub after : List ℕ
  pub cut : text ≡ before ++ after
  pub begins : Begins p after

-- It stands somewhere in the text, or at its beginning after a `^`.
abbrev pub Occurs : List ℕ → List ℕ → Type 0
Occurs [] text = Somewhere (parse []) text
Occurs (c ∷ re) text =
    if c == caret then Begins (parse re) text else Somewhere (parse (c ∷ re)) text
