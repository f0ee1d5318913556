-- ===== src/Grep/Examples.antt =====
-- Runs of the matcher of riscv/user/grep.c.
use learn_xv.Prelude.{ℕ, ◌≡◌, ◌↔◌, true, List, [], ◌∷◌}
use learn_xv.Grep.{dot, star, dollar, match_line}
use learn_xv.Grep.Items.{Occurs}
use learn_xv.Grep.Match.{match_line-Occurs}

-- "b.*$" in "abc".
abbrev pattern_text : List ℕ
pattern_text = 98 ∷ dot ∷ star ∷ dollar ∷ []

abbrev line : List ℕ
line = 97 ∷ 98 ∷ 99 ∷ []

match_line-Occurs_example : (match_line pattern_text line ≡ true) ↔ Occurs pattern_text line
match_line-Occurs_example = match_line-Occurs pattern_text line
