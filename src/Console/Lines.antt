-- ===== src/Console/Lines.antt =====
-- What the ring of riscv/kernel/console.c holds: the input that a reader can have, and the line
-- that is still edited.
use learn_xv.Prelude.{
  ℕ, ◌+◌, ◌-◌, ◌%◌, ◌^◌, ◌≢◌, ◌≤◌, ◌<◌, List, [], ◌∷◌, ◌++◌, All, length, ring, arith, sub32,
  if◌then◌else◌, ◌==◌, ltb, not, ◌&&◌, ◌||◌,
}
use learn_xv.Console.{Console, input_buf_size, ctrl}

abbrev pub slot : ℕ → ℕ
slot i = i % input_buf_size

pub slot-apart : (i j : ℕ) → i < j → j < i + input_buf_size → slot i ≢ slot j
slot-apart i j h g e = omega (arith, e, h, g)

-- The numbers of characters from the read index to the write index and to the edit index.
abbrev pub ready : Console → ℕ
ready k = sub32 k.w k.r

abbrev pub total : Console → ℕ
total k = sub32 k.e k.r

pub record Lines : Type 0 where
  pub committed : List ℕ
  pub editing : List ℕ

unfoldable pub view : Console → Lines
view k = record {
  committed = ring slot k.buf k.r (ready k);
  editing = ring slot k.buf (k.r + ready k) (total k - ready k);
}

-- The line that is edited has no end of line.
pub record Valid (k : Console) : Type 0 where
  pub r : k.r < 2 ^ 32
  pub w : k.w < 2 ^ 32
  pub e : k.e < 2 ^ 32
  pub order : ready k ≤ total k
  pub fits : total k ≤ input_buf_size
  pub unfinished : All (λ c. c ≢ 10) (view k).editing

abbrev pub drop_last : List ℕ → List ℕ
drop_last [] = []
drop_last (x ∷ []) = []
drop_last (x ∷ y ∷ xs) = x ∷ drop_last (y ∷ xs)

-- The effect of a character: `^U` drops the line, `^H` and DEL its last character; another one is
-- added if there is room, and ends the line if it is a newline or `^D`, or if the buffer is full.
abbrev pub edit : ℕ → Lines → Lines
edit c l =
    if c == ctrl 80
    then l
    else if c == ctrl 85
    then record l { editing = [] }
    else if (c == ctrl 72) || (c == 0x7f)
    then record l { editing = drop_last l.editing }
    else if not (c == 0) && ltb (length l.committed + length l.editing) input_buf_size
    then (let x = if c == 13 then 10 else c in
        let line = l.editing ++ x ∷ [] in
        if (x == 10) || (x == ctrl 68) || (length l.committed + length line == input_buf_size)
        then record { committed = l.committed ++ line; editing = [] }
        else record l { editing = line })
    else l
