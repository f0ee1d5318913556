-- ===== src/String/Examples.antt =====
-- Runs of riscv/kernel/string.c.
use learn_xv.Prelude.{ℕ, zero, suc, All, ◌^◌, ◌≡◌, ◌↔◌, ◌<◌, inl, arith, List, [], ◌∷◌, get_or}
use learn_xv.String.{Memory, memmove, strncmp, strncpy, safestrcpy}
use learn_xv.String.Move.{moved, memmove-moved}
use learn_xv.String.Compare.{Bytes, Agree, strncmp-Agree}
use learn_xv.String.Copy.{Terminated, safestrcpy-Terminated}
use learn_xv.String.Pad.{Padded, strncpy-Padded}

-- "abc" at 0, NULs after it.
abbrev text : Memory
text a = get_or (97 ∷ 98 ∷ 99 ∷ []) a 0

get_or-below : (b : ℕ) (xs : List ℕ) (a : ℕ) → 0 < b → All (λ x. x < b) xs → get_or xs a 0 < b
get_or-below b [] a h l = h
get_or-below b (x ∷ xs) zero h l = l.0
get_or-below b (x ∷ xs) (suc a) h l = get_or-below b xs a h l.1

text-Bytes : Bytes text
text-Bytes a =
    get_or-below (2 ^ 8) (97 ∷ 98 ∷ 99 ∷ []) a (omega arith)
      (omega arith, (omega arith, (omega arith, tt)))

memmove-moved_example : memmove 1 0 3 text 2 ≡ moved 1 0 3 text 2
memmove-moved_example = memmove-moved 1 0 3 text 2

safestrcpy-Terminated_example : Terminated text (safestrcpy 10 0 3 text) 10 0 3
safestrcpy-Terminated_example =
    safestrcpy-Terminated 3 10 0 text (omega arith) (omega arith) (inl (omega arith))

strncpy-Padded_example : Padded text (strncpy 10 0 5 text) 10 0 5
strncpy-Padded_example = strncpy-Padded 5 10 0 text (omega arith) (inl (omega arith))

strncmp-Agree_example : (strncmp 0 1 4 text ≡ 0) ↔ Agree 0 1 4 text
strncmp-Agree_example = strncmp-Agree 0 1 4 text text-Bytes
