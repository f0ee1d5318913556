-- ===== src/Console/Examples.antt =====
-- Runs of riscv/kernel/console.c.
use learn_xv.Prelude.{◌≡◌, refl, [], ◌∷◌, true, false, arith, ring, get_or, update}
use learn_xv.Console.{Console, consoleintr, consoleread, ctrl}
use learn_xv.Console.Lines.{view, Valid, edit}
use learn_xv.Console.Input.{consoleintr-edit}
use learn_xv.Console.Read.{Returns, deliver, consoleread-line}

-- "ab" and a newline are committed, "cd" is edited.
abbrev typed : Console
typed = record {
  buf = λ i. get_or (97 ∷ 98 ∷ 10 ∷ 99 ∷ 100 ∷ []) i 0;
  r = 0;
  w = 3;
  e = 5;
  out = [];
}

typed-Valid : Valid typed
unfolding view ring
typed-Valid = record {
  r = omega arith;
  w = omega arith;
  e = omega arith;
  order = omega arith;
  fits = omega arith;
  unfinished = ((λ e. omega (arith, e)), ((λ e. omega (arith, e)), tt));
}

consoleintr-edit_example :
    Valid (consoleintr (ctrl 85) typed)
    × (view (consoleintr (ctrl 85) typed) ≡ edit (ctrl 85) (view typed))
consoleintr-edit_example = consoleintr-edit (ctrl 85) typed typed-Valid

typed-committed : (view typed).committed ≡ 97 ∷ 98 ∷ 10 ∷ []
unfolding view ring
typed-committed = refl

consoleread-line_example :
    Returns
      (consoleread false (λ a. true) 40 20 (λ a. 0) typed)
      3
      (update (deliver 40 (97 ∷ 98 ∷ []) (λ a. 0)) 42 10)
      (record { committed = []; editing = (view typed).editing })
consoleread-line_example =
    consoleread-line false (λ a. true) (97 ∷ 98 ∷ []) [] 20 40 (λ a. 0) typed (λ a. refl)
      typed-Valid
      (
        ((λ e. omega (arith, e)), (λ e. omega (arith, e))),
        (((λ e. omega (arith, e)), (λ e. omega (arith, e))), tt),
      )
      typed-committed (omega arith) (omega arith)
