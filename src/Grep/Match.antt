-- ===== src/Grep/Match.antt =====
-- The matcher of riscv/user/grep.c against what its patterns stand for.
use learn_xv.Prelude.{
  ℕ, ◌≡◌, ◌↔◌, refl, ap, ◌∙◌, inl, inr, Bool, true, false, ◌==◌, ◌||◌, List, [], ◌∷◌, ◌++◌,
  Bool-cases, arith,
}
use learn_xv.Grep.{
  caret, dot, star, dollar, matchstar, matchone, is_end, matchhere, match_from, match_line,
}
use learn_xv.Grep.Items.{
  once, any, fits, Pattern, add, parse, Spells, nothing, next, no_more, one_more, Begins, Somewhere,
  Occurs,
}

-- `here` finds the pattern at the beginning of each text that begins with it.
abbrev Finds : (List ℕ → Bool) → Pattern → Type 0
Finds here p = (text : List ℕ) → (here text ≡ true) ↔ Begins p text

abbrev empty : Bool → Pattern
empty b = record { items = []; to_end = b }

empty-Finds : Finds (λ text. true) (empty false)
empty-Finds text = (
  λ e. record {
    part = [];
    rest = text;
    splits = refl;
    spelled = nothing;
    at_end = λ n. ground (arith, n);
  },
  λ b. refl,
)

end_text :
    (part rest text : List ℕ)
    → Spells [] part
    → text ≡ part ++ rest
    → rest ≡ []
    → is_end text ≡ true
end_text part rest text nothing e z = ap is_end (e ∙ z)

end-Finds : Finds is_end (empty true)
end-Finds text = (
  λ e. record {
    part = [];
    rest = [];
    splits = ended text e;
    spelled = nothing;
    at_end = λ n. refl;
  },
  λ b. end_text b.part b.rest text b.spelled b.splits (b.at_end refl),
)
  where
    ended : (text : List ℕ) → is_end text ≡ true → text ≡ []
    ended [] e = refl
    ended (x ∷ t) e = ground (arith, e)

module _ (c : ℕ) (here : List ℕ → Bool) (p : Pattern) (finds : Finds here p) where
  matchone-Begins : (text : List ℕ) → matchone c here text ≡ true → Begins (add (once c) p) text
  unfolding matchone
  matchone-Begins [] e = ground (arith, e)
  matchone-Begins (x ∷ text) e = elim (Bool-cases (fits c x)) [
    | inl f ↦
        let b = (finds text).0 (rw f at e) in
        record {
          part = x ∷ b.part;
          rest = b.rest;
          splits = ap (λ l. x ∷ l) b.splits;
          spelled = next f b.spelled;
          at_end = b.at_end;
        }
    | inr f ↦ ground (arith, rw f at e)
  ]

  matchone-here :
      (part rest text : List ℕ)
      → Spells (once c ∷ p.items) part
      → text ≡ part ++ rest
      → (p.to_end ≡ true → rest ≡ [])
      → matchone c here text ≡ true
  unfolding matchone
  matchone-here part rest text (next {c} {x} {is} {s} f sp) e z =
      ap (matchone c here) e
      ∙ rw f (
          (finds (s ++ rest)).1
            (record { part = s; rest = rest; splits = refl; spelled = sp; at_end = z }))

  matchone-Finds : Finds (matchone c here) (add (once c) p)
  matchone-Finds text =
      (matchone-Begins text, λ b. matchone-here b.part b.rest text b.spelled b.splits b.at_end)

  skipped : (text : List ℕ) → Begins p text → Begins (add (any c) p) text
  skipped text b = record {
    part = b.part;
    rest = b.rest;
    splits = b.splits;
    spelled = no_more b.spelled;
    at_end = b.at_end;
  }

  matchstar-Begins : (text : List ℕ) → matchstar c here text ≡ true → Begins (add (any c) p) text
  unfolding matchstar
  matchstar-Begins [] e = skipped [] ((finds []).0 e)
  matchstar-Begins (x ∷ text) e = elim (Bool-cases (here (x ∷ text))) [
    | inl h ↦ skipped (x ∷ text) ((finds (x ∷ text)).0 h)
    | inr h ↦ elim (Bool-cases (x == c || (c == dot))) [
      | inl f ↦
          let b = matchstar-Begins text (rw (h, f) at e) in
          record {
            part = x ∷ b.part;
            rest = b.rest;
            splits = ap (λ l. x ∷ l) b.splits;
            spelled = one_more (ground (arith, f)) b.spelled;
            at_end = b.at_end;
          }
      | inr f ↦ ground (arith, rw (h, f) at e)
    ]
  ]

  matchstar-now : (text : List ℕ) → here text ≡ true → matchstar c here text ≡ true
  unfolding matchstar
  matchstar-now [] h = h
  matchstar-now (x ∷ text) h = rw h refl

  matchstar-here :
      (rest : List ℕ) (ended : p.to_end ≡ true → rest ≡ []) (part : List ℕ)
      → Spells (any c ∷ p.items) part
      → matchstar c here (part ++ rest) ≡ true
  unfolding matchstar
  matchstar-here rest ended part (no_more sp) = matchstar-now (part ++ rest) (
      (finds (part ++ rest)).1
        (record { part = part; rest = rest; splits = refl; spelled = sp; at_end = ended }))
  matchstar-here rest ended part (one_more {x} {s} f sp) =
      elim (Bool-cases (here (x ∷ (s ++ rest)))) [
        | inl h ↦ rw h refl
        | inr h ↦
            let g : (x == c || (c == dot)) ≡ true = ground (arith, f) in
            rw (h, g) (matchstar-here rest ended s sp)
      ]

  matchstar-Finds : Finds (matchstar c here) (add (any c) p)
  matchstar-Finds text = (
    matchstar-Begins text,
    λ b. ap (matchstar c here) b.splits ∙ matchstar-here b.rest b.at_end b.part b.spelled,
  )

matchhere-Finds : (re : List ℕ) → Finds (matchhere re) (parse re)
unfolding matchhere parse
matchhere-Finds [] = empty-Finds
matchhere-Finds (c ∷ []) = elim (Bool-cases (c == dollar)) [
  | inl e ↦ λ text. rw e (end-Finds text)
  | inr e ↦ λ text. rw e (matchone-Finds c (matchhere []) (empty false) empty-Finds text)
]
matchhere-Finds (c ∷ d ∷ re) = elim (Bool-cases (d == star)) [
  | inl e ↦ λ text. rw e (matchstar-Finds c (matchhere re) (parse re) (matchhere-Finds re) text)
  | inr e ↦ λ text.
      rw e (matchone-Finds c (matchhere (d ∷ re)) (parse (d ∷ re)) (matchhere-Finds (d ∷ re)) text)
]

module _ (here : List ℕ → Bool) (p : Pattern) (finds : Finds here p) where
  match_from-Somewhere : (text : List ℕ) → match_from here text ≡ true → Somewhere p text
  unfolding match_from
  match_from-Somewhere [] e = record {
    before = [];
    after = [];
    cut = refl;
    begins = (finds []).0 e;
  }
  match_from-Somewhere (x ∷ text) e = elim (Bool-cases (here (x ∷ text))) [
    | inl h ↦ record { before = []; after = x ∷ text; cut = refl; begins = (finds (x ∷ text)).0 h }
    | inr h ↦
        let s = match_from-Somewhere text (rw h at e) in
        record {
          before = x ∷ s.before;
          after = s.after;
          cut = ap (λ l. x ∷ l) s.cut;
          begins = s.begins;
        }
  ]

  here-first : (text : List ℕ) → here text ≡ true → match_from here text ≡ true
  unfolding match_from
  here-first [] h = h
  here-first (x ∷ text) h = rw h refl

  match_from-here :
      (before after : List ℕ) → Begins p after → match_from here (before ++ after) ≡ true
  unfolding match_from
  match_from-here [] after b = here-first after ((finds after).1 b)
  match_from-here (x ∷ before) after b = elim (Bool-cases (here (x ∷ (before ++ after)))) [
    | inl h ↦ rw h refl
    | inr h ↦ rw h (match_from-here before after b)
  ]

  match_from-Finds : (text : List ℕ) → (match_from here text ≡ true) ↔ Somewhere p text
  match_from-Finds text = (
    match_from-Somewhere text,
    λ s. ap (match_from here) s.cut ∙ match_from-here s.before s.after s.begins,
  )

-- `match` finds a pattern in a line just where the line contains a string that the pattern stands
-- for: its characters and `.`, each once or with `*` any number of times, at the beginning of the
-- line after `^` and at its end before `$`.
pub match_line-Occurs : (re text : List ℕ) → (match_line re text ≡ true) ↔ Occurs re text
unfolding match_line
match_line-Occurs [] text = match_from-Finds (matchhere []) (parse []) (matchhere-Finds []) text
match_line-Occurs (c ∷ re) text = elim (Bool-cases (c == caret)) [
  | inl e ↦ rw e (matchhere-Finds re text)
  | inr e ↦
      rw e (match_from-Finds (matchhere (c ∷ re)) (parse (c ∷ re)) (matchhere-Finds (c ∷ re)) text)
]
