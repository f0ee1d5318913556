-- ===== src/Path/Elements.antt =====
-- The elements of a path, and how skipelem of riscv/kernel/fs.c takes them off.
use learn_xv.Prelude.{
  ℕ, ◌≡◌, ◌≤◌, ◌<◌, ◌⊎◌, refl, sym, ap, ◌∙◌, inl, inr, Bool, true, false, if◌then◌else◌, ◌==◌, List,
  [], ◌∷◌, ◌++◌, append_nil, append_snoc, length, get_or, take, none, some, Bool-cases, arith,
}
use learn_xv.Path.{slash, dirsiz, is_empty, skip_slashes, take_element, after_element, skipelem}

abbrev flush : List ℕ → List (List ℕ)
flush [] = []
flush (c ∷ word) = take dirsiz (c ∷ word) ∷ []

-- The elements of `path` with `word` read before it: the longest runs without a slash, cut to DIRSIZ
-- bytes.
unfoldable pub elements_after : (word path : List ℕ) → List (List ℕ)
elements_after word [] = flush word
elements_after word (c ∷ path) =
    let cut = elements_after [] path in
    let more = elements_after (word ++ c ∷ []) path in
    if c == slash then flush word ++ cut else more

unfoldable pub elements : List ℕ → List (List ℕ)
unfolding elements_after
elements path = elements_after [] path

skip_lem : (path : List ℕ) → elements_after [] (skip_slashes path) ≡ elements_after [] path
unfolding elements_after skip_slashes
skip_lem [] = refl
skip_lem (c ∷ path) = elim (Bool-cases (c == slash)) [
  | inl e ↦ rw e (skip_lem path)
  | inr e ↦ rw e (rw e refl)
]

element_lem :
    (word path : List ℕ)
    → elements_after word path
      ≡ flush (word ++ take_element path) ++ elements_after [] (after_element path)
unfolding elements_after take_element after_element
element_lem word [] = sym (append_nil (flush (word ++ [])) ∙ ap flush (append_nil word))
element_lem word (c ∷ path) = elim (Bool-cases (c == slash)) [
  | inl e ↦ rw e (rw e (ap (λ w. flush w ++ elements_after [] path) (sym (append_nil word))))
  | inr e ↦ rw e (
      element_lem (word ++ c ∷ []) path
      ∙ ap (λ w. flush w ++ elements_after [] (after_element path))
          (append_snoc word c (take_element path)))
]

abbrev pub is_nil : List (List ℕ) → Bool
is_nil [] = true
is_nil (n ∷ ns) = false

List-cases : (l : List ℕ) → (l ≡ []) ⊎ ((c : ℕ) × (s : List ℕ) × (l ≡ c ∷ s))
List-cases [] = inl refl
List-cases (c ∷ s) = inr (c, s, refl)

first_lem :
    (c : ℕ) (s : List ℕ)
    → (c == slash) ≡ false
    → elements_after [] (c ∷ s)
      ≡ take dirsiz (take_element (c ∷ s)) ∷ elements_after [] (after_element (c ∷ s))
unfolding take_element
first_lem c s e = element_lem [] (c ∷ s) ∙ rw e refl

length-after : (path : List ℕ) → length (after_element path) ≤ length path
unfolding after_element
length-after [] = omega arith
length-after (c ∷ path) = elim (Bool-cases (c == slash)) [
  | inl e ↦ rw e (omega arith)
  | inr e ↦ rw e (omega (arith, length-after path))
]

length-skip : (path : List ℕ) → length (skip_slashes path) ≤ length path
unfolding skip_slashes
length-skip [] = omega arith
length-skip (c ∷ path) = elim (Bool-cases (c == slash)) [
  | inl e ↦ rw e (omega (arith, length-skip path))
  | inr e ↦ rw e (omega arith)
]

skip-no_slash :
    (path : List ℕ) (c : ℕ) (s : List ℕ) → skip_slashes path ≡ c ∷ s → (c == slash) ≡ false
unfolding skip_slashes
skip-no_slash [] c s e = ground (arith, ap is_empty e)
skip-no_slash (d ∷ path) c s e = elim (Bool-cases (d == slash)) [
  | inl h ↦ skip-no_slash path c s (rw h at e)
  | inr h ↦
      let cons : d ∷ path ≡ c ∷ s = rw h at e in ap (λ l. get_or l 0 d == slash) (sym cons) ∙ h
]

-- `skipelem` takes the first element off the path.
pub record Skips (path elem rest : List ℕ) : Type 0 where
  pub is_first : elements path ≡ elem ∷ elements rest
  pub shorter : length rest < length path
  pub last_iff : is_empty rest ≡ is_nil (elements rest)

last_lem : (path : List ℕ) → is_empty (skip_slashes path) ≡ is_nil (elements (skip_slashes path))
unfolding elements
last_lem path = elim (List-cases (skip_slashes path)) [
  | inl e ↦ ap is_empty e ∙ sym (ap (λ l. is_nil (elements l)) e)
  | inr (c, s, e) ↦
      ap is_empty e
      ∙ sym (ap is_nil (ap (elements_after []) e ∙ first_lem c s (skip-no_slash path c s e)))
]

skipped_at :
    (path : List ℕ) (c : ℕ) (s : List ℕ)
    → skip_slashes path ≡ c ∷ s
    → Skips path (take dirsiz (take_element (c ∷ s))) (skip_slashes (after_element (c ∷ s)))
unfolding elements after_element
skipped_at path c s e =
    let sep : (c == slash) ≡ false = skip-no_slash path c s e in
    let after : after_element (c ∷ s) ≡ after_element s = rw sep refl in
    record {
      is_first =
          sym (skip_lem path)
          ∙ ap (elements_after []) e
          ∙ first_lem c s sep
          ∙ ap (λ l. take dirsiz (take_element (c ∷ s)) ∷ l)
              (sym (skip_lem (after_element (c ∷ s))));
      shorter = omega (
        arith,
        length-skip (after_element (c ∷ s)),
        ap length after,
        length-after s,
        length-skip path,
        ap length e,
      );
      last_iff = last_lem (after_element (c ∷ s));
    }

pub skipelem_cases :
    (path : List ℕ)
    → ((skipelem path ≡ none) × (elements path ≡ []))
      ⊎ ((elem : List ℕ) × (rest : List ℕ) × (skipelem path ≡ some (elem, rest))
          × Skips path elem rest)
unfolding skipelem elements
skipelem_cases path = elim (List-cases (skip_slashes path)) [
  | inl e ↦ inl (rw (skipelem, e) refl, sym (skip_lem path) ∙ ap (elements_after []) e)
  | inr (c, s, e) ↦ inr (_, _, rw (skipelem, e) refl, skipped_at path c s e)
]
