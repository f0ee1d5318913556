-- ===== src/Bio/Links.antt =====
-- The doubly linked list of riscv/kernel/bio.c as the list of its buffers.
use mathlib.Core.List.{append-nil}
use learn_xv.Prelude.{
  ℕ, ◌≡◌, ◌≢◌, ◌⊎◌, inl, inr, sym, ap, subst, ◌∙◌, List, [], ◌∷◌, ◌++◌, All, All-map, All-zip,
  All-split, All-join, update, update_self, update_ne,
}

-- From `a` the links lead through `xs` to `z`, and back.
abbrev pub Linked : (ℕ → ℕ) → (ℕ → ℕ) → ℕ → List ℕ → ℕ → Type 0
Linked next prev a [] z = (next a ≡ z) × (prev z ≡ a)
Linked next prev a (x ∷ xs) z = (next a ≡ x) × (prev x ≡ a) × Linked next prev x xs z

-- `b` is none of `xs`; no buffer occurs twice in `xs`.
abbrev pub Avoids : ℕ → List ℕ → Type 0
Avoids b = All (λ x. x ≢ b)

abbrev pub IsDistinct : List ℕ → Type 0
IsDistinct [] = Unit {0}
IsDistinct (x ∷ xs) = Avoids x xs × IsDistinct xs

-- The first of `xs`, or `z`.
abbrev pub first : List ℕ → ℕ → ℕ
first [] z = z
first (x ∷ xs) z = x

pub Avoids-sym : (a : ℕ) (xs : List ℕ) → Avoids a xs → All (λ x. a ≢ x) xs
Avoids-sym a xs = All-map (λ x h e. h (sym e)) xs

-- Parts of a list without repetition.
pub IsDistinct-split : (xs ys : List ℕ) → IsDistinct (xs ++ ys) → IsDistinct xs × IsDistinct ys
IsDistinct-split [] ys d = (tt, d)
IsDistinct-split (x ∷ xs) ys d =
    let (p, q) = IsDistinct-split xs ys d.1 in (((All-split _ xs ys d.0).0, p), q)

pub IsDistinct-apart : (xs ys : List ℕ) → IsDistinct (xs ++ ys) → All (λ y. Avoids y xs) ys
IsDistinct-apart [] ys d = All-map (λ y h. tt) ys (All-true ys)
  where
    All-true : (ys : List ℕ) → All (λ y. Unit {0}) ys
    All-true [] = tt
    All-true (y ∷ ys) = (tt, All-true ys)
IsDistinct-apart (x ∷ xs) ys d =
    All-zip (λ y h k. (λ e. h (sym e), k)) ys (All-split _ xs ys d.0).1 (IsDistinct-apart xs ys d.1)

pub IsDistinct-remove :
    (xs : List ℕ) (b : ℕ) (ys : List ℕ) → IsDistinct (xs ++ b ∷ ys) → IsDistinct (xs ++ ys)
IsDistinct-remove [] b ys d = d.1
IsDistinct-remove (x ∷ xs) b ys d =
    let (p, q) = All-split (λ y. y ≢ x) xs (b ∷ ys) d.0 in
    (All-join (λ y. y ≢ x) xs ys p q.1, IsDistinct-remove xs b ys d.1)

pub Avoids-remove :
    (xs : List ℕ) (b : ℕ) (ys : List ℕ) → IsDistinct (xs ++ b ∷ ys) → Avoids b (xs ++ ys)
Avoids-remove [] b ys d = d.0
Avoids-remove (x ∷ xs) b ys d =
    let (p, q) = All-split (λ y. y ≢ x) xs (b ∷ ys) d.0 in
    (λ e. q.0 (sym e), Avoids-remove xs b ys d.1)

abbrev pub Occurs : ℕ → List ℕ → Type 0
Occurs b [] = ⊥
Occurs b (x ∷ xs) = (x ≡ b) ⊎ Occurs b xs

pub Occurs-split :
    (b : ℕ) (xs : List ℕ) → Occurs b xs → (ys : List ℕ) × (zs : List ℕ) × (xs ≡ ys ++ b ∷ zs)
Occurs-split b [] o = absurd o
Occurs-split b (x ∷ xs) (inl e) = ([], xs, rw e)
Occurs-split b (x ∷ xs) (inr o) =
    let (ys, zs, e) = Occurs-split b xs o in (x ∷ ys, zs, ap (λ l. x ∷ l) e)

pub All-Occurs : (P : ℕ → Type 0) {b : ℕ} (xs : List ℕ) → All P xs → Occurs b xs → P b
All-Occurs P [] h o = absurd o
All-Occurs P (x ∷ xs) h (inl e) = subst P e h.0
All-Occurs P (x ∷ xs) h (inr o) = All-Occurs P xs h.1 o

-- Moving `b` to the front loses nothing.
pub Occurs-front : (a b : ℕ) (ys zs : List ℕ) → Occurs a (ys ++ b ∷ zs) → Occurs a (b ∷ ys ++ zs)
Occurs-front a b [] zs o = o
Occurs-front a b (y ∷ ys) zs (inl e) = inr (inl e)
Occurs-front a b (y ∷ ys) zs (inr o) = elim (Occurs-front a b ys zs o) [
  | inl e ↦ inl e
  | inr q ↦ inr (inr q)
]

module _ (next prev : ℕ → ℕ) where
  pub Linked-split :
      (a b z : ℕ) (ys zs : List ℕ)
      → Linked next prev a (ys ++ b ∷ zs) z
      → Linked next prev a ys b × Linked next prev b zs z
  Linked-split a b z [] zs l = ((l.0, l.1), l.2)
  Linked-split a b z (y ∷ ys) zs l = let (p, q) = Linked-split y b z ys zs l.2 in ((l.0, l.1, p), q)

  pub Linked-join :
      (a b z : ℕ) (ys zs : List ℕ)
      → Linked next prev a ys b
      → Linked next prev b zs z
      → Linked next prev a (ys ++ b ∷ zs) z
  Linked-join a b z [] zs l m = (l.0, l.1, m)
  Linked-join a b z (y ∷ ys) zs l m = (l.0, l.1, Linked-join y b z ys zs l.2 m)

  pub next-first : (a z : ℕ) (xs : List ℕ) → Linked next prev a xs z → next a ≡ first xs z
  next-first a z [] l = l.0
  next-first a z (x ∷ xs) l = l.0

  -- Links that are not followed may change.
  pub Linked-frame :
      (p n u v a z : ℕ) (xs : List ℕ)
      → Linked next prev a xs z
      → a ≢ p
      → z ≢ n
      → Avoids p xs
      → Avoids n xs
      → Linked (update next p u) (update prev n v) a xs z
  Linked-frame p n u v a z [] l ap zn avp avn =
      (update_ne next p u a ap ∙ l.0, update_ne prev n v z zn ∙ l.1)
  Linked-frame p n u v a z (x ∷ xs) l ap zn avp avn = (
    update_ne next p u a ap ∙ l.0,
    update_ne prev n v x avn.0 ∙ l.1,
    Linked-frame p n u v x z xs l.2 avp.0 zn avp.1 avn.1,
  )

  -- The last buffer before `b` is one of the chain.
  pub prev-Avoids :
      (c a b : ℕ) (ys : List ℕ) → Linked next prev a ys b → a ≢ c → Avoids c ys → prev b ≢ c
  prev-Avoids c a b [] l ne av = λ e. ne (sym l.1 ∙ e)
  prev-Avoids c a b (y ∷ ys) l ne av = prev-Avoids c y b ys l.2 av.0 av.1

  -- The end of a chain is moved from `b` to `n`.
  pub Linked-end :
      (n a b : ℕ) (ys : List ℕ)
      → Linked next prev a ys b
      → Avoids a ys
      → IsDistinct ys
      → Avoids n ys
      → Linked (update next (prev b) n) (update prev n (prev b)) a ys n
  Linked-end n a b [] l av d avn =
      (rw l.1 (update_self next a n), update_self prev n (prev b) ∙ l.1)
  Linked-end n a b (y ∷ ys) l av d avn = (
    update_ne next (prev b) n a (λ e. prev-Avoids a y b ys l.2 av.0 av.1 (sym e)) ∙ l.0,
    update_ne prev n (prev b) y avn.0 ∙ l.1,
    Linked-end n y b ys l.2 d.0 d.1 avn.1,
  )

module _ (next prev : ℕ → ℕ) where
  -- `b` is taken out of the list.
  pub Linked-unlink :
      (a b z : ℕ) (ys zs : List ℕ)
      → Linked next prev a (ys ++ b ∷ zs) z
      → IsDistinct (ys ++ b ∷ zs)
      → Avoids a (ys ++ b ∷ zs)
      → Avoids z (ys ++ b ∷ zs)
      → Linked (update next (prev b) (next b)) (update prev (next b) (prev b)) a (ys ++ zs) z
  Linked-unlink a b z ys [] l d ava avz =
      let (before, after) = Linked-split next prev a b z ys [] l in
      rw (after.0, append-nil)
        (Linked-end next prev z a b ys before (All-split _ ys (b ∷ []) ava).0
          (IsDistinct-split ys (b ∷ []) d).0 (All-split _ ys (b ∷ []) avz).0)
  Linked-unlink a b z ys (w ∷ ws) l d ava avz =
      let (before, after) = Linked-split next prev a b z ys (w ∷ ws) l in
      let (av_a, later) = All-split _ ys (b ∷ w ∷ ws) ava in
      let (d_ys, d_zs) = IsDistinct-split ys (b ∷ w ∷ ws) d in
      let apart = IsDistinct-apart ys (b ∷ w ∷ ws) d in
      let avz' = (All-split _ ys (b ∷ w ∷ ws) avz).1 in
      let last : Avoids (prev b) (w ∷ ws) =
        All-zip (λ x h k e. prev-Avoids next prev x a b ys before (λ q. h (sym q)) k (sym e))
          (w ∷ ws) later.1 apart.1 in
      rw after.0 (
        Linked-join (update next (prev b) w) (update prev w (prev b)) a w z ys ws
          (Linked-end next prev w a b ys before av_a d_ys apart.1.0)
          (Linked-frame next prev (prev b) w w (prev b) w z ws after.2 last.0
            (λ e. avz'.1.0 (sym e)) last.1 d_zs.1.0))

  -- `b` is put in behind `a`.
  pub Linked-insert :
      (a b z : ℕ) (xs : List ℕ)
      → Linked next prev a xs z
      → a ≢ b
      → z ≢ b
      → Avoids b xs
      → Avoids a xs
      → IsDistinct xs
      → Avoids z xs
      → Linked
          (update (update next b (next a)) a b)
          (update (update prev b a) (next a) b)
          a
          (b ∷ xs)
          z
  Linked-insert a b z [] l ab zb avb ava d avz = (
    update_self (update next b (next a)) a b,
    rw l.0 (update_ne (update prev b a) z b b (λ e. zb (sym e)) ∙ update_self prev b a),
    (
      update_ne (update next b (next a)) a b b (λ e. ab (sym e))
          ∙ update_self next b (next a)
          ∙ l.0,
      rw l.0 (update_self (update prev b a) z b),
    ),
  )
  Linked-insert a b z (x ∷ xs) l ab zb avb ava d avz = (
    update_self (update next b (next a)) a b,
    rw l.0 (update_ne (update prev b a) x b b (λ e. avb.0 (sym e)) ∙ update_self prev b a),
    (
      update_ne (update next b (next a)) a b b (λ e. ab (sym e))
          ∙ update_self next b (next a)
          ∙ l.0,
      rw l.0 (update_self (update prev b a) x b),
      subst (λ t. Linked (update (update next b t) a b) (update (update prev b a) t b) x xs z)
          (sym l.0)
          (Linked-frame (update next b x) (update prev b a) a x b b x z xs
            (Linked-frame next prev b b x a x z xs l.2 avb.0 zb avb.1 avb.1) ava.0
            (λ e. avz.0 (sym e)) ava.1 d.0),
    ),
  )
