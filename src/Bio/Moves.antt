-- ===== src/Bio/Moves.antt =====
-- `binit` and `brelse` of riscv/kernel/bio.c on the ring of buffers.
use learn_xv.Prelude.{
  ℕ, zero, suc, ◌≤◌, ◌<◌, ◌≢◌, inl, inr, sym, subst, ◌∙◌, arith, List, [], ◌∷◌, ◌++◌, All,
  All-split, All-join, All-map, Bool-cases, ◌==◌, sub32, update, update_self, update_ne,
  for_loop_inv, if◌then◌else◌,
}
use learn_xv.Bio.{Buf, Cache, nbuf, head, push_front, unlink, init_buf, binit, set_buf, drop_ref}
use learn_xv.Bio.Links.{
  Linked, Avoids, Linked-split, Linked-unlink, Linked-insert, IsDistinct-split, IsDistinct-remove,
  Avoids-remove,
}
use learn_xv.Bio.Order.{IsRing, below-Avoids}

pub push_front-IsRing :
    (b : ℕ) (c : Cache) (xs : List ℕ)
    → IsRing c xs
    → b < nbuf
    → Avoids b xs
    → IsRing (push_front b c) (b ∷ xs)
unfolding push_front
push_front-IsRing b c xs r h av = record {
  linked =
      subst
        (λ t.
          Linked (update (update c.next b (c.next head)) head b) (update (update c.prev b head) t b)
            head (b ∷ xs) head)
        (sym (update_ne c.next b (c.next head) head (omega arith)))
        (Linked-insert c.next c.prev head b head xs r.linked (omega arith) (omega arith) av
          (below-Avoids xs r.below) r.distinct (below-Avoids xs r.below));
  distinct = (av, r.distinct);
  below = (h, r.below);
}

-- The buffer behind `b` is another one.
next_ne : (c : Cache) (ys : List ℕ) (b : ℕ) (zs : List ℕ) → IsRing c (ys ++ b ∷ zs) → c.next b ≢ b
next_ne c ys b [] r e =
    let (p, l) = Linked-split c.next c.prev head b head ys [] r.linked in
    omega (arith, (All-split (λ x. x < nbuf) ys (b ∷ []) r.below).1.0, l.0)
next_ne c ys b (z ∷ zs) r e =
    let (p, l) = Linked-split c.next c.prev head b head ys (z ∷ zs) r.linked in
    (IsDistinct-split ys (b ∷ z ∷ zs) r.distinct).1.0.0 (sym l.0 ∙ e)

pub unlink-IsRing :
    (c : Cache) (ys : List ℕ) (b : ℕ) (zs : List ℕ)
    → IsRing c (ys ++ b ∷ zs)
    → IsRing (unlink b c) (ys ++ zs)
unfolding unlink
unlink-IsRing c ys b zs r = record {
  linked =
      subst
        (λ t.
          Linked (update c.next t (c.next b)) (update c.prev (c.next b) (c.prev b)) head (ys ++ zs)
            head)
        (sym (update_ne c.prev (c.next b) (c.prev b) b (λ e. next_ne c ys b zs r (sym e))))
        (Linked-unlink c.next c.prev head b head ys zs r.linked r.distinct
          (below-Avoids (ys ++ b ∷ zs) r.below) (below-Avoids (ys ++ b ∷ zs) r.below));
  distinct = IsDistinct-remove ys b zs r.distinct;
  below =
      let (p, q) = All-split (λ x. x < nbuf) ys (b ∷ zs) r.below in
      All-join (λ x. x < nbuf) ys zs p q.1;
}

pub set_buf-IsRing :
    (b : ℕ) (x : Buf) {c : Cache} {xs : List ℕ} → IsRing c xs → IsRing (set_buf b x c) xs
set_buf-IsRing b x r = record { linked = r.linked; distinct = r.distinct; below = r.below }

-- What the release of `b` makes of the order: the last reference moves the buffer to the front.
pub drop_ref-IsRing :
    (c : Cache) (ys : List ℕ) (b : ℕ) (zs : List ℕ)
    → IsRing c (ys ++ b ∷ zs)
    → IsRing (drop_ref b c) (if sub32 (c.buf b).refcnt 1 == 0 then b ∷ ys ++ zs else ys ++ b ∷ zs)
unfolding drop_ref
drop_ref-IsRing c ys b zs r = elim (Bool-cases (sub32 (c.buf b).refcnt 1 == 0)) [
  | inl e ↦ rw e (
      let d = set_buf b (record (c.buf b) { refcnt = sub32 (c.buf b).refcnt 1 }) c in
      push_front-IsRing b (unlink b d) (ys ++ zs) (unlink-IsRing d ys b zs (set_buf-IsRing b _ r))
        (All-split (λ x. x < nbuf) ys (b ∷ zs) r.below).1.0 (Avoids-remove ys b zs r.distinct))
  | inr e ↦ rw e (set_buf-IsRing b _ r)
]

-- `k - 1`, and so on down to 0.
abbrev pub countdown : ℕ → List ℕ
countdown zero = []
countdown (suc k) = k ∷ countdown k

countdown-below : (k n : ℕ) → k ≤ n → All (λ x. x < n) (countdown k)
countdown-below zero n h = tt
countdown-below (suc k) n h = (omega arith, countdown-below k n (omega arith))

init_buf-IsRing :
    (k : ℕ) (c : Cache)
    → k < nbuf
    → IsRing c (countdown k)
    → IsRing (init_buf k c) (countdown (suc k))
unfolding init_buf
init_buf-IsRing k c h r =
    push_front-IsRing k _ (countdown k) (set_buf-IsRing k _ r) h
      (All-map (λ x p. omega arith) (countdown k) (countdown-below k k (omega arith)))

-- `binit` links all buffers into a ring, the last one first, whatever the memory held.
pub binit-IsRing : (c : Cache) → IsRing (binit c) (countdown nbuf)
unfolding binit
binit-IsRing c =
    for_loop_inv init_buf (λ k d. IsRing d (countdown k)) nbuf init_buf-IsRing
      (record c { prev = update c.prev head head; next = update c.next head head })
      (record {
        linked = (update_self c.next head head, update_self c.prev head head);
        distinct = tt;
        below = tt;
      })
