-- ===== src/Bio/Release.antt =====
-- `bwrite`, `brelse`, `bpin` and `bunpin` of riscv/kernel/bio.c, and a change of a locked buffer.
use learn_xv.Prelude.{
  ℕ, ◌+◌, ◌<◌, ◌≡◌, ◌≢◌, inl, inr, refl, sym, ap, subst, ◌∙◌, arith, true, false, Bool-cases, u32,
  sub32, panic, List, ◌∷◌, ◌++◌, ◌==◌, ==_self, length-append, Ends, if◌then◌else◌, update,
  update_self, update_ne, fun_ext,
}
use learn_xv.Store.{Block, Disk}
use learn_xv.Bio.{
  Buf, Cache, nbuf, set_buf, bwrite, holdingsleep, bpin, bunpin, brelse, releasesleep, drop_ref,
  unlocked, push_front, unlink,
}
use learn_xv.Bio.Links.{Occurs-front}
use learn_xv.Bio.Moves.{drop_ref-IsRing, set_buf-IsRing}
use learn_xv.Bio.Order.{IsRing}
use learn_xv.Bio.Taken.{IsFull}
use learn_xv.Bio.Coherence.{Coherent, SameBlock, Coherent-same, Coherent-write}
use learn_xv.Bio.Access.{Locked, FewRefs}

-- `bwrite` and `brelse` of a buffer that the process has not locked stop the machine.
pub unheld_panics :
    (pid b : ℕ) (c : Cache)
    → holdingsleep pid b c ≡ false
    → (bwrite pid b c ≡ panic) × (brelse pid b c ≡ panic)
unfolding bwrite brelse
unheld_panics pid b c e = (rw e, rw e)

module _ {pid d n : ℕ} {v : Disk} {c : Cache} (co : Coherent d c v) (b : ℕ) (h : b < nbuf)
    (l : Locked pid d n v (c.buf b)) where
  held : holdingsleep pid b c ≡ true
  unfolding holdingsleep
  held = l.held

  -- New content in a locked buffer changes what the device shows at its block, and nowhere else.
  pub Coherent-fill :
      (y : Block) → Coherent d (set_buf b (record (c.buf b) { content = y }) c) (update v n y)
  Coherent-fill y = record {
    unique = λ i j hi hj p q e. ground (arith, co.unique i j);
    clean = λ i hi p q r. ground (arith, co.clean i, l.used);
    cached = λ i hi p q. ground (arith, co.cached i, co.unique i b);
    absent = λ k miss.
        let ne : k ≢ n = λ e. ground (arith, miss b) in
        co.absent k (λ i hi p q r. ground (arith, miss i)) ∙ sym (update_ne v n y k ne);
  }

  -- `bwrite` brings the block to the disk, and changes nothing that the device shows.
  pub bwrite_lem :
      Ends
        (λ _ e. Coherent d e v × (e.disk ≡ update c.disk n (v n)) × (e.past ≡ e.disk ∷ c.past))
        (bwrite pid b c)
  unfolding bwrite
  bwrite_lem = rw held (Coherent-write co b h l.valid l.dev _, rw (l.blockno, l.content), refl)

  -- A pin is one reference more.
  pub bpin_lem : FewRefs c → Coherent d (bpin b c) v
  unfolding bpin
  bpin_lem few =
      let x : Buf = record (c.buf b) { refcnt = u32 ((c.buf b).refcnt + 1) } in
      let used : x.refcnt ≢ 0 = omega (arith, few b h) in
      Coherent-same co b h x (record { dev = refl; blockno = refl; valid = refl; content = refl })
        (λ z. absurd (used z))

  -- A reference less, where the last one leaves a block that is on the disk.
  module _ (clean : (c.buf b).refcnt ≡ 1 → c.disk n ≡ v n) (few : FewRefs c) where
    Coherent-less :
        (x : Buf)
        → SameBlock x (c.buf b)
        → x.refcnt ≡ sub32 (c.buf b).refcnt 1
        → Coherent d (set_buf b x c) v
    Coherent-less x same less = Coherent-same co b h x same (λ z p q.
        same.content
        ∙ l.content
        ∙ sym (clean (omega (arith, few b h, l.used)))
        ∙ ap c.disk (sym (same.blockno ∙ l.blockno)))

    pub bunpin_lem : Coherent d (bunpin b c) v
    unfolding bunpin
    bunpin_lem =
        Coherent-less (record (c.buf b) { refcnt = sub32 (c.buf b).refcnt 1 })
          (record { dev = refl; blockno = refl; valid = refl; content = refl }) refl

Coherent-transport :
    {d : ℕ} {v : Disk} (c e : Cache)
    → e.buf ≡ c.buf
    → e.disk ≡ c.disk
    → Coherent d c v
    → Coherent d e v
Coherent-transport {d} {v} c e p q co =
    subst (λ f. Coherent d (record e { buf = f }) v) (sym p)
      (subst (λ g. Coherent d (record e { buf = c.buf; disk = g }) v) (sym q)
        (record { unique = co.unique; clean = co.clean; cached = co.cached; absent = co.absent }))

-- The order of the buffers after the release of `b` between `ys` and `zs`.
abbrev pub released : Buf → List ℕ → ℕ → List ℕ → List ℕ
released x ys b zs = if sub32 x.refcnt 1 == 0 then b ∷ ys ++ zs else ys ++ b ∷ zs

drop_ref-buf :
    (b : ℕ) (c : Cache)
    → (drop_ref b (releasesleep b c)).buf
      ≡ update c.buf b (record (c.buf b) { lock = unlocked; refcnt = sub32 (c.buf b).refcnt 1 })
unfolding drop_ref releasesleep push_front unlink
drop_ref-buf b c = rw (==_self b) (fun_ext (λ j. ground arith))

drop_ref-disk : (b : ℕ) (c : Cache) → (drop_ref b (releasesleep b c)).disk ≡ c.disk
unfolding drop_ref releasesleep push_front unlink
drop_ref-disk b c = ground arith

drop_ref-IsFull :
    (b : ℕ) (c : Cache) (ys zs : List ℕ)
    → IsFull c (ys ++ b ∷ zs)
    → IsFull (drop_ref b (releasesleep b c)) (released (c.buf b) ys b zs)
unfolding releasesleep
drop_ref-IsFull b c ys zs f = record {
  ring =
      let x : Buf = record (c.buf b) { lock = unlocked } in
      subst
        (λ r.
          IsRing (drop_ref b (set_buf b x c))
            (if sub32 r 1 == 0 then b ∷ ys ++ zs else ys ++ b ∷ zs))
        (ap (λ (y : Buf). y.refcnt) (update_self c.buf b x))
        (drop_ref-IsRing (set_buf b x c) ys b zs (set_buf-IsRing b x f.ring));
  complete = λ a h. elim (Bool-cases (sub32 (c.buf b).refcnt 1 == 0)) [
    | inl e ↦ rw e (Occurs-front a b ys zs (f.complete a h))
    | inr e ↦ rw e (f.complete a h)
  ];
  short = elim (Bool-cases (sub32 (c.buf b).refcnt 1 == 0)) [
    | inl e ↦ rw e (omega (arith, f.short, length-append ys (b ∷ zs), length-append ys zs))
    | inr e ↦ rw e f.short
  ];
}

-- `brelse` by the process that has `b` locked gives the lock back and takes off its reference. The
-- last reference moves the buffer to the front of the list. What the device shows stays, if the
-- last reference leaves a block that is on the disk.
pub brelse_lem :
    {pid d n : ℕ} {v : Disk} {c : Cache} (b : ℕ) (ys zs : List ℕ)
    → Coherent d c v
    → IsFull c (ys ++ b ∷ zs)
    → b < nbuf
    → Locked pid d n v (c.buf b)
    → FewRefs c
    → ((c.buf b).refcnt ≡ 1 → c.disk n ≡ v n)
    → Ends
        (λ _ e.
          Coherent d e v
          × IsFull e (released (c.buf b) ys b zs)
          × ((e.buf b).lock.locked ≡ false)
          × ((e.buf b).refcnt + 1 ≡ (c.buf b).refcnt))
        (brelse pid b c)
unfolding brelse
brelse_lem {pid} {d} {n} {v} {c} b ys zs co f h l few clean =
    let x : Buf = record (c.buf b) { lock = unlocked; refcnt = sub32 (c.buf b).refcnt 1 } in
    let at : (drop_ref b (releasesleep b c)).buf b ≡ x =
      ap (λ g. g b) (drop_ref-buf b c) ∙ update_self c.buf b x in
    rw (held co b h l) (
      Coherent-transport (set_buf b x c) (drop_ref b (releasesleep b c)) (drop_ref-buf b c)
          (drop_ref-disk b c)
          (Coherent-less co b h l clean few x
            (record { dev = refl; blockno = refl; valid = refl; content = refl }) refl),
      drop_ref-IsFull b c ys zs f,
      ap (λ (y : Buf). y.lock.locked) at,
      ap (λ (y : Buf). y.refcnt + 1) at ∙ omega (arith, few b h, l.used),
    )
