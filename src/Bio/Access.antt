-- ===== src/Bio/Access.antt =====
-- `bread`, `bwrite`, `brelse`, `bpin` and `bunpin` of riscv/kernel/bio.c keep the cache coherent:
-- together they are the block store that the log works on.
use learn_xv.Prelude.{
  ℕ, ◌+◌, ◌<◌, ◌^◌, ◌≡◌, ◌≢◌, inl, inr, refl, sym, ap, subst, fun_ext, ==_self, update_self, ◌>>=◌,
  and_then, ◌∙◌, arith, true, false, Bool-cases, u32, Run, ok, panic, sleeps, List, ◌==◌, ◌&&◌,
}
use learn_xv.Store.{Disk}
use learn_xv.Bio.{Buf, Cache, nbuf, caches, set_buf, take_buf, acquiresleep, read_in, bread, bget}
use learn_xv.Bio.Moves.{set_buf-IsRing}
use learn_xv.Bio.Taken.{IsFull, Taken, hit, recycled, exhausted, take_buf-Taken}
use learn_xv.Bio.Coherence.{Coherent, Coherent-same, Coherent-recycled, Coherent-read}

-- Nobody holds 2 ^ 32 - 1 references to one buffer.
abbrev pub FewRefs : Cache → Type 0
FewRefs c = (b : ℕ) → b < nbuf → (c.buf b).refcnt + 1 < 2 ^ 32

-- The process `pid` has this buffer locked, with the content of block `n` of device `d`.
pub record Locked (pid d n : ℕ) (v : Disk) (x : Buf) : Type 0 where
  pub dev : x.dev ≡ d
  pub blockno : x.blockno ≡ n
  pub valid : x.valid ≡ true
  pub content : x.content ≡ v n
  pub used : x.refcnt ≢ 0
  pub held : (x.lock.locked && x.lock.pid == pid) ≡ true

-- A buffer of block `n` that some process has locked.
pub record IsBusy (d n : ℕ) (x : Buf) : Type 0 where
  pub dev : x.dev ≡ d
  pub blockno : x.blockno ≡ n
  pub locked : x.lock.locked ≡ true

-- What `bread` may come to. It sleeps where another process has the buffer locked.
abbrev pub Reads : (pid d n : ℕ) → Disk → List ℕ → Cache → Run Cache ℕ → Type 0
Reads pid d n v xs c (ok b e) =
    IsFull e xs × Coherent d e v × (b < nbuf) × Locked pid d n v (e.buf b)
Reads pid d n v xs c (sleeps e) =
    IsFull e xs × Coherent d e v × (b : ℕ) × (b < nbuf) × IsBusy d n (e.buf b)
Reads pid d n v xs c panic =
    ((b : ℕ) → b < nbuf → (c.buf b).refcnt ≢ 0) × ((b : ℕ) → b < nbuf → caches c d n b ≡ false)

-- A buffer with a reference, after `bget` released `bcache.lock`.
record Referenced (d n : ℕ) (v : Disk) (c : Cache) (b : ℕ) : Type 0 where
  below : b < nbuf
  coherent : Coherent d c v
  dev : (c.buf b).dev ≡ d
  blockno : (c.buf b).blockno ≡ n
  used : (c.buf b).refcnt ≢ 0

set_buf-Referenced :
    {d n : ℕ} {v : Disk} (c : Cache) (b : ℕ) (x : Buf)
    → b < nbuf
    → Coherent d (set_buf b x c) v
    → x.dev ≡ d
    → x.blockno ≡ n
    → x.refcnt ≢ 0
    → Referenced d n v (set_buf b x c) b
set_buf-Referenced c b x h co dev blockno used = record {
  below = h;
  coherent = co;
  dev = ap (λ (y : Buf). y.dev) (update_self c.buf b x) ∙ dev;
  blockno = ap (λ (y : Buf). y.blockno) (update_self c.buf b x) ∙ blockno;
  used = λ e. used (ap (λ (y : Buf). y.refcnt) (sym (update_self c.buf b x)) ∙ e);
}

set_buf-IsFull :
    (b : ℕ) (x : Buf) {c : Cache} {xs : List ℕ} → IsFull c xs → IsFull (set_buf b x c) xs
set_buf-IsFull b x f = record {
  ring = set_buf-IsRing b x f.ring;
  complete = f.complete;
  short = f.short;
}

read_in-IsFull : (b : ℕ) (c : Cache) {xs : List ℕ} → IsFull c xs → IsFull (read_in b c) xs
unfolding read_in
read_in-IsFull b c f = elim (Bool-cases (c.buf b).valid) [
  | inl e ↦ rw e f
  | inr e ↦ rw e (set_buf-IsFull b _ (set_buf-IsFull b _ f))
]

-- The two writes of `bread` to the buffer are one.
read_in-eq :
    (b : ℕ) (c : Cache)
    → (c.buf b).valid ≡ false
    → read_in b c
      ≡ set_buf b (record (c.buf b) { valid = true; content = c.disk (c.buf b).blockno }) c
unfolding read_in
read_in-eq b c e = rw (e, ==_self b) (ap (λ f. record c { buf = f }) (fun_ext (λ j. ground arith)))

run_assoc :
    {A B C : Type 0} (r : Run Cache A) (f : A → Cache → Run Cache B) (g : B → Cache → Run Cache C)
    → and_then (and_then r f) g ≡ and_then r (λ a s. and_then (f a s) g)
run_assoc (ok a s) f g = refl
run_assoc panic f g = refl
run_assoc (sleeps s) f g = refl

-- `bread`, with its calls in a row.
bread-eq :
    (pid d n : ℕ) (c : Cache)
    → bread pid d n c
      ≡ and_then (take_buf d n c) (λ b. acquiresleep pid b >>= λ _ e. ok b (read_in b e))
unfolding bread bget
bread-eq pid d n c =
    run_assoc (take_buf d n c) (λ b. acquiresleep pid b >>= λ _. ok b) (λ b e. ok b (read_in b e))
    ∙ ap (and_then (take_buf d n c)) (
        fun_ext λ b.
          fun_ext λ s. run_assoc (acquiresleep pid b s) (λ _. ok b) (λ b e. ok b (read_in b e)))

module _ (pid d n : ℕ) {v : Disk} where
  read_in-Locked :
      (c : Cache) (b : ℕ)
      → Referenced d n v c b
      → ((c.buf b).lock.locked && (c.buf b).lock.pid == pid) ≡ true
      → Coherent d (read_in b c) v × (b < nbuf) × Locked pid d n v ((read_in b c).buf b)
  read_in-Locked c b r held = elim (Bool-cases (c.buf b).valid) [
    | inl e ↦
        unfold read_in in
        rw e (
          r.coherent,
          r.below,
          record {
            dev = r.dev;
            blockno = r.blockno;
            valid = e;
            content = r.coherent.cached b r.below e r.dev ∙ ap v r.blockno;
            used = r.used;
            held = held;
          },
        )
    | inr e ↦
        let (fresh, co) = Coherent-read r.coherent b r.below e r.dev in
        rw (read_in-eq b c e) (
          co,
          r.below,
          subst (Locked pid d n v) (sym (update_self c.buf b _)) (record {
            dev = r.dev;
            blockno = r.blockno;
            valid = refl;
            content = fresh ∙ ap v r.blockno;
            used = r.used;
            held = held;
          }),
        )
  ]

  -- `acquiresleep`, then the read.
  lock_and_read :
      (c₀ c : Cache) (b : ℕ) {xs : List ℕ}
      → IsFull c xs
      → Referenced d n v c b
      → Reads pid d n v xs c₀ ((acquiresleep pid b >>= λ _ e. ok b (read_in b e)) c)
  unfolding acquiresleep
  lock_and_read c₀ c b full r = elim (Bool-cases (c.buf b).lock.locked) [
    | inl e ↦
        rw e (full, r.coherent, b, r.below, record { dev = r.dev; blockno = r.blockno; locked = e })
    | inr e ↦
        let x : Buf = record (c.buf b) { lock = record { locked = true; pid = pid } } in
        let co =
          Coherent-same r.coherent b r.below x
            (record { dev = refl; blockno = refl; valid = refl; content = refl })
            (λ z. absurd (r.used z)) in
        let read =
          read_in-Locked (set_buf b x c) b
            (set_buf-Referenced c b x r.below co r.dev r.blockno r.used)
            (rw (update_self c.buf b x) (==_self pid)) in
        rw e (read_in-IsFull b (set_buf b x c) (set_buf-IsFull b x full), read.0, read.1, read.2)
  ]

  Taken-Reads :
      {c : Cache} {xs : List ℕ} {r : Run Cache ℕ}
      → IsFull c xs
      → Coherent d c v
      → FewRefs c
      → Taken c xs d n r
      → Reads pid d n v xs c (and_then r (λ b. acquiresleep pid b >>= λ _ e. ok b (read_in b e)))
  Taken-Reads {c} full co few (hit b h t) =
      let x : Buf = record (c.buf b) { refcnt = u32 ((c.buf b).refcnt + 1) } in
      let used : x.refcnt ≢ 0 = omega (arith, few b h) in
      let co' =
        Coherent-same co b h x (record { dev = refl; blockno = refl; valid = refl; content = refl })
          (λ z. absurd (used z)) in
      lock_and_read c (set_buf b x c) b (set_buf-IsFull b x full)
        (set_buf-Referenced c b x h co' (ground arith) (ground arith) used)
  Taken-Reads {c} full co few (recycled b h none lru unused) =
      let x : Buf = record (c.buf b) { dev = d; blockno = n; valid = false; refcnt = 1 } in
      lock_and_read c (set_buf b x c) b (set_buf-IsFull b x full) (
        set_buf-Referenced c b x h (Coherent-recycled co b h n unused none) refl refl (omega arith))
  Taken-Reads full co few (exhausted none busy) = (busy, none)

  -- `bread` of a coherent cache comes to the locked buffer of that block with the content that the
  -- device shows, and changes neither what the device shows nor the order of the buffers. It sleeps
  -- only where that buffer is locked, and panics only where all buffers are referred to and none
  -- has the block.
  pub bread-Reads :
      {c : Cache} {xs : List ℕ}
      → IsFull c xs
      → Coherent d c v
      → FewRefs c
      → Reads pid d n v xs c (bread pid d n c)
  bread-Reads {c} full co few =
      rw (bread-eq pid d n c) (Taken-Reads full co few (take_buf-Taken d n full))
