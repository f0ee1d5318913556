-- ===== src/Log/Clear.antt =====
-- The end of `commit` and of `recover_from_log` in riscv/kernel/log.c: with the blocks installed,
-- a header that counts none is written.
use learn_xv.Prelude.{ℕ, ◌≡◌, refl, ap, subst, ◌∙◌, arith, All, update, update_self, update_ne}
use learn_xv.Store.{Block, Disk, fill, bwrite}
use learn_xv.Log.{Log, head_block, write_head}
use learn_xv.Log.Format.{content_after, IsHome, SameContent, Holds}
use learn_xv.Log.Head.{head_block-count}
use learn_xv.Log.Install.{CanInstall, Installed}

-- The log is empty, in memory and on disk, and the home blocks are `c` themselves.
pub record Cleared (c : Disk) (m : Log) : Type 0 where
  pub none_in_memory : m.n ≡ 0
  pub none_on_disk : m.store.disk m.start 0 ≡ 0
  pub home : SameContent m.start m.store.disk c

-- A disk whose log is empty holds its own home blocks.
pub Holds-of_empty :
    (start : ℕ) (c d : Disk) → d start 0 ≡ 0 → SameContent start d c → Holds start c d
Holds-of_empty start c d e same = record {
  log = record { fits = omega (arith, e); home = λ i h. absurd (omega (arith, e)) };
  means = λ b h. rw e (same b h);
}

module _ {q : Disk → Type 0} {c : Disk} {l : Log} (can : CanInstall q c l) {m : Log} where
  pub write_head-Cleared :
      Installed q l l.n m
      → let f = write_head (record m { n = 0 }) in
        Cleared c f
        × (f.start ≡ l.start)
        × ((b : ℕ) → IsHome l.start b → f.store.view b ≡ m.store.view b)
        × All q f.store.past
  unfolding write_head fill bwrite
  write_head-Cleared i = (
    record { none_in_memory = refl; none_on_disk = zero_on_disk; home = home },
    i.start,
    λ b h. update_ne m.store.view m.start hb b (ground (arith, i.start)),
    (
      can.keeps after (
          subst (λ st. Holds st c after) i.start
            (Holds-of_empty m.start c after zero_on_disk home)),
      i.past,
    ),
  )
    where
      hb : Block
      hb = head_block (record m { n = 0 })

      after : Disk
      after = update m.store.disk m.start (update m.store.view m.start hb m.start)

      zero_on_disk : after m.start 0 ≡ 0
      zero_on_disk =
          ap (λ x. x 0) (update_self m.store.disk m.start _ ∙ update_self m.store.view m.start hb)
          ∙ head_block-count (record m { n = 0 }) (omega arith)

      home : SameContent m.start after c
      home b h =
          let h' : IsHome l.start b = subst (λ st. IsHome st b) i.start h in
          update_ne m.store.disk m.start _ b (ground arith)
          ∙ i.disk.home b h'
          ∙ ap (λ k. content_after l.start k l.store.disk b) can.count
          ∙ can.holds.means b h'
