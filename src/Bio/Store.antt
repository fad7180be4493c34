-- ===== src/Bio/Store.antt =====
-- The operations of kernel/bio.c in any order: the cache and the disk together are a store of
-- blocks.
use cs_3224_operating_system.Base.{
  ℕ, ◌≡◌, ◌≢◌, inl, inr, ◌∙◌, sym, ap, Bool, true, false, ◌&&◌, if◌then◌else◌, ◌==◌, Bool-cases,
}
use mathlib.Core.List.{Memᴰ}
use cs_3224_operating_system.Log.{Outcome}
use cs_3224_operating_system.Log.Blocks.{Block}
use cs_3224_operating_system.Bio.{
  Buf, Cache, Got, no_dev, binit, store_buf, write_disk, bread, bwrite, brelse,
}
use cs_3224_operating_system.Bio.Buffers.{IsFor, test_complete, test_sound}
use cs_3224_operating_system.Bio.Coherence.{
  view, Coherent, Change, Change-Coherent, Change-here, Change-others, view-content,
}
use cs_3224_operating_system.Bio.Read.{clean_buf, bread-Fetched}
use cs_3224_operating_system.Bio.Write.{
  busy-valid, brelse-Change, logged, logged-Change, filled_with, bwrite-Change, binit-Coherent,
  binit-view,
}

-- What each block holds, for the processes that use the cache.
abbrev pub Blocks : Type 0
Blocks = ℕ → ℕ → Block

-- The operations of the processes, with the store that they see. A process changes a buffer that
-- it has and hands it to `log_write` or to `bwrite` in one step.
pub data Run (havedisk1 : Bool) (disk : Blocks) : Cache → Blocks → Type 0 where
  boot : Run havedisk1 disk (binit disk) disk
  read :
      {s t : Cache} {blocks : Blocks} (d n : ℕ) (b : Buf)
      → Run havedisk1 disk s blocks
      → d ≢ no_dev
      → bread havedisk1 d n s ≡ Got.got b t
      → Run havedisk1 disk t blocks
  release :
      {s t : Cache} {blocks : Blocks} (b : Buf)
      → Run havedisk1 disk s blocks
      → Memᴰ b s.bufs
      → brelse b s ≡ Outcome.ok t
      → Run havedisk1 disk t blocks
  log :
      {s : Cache} {blocks : Blocks} (b : Buf) (x : Block)
      → Run havedisk1 disk s blocks
      → Memᴰ b s.bufs
      → b.busy ≡ true
      → Run havedisk1 disk (store_buf (logged b x) s) (write_disk blocks (logged b x))
  write :
      {s t : Cache} {blocks : Blocks} (b : Buf) (x : Block)
      → Run havedisk1 disk s blocks
      → Memᴰ b s.bufs
      → bwrite havedisk1 (filled_with b x) s ≡ Outcome.ok t
      → Run havedisk1 disk t (write_disk blocks (filled_with b x))

-- The cache is coherent and shows the blocks.
pub record Shows (s : Cache) (blocks : Blocks) : Type 0 where
  pub coherent : Coherent s
  pub same : (d n : ℕ) → d ≢ no_dev → view s d n ≡ blocks d n

changed-Shows :
    (s : Cache) (b : Buf) (t : Cache) (blocks : Blocks)
    → Shows s blocks
    → Change s b t
    → b.dev ≢ no_dev
    → Shows t (write_disk blocks b)
changed-Shows s b t blocks shows ch real = record {
  coherent = Change-Coherent s b t shows.coherent ch real;
  same = λ d n dev_ok. elim (Bool-cases ((b.dev == d) && (b.blockno == n))) [
    | inl e ↦
        let (p, q) = test_sound d n b e in
        ap (λ x. view t x n) (sym p)
        ∙ ap (view t b.dev) (sym q)
        ∙ Change-here s b t shows.coherent ch real
        ∙ sym (ap (λ v. if v then b.data_of else blocks d n) e)
    | inr e ↦
        let ne : ¬ (IsFor d n b) = λ f. let e' = test_complete d n b f in absurd (cc) in
        Change-others s b t d n shows.coherent ch real dev_ok ne
        ∙ shows.same d n dev_ok
        ∙ sym (ap (λ v. if v then b.data_of else blocks d n) e)
  ];
}

-- A change that writes what the block held changes no block.
kept-Shows :
    (s : Cache) (b : Buf) (t : Cache) (blocks : Blocks)
    → Shows s blocks
    → Change s b t
    → b.dev ≢ no_dev
    → b.data_of ≡ blocks b.dev b.blockno
    → Shows t blocks
kept-Shows s b t blocks shows ch real held =
    let now = changed-Shows s b t blocks shows ch real in
    record {
      coherent = now.coherent;
      same = λ d n dev_ok.
          now.same d n dev_ok ∙ (elim (Bool-cases ((b.dev == d) && (b.blockno == n))) [
            | inl e ↦
                let (p, q) = test_sound d n b e in
                ap (λ v. if v then b.data_of else blocks d n) e
                ∙ held
                ∙ ap (λ x. blocks x b.blockno) p
                ∙ ap (blocks d) q
            | inr e ↦ ap (λ v. if v then b.data_of else blocks d n) e
          ]);
    }

module _ (havedisk1 : Bool) where
  read-Shows :
      (s t : Cache) (blocks : Blocks) (d n : ℕ) (b : Buf)
      → Shows s blocks
      → d ≢ no_dev
      → bread havedisk1 d n s ≡ Got.got b t
      → (b.data_of ≡ blocks d n) × Shows t blocks
  read-Shows s t blocks d n b shows real e =
      let f = bread-Fetched havedisk1 s d n b t shows.coherent real e in
      let read = f.data_read ∙ shows.same d n real in
      let (p, q) = f.for_block in
      (
        read,
        kept-Shows s b t blocks shows f.change (λ z. real (sym p ∙ z))
            (read ∙ ap (λ x. blocks x n) (sym p) ∙ ap (blocks b.dev) (sym q)),
      )

  Run-Shows : (disk blocks : Blocks) (s : Cache) → Run havedisk1 disk s blocks → Shows s blocks
  Run-Shows disk blocks s Run.boot = record {
    coherent = binit-Coherent disk;
    same = binit-view disk;
  }
  Run-Shows disk blocks t (Run.read {s} d n b run real e) =
      (read-Shows s t blocks d n b (Run-Shows disk blocks s run) real e).1
  Run-Shows disk blocks t (Run.release {s} b run m e) =
      let shows = Run-Shows disk blocks s run in
      let inv = shows.coherent in
      let (on, ch) = brelse-Change s b t inv m e in
      let real = inv.used b m on in
      let held =
        sym (ap (λ v. if v then b.data_of else s.disk b.dev b.blockno) (busy-valid s b inv m on))
        ∙ sym (view-content s b inv m real)
        ∙ shows.same b.dev b.blockno real in
      kept-Shows s (record b { busy = false }) t blocks shows ch real held
  Run-Shows disk _ _ (Run.log {s} {blocks} b x run m on) =
      let shows = Run-Shows disk blocks s run in
      let inv = shows.coherent in
      changed-Shows s (logged b x) (store_buf (logged b x) s) blocks shows
        (logged-Change s b x inv m on) (inv.used b m on)
  Run-Shows disk _ t (Run.write {s} {blocks} b x run m e) =
      let shows = Run-Shows disk blocks s run in
      let inv = shows.coherent in
      let (on, ch) = bwrite-Change havedisk1 s b x t inv m e in
      changed-Shows s (clean_buf (filled_with b x)) t blocks shows ch (inv.used b m on)

-- After any operations: `bread` returns a buffer for the block that it was asked for, which no
-- process had, with what was last written into that block, by whichever process and whether or
-- not it is on the disk yet.
pub bread-Run :
    (havedisk1 : Bool) (disk blocks : Blocks) (s t : Cache) (d n : ℕ) (b : Buf)
    → Run havedisk1 disk s blocks
    → d ≢ no_dev
    → bread havedisk1 d n s ≡ Got.got b t
    → IsFor d n b
      × (b.data_of ≡ blocks d n)
      × ((c : Buf) → Memᴰ c s.bufs → c.number ≡ b.number → c.busy ≡ false)
bread-Run havedisk1 disk blocks s t d n b run real e =
    let shows = Run-Shows havedisk1 disk blocks s run in
    let f = bread-Fetched havedisk1 s d n b t shows.coherent real e in
    (f.for_block, (read-Shows havedisk1 s t blocks d n b shows real e).0, f.was_idle)

-- After any operations: a block has at most one buffer, and where a buffer has the data of its
-- block and is not dirty, the disk has the same data.
pub Run-single :
    (havedisk1 : Bool) (disk blocks : Blocks) (s : Cache)
    → Run havedisk1 disk s blocks
    → ((b c : Buf)
        → Memᴰ b s.bufs
        → Memᴰ c s.bufs
        → b.dev ≢ no_dev
        → IsFor b.dev b.blockno c
        → b.number ≡ c.number)
      × ((b : Buf)
          → Memᴰ b s.bufs
          → b.valid ≡ true
          → b.dirty ≡ false
          → b.data_of ≡ s.disk b.dev b.blockno)
Run-single havedisk1 disk blocks s run =
    let inv = (Run-Shows havedisk1 disk blocks s run).coherent in
    (λ b c mb mc real f. ap (λ (z : Buf). z.number) (inv.single b c mb mc real f), inv.clean)
