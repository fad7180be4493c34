-- ===== src/Bio.antt =====
-- The buffer cache, homework-3-lottery-scheduling/kernel/bio.c (homework-1-sort has the same file).
-- A buffer is known by its number in `bcache.buf`, and a pointer to it is passed with what it points
-- to. Each critical section of `bcache.lock` is one step; `bget` that has to sleep ends there, and
-- starts again from the top.
pub mod Buffers
pub mod Coherence
pub mod Fetched
pub mod Read
pub mod Write
pub mod Store
mod Tests
use cs_3224_operating_system.Base.{
  ℕ, zero, suc, ◌+◌, ◌-◌, ◌*◌, ◌^◌, Bool, true, false, not, ◌&&◌, ◌||◌, Option, none, some, List,
  [], ◌∷◌, replicate, if◌then◌else◌, ◌==◌,
}
use cs_3224_operating_system.Log.{Outcome, max_op_blocks}
use cs_3224_operating_system.Log.Blocks.{Block}

-- `struct buf`; the places in the list are those of `Cache.bufs`.
pub record Buf : Type 0 where
  pub number : ℕ
  pub dev : ℕ
  pub blockno : ℕ
  pub busy : Bool
  pub valid : Bool
  pub dirty : Bool
  pub data_of : Block

-- The list from `head.next` on, the most recently used buffer first, and the disks, by device and
-- number of a block.
pub record Cache : Type 0 where
  pub bufs : List Buf
  pub disk : ℕ → ℕ → Block

abbrev pub nbuf : ℕ
nbuf = max_op_blocks * 3

-- (uint)-1
abbrev pub no_dev : ℕ
no_dev = 2 ^ 32 - 1

abbrev pub new_buf : ℕ → Buf
new_buf i = record {
  number = i;
  dev = no_dev;
  blockno = 0;
  busy = false;
  valid = false;
  dirty = false;
  data_of = replicate 128 0;
}

-- The loop of `binit` from buffer `i` on, which puts each buffer at the front of the list.
unfoldable pub binit_loop : (rounds i : ℕ) → List Buf → List Buf
binit_loop zero i bufs = bufs
binit_loop (suc rounds) i bufs = binit_loop rounds (i + 1) (new_buf i ∷ bufs)

unfoldable pub binit : (ℕ → ℕ → Block) → Cache
unfolding binit_loop
binit disk = record { bufs = binit_loop nbuf 0 []; disk = disk }

-- A write of the fields of one buffer.
unfoldable pub put : Buf → List Buf → List Buf
put b [] = []
put b (c ∷ cs) = (if c.number == b.number then b else c) ∷ put b cs

-- The list without one buffer.
unfoldable pub unlink : ℕ → List Buf → List Buf
unlink i [] = []
unlink i (c ∷ cs) = let rest = unlink i cs in if c.number == i then rest else c ∷ rest

-- The first loop of `bget`.
unfoldable pub cached : (dev blockno : ℕ) → List Buf → Option Buf
cached dev blockno [] = none
cached dev blockno (b ∷ bs) =
    let more = cached dev blockno bs in
    if (b.dev == dev) && (b.blockno == blockno) then some b else more

-- The second loop of `bget`, from the end of the list.
unfoldable pub idle : List Buf → Option Buf
idle [] = none
idle (b ∷ bs) = elim (idle bs) [
  | some c ↦ some c
  | none ↦ if not b.busy && not b.dirty then some b else none
]

-- A call returns a buffer, sleeps on a busy one, or panics.
pub data Got : Type 0 where
  got : Buf → Cache → Got
  asleep panicked : Got

abbrev pub store_buf : Buf → Cache → Cache
store_buf b s = record s { bufs = put b s.bufs }

-- The buffer for a block that takes the place of another.
abbrev pub recycled : (dev blockno : ℕ) → Buf → Buf
recycled dev blockno b = record b {
  dev = dev;
  blockno = blockno;
  busy = true;
  valid = false;
  dirty = false;
}

unfoldable pub bget : (dev blockno : ℕ) → Cache → Got
unfolding put cached idle
bget dev blockno s = elim (cached dev blockno s.bufs) [
  | some b ↦
      if b.busy
      then Got.asleep
      else Got.got (record b { busy = true }) (store_buf (record b { busy = true }) s)
  | none ↦ elim (idle s.bufs) [
    | some b ↦ Got.got (recycled dev blockno b) (store_buf (recycled dev blockno b) s)
    | none ↦ Got.panicked
  ]
]

abbrev pub write_disk : (ℕ → ℕ → Block) → Buf → ℕ → ℕ → Block
write_disk disk b dev blockno =
    if (b.dev == dev) && (b.blockno == blockno) then b.data_of else disk dev blockno

module _ (havedisk1 : Bool) where
  -- `iderw` of kernel/ide.c with its checks; the queue and the interrupt, for which it sleeps, are one
  -- transfer: to the disk where the buffer is dirty, and from it otherwise.
  unfoldable pub iderw : Buf → Cache → Outcome (Buf × Cache)
  unfolding put
  iderw b s =
      let written = record b { dirty = false; valid = true } in
      let filled = record b { valid = true; data_of = s.disk b.dev b.blockno } in
      if not b.busy || (b.valid && not b.dirty) || (not (b.dev == 0) && not havedisk1)
      then Outcome.panic
      else if b.dirty
      then Outcome.ok (written, record { bufs = put written s.bufs; disk = write_disk s.disk b })
      else Outcome.ok (filled, store_buf filled s)

  unfoldable pub bread : (dev blockno : ℕ) → Cache → Got
  unfolding bget iderw
  bread dev blockno s = elim (bget dev blockno s) [
    | Got.got b t ↦
        if b.valid
        then Got.got b t
        else elim (iderw b t) [ Outcome.ok (b', t') ↦ Got.got b' t' | Outcome.panic ↦ Got.panicked ]
    | Got.asleep ↦ Got.asleep
    | Got.panicked ↦ Got.panicked
  ]

  unfoldable pub bwrite : Buf → Cache → Outcome Cache
  unfolding iderw put
  bwrite b s =
      if not b.busy
      then Outcome.panic
      else elim (iderw (record b { dirty = true }) (store_buf (record b { dirty = true }) s)) [
        | Outcome.ok (b', t) ↦ Outcome.ok t
        | Outcome.panic ↦ Outcome.panic
      ]

unfoldable pub brelse : Buf → Cache → Outcome Cache
unfolding unlink
brelse b s =
    if not b.busy
    then Outcome.panic
    else Outcome.ok (record s { bufs = record b { busy = false } ∷ unlink b.number s.bufs })
