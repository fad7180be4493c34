-- ===== src/Log/Blocks.antt =====
-- The disk and the buffer cache as log.c sees them, through `bread`, `bwrite` and `brelse`.
-- `mem b` is what `bread` hands out for block `b` of the log's device: the cached copy, and where
-- none is cached, the block on disk. `brelse` changes neither.
use cs_3224_operating_system.Base.{ℕ, List, [], ◌∷◌, ◌++◌, if◌then◌else◌, ◌==◌}

-- The 128 words of a block.
abbrev pub Block : Type 0
Block = List ℕ

abbrev pub Disk : Type 0
Disk = ℕ → Block

abbrev pub upd : Disk → ℕ → Block → Disk
upd d b v a = if a == b then v else d a

-- `trace` lists the blocks that were written to disk, in order.
pub record Store : Type 0 where
  pub mem : Disk
  pub disk : Disk
  pub trace : List (ℕ × Block)

-- `memmove(buf->data, v, BSIZE)` on the buffer of block `b`.
unfoldable pub fill : Store → ℕ → Block → Store
fill s b v = record s { mem = upd s.mem b v }

-- `bwrite`: the buffer goes to disk.
unfoldable pub bwrite : Store → ℕ → Store
bwrite s b = record s { disk = upd s.disk b (s.mem b); trace = s.trace ++ ((b, s.mem b) ∷ []) }

-- A disk after some writes.
unfoldable pub apply : Disk → List (ℕ × Block) → Disk
apply d [] = d
apply d ((b, v) ∷ ws) = apply (upd d b v) ws

-- What memory and disk hold after a crash and a restart.
unfoldable pub boot : Disk → Store
boot d = record { mem = d; disk = d; trace = [] }
