-- ===== src/Log.antt =====
-- homework-3-lottery-scheduling/kernel/log.c (homework-1-sort has the same file): the redo log.
-- Block contents and the buffer cache are in `Blocks`. The lock makes each critical section one
-- step, and `end_op` is two of them with `commit` between; `sleep` is the result `none`, after which
-- the caller tests again.
pub mod Blocks
pub mod Header
pub mod Install
pub mod Trace
pub mod Commit
pub mod Crash
pub mod Atomic
pub mod Recovery
pub mod Absorb
pub mod System
pub mod Reserve
mod Tests
use cs_3224_operating_system.Base.{
  ℕ, zero, suc, ◌+◌, ◌-◌, ◌*◌, ◌%◌, ◌^◌, Bool, true, false, ◌||◌, Option, none, some, List, [], ◌∷◌,
  if◌then◌else◌, ◌==◌, ltb, leb, length, get_or, set,
}
use cs_3224_operating_system.Log.Blocks.{Block, Store, fill, bwrite}

abbrev pub max_op_blocks : ℕ
max_op_blocks = 10

-- LOGSIZE
abbrev pub log_size : ℕ
log_size = max_op_blocks * 3

-- `struct log` with its header; `outstanding` is an `int`, as its 32-bit pattern. `wakeups` counts
-- the calls of `wakeup(&log)`.
pub record Log : Type 0 where
  pub start : ℕ
  pub size : ℕ
  pub outstanding : ℕ
  pub committing : Bool
  pub dev : ℕ
  pub n : ℕ
  pub block : List ℕ
  pub wakeups : ℕ

-- The loop of `install_trans`, with the rounds left.
pub install_loop : ℕ → ℕ → Log → Store → Store
install_loop zero tail lg s = s
install_loop (suc rounds) tail lg s =
    let dst = get_or lg.block tail 0 in
    let copied = fill s dst (s.mem (lg.start + tail + 1)) in
    install_loop rounds (tail + 1) lg (bwrite copied dst)

pub install_trans : Log → Store → Store
install_trans lg s = install_loop lg.n 0 lg s

-- The loop of `read_head`: `log.lh.block[i] = lh->block[i]`.
pub read_loop : ℕ → ℕ → Block → List ℕ → List ℕ
read_loop zero i head block = block
read_loop (suc rounds) i head block =
    read_loop rounds (i + 1) head (set block i (get_or head (1 + i) 0))

pub read_head : Log → Store → Log
read_head lg s =
    let head = s.mem lg.start in
    let n = get_or head 0 0 in record lg { n = n; block = read_loop n 0 head lg.block }

-- The loop of `write_head`: `hb->block[i] = log.lh.block[i]`.
pub head_loop : ℕ → ℕ → List ℕ → Block → Block
head_loop zero i block head = head
head_loop (suc rounds) i block head =
    head_loop rounds (i + 1) block (set head (1 + i) (get_or block i 0))

pub write_head : Log → Store → Store
write_head lg s =
    let head = head_loop lg.n 0 lg.block (set (s.mem lg.start) 0 lg.n) in
    bwrite (fill s lg.start head) lg.start

pub recover_from_log : Log → Store → Log × Store
recover_from_log lg s =
    let lg' = read_head lg s in
    let installed = install_trans lg' s in
    let empty = record lg' { n = 0 } in (empty, write_head empty installed)

-- `initlog`, with the `logstart` and `nlog` that `readsb` finds. The header has 124 bytes, fewer
-- than a block, so the first test fails.
pub initlog : (dev logstart nlog : ℕ) → Log → Store → Log × Store
initlog dev logstart nlog lg s =
    recover_from_log (record lg { start = logstart; size = nlog; dev = dev }) s

-- The loop of `write_log`, with the rounds left.
pub log_loop : ℕ → ℕ → Log → Store → Store
log_loop zero tail lg s = s
log_loop (suc rounds) tail lg s =
    let to = lg.start + tail + 1 in
    let copied = fill s to (s.mem (get_or lg.block tail 0)) in
    log_loop rounds (tail + 1) lg (bwrite copied to)

pub write_log : Log → Store → Store
write_log lg s = log_loop lg.n 0 lg s

pub commit : Log → Store → Log × Store
commit lg s =
    if ltb 0 lg.n
    then (let committed = write_head lg (write_log lg s) in
        let installed = install_trans lg committed in
        let empty = record lg { n = 0 } in (empty, write_head empty installed))
    else (lg, s)

-- A negative `int`.
abbrev pub negative : ℕ → Bool
negative w = leb (2 ^ 31) w

-- `log.lh.n + (log.outstanding + 1) * MAXOPBLOCKS > LOGSIZE`
pub exhausts : Log → Bool
exhausts lg =
    if negative lg.outstanding
    then ltb (log_size + (2 ^ 32 - (lg.outstanding + 1)) * max_op_blocks) lg.n
    else ltb log_size (lg.n + (lg.outstanding + 1) * max_op_blocks)

-- One round of the loop of `begin_op`; `none` means that it sleeps.
pub begin_op : Log → Option Log
begin_op lg =
    if lg.committing
    then none
    else if exhausts lg
    then none
    else some (record lg { outstanding = (lg.outstanding + 1) % 2 ^ 32 })

-- `panic`, or the states that the call leaves.
pub data Outcome {ℓ} (A : Type ℓ) : Type ℓ where
  ok : A → Outcome A
  panic : Outcome A

-- The first critical section of `end_op`: the log, and `do_commit`.
pub leave_op : Log → Outcome (Log × Bool)
leave_op lg =
    let left = (lg.outstanding + (2 ^ 32 - 1)) % 2 ^ 32 in
    let decremented = record lg { outstanding = left } in
    if lg.committing
    then panic
    else if left == 0
    then ok (record decremented { committing = true }, true)
    else ok (record decremented { wakeups = lg.wakeups + 1 }, false)

-- The second critical section of `end_op`, after `commit`, which runs without the lock.
pub leave_commit : Log → Log
leave_commit lg = record lg { committing = false; wakeups = lg.wakeups + 1 }

-- The index at which the loop of `log_write` stops, from `i` on.
pub find_block : ℕ → ℕ → List ℕ → ℕ → ℕ
find_block zero i block b = i
find_block (suc rounds) i block b =
    let next = find_block rounds (i + 1) block b in if get_or block i 0 == b then i else next

-- `log_write` of block number `b`. The dirty flag that it sets pins the buffer in the cache: that
-- `mem` keeps the buffer's contents says the same.
pub log_write : Log → ℕ → Outcome Log
log_write lg b =
    let i = find_block lg.n 0 lg.block b in
    let placed = record lg { block = set lg.block i b } in
    if leb log_size lg.n || leb lg.size (lg.n + 1)
    then panic
    else if negative lg.outstanding || (lg.outstanding == 0)
    then panic
    else ok (if i == lg.n then record placed { n = lg.n + 1 } else placed)
