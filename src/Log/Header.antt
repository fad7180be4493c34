-- ===== src/Log/Header.antt =====
-- The header block of log.c: what `write_head` puts there, `read_head` reads back.
use cs_3224_operating_system.Base.{
  ℕ, zero, suc, ◌+◌, ◌≤◌, ◌<◌, ◌≡◌, refl, ◌∙◌, ap, sym, List, [], ◌∷◌, arith, length, get_or, set,
  length-set, get_or-set_self, get_or-set_ne,
}
use mathlib.Core.Path.{ap₂}
use cs_3224_operating_system.Log.{Log, read_loop, read_head, head_loop}
use cs_3224_operating_system.Log.Blocks.{Block, Store}

-- `rounds` elements of an array from index `i` on.
abbrev pub slice : List ℕ → ℕ → ℕ → List ℕ
slice arr i zero = []
slice arr i (suc rounds) = get_or arr i 0 ∷ slice arr (i + 1) rounds

-- A header block that says that the blocks `bs` are logged.
pub record IsHeader (head : Block) (bs : List ℕ) : Type 0 where
  pub count : get_or head 0 0 ≡ length bs
  pub entries : slice head 1 (length bs) ≡ bs

pub length-slice : (arr : List ℕ) (i rounds : ℕ) → length (slice arr i rounds) ≡ rounds
length-slice arr i zero = refl
length-slice arr i (suc rounds) = ap suc (length-slice arr (i + 1) rounds)

pub length-head_loop :
    (rounds i : ℕ) (block : List ℕ) (head : Block)
    → length (head_loop rounds i block head) ≡ length head
unfolding head_loop
length-head_loop zero i block head = refl
length-head_loop (suc rounds) i block head =
    length-head_loop rounds (i + 1) block (set head (1 + i) (get_or block i 0))
    ∙ length-set head (1 + i) (get_or block i 0)

-- Entries below the loop's index are not written again.
head_loop-below :
    (rounds i j : ℕ) (block : List ℕ) (head : Block)
    → j < 1 + i
    → get_or (head_loop rounds i block head) j 0 ≡ get_or head j 0
unfolding head_loop
head_loop-below zero i j block head h = refl
head_loop-below (suc rounds) i j block head h =
    head_loop-below rounds (i + 1) j block (set head (1 + i) (get_or block i 0)) (omega arith)
    ∙ get_or-set_ne head (1 + i) j (get_or block i 0) 0 (omega arith)

head_loop-slice :
    (rounds i : ℕ) (block : List ℕ) (head : Block)
    → 1 + i + rounds ≤ length head
    → slice (head_loop rounds i block head) (1 + i) rounds ≡ slice block i rounds
unfolding head_loop
head_loop-slice zero i block head h = refl
head_loop-slice (suc rounds) i block head h =
    let e : 1 + (i + 1) ≡ 1 + i + 1 = omega arith in
    let head1 = set head (1 + i) (get_or block i 0) in
    let rest =
      head_loop-slice rounds (i + 1) block head1
        (omega (arith, length-set head (1 + i) (get_or block i 0))) in
    ap₂ ◌∷◌
      (head_loop-below rounds (i + 1) (1 + i) block head1 (omega arith)
        ∙ get_or-set_self head (1 + i) (get_or block i 0) 0 (omega arith))
      (rw e at rest)

read_loop-below :
    (rounds i j : ℕ) (head : Block) (block : List ℕ)
    → j < i
    → get_or (read_loop rounds i head block) j 0 ≡ get_or block j 0
unfolding read_loop
read_loop-below zero i j head block h = refl
read_loop-below (suc rounds) i j head block h =
    read_loop-below rounds (i + 1) j head (set block i (get_or head (1 + i) 0)) (omega arith)
    ∙ get_or-set_ne block i j (get_or head (1 + i) 0) 0 (omega arith)

pub length-read_loop :
    (rounds i : ℕ) (head : Block) (block : List ℕ)
    → length (read_loop rounds i head block) ≡ length block
unfolding read_loop
length-read_loop zero i head block = refl
length-read_loop (suc rounds) i head block =
    length-read_loop rounds (i + 1) head (set block i (get_or head (1 + i) 0))
    ∙ length-set block i (get_or head (1 + i) 0)

read_loop-slice :
    (rounds i : ℕ) (head : Block) (block : List ℕ)
    → i + rounds ≤ length block
    → slice (read_loop rounds i head block) i rounds ≡ slice head (1 + i) rounds
unfolding read_loop
read_loop-slice zero i head block h = refl
read_loop-slice (suc rounds) i head block h =
    let e : 1 + (i + 1) ≡ 1 + i + 1 = omega arith in
    let block1 = set block i (get_or head (1 + i) 0) in
    let rest =
      read_loop-slice rounds (i + 1) head block1
        (omega (arith, length-set block i (get_or head (1 + i) 0))) in
    ap₂ ◌∷◌
      (read_loop-below rounds (i + 1) i head block1 (omega arith)
        ∙ get_or-set_self block i (get_or head (1 + i) 0) 0 (omega arith))
      (rw e at rest)

-- What `write_head` writes: a header that names the first `n` blocks.
unfoldable pub header_of : Log → Block → Block
header_of lg old = head_loop lg.n 0 lg.block (set old 0 lg.n)

pub header_of-IsHeader :
    (lg : Log) (old : Block)
    → lg.n < length old
    → IsHeader (header_of lg old) (slice lg.block 0 lg.n)
unfolding header_of
header_of-IsHeader lg old h =
    let old0 = set old 0 lg.n in
    let e : 1 + 0 ≡ 1 = refl in
    record {
      count =
          head_loop-below lg.n 0 0 lg.block old0 (omega arith)
          ∙ get_or-set_self old 0 lg.n 0 (omega arith)
          ∙ sym (length-slice lg.block 0 lg.n);
      entries =
          rw (length-slice lg.block 0 lg.n)
            (head_loop-slice lg.n 0 lg.block old0 (omega (arith, length-set old 0 lg.n)));
    }

pub length-header_of : (lg : Log) (old : Block) → length (header_of lg old) ≡ length old
unfolding header_of
length-header_of lg old = length-head_loop lg.n 0 lg.block (set old 0 lg.n) ∙ length-set old 0 lg.n

-- `read_head` finds the blocks that the header names.
pub read_head-IsHeader :
    (lg : Log) (s : Store) (bs : List ℕ)
    → IsHeader (s.mem lg.start) bs
    → length bs ≤ length lg.block
    → ((read_head lg s).n ≡ length bs) × (slice (read_head lg s).block 0 (read_head lg s).n ≡ bs)
unfolding read_head
read_head-IsHeader lg s bs is fits = (
  is.count,
  rw is.count (read_loop-slice (length bs) 0 (s.mem lg.start) lg.block (omega arith) ∙ is.entries),
)
