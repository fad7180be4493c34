-- ===== src/Kalloc.antt =====
-- homework-3-lottery-scheduling/kernel/kalloc.c (homework-1-sort has the same file): the pages that
-- are free, newest first. The chain through the first words of the pages is the list `freelist`;
-- `mem` is the memory with the junk bytes of the freed pages.
pub mod Pages
mod Tests
use cs_3224_operating_system.Base.{
  ℕ, zero, suc, ◌+◌, ◌-◌, ◌*◌, ◌/◌, ◌%◌, ◌^◌, Bool, true, false, not, ◌||◌, Option, none, some,
  List, [], ◌∷◌, if◌then◌else◌, ◌==◌, ltb, leb,
}
use cs_3224_operating_system.Kstring.Memory.{Memory, memset}

abbrev pub pgsize : ℕ
pgsize = 4096

-- PHYSTOP and KERNBASE
abbrev pub phystop : ℕ
phystop = 234881024

abbrev pub kernbase : ℕ
kernbase = 2147483648

abbrev pub v2p : ℕ → ℕ
v2p a = (a + (2 ^ 32 - kernbase)) % 2 ^ 32

pub record Kmem : Type 0 where
  pub use_lock : Bool
  pub freelist : List ℕ
  pub mem : Memory

-- `none` is the panic. `kend` is the linker's symbol `end`.
unfoldable pub kfree : (kend v : ℕ) → Kmem → Option Kmem
kfree kend v k =
    if not (v % pgsize == 0) || (ltb v kend || leb phystop (v2p v))
    then none
    else some (record k { freelist = v ∷ k.freelist; mem = memset v 1 pgsize k.mem })

-- The null pointer is 0.
unfoldable pub kalloc : Kmem → ℕ × Kmem
kalloc k = elim k.freelist [ [] ↦ (0, k) | v ∷ rest ↦ (v, record k { freelist = rest }) ]

abbrev pub pgroundup : ℕ → ℕ
pgroundup a = (a + (pgsize - 1)) / pgsize * pgsize

-- The loop of `freerange`, with the rounds left.
unfoldable pub free_loop : (kend rounds p : ℕ) → Kmem → Option Kmem
unfolding kfree
free_loop kend zero p k = some k
free_loop kend (suc rounds) p k = elim (kfree kend p k) [
  | none ↦ none
  | some k' ↦ free_loop kend rounds (p + pgsize) k'
]

unfoldable pub freerange : (kend vstart vend : ℕ) → Kmem → Option Kmem
unfolding free_loop
freerange kend vstart vend k =
    free_loop kend ((vend - pgroundup vstart) / pgsize) (pgroundup vstart) k

unfoldable pub kinit1 : (kend vstart vend : ℕ) → Kmem → Option Kmem
unfolding freerange
kinit1 kend vstart vend k = freerange kend vstart vend (record k { use_lock = false })

unfoldable pub kinit2 : (kend vstart vend : ℕ) → Kmem → Option Kmem
unfolding freerange
kinit2 kend vstart vend k = elim (freerange kend vstart vend k) [
  | none ↦ none
  | some k' ↦ some (record k' { use_lock = true })
]
