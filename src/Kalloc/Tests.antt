-- ===== src/Kalloc/Tests.antt =====
-- Runs of kernel/kalloc.c, and its theorem at a concrete input.
use cs_3224_operating_system.Base.{
  ℕ, ◌≡◌, refl, true, Option, none, some, List, [], ◌∷◌, ◌++◌, arith,
}
use mathlib.Core.Logic.Or
use mathlib.Core.HLevel.{⊥_prop}
use mathlib.Core.List.{Nodup, Perm, Pairwise, eq-or-mem_of_mem-cons, not-mem-nil}
use cs_3224_operating_system.Kalloc.{Kmem, kernbase, kalloc, kinit1}
use cs_3224_operating_system.Kalloc.Pages.{Run, Run-Nodup}

abbrev empty : Kmem
empty = record { use_lock = true; freelist = []; mem = λ a. 0 }

-- The free pages after `kinit1` of three pages less a byte: the first page is left out.
pages_of : Option Kmem → List ℕ
pages_of none = []
pages_of (some k) = k.freelist

freed : pages_of (kinit1 kernbase 2147483649 2147495936 empty) ≡ 2147491840 ∷ 2147487744 ∷ []
unfolding pages_of kinit1
freed = refl

abbrev two_pages : Kmem
two_pages = record { use_lock = true; freelist = 2147491840 ∷ 2147487744 ∷ []; mem = λ a. 0 }

abbrev one_page : Kmem
one_page = record { use_lock = true; freelist = 2147487744 ∷ []; mem = λ a. 0 }

allocated : kalloc two_pages ≡ (2147491840, one_page)
unfolding kalloc
allocated = refl

two_pages-Nodup : Nodup {A = ℕ} (2147491840 ∷ 2147487744 ∷ [])
two_pages-Nodup =
    Pairwise.cons
      (λ a m e.
        Or.elim ⊥_prop (eq-or-mem_of_mem-cons m) (λ same. absurd (omega (arith, e, same)))
          not-mem-nil)
      (Pairwise.cons (λ a m e. not-mem-nil m) Pairwise.nil)

Run-Nodup_example :
    Perm {A = ℕ} ((2147491840 ∷ []) ++ one_page.freelist) two_pages.freelist
    × Nodup {A = ℕ} ((2147491840 ∷ []) ++ one_page.freelist)
Run-Nodup_example =
    Run-Nodup {kend = kernbase} {k = two_pages} two_pages-Nodup
      (Run.allocs 2147491840 Run.start (omega arith) allocated)
