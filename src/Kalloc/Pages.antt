-- ===== src/Kalloc/Pages.antt =====
-- The pages of kernel/kalloc.c: each is either free or in one place of use.
use cs_3224_operating_system.Base.{
  ℕ, ◌%◌, ◌≤◌, ◌<◌, ◌≡◌, ◌≢◌, ap, sym, subst, not, ◌||◌, some, some_inj, List, [], ◌∷◌, ◌++◌, arith,
  ◌==◌, ltb, leb, Bool-cases, inl, inr,
}
use mathlib.Core.List.{Nodup, Perm, perm_middle}
use mathlib.Core.List.Perm
use cs_3224_operating_system.Kalloc.{Kmem, kfree, kalloc, pgsize, phystop, v2p}

-- A page that can be freed.
abbrev pub IsPage : ℕ → ℕ → Type 0
IsPage kend v = (v % pgsize ≡ 0) × (kend ≤ v) × (v2p v < phystop)

-- The calls of `kalloc` that return a page and of `kfree` for a page that is in use, with the list
-- of the pages in use.
pub data Run (kend : ℕ) (k : Kmem) : List ℕ → Kmem → Type 0 where
  start : Run kend k [] k
  allocs :
      {used : List ℕ} {l m : Kmem} (v : ℕ)
      → Run kend k used l
      → v ≢ 0
      → kalloc l ≡ (v, m)
      → Run kend k (v ∷ used) m
  frees :
      {l m : Kmem} (front : List ℕ) (v : ℕ) (back : List ℕ)
      → Run kend k (front ++ (v ∷ back)) l
      → kfree kend v l ≡ some m
      → Run kend k (front ++ back) m

kalloc-freelist : (l m : Kmem) (v : ℕ) → v ≢ 0 → kalloc l ≡ (v, m) → l.freelist ≡ v ∷ m.freelist
unfolding kalloc
kalloc-freelist l m v ne e = go l.freelist e
  where
    go :
        (free : List ℕ)
        → (elim free as (λ x. ℕ × Kmem) [
          | [] ↦ (0, l)
          | a ∷ rest ↦ (a, record l { freelist = rest })
        ])
          ≡ (v, m)
        → free ≡ v ∷ m.freelist
    go [] e = absurd (ne (sym (ap (λ (x : ℕ × Kmem). x.0) e)))
    go (a ∷ rest) e = ap (λ (x : ℕ × Kmem). x.0 ∷ x.1.freelist) e

kfree-freelist :
    (kend v : ℕ) (l m : Kmem)
    → kfree kend v l ≡ some m
    → (m.freelist ≡ v ∷ l.freelist) × IsPage kend v
unfolding kfree
kfree-freelist kend v l m e =
    elim (Bool-cases (not (v % pgsize == 0) || (ltb v kend || leb phystop (v2p v)))) [
      | inl bad ↦ let e' = rw bad at e in absurd (cc)
      | inr fine ↦
          let e' = rw fine at e in (sym (ap (λ (k : Kmem). k.freelist) (some_inj e')), ground arith)
    ]

all_pages :
    {kend : ℕ} {k l : Kmem} {used : List ℕ}
    → Run kend k used l
    → Perm (used ++ l.freelist) k.freelist
all_pages Run.start = Perm.refl _
all_pages (Run.allocs {used} {l} {m} v run ne e) =
    let free = kalloc-freelist l m v ne e in
    Perm.trans
      (subst (λ f. Perm (v ∷ (used ++ m.freelist)) (used ++ f)) (sym free)
        (Perm.symm (perm_middle used m.freelist)))
      (all_pages run)
all_pages {kend} {k} (Run.frees {l} {m} front v back run e) =
    let free = (kfree-freelist kend v l m e).0 in
    let out = perm_middle {a = v} (front ++ back) l.freelist in
    let moved = Perm.append (perm_middle {a = v} front back) (Perm.refl l.freelist) in
    subst (λ f. Perm ((front ++ back) ++ f) k.freelist) (sym free)
      (Perm.trans out (Perm.trans (Perm.symm moved) (all_pages run)))

-- From a free list without repetitions, in whatever order pages are allocated, and pages in use
-- freed: those in use and those that are free are together the pages of the start, so that no page
-- is lost; and they are all different, so that the next page that `kalloc` hands out is none of
-- those in use, and is handed out once.
pub Run-Nodup :
    {kend : ℕ} {k l : Kmem} {used : List ℕ}
    → Nodup k.freelist
    → Run kend k used l
    → Perm (used ++ l.freelist) k.freelist × Nodup (used ++ l.freelist)
Run-Nodup distinct run = (all_pages run, Perm.nodup (Perm.symm (all_pages run)) distinct)
