-- ===== src/Proc/Killed.antt =====
-- `kill` of kernel/proc.c with the id 0, which is the id of an entry that is not in use.
use cs_3224_operating_system.Base.{
  ℕ, zero, suc, ◌+◌, ◌<◌, ◌≡◌, refl, ◌≢◌, ◌∙◌, ap, sym, subst, Bool, true, false, Option, none,
  some, List, [], ◌∷◌, arith, ◌==◌, length, get_or, set, get_or-set_self, length-set, some_inj,
  Bool-cases, inl, inr,
}
use cs_3224_operating_system.Proc.Types.{
  ProcState, Proc, Kernel, blank, is_unused, is_sleeping, proc_at, put_proc,
}
use cs_3224_operating_system.Proc.Sleep.{find_proc, kill_proc, kill}
use cs_3224_operating_system.Proc.Alloc.{Entries, claim, prepare, allocproc}
use cs_3224_operating_system.Proc.Table.Frame.{InUse, WellFormed}
use cs_3224_operating_system.Proc.Table.Create.{First, find_proc-First, claim_self, length-claim}

-- Two tests that agree on every entry find the same entry.
find_proc-agree :
    (f g : Proc → Bool) (i : ℕ) (ps : List Proc)
    → ((j : ℕ) → j < length ps → f (get_or ps j blank) ≡ g (get_or ps j blank))
    → find_proc f i ps ≡ find_proc g i ps
unfolding find_proc
find_proc-agree f g i [] h = refl
find_proc-agree f g i (p ∷ ps) h =
    let here = h 0 (omega arith) in
    let rest = find_proc-agree f g (i + 1) ps (λ j lt. h (suc j) (omega arith)) in
    rw (here, rest) refl

-- The first entry that passes a test is still the first one after a change that keeps the test.
find_proc-set :
    (f : Proc → Bool) (i : ℕ) (ps : List Proc) (j : ℕ) (p : Proc)
    → f p ≡ f (get_or ps j blank)
    → find_proc f i (set ps j p) ≡ find_proc f i ps
unfolding find_proc
find_proc-set f i [] j p h = refl
find_proc-set f i (q ∷ ps) zero p h = rw h refl
find_proc-set f i (q ∷ ps) (suc j) p h = rw (find_proc-set f (i + 1) ps j p h) refl

kill_proc-is_unused : (p : Proc) → is_unused (kill_proc p).state ≡ is_unused p.state
unfolding kill_proc
kill_proc-is_unused p = elim (Bool-cases (is_sleeping p.state)) [
  | inl asleep ↦ rw asleep (ground arith)
  | inr other ↦ rw other refl
]

kill_proc-killed : (p : Proc) → (kill_proc p).killed ≡ true
unfolding kill_proc
kill_proc-killed p = elim (Bool-cases (is_sleeping p.state)) [
  | inl asleep ↦ rw asleep refl
  | inr other ↦ rw other refl
]

module _ (k : Kernel) (w : WellFormed k)
    (zero_pids : (j : ℕ) → (proc_at k j).state ≡ ProcState.unused → (proc_at k j).pid ≡ 0) where
  same_test : (j : ℕ) → ((proc_at k j).pid == 0) ≡ is_unused (proc_at k j).state
  same_test j = elim (Bool-cases (is_unused (proc_at k j).state)) [
    | inl free ↦ let z = zero_pids j (ground arith) in rw (z, free) refl
    | inr live ↦
        let u : InUse k j = λ z. let c = sym live ∙ ap is_unused z in cc in
        let pos = (w.pids j u).0 in rw live (ground arith)
  ]

  found_same : find_proc (λ p. p.pid == 0) 0 k.procs ≡ find_proc (λ p. is_unused p.state) 0 k.procs
  found_same =
      find_proc-agree (λ p. p.pid == 0) (λ p. is_unused p.state) 0 k.procs (λ j lt. same_test j)

-- What `allocproc` does with the entry that it finds.
allocproc-found :
    (e : Entries) (page a : ℕ) (m : Kernel)
    → page ≢ 0
    → find_proc (λ p. is_unused p.state) 0 m.procs ≡ some a
    → allocproc e page m
      ≡ (some a, put_proc (claim a m) a (prepare e page m.ticks (proc_at (claim a m) a)))
unfolding allocproc
allocproc-found e page a m ne h =
    let given : (page == 0) ≡ false = ground arith in rw (allocproc, h, given) refl

allocproc-none :
    (e : Entries) (page : ℕ) (m : Kernel)
    → find_proc (λ p. is_unused p.state) 0 m.procs ≡ none
    → allocproc e page m ≡ (none, m)
unfolding allocproc
allocproc-none e page m h = rw (allocproc, h) refl

-- An entry that has been killed and is then taken is killed still.
prepared-killed :
    (e : Entries) (page a : ℕ) (m : Kernel)
    → a < length m.procs
    → (proc_at (put_proc (claim a m) a (prepare e page m.ticks (proc_at (claim a m) a))) a).killed
      ≡ (proc_at m a).killed
unfolding prepare
prepared-killed e page a m lt =
    let len : a < length (claim a m).procs = omega (arith, lt, length-claim a m) in
    ap (λ (p : Proc). p.killed)
      (get_or-set_self (claim a m).procs a (prepare e page m.ticks (proc_at (claim a m) a)) blank
        len)
    ∙ ap (λ (p : Proc). p.killed) (claim_self a m lt)

-- If the entries that are not in use have the id 0, as they have at boot and after `wait`, then
-- `kill` of 0 marks the entry that `allocproc` takes next: where `allocproc` gets a page and returns
-- an entry, its process has been killed from the start.
pub kill-allocproc :
    (e : Entries) (page i : ℕ) (k k' : Kernel)
    → WellFormed k
    → ((j : ℕ) → (proc_at k j).state ≡ ProcState.unused → (proc_at k j).pid ≡ 0)
    → page ≢ 0
    → allocproc e page (kill 0 k).1 ≡ (some i, k')
    → (proc_at k' i).killed ≡ true
unfolding kill
kill-allocproc e page i k k' w zero_pids ne z =
    go (find_proc (λ p. p.pid == 0) 0 k.procs) (sym (found_same k w zero_pids))
      (find_proc-First (λ p. p.pid == 0) 0 k.procs) z
  where
    go :
        (o : Option ℕ)
        → find_proc (λ p. is_unused p.state) 0 k.procs ≡ o
        → First (λ p. p.pid == 0) 0 k.procs o
        → allocproc e page (
            (elim o as (λ x. Bool × Kernel) [
              | none ↦ (false, k)
              | some a ↦ (true, put_proc k a (kill_proc (proc_at k a)))
            ]).1)
          ≡ (some i, k')
        → (proc_at k' i).killed ≡ true
    go none first f z =
        let clash = ap (λ (x : Option ℕ × Kernel). x.0) (sym (allocproc-none e page k first) ∙ z) in
        absurd (cc)
    go (some a) first f z =
        let lt : a < length k.procs = omega (arith, f.1) in
        let m = put_proc k a (kill_proc (proc_at k a)) in
        let first1 : find_proc (λ p. is_unused p.state) 0 m.procs ≡ some a =
          find_proc-set (λ p. is_unused p.state) 0 k.procs a (kill_proc (proc_at k a))
            (kill_proc-is_unused (proc_at k a))
          ∙ first in
        let lt1 : a < length m.procs =
          omega (arith, lt, length-set k.procs a (kill_proc (proc_at k a))) in
        let marked : (proc_at m a).killed ≡ true =
          ap (λ (p : Proc). p.killed) (get_or-set_self k.procs a (kill_proc (proc_at k a)) blank lt)
          ∙ kill_proc-killed (proc_at k a) in
        let made = sym (allocproc-found e page a m ne first1) ∙ z in
        let at : a ≡ i = some_inj (ap (λ (x : Option ℕ × Kernel). x.0) made) in
        let now = ap (λ (x : Option ℕ × Kernel). x.1) made in
        subst (λ j. (proc_at k' j).killed ≡ true) at
          (subst (λ l. (proc_at l a).killed ≡ true) now (prepared-killed e page a m lt1 ∙ marked))
