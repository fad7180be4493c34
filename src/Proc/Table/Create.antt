-- ===== src/Proc/Table/Create.antt =====
-- `allocproc` of kernel/proc.c keeps the table well formed.
use cs_3224_operating_system.Base.{
  ℕ, zero, suc, ◌+◌, ◌-◌, ◌%◌, ◌^◌, ◌≤◌, ◌<◌, ◌≡◌, refl, ◌≢◌, ◌∙◌, ap, sym, inl, inr, Bool, true,
  false, Option, none, some, List, [], ◌∷◌, arith, if◌then◌else◌, ◌==◌, length, get_or, length-set,
  get_or-set_self, get_or-set_ne, Bool-cases, some_inj,
}
use native.Mathlib.Decide.{ℕ_discrete}
use cs_3224_operating_system.Proc.Types.{
  ProcState, Proc, Kernel, blank, is_unused, proc_at, put_proc,
}
use cs_3224_operating_system.Proc.Random.{get_random}
use cs_3224_operating_system.Proc.Sleep.{find_proc}
use cs_3224_operating_system.Proc.Alloc.{Entries, claim, prepare, allocproc}
use cs_3224_operating_system.Proc.Table.Frame.{InUse, WellFormed, Same, Keeps-WellFormed, Keeps-put}

-- What a scan from index `i` on returns: the first entry that passes the test.
abbrev pub First : (Proc → Bool) → ℕ → List Proc → Option ℕ → Type 0
First test i ps none = (j : ℕ) → j < length ps → test (get_or ps j blank) ≡ false
First test i ps (some j) =
    (i ≤ j)
    × (j < i + length ps)
    × (test (get_or ps (j - i) blank) ≡ true)
    × ((m : ℕ) → m < j - i → test (get_or ps m blank) ≡ false)

pub find_proc-First :
    (test : Proc → Bool) (i : ℕ) (ps : List Proc) → First test i ps (find_proc test i ps)
unfolding find_proc
find_proc-First test i [] = λ j h. absurd (omega arith)
find_proc-First test i (p ∷ ps) = elim (Bool-cases (test p)) [
  | inl hit ↦
      let e : i - i ≡ 0 = omega arith in
      rw hit (omega arith, omega arith, rw e hit, λ m h. absurd (omega arith))
  | inr miss ↦ rw miss (go (find_proc test (i + 1) ps) (find_proc-First test (i + 1) ps) miss)
]
  where
    go : (o : Option ℕ) → First test (i + 1) ps o → test p ≡ false → First test i (p ∷ ps) o
    go none h miss = λ j lt. below j lt
      where
        below : (j : ℕ) → j < suc (length ps) → test (get_or (p ∷ ps) j blank) ≡ false
        below zero lt = miss
        below (suc j) lt = h j (omega arith)
    go (some j) h miss =
        let e : j - i ≡ suc (j - (i + 1)) = omega arith in
        (omega arith, omega arith, rw e h.2, below)
      where
        below : (m : ℕ) → m < j - i → test (get_or (p ∷ ps) m blank) ≡ false
        below zero lt = miss
        below (suc m) lt = h.3 m (omega arith)

abbrev claimed : ℕ → Kernel → Proc
claimed i k = record (proc_at k i) {
  state = ProcState.embryo;
  pid = k.nextpid;
  tickets = (get_random k.random_int).0 % 999 + 1;
}

pub claim_self : (i : ℕ) (k : Kernel) → i < length k.procs → proc_at (claim i k) i ≡ claimed i k
unfolding claim
claim_self i k h = get_or-set_self k.procs i (claimed i k) blank h

pub claim_other : (i j : ℕ) (k : Kernel) → i ≢ j → proc_at (claim i k) j ≡ proc_at k j
unfolding claim
claim_other i j k ne = get_or-set_ne k.procs i j (claimed i k) blank ne

pub length-claim : (i : ℕ) (k : Kernel) → length (claim i k).procs ≡ length k.procs
unfolding claim
length-claim i k = length-set k.procs i (claimed i k)

pub nextpid-claim : (i : ℕ) (k : Kernel) → (claim i k).nextpid ≡ (k.nextpid + 1) % 2 ^ 32
unfolding claim
nextpid-claim i k = refl

-- A free entry becomes a process with a new id, if there is one left.
module _ (i : ℕ) (k : Kernel) (h : i < length k.procs) (w : WellFormed k)
    (ids_left : k.nextpid + 1 < 2 ^ 31) where
  pid_self : (j : ℕ) → i ≡ j → (proc_at (claim i k) j).pid ≡ k.nextpid
  pid_self j e = rw (← e) (ap (λ (p : Proc). p.pid) (claim_self i k h))

  pid_other : (j : ℕ) → i ≢ j → (proc_at (claim i k) j).pid ≡ (proc_at k j).pid
  pid_other j ne = ap (λ (p : Proc). p.pid) (claim_other i j k ne)

  use_other : (j : ℕ) → i ≢ j → InUse (claim i k) j → InUse k j
  use_other j ne u z = u (ap (λ (p : Proc). p.state) (claim_other i j k ne) ∙ z)

  pub claim-WellFormed : WellFormed (claim i k)
  claim-WellFormed = record {
    size = length-claim i k ∙ w.size;
    next = omega (arith, nextpid-claim i k, ids_left);
    pids = λ j u. elim (ℕ_discrete i j) [
      | yes e ↦ omega (arith, pid_self j e, nextpid-claim i k, w.next, ids_left)
      | no ne ↦
          let p = w.pids j (use_other j ne u) in
          omega (arith, p, pid_other j ne, nextpid-claim i k, ids_left)
    ];
    unique = λ j l u v e. elim (ℕ_discrete i j) [
      | yes ej ↦ elim (ℕ_discrete i l) [
        | yes el ↦ sym ej ∙ el
        | no nl ↦
            let p = w.pids l (use_other l nl v) in
            absurd (omega (arith, p, pid_self j ej, pid_other l nl, e))
      ]
      | no nj ↦ elim (ℕ_discrete i l) [
        | yes el ↦
            let p = w.pids j (use_other j nj u) in
            absurd (omega (arith, p, pid_self l el, pid_other j nj, e))
        | no nl ↦
            w.unique j l (use_other j nj u) (use_other l nl v)
              (sym (pid_other j nj) ∙ e ∙ pid_other l nl)
      ]
    ];
    tickets = λ j u. elim (ℕ_discrete i j) [
      | yes e ↦
          let t : (proc_at (claim i k) j).tickets ≡ (get_random k.random_int).0 % 999 + 1 =
            rw (← e) (ap (λ (p : Proc). p.tickets) (claim_self i k h)) in
          omega (arith, t)
      | no ne ↦
          let t = ap (λ (p : Proc). p.tickets) (claim_other i j k ne) in
          let v = w.tickets j (use_other j ne u) in omega (arith, t, v)
    ];
  }

  pub use_claim : InUse (claim i k) i
  use_claim z = let e = sym (ap (λ (p : Proc). p.state) (claim_self i k h)) ∙ z in cc

-- What `allocproc` leaves, in both results.
pub record Allocated (k : Kernel) (o : Option ℕ) (k' : Kernel) : Type 0 where
  pub well : WellFormed k'
  pub next : k'.nextpid ≤ k.nextpid + 1
  pub fresh : (i : ℕ) → o ≡ some i → ((proc_at k i).state ≡ ProcState.unused) × InUse k' i
  pub others : (j : ℕ) → InUse k j → proc_at k' j ≡ proc_at k j

is_unused-eq : (s : ProcState) → is_unused s ≡ true → s ≡ ProcState.unused
is_unused-eq s h = ground arith

put_other :
    (i j : ℕ) (k : Kernel) (p : Proc)
    → (proc_at k i).state ≡ ProcState.unused
    → InUse k j
    → proc_at (put_proc (claim i k) i p) j ≡ proc_at k j
put_other i j k p free u =
    let ne : i ≢ j = λ e. u (rw (← e) free) in
    get_or-set_ne (claim i k).procs i j p blank ne ∙ claim_other i j k ne

put_self :
    (i : ℕ) (k : Kernel) (p : Proc) → i < length k.procs → proc_at (put_proc (claim i k) i p) i ≡ p
put_self i k p h = get_or-set_self (claim i k).procs i p blank (omega (arith, length-claim i k))

-- A claimed entry, changed to `p`.
claimed-Allocated :
    (i : ℕ) (k : Kernel) (p : Proc)
    → i < length k.procs
    → (proc_at k i).state ≡ ProcState.unused
    → WellFormed k
    → k.nextpid + 1 < 2 ^ 31
    → (p.state ≢ ProcState.unused → Same (proc_at (claim i k) i) p)
    → p.state ≢ ProcState.unused
    → Allocated k (some i) (put_proc (claim i k) i p)
claimed-Allocated i k p h free w ids same in_use = record {
  well = Keeps-WellFormed (Keeps-put (claim i k) i p same) (claim-WellFormed i k h w ids);
  next = omega (arith, nextpid-claim i k);
  fresh = λ j e.
      let e' = some_inj e in
      (
        rw (← e') free,
        λ z. in_use (
            sym (ap (λ (q : Proc). q.state) (put_self i k p h))
            ∙ ap (λ m. (proc_at (put_proc (claim i k) i p) m).state) e'
            ∙ z),
      );
  others = λ j u. put_other i j k p free u;
}

dropped-Allocated :
    (i : ℕ) (k : Kernel) (p : Proc)
    → i < length k.procs
    → (proc_at k i).state ≡ ProcState.unused
    → WellFormed k
    → k.nextpid + 1 < 2 ^ 31
    → p.state ≡ ProcState.unused
    → Allocated k none (put_proc (claim i k) i p)
dropped-Allocated i k p h free w ids out = record {
  well =
      Keeps-WellFormed (Keeps-put (claim i k) i p (λ u. absurd (u out)))
        (claim-WellFormed i k h w ids);
  next = omega (arith, nextpid-claim i k);
  fresh = λ j e. absurd (cc);
  others = λ j u. put_other i j k p free u;
}

-- While `nextpid` has not reached the largest `int`, `allocproc` keeps a well-formed table well
-- formed, also when no entry is free or there is no page
-- for the stack; the entry that it returns was free and is in use, and no entry in use is changed.
pub allocproc-Allocated :
    (e : Entries) (page : ℕ) (k : Kernel)
    → WellFormed k
    → k.nextpid + 1 < 2 ^ 31
    → Allocated k (allocproc e page k).0 (allocproc e page k).1
unfolding allocproc prepare
allocproc-Allocated e page k w ids =
    go (find_proc (λ p. is_unused p.state) 0 k.procs)
      (find_proc-First (λ p. is_unused p.state) 0 k.procs)
  where
    go :
        (o : Option ℕ)
        → First (λ p. is_unused p.state) 0 k.procs o
        → let r : Option ℕ × Kernel = elim o as (λ x. Option ℕ × Kernel) [
          | none ↦ (none, k)
          | some i ↦
              (if page == 0
                then (
                  none,
                  put_proc
                      (claim i k)
                      i
                      (record (proc_at (claim i k) i) { kstack = 0; state = ProcState.unused }),
                )
                else (
                  some i,
                  put_proc (claim i k) i (prepare e page k.ticks (proc_at (claim i k) i)),
                ))
        ] in
          Allocated k r.0 r.1
    go none f = record {
      well = w;
      next = omega arith;
      fresh = λ i z. absurd (cc);
      others = λ j u. refl;
    }
    go (some i) f =
        let e0 : i - 0 ≡ i = omega arith in
        let free : (proc_at k i).state ≡ ProcState.unused = is_unused-eq _ (rw e0 at f.2) in
        let use_i = use_claim i k (omega (arith, f.1)) w ids in
        elim (Bool-cases (page == 0)) [
          | inl full ↦ rw full (dropped-Allocated i k _ (omega (arith, f.1)) free w ids refl)
          | inr room ↦ rw room (
              claimed-Allocated i k _ (omega (arith, f.1)) free w ids
                (λ u. record { in_use = use_i; pid = refl; tickets = inl refl }) use_i)
        ]
