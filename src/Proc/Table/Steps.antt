-- ===== src/Proc/Table/Steps.antt =====
-- The table of kernel/proc.c in every kernel that its operations reach from boot.
use cs_3224_operating_system.Base.{
  ℕ, zero, suc, ◌+◌, ◌^◌, ◌<◌, ◌≡◌, refl, subst, Option, none, some, List, [], arith, if◌then◌else◌,
  ◌==◌, get_or, replicate, length-replicate, Bool-cases, some_inj, inl, inr,
}
use cs_3224_operating_system.Proc.Types.{
  ProcState, Chan, Proc, Call, Kernel, nproc, blank, is_unused, proc_at, put_proc, call,
}
use cs_3224_operating_system.Proc.Sleep.{find_proc, wakeup, sleep, awake, kill, yield}
use cs_3224_operating_system.Proc.Alloc.{
  Entries, claim, prepare, allocproc, first_proc, userinit, growproc,
}
use cs_3224_operating_system.Proc.Fork.{dup_loop, copy_proc, name_child, publish, undo}
use cs_3224_operating_system.Proc.Exit.{Waited, let_go, die, wait, Times, WaitedStat, wait_stat}
use cs_3224_operating_system.Proc.Lottery.{switch_to}
use cs_3224_operating_system.Proc.Table.Frame.{
  InUse, WellFormed, Keeps, Keeps-refl, Keeps-trans, Keeps-WellFormed, Keeps-call, Keeps-put,
  Keeps-wakeup1,
}
use cs_3224_operating_system.Proc.Table.Ops.{
  Keeps-yield, Keeps-sleep, Keeps-awake, Keeps-kill, Keeps-let_go, Keeps-die, AfterWait, Keeps-wait,
  AfterStat, Keeps-wait_stat,
}
use cs_3224_operating_system.Proc.Table.Create.{
  First, find_proc-First, nextpid-claim, claim-WellFormed, Allocated, allocproc-Allocated,
}
use cs_3224_operating_system.Proc.Table.Child.{
  FilesOnly-Keeps, dup_loop-FilesOnly, publish-Keeps, undo-Keeps,
}

-- The kernel before `userinit`: the table is all zero bytes.
abbrev pub boot : List ℕ → ℕ → Kernel
boot random ticks = record {
  procs = replicate nproc blank;
  nextpid = 1;
  random_int = random;
  initproc = none;
  ticks = ticks;
  calls = [];
}

-- One step, by a process `cur` that is in use where the step has a caller. What runs in a critical
-- section of `ptable.lock` is one step; the parts of `fork` and `exit` outside of it are steps of
-- their own, with those of other processes in between.
pub data Step (e : Entries) : Kernel → Kernel → Type 0 where
  yields : {k : Kernel} (cur : ℕ) → InUse k cur → Step e k (yield cur k)
  sleeps :
      {k k' : Kernel} (cur : ℕ) (c : Chan)
      → InUse k cur
      → sleep (some cur) c k ≡ some k'
      → Step e k k'
  wakes_up : {k : Kernel} (cur : ℕ) → Step e k (awake cur k)
  wakeups : {k : Kernel} (c : Chan) → Step e k (wakeup c k)
  kills : {k : Kernel} (pid : ℕ) → Step e k (kill pid k).1
  reaps : {k k' : Kernel} (cur pid : ℕ) → InUse k cur → wait cur k ≡ Waited.pid pid k' → Step e k k'
  waits :
      {k k' : Kernel} (cur : ℕ) → InUse k cur → wait cur k ≡ Waited.asleep (some k') → Step e k k'
  reaps_stat :
      {k k' : Kernel} (cur pid : ℕ) (t : Times)
      → InUse k cur
      → wait_stat cur k ≡ WaitedStat.stat pid t k'
      → Step e k k'
  waits_stat :
      {k k' : Kernel} (cur : ℕ)
      → InUse k cur
      → wait_stat cur k ≡ WaitedStat.asleep (some k')
      → Step e k k'
  -- The parts of `allocproc`: its critical section, what it does to the entry without the lock, and
  -- what it undoes.
  claims :
      {k : Kernel} (i : ℕ)
      → find_proc (λ p. is_unused p.state) 0 k.procs ≡ some i
      → k.nextpid + 1 < 2 ^ 31
      → Step e k (claim i k)
  prepares :
      {k : Kernel} (page i : ℕ)
      → InUse k i
      → Step e k (put_proc k i (prepare e page k.ticks (proc_at k i)))
  gives_up :
      {k : Kernel} (i : ℕ)
      → Step e k (put_proc k i (record (proc_at k i) { kstack = 0; state = ProcState.unused }))
  -- The parts of `fork` after it, for the entry `np` of the child.
  undoes : {k : Kernel} (np : ℕ) → Step e k (undo np k)
  copies :
      {k : Kernel} (cur pgdir np : ℕ)
      → InUse k cur
      → InUse k np
      → Step e k (put_proc k np (copy_proc cur pgdir (proc_at k cur) (proc_at k np)))
  dups : {k : Kernel} (rounds i cur np : ℕ) → Step e k (dup_loop rounds i cur np k)
  names : {k : Kernel} (cur np : ℕ) → InUse k np → Step e k (name_child cur np k)
  publishes : {k : Kernel} (np : ℕ) → InUse k np → Step e k (publish np k)
  -- The parts of `exit`.
  lets_go : {k : Kernel} (cur : ℕ) → InUse k cur → Step e k (let_go cur k)
  dies : {k : Kernel} (cur : ℕ) → InUse k cur → Step e k (die cur k)
  switches : {k : Kernel} (i : ℕ) → InUse k i → Step e k (switch_to (λ j m. m) i k)
  grows : {k : Kernel} (cur n size : ℕ) → InUse k cur → Step e k (growproc cur n size k).1
  ticks : {k : Kernel} (t : ℕ) → Step e k (record k { ticks = t })

pub data Reached (e : Entries) (k : Kernel) : Kernel → Type 0 where
  start : Reached e k k
  step : {l m : Kernel} → Reached e k l → Step e l m → Reached e k m

pub boot-WellFormed : (random : List ℕ) (t : ℕ) → WellFormed (boot random t)
boot-WellFormed random t = record {
  size = length-replicate nproc blank;
  next = omega arith;
  pids = λ i u. absurd (u (empty nproc i));
  unique = λ i j u v same. absurd (u (empty nproc i));
  tickets = λ i u. absurd (u (empty nproc i));
}
  where
    empty : (n i : ℕ) → (get_or (replicate n blank) i blank).state ≡ ProcState.unused
    empty zero i = refl
    empty (suc n) zero = refl
    empty (suc n) (suc i) = empty n i

-- An entry in use stays so with its process id and tickets, whatever else changes.
Keeps-used :
    (k : Kernel) (i : ℕ) (p : Proc)
    → InUse k i
    → p.pid ≡ (proc_at k i).pid
    → p.tickets ≡ (proc_at k i).tickets
    → Keeps k (put_proc k i p)
Keeps-used k i p u same_pid same_tickets =
    Keeps-put k i p (λ v. record { in_use = u; pid = same_pid; tickets = inl same_tickets })

Keeps-switch : (i : ℕ) (k : Kernel) → InUse k i → Keeps k (switch_to (λ j m. m) i k)
unfolding switch_to
Keeps-switch i k u = Keeps-trans (Keeps-call k (Call.switchuvm i)) (
    Keeps-trans (Keeps-used (call k (Call.switchuvm i)) i _ u refl refl)
      (Keeps-call _ Call.switchkvm))

Keeps-growproc : (cur n size : ℕ) (k : Kernel) → InUse k cur → Keeps k (growproc cur n size k).1
unfolding growproc
Keeps-growproc cur n size k u =
    let resized : (sz : ℕ)
        → Keeps k
            (call (put_proc k cur (record (proc_at k cur) { sz = sz })) (Call.switchuvm cur)) =
      λ sz. Keeps-trans (Keeps-used k cur _ u refl refl) (Keeps-call _ (Call.switchuvm cur)) in
    elim (Bool-cases (n == 0)) [
      | inl none_asked ↦ rw none_asked (resized (proc_at k cur).sz)
      | inr asked ↦ elim (Bool-cases (size == 0)) [
        | inl full ↦ rw (asked, full) (Keeps-refl k)
        | inr room ↦ rw (asked, room) (resized size)
      ]
    ]

-- A well-formed table, and a next process id that is a positive `int`.
pub record Sound (k : Kernel) : Type 0 where
  pub well : WellFormed k
  pub low : k.nextpid < 2 ^ 31

Keeps-Sound : {k k' : Kernel} → Keeps k k' → Sound k → Sound k'
Keeps-Sound s w = record { well = Keeps-WellFormed s w.well; low = omega (arith, s.next, w.low) }

Step-Sound : {e : Entries} {k k' : Kernel} → Step e k k' → Sound k → Sound k'
unfolding wakeup prepare copy_proc name_child
Step-Sound (Step.yields {k} cur u) w = Keeps-Sound (Keeps-yield cur k u) w
Step-Sound (Step.sleeps {k} cur c u z) w = Keeps-Sound (Keeps-sleep cur c k u z) w
Step-Sound (Step.wakes_up {k} cur) w = Keeps-Sound (Keeps-awake cur k) w
Step-Sound (Step.wakeups {k} c) w = Keeps-Sound (Keeps-wakeup1 c k) w
Step-Sound (Step.kills {k} pid) w = Keeps-Sound (Keeps-kill pid k) w
Step-Sound (Step.reaps {k} cur pid u z) w =
    Keeps-Sound (subst (AfterWait (Keeps k)) z (Keeps-wait cur k u)) w
Step-Sound (Step.waits {k} cur u z) w =
    Keeps-Sound (subst (AfterWait (Keeps k)) z (Keeps-wait cur k u)) w
Step-Sound (Step.reaps_stat {k} cur pid t u z) w =
    Keeps-Sound (subst (AfterStat (Keeps k)) z (Keeps-wait_stat cur k u)) w
Step-Sound (Step.waits_stat {k} cur u z) w =
    Keeps-Sound (subst (AfterStat (Keeps k)) z (Keeps-wait_stat cur k u)) w
Step-Sound (Step.claims {k} i z ids) w =
    let f =
      subst (First (λ p. is_unused p.state) 0 k.procs) z
        (find_proc-First (λ p. is_unused p.state) 0 k.procs) in
    record {
      well = claim-WellFormed i k (omega (arith, f.1)) w.well ids;
      low = omega (arith, nextpid-claim i k, ids);
    }
Step-Sound (Step.prepares {k} page i u) w = Keeps-Sound (Keeps-used k i _ u refl refl) w
Step-Sound (Step.gives_up {k} i) w = Keeps-Sound (Keeps-put k i _ (λ v. absurd (v refl))) w
Step-Sound (Step.undoes {k} np) w = Keeps-Sound (undo-Keeps np k) w
Step-Sound (Step.copies {k} cur pgdir np u v) w =
    Keeps-Sound
      (Keeps-put k np (copy_proc cur pgdir (proc_at k cur) (proc_at k np))
        (λ z. record { in_use = v; pid = refl; tickets = inr ((w.well).tickets cur u) }))
      w
Step-Sound (Step.dups {k} rounds i cur np) w =
    Keeps-Sound (FilesOnly-Keeps (dup_loop-FilesOnly rounds i cur np k)) w
Step-Sound (Step.names {k} cur np u) w =
    Keeps-Sound (Keeps-trans (Keeps-used k np _ u refl refl) (Keeps-call _ _)) w
Step-Sound (Step.publishes {k} np u) w = Keeps-Sound (publish-Keeps np k u) w
Step-Sound (Step.lets_go {k} cur u) w = Keeps-Sound (Keeps-let_go cur k u).0 w
Step-Sound (Step.dies {k} cur u) w = Keeps-Sound (Keeps-die cur k u) w
Step-Sound (Step.switches {k} i u) w = Keeps-Sound (Keeps-switch i k u) w
Step-Sound (Step.grows {k} cur n size u) w = Keeps-Sound (Keeps-growproc cur n size k u) w
Step-Sound (Step.ticks t) w = record {
  well = record {
    size = (w.well).size;
    next = (w.well).next;
    pids = (w.well).pids;
    unique = (w.well).unique;
    tickets = (w.well).tickets;
  };
  low = w.low;
}

Reached-Sound : {e : Entries} {k k' : Kernel} → Reached e k k' → Sound k → Sound k'
Reached-Sound Reached.start w = w
Reached-Sound (Reached.step r s) w = Step-Sound s (Reached-Sound r w)

userinit-Sound :
    (e : Entries) (page pgdir root : ℕ) (k : Kernel) {k' : Kernel}
    → WellFormed k
    → k.nextpid + 1 < 2 ^ 31
    → userinit e page pgdir root k ≡ some k'
    → Sound k'
unfolding userinit first_proc
userinit-Sound e page pgdir root k {k'} w ids z =
    go (allocproc e page k).0 (allocproc-Allocated e page k w ids) z
  where
    go :
        (o : Option ℕ)
        → Allocated k o (allocproc e page k).1
        → (elim o as (λ x. Option Kernel) [
          | none ↦ none
          | some i ↦
              (let k'' =
                  call
                    (record ((allocproc e page k).1) { initproc = some i })
                    (Call.inituvm pgdir) in
                if pgdir == 0
                then none
                else some (put_proc k'' i (first_proc pgdir root (proc_at k'' i))))
        ])
          ≡ some k'
        → Sound k'
    go none a z = absurd (cc)
    go (some i) a z =
        let k1 = (allocproc e page k).1 in
        let set_init : Keeps k1 (record k1 { initproc = some i }) = record {
          size = refl;
          next = refl;
          entry = λ j u. record { in_use = u; pid = refl; tickets = inl refl };
        } in
        let k2 = call (record k1 { initproc = some i }) (Call.inituvm pgdir) in
        let made =
          Keeps-trans (Keeps-trans set_init (Keeps-call _ (Call.inituvm pgdir)))
            (Keeps-used k2 i (first_proc pgdir root (proc_at k2 i)) (a.fresh i refl).1 refl refl) in
        elim (Bool-cases (pgdir == 0)) [
          | inl full ↦ let z' = rw full at z in absurd (cc)
          | inr room ↦
              let z' = rw room at z in
              let now : Sound k1 = record { well = a.well; low = omega (arith, a.next) } in
              subst Sound (some_inj z') (Keeps-Sound made now)
        ]

-- In every kernel that the steps of the processes, in any order, reach from boot, once `userinit`
-- has made the first process and as long as each new process finds `nextpid` below the largest
-- `int`: the table has NPROC entries, those in use have process ids that are positive, below
-- `nextpid` and different from each other, and from 1 to 999 tickets, and `nextpid` is a positive
-- `int`.
pub Reached-userinit :
    (e : Entries) (random : List ℕ) (t page pgdir root : ℕ) {k k' : Kernel}
    → userinit e page pgdir root (boot random t) ≡ some k
    → Reached e k k'
    → Sound k'
Reached-userinit e random t page pgdir root z r =
    Reached-Sound r
      (userinit-Sound e page pgdir root (boot random t) (boot-WellFormed random t) (omega arith) z)
