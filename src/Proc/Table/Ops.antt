-- ===== src/Proc/Table/Ops.antt =====
-- The operations of kernel/proc.c that make no process keep the table well formed.
use cs_3224_operating_system.Base.{
  ℕ, zero, suc, ◌+◌, ◌≡◌, refl, ◌≢◌, ◌∙◌, ap, sym, subst, inl, inr, Bool, true, false, ◌||◌, not,
  Option, none, some, if◌then◌else◌, ◌==◌, length, get_or, set, Bool-cases, some_inj,
}
use cs_3224_operating_system.Proc.Types.{
  ProcState, Chan, Proc, Call, Kernel, nofile, is_sleeping, is_zombie, proc_at, put_proc, call,
}
use cs_3224_operating_system.Proc.Sleep.{wakeup1, find_proc, kill_proc, kill, sleep, awake, yield}
use cs_3224_operating_system.Proc.Exit.{
  chan_of, same_proc, close_loop, reparent, reparent_loop, let_go, die, Scan, scan_kids, reaped,
  Waited, wait, WaitedStat, wait_stat, times,
}
use cs_3224_operating_system.Proc.Table.Frame.{
  InUse, Same, Keeps, Keeps-refl, Keeps-trans, Keeps-call, Keeps-put, Keeps-wakeup1, Retains,
  Retains-put, Retains-wakeup1,
}

-- An entry in use may change in any way that keeps its id and tickets.
used : (p q : Proc) → p.state ≢ ProcState.unused → q.pid ≡ p.pid → q.tickets ≡ p.tickets → Same p q
used p q h e f = record { in_use = h; pid = e; tickets = inl f }

pub Keeps-yield : (cur : ℕ) (k : Kernel) → InUse k cur → Keeps k (yield cur k)
unfolding yield
Keeps-yield cur k h =
    Keeps-trans (Keeps-put k cur _ (λ u. used (proc_at k cur) _ h refl refl)) (Keeps-call _ _)

pub Keeps-sleep :
    (cur : ℕ) (c : Chan) (k : Kernel) {k' : Kernel}
    → InUse k cur
    → sleep (some cur) c k ≡ some k'
    → Keeps k k'
unfolding sleep
Keeps-sleep cur c k h e =
    let now = some_inj e in
    subst (λ m. Keeps k m) now
      (Keeps-trans (Keeps-put k cur _ (λ u. used (proc_at k cur) _ h refl refl)) (Keeps-call _ _))

pub Keeps-awake : (cur : ℕ) (k : Kernel) → Keeps k (awake cur k)
unfolding awake
Keeps-awake cur k = Keeps-put k cur _ (λ u. used (proc_at k cur) _ u refl refl)

-- `kill` may mark an entry that is not in use, and leaves it so.
kill_proc-Same : (p : Proc) → (kill_proc p).state ≢ ProcState.unused → Same p (kill_proc p)
unfolding kill_proc
kill_proc-Same p h = elim (Bool-cases (is_sleeping p.state)) [
  | inl asleep ↦
      rw asleep (used p _ (λ z. let clash = sym asleep ∙ ap is_sleeping z in cc) refl refl)
  | inr other ↦ rw other (used p _ (λ z. h (rw other z)) refl refl)
]

pub Keeps-kill : (pid : ℕ) (k : Kernel) → Keeps k (kill pid k).1
unfolding kill
Keeps-kill pid k = go (find_proc (λ p. p.pid == pid) 0 k.procs)
  where
    go :
        (o : Option ℕ)
        → Keeps k
            (elim o as (λ x. Bool × Kernel) [
              | none ↦ (false, k)
              | some i ↦ (true, put_proc k i (kill_proc (proc_at k i)))
            ]).1
    go none = Keeps-refl k
    go (some i) = Keeps-put k i _ (kill_proc-Same (proc_at k i))

close_loop-Keeps : (rounds fd cur : ℕ) (k : Kernel) → Keeps k (close_loop rounds fd cur k)
unfolding close_loop
close_loop-Keeps zero fd cur k = Keeps-refl k
close_loop-Keeps (suc rounds) fd cur k =
    let p = proc_at k cur in
    let f = get_or p.ofile fd 0 in
    let closed = put_proc (call k (Call.fileclose f)) cur (record p { ofile = set p.ofile fd 0 }) in
    let step : Keeps k (if f == 0 then k else closed) = elim (Bool-cases (f == 0)) [
      | inl shut ↦ rw shut (Keeps-refl k)
      | inr open_file ↦ rw open_file (
          Keeps-trans (Keeps-call k (Call.fileclose f))
            (Keeps-put (call k (Call.fileclose f)) cur _ (λ u. used p _ u refl refl)))
    ] in
    Keeps-trans step (close_loop-Keeps rounds (fd + 1) cur (if f == 0 then k else closed))

reparent-Keeps : (cur i : ℕ) (k : Kernel) → Keeps k (reparent cur i k)
unfolding reparent
reparent-Keeps cur i k =
    let p = proc_at k i in
    let passed = put_proc k i (record p { parent = k.initproc }) in
    let first : Keeps k passed = Keeps-put k i _ (λ u. used p _ u refl refl) in
    elim (Bool-cases (same_proc p.parent (some cur))) [
      | inl mine ↦ rw mine (elim (Bool-cases (is_zombie p.state)) [
        | inl dead ↦ rw dead (Keeps-trans first (Keeps-wakeup1 (chan_of k.initproc) passed))
        | inr alive ↦ rw alive first
      ])
      | inr other ↦ rw other (Keeps-refl k)
    ]

reparent_loop-Keeps : (rounds i cur : ℕ) (k : Kernel) → Keeps k (reparent_loop rounds i cur k)
unfolding reparent_loop
reparent_loop-Keeps zero i cur k = Keeps-refl k
reparent_loop-Keeps (suc rounds) i cur k =
    Keeps-trans (reparent-Keeps cur i k) (reparent_loop-Keeps rounds (i + 1) cur (reparent cur i k))

reaped-Same : (p : Proc) → (reaped p).state ≢ ProcState.unused → Same p (reaped p)
unfolding reaped
reaped-Same p h = absurd (h refl)

close_loop-Retains : (rounds fd cur : ℕ) (k : Kernel) → Retains k (close_loop rounds fd cur k)
unfolding close_loop
close_loop-Retains zero fd cur k i u = u
close_loop-Retains (suc rounds) fd cur k i u =
    let p = proc_at k cur in
    let f = get_or p.ofile fd 0 in
    let closed = put_proc (call k (Call.fileclose f)) cur (record p { ofile = set p.ofile fd 0 }) in
    let step : InUse (if f == 0 then k else closed) i = elim (Bool-cases (f == 0)) [
      | inl shut ↦ rw shut u
      | inr open_file ↦ rw open_file (Retains-put (call k (Call.fileclose f)) cur _ (λ v. v) i u)
    ] in
    close_loop-Retains rounds (fd + 1) cur (if f == 0 then k else closed) i step

reparent-Retains : (cur i : ℕ) (k : Kernel) → Retains k (reparent cur i k)
unfolding reparent
reparent-Retains cur i k j u =
    let p = proc_at k i in
    let passed = put_proc k i (record p { parent = k.initproc }) in
    let first : InUse passed j = Retains-put k i _ (λ v. v) j u in
    elim (Bool-cases (same_proc p.parent (some cur))) [
      | inl mine ↦ rw mine (elim (Bool-cases (is_zombie p.state)) [
        | inl dead ↦ rw dead (Retains-wakeup1 (chan_of k.initproc) passed j first)
        | inr alive ↦ rw alive first
      ])
      | inr other ↦ rw other u
    ]

reparent_loop-Retains : (rounds i cur : ℕ) (k : Kernel) → Retains k (reparent_loop rounds i cur k)
unfolding reparent_loop
reparent_loop-Retains zero i cur k j u = u
reparent_loop-Retains (suc rounds) i cur k j u =
    reparent_loop-Retains rounds (i + 1) cur (reparent cur i k) j (reparent-Retains cur i k j u)

-- What `exit` lets go of before its critical section.
pub Keeps-let_go :
    (cur : ℕ) (k : Kernel) → InUse k cur → Keeps k (let_go cur k) × InUse (let_go cur k) cur
unfolding let_go
Keeps-let_go cur k h =
    let closed = close_loop nofile 0 cur k in
    let left =
      call (call (call closed Call.begin_op) (Call.iput (proc_at closed cur).cwd)) Call.end_op in
    let use_closed : InUse closed cur = close_loop-Retains nofile 0 cur k cur h in
    (
      Keeps-trans (close_loop-Keeps nofile 0 cur k) (
          Keeps-trans
            (Keeps-trans (Keeps-trans (Keeps-call closed _) (Keeps-call _ _)) (Keeps-call _ _))
            (Keeps-put left cur _ (λ v. used (proc_at left cur) _ v refl refl))),
      Retains-put left cur _ (λ v. v) cur use_closed,
    )

pub Keeps-die : (cur : ℕ) (out : Kernel) → InUse out cur → Keeps out (die cur out)
unfolding die
Keeps-die cur out use_out =
    let told = wakeup1 (chan_of (proc_at out cur).parent) out in
    let passed = reparent_loop (length told.procs) 0 cur told in
    let use_told : InUse told cur = Retains-wakeup1 _ out cur use_out in
    let use_passed : InUse passed cur =
      reparent_loop-Retains (length told.procs) 0 cur told cur use_told in
    let to_passed : Keeps out passed =
      Keeps-trans (Keeps-wakeup1 _ out) (reparent_loop-Keeps (length told.procs) 0 cur told) in
    Keeps-trans to_passed (
      Keeps-trans (Keeps-put passed cur _ (λ v. used (proc_at passed cur) _ use_passed refl refl))
        (Keeps-call _ (Call.sched cur)))

-- The kernel after a round of `wait` that returns or goes to sleep.
abbrev pub AfterWait : (Kernel → Type 0) → Waited → Type 0
AfterWait P (Waited.pid pid k) = P k
AfterWait P (Waited.failed k) = P k
AfterWait P (Waited.asleep none) = Unit
AfterWait P (Waited.asleep (some k)) = P k

pub Keeps-wait : (cur : ℕ) (k : Kernel) → InUse k cur → AfterWait (Keeps k) (wait cur k)
unfolding wait sleep
Keeps-wait cur k h = go (scan_kids cur 0 false k.procs)
  where
    go :
        (s : Scan)
        → AfterWait (Keeps k) (elim s as (λ x. Waited) [
          | Scan.found i ↦ Waited.pid (proc_at k i).pid (
              put_proc
                (call (call k (Call.kfree (proc_at k i).kstack)) (Call.freevm (proc_at k i).pgdir))
                i
                (reaped (proc_at k i)))
          | Scan.kids have ↦
              if not have || (proc_at k cur).killed
              then Waited.failed k
              else Waited.asleep (sleep (some cur) (Chan.of_proc cur) k)
        ])
    go (Scan.found i) =
        Keeps-trans (Keeps-trans (Keeps-call k _) (Keeps-call _ _))
          (Keeps-put _ i _ (reaped-Same (proc_at k i)))
    go (Scan.kids have) = elim (Bool-cases (not have || (proc_at k cur).killed)) [
      | inl stop ↦ rw stop (Keeps-refl k)
      | inr on ↦ rw on (Keeps-sleep cur (Chan.of_proc cur) k h refl)
    ]

abbrev pub AfterStat : (Kernel → Type 0) → WaitedStat → Type 0
AfterStat P (WaitedStat.stat pid t k) = P k
AfterStat P (WaitedStat.failed k) = P k
AfterStat P (WaitedStat.asleep none) = Unit
AfterStat P (WaitedStat.asleep (some k)) = P k

pub Keeps-wait_stat : (cur : ℕ) (k : Kernel) → InUse k cur → AfterStat (Keeps k) (wait_stat cur k)
unfolding wait_stat reaped sleep
Keeps-wait_stat cur k h = go (scan_kids cur 0 false k.procs)
  where
    go :
        (s : Scan)
        → AfterStat (Keeps k) (elim s as (λ x. WaitedStat) [
          | Scan.found i ↦ WaitedStat.stat (proc_at k i).pid (times (proc_at k i)) (
              put_proc
                (call (call k (Call.kfree (proc_at k i).kstack)) (Call.freevm (proc_at k i).pgdir))
                i
                (record (reaped (proc_at k i)) { ttime = 0 }))
          | Scan.kids have ↦
              if not have || (proc_at k cur).killed
              then WaitedStat.failed k
              else WaitedStat.asleep (sleep (some cur) (Chan.of_proc cur) k)
        ])
    go (Scan.found i) =
        Keeps-trans (Keeps-trans (Keeps-call k _) (Keeps-call _ _))
          (Keeps-put _ i _ (λ u. absurd (u refl)))
    go (Scan.kids have) = elim (Bool-cases (not have || (proc_at k cur).killed)) [
      | inl stop ↦ rw stop (Keeps-refl k)
      | inr on ↦ rw on (Keeps-sleep cur (Chan.of_proc cur) k h refl)
    ]
