-- ===== src/Proc/Exit.antt =====
-- `exit`, `wait` and `wait_stat` of kernel/proc.c in homework-3-lottery-scheduling.
use cs_3224_operating_system.Base.{
  ℕ, zero, suc, ◌+◌, ◌-◌, ◌%◌, ◌^◌, Bool, true, false, ◌||◌, not, Option, none, some, List, [], ◌∷◌,
  if◌then◌else◌, ◌==◌, get_or, set, length,
}
use cs_3224_operating_system.Proc.Types.{
  ProcState, Chan, Proc, Call, Kernel, nofile, is_zombie, proc_at, put_proc, call,
}
use cs_3224_operating_system.Proc.Sleep.{wakeup1, sleep}

-- The channel of a process pointer.
abbrev pub chan_of : Option ℕ → Chan
chan_of none = Chan.null
chan_of (some i) = Chan.of_proc i

-- Equality of process pointers.
abbrev pub same_proc : Option ℕ → Option ℕ → Bool
same_proc none none = true
same_proc (some i) (some j) = i == j
same_proc _ _ = false

-- The loop that closes the open files, with the rounds left.
unfoldable pub close_loop : (rounds fd cur : ℕ) → Kernel → Kernel
close_loop zero fd cur k = k
close_loop (suc rounds) fd cur k =
    let p = proc_at k cur in
    let f = get_or p.ofile fd 0 in
    let closed = put_proc (call k (Call.fileclose f)) cur (record p { ofile = set p.ofile fd 0 }) in
    close_loop rounds (fd + 1) cur (if f == 0 then k else closed)

-- What the loop over abandoned children does with entry `i`.
unfoldable pub reparent : (cur i : ℕ) → Kernel → Kernel
unfolding wakeup1
reparent cur i k =
    let p = proc_at k i in
    let passed = put_proc k i (record p { parent = k.initproc }) in
    if same_proc p.parent (some cur)
    then (if is_zombie p.state then wakeup1 (chan_of k.initproc) passed else passed)
    else k

unfoldable pub reparent_loop : (rounds i cur : ℕ) → Kernel → Kernel
unfolding reparent
reparent_loop zero i cur k = k
reparent_loop (suc rounds) i cur k = reparent_loop rounds (i + 1) cur (reparent cur i k)

-- `exit` before its critical section: the files and the directory of the process.
unfoldable pub let_go : ℕ → Kernel → Kernel
unfolding close_loop
let_go cur k =
    let closed = close_loop nofile 0 cur k in
    let left =
      call (call (call closed Call.begin_op) (Call.iput (proc_at closed cur).cwd)) Call.end_op in
    put_proc left cur (record (proc_at left cur) { cwd = 0 })

-- The critical section, up to the switch to the scheduler.
unfoldable pub die : ℕ → Kernel → Kernel
unfolding wakeup1 reparent_loop
die cur out =
    let told = wakeup1 (chan_of (proc_at out cur).parent) out in
    let passed = reparent_loop (length told.procs) 0 cur told in
    let dead =
      put_proc passed cur
        (record (proc_at passed cur) { state = ProcState.zombie; ttime = passed.ticks }) in
    call dead (Call.sched cur)

-- `exit` in process `cur`, up to the switch to the scheduler, from which it does not come back, with
-- no other process in between. `none` is a panic.
unfoldable pub exit : ℕ → Kernel → Option Kernel
unfolding let_go die
exit cur k = if same_proc (some cur) k.initproc then none else some (die cur (let_go cur k))

-- What one scan of the table by `wait` finds: a zombie child, or whether there are children.
pub data Scan : Type 0 where
  found : ℕ → Scan
  kids : Bool → Scan

unfoldable pub scan_kids : (cur i : ℕ) → Bool → List Proc → Scan
scan_kids cur i havekids [] = Scan.kids havekids
scan_kids cur i havekids (p ∷ ps) =
    let mine = same_proc p.parent (some cur) in
    let more = scan_kids cur (i + 1) (mine || havekids) ps in
    if mine then (if is_zombie p.state then Scan.found i else more) else more

-- The entry of a reaped child.
unfoldable pub reaped : Proc → Proc
reaped p = record p {
  kstack = 0;
  state = ProcState.unused;
  pid = 0;
  parent = none;
  name = set p.name 0 0;
  killed = false;
}

-- One round of the loop of `wait`: it returns a process id, or -1, or sleeps and scans again.
pub data Waited : Type 0 where
  pid : ℕ → Kernel → Waited
  failed : Kernel → Waited
  asleep : Option Kernel → Waited

unfoldable pub wait : ℕ → Kernel → Waited
unfolding scan_kids reaped sleep
wait cur k = elim (scan_kids cur 0 false k.procs) [
  | Scan.found i ↦
      (let p = proc_at k i in
        let freed = call (call k (Call.kfree p.kstack)) (Call.freevm p.pgdir) in
        Waited.pid p.pid (put_proc freed i (reaped p)))
  | Scan.kids have ↦
      if not have || (proc_at k cur).killed
      then Waited.failed k
      else Waited.asleep (sleep (some cur) (Chan.of_proc cur) k)
]

-- The five times that `wait_stat` stores.
pub record Times : Type 0 where
  pub ctime : ℕ
  pub ttime : ℕ
  pub retime : ℕ
  pub rutime : ℕ
  pub stime : ℕ

-- `a - b` on 32-bit words
abbrev pub sub32 : ℕ → ℕ → ℕ
sub32 a b = (a + (2 ^ 32 - b % 2 ^ 32)) % 2 ^ 32

unfoldable pub times : Proc → Times
times p = record {
  ctime = p.ctime;
  ttime = p.ttime;
  retime = sub32 (sub32 (sub32 p.ttime p.rutime) p.ctime) p.stime;
  rutime = p.rutime;
  stime = p.stime;
}

-- One round of `wait_stat`: as `wait`, with the times of a reaped child.
pub data WaitedStat : Type 0 where
  stat : ℕ → Times → Kernel → WaitedStat
  failed : Kernel → WaitedStat
  asleep : Option Kernel → WaitedStat

unfoldable pub wait_stat : ℕ → Kernel → WaitedStat
unfolding scan_kids reaped times sleep
wait_stat cur k = elim (scan_kids cur 0 false k.procs) [
  | Scan.found i ↦
      (let p = proc_at k i in
        let freed = call (call k (Call.kfree p.kstack)) (Call.freevm p.pgdir) in
        WaitedStat.stat p.pid (times p) (put_proc freed i (record (reaped p) { ttime = 0 })))
  | Scan.kids have ↦
      if not have || (proc_at k cur).killed
      then WaitedStat.failed k
      else WaitedStat.asleep (sleep (some cur) (Chan.of_proc cur) k)
]
