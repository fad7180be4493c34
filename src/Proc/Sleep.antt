-- ===== src/Proc/Sleep.antt =====
-- `sleep`, `wakeup1`, `wakeup`, `kill` and `yield` of kernel/proc.c.
use cs_3224_operating_system.Base.{
  ℕ, ◌+◌, Bool, true, false, ◌&&◌, Option, none, some, List, [], ◌∷◌, map, if◌then◌else◌, ◌==◌,
}
use cs_3224_operating_system.Proc.Types.{
  ProcState, Chan, Proc, Call, Kernel, is_sleeping, same_chan, proc_at, put_proc, call,
}

-- What the loop of `wakeup1` does to one entry.
unfoldable pub wake : Chan → Proc → Proc
wake c p =
    if is_sleeping p.state && same_chan p.chan c then record p { state = ProcState.runnable } else p

unfoldable pub wakeup1 : Chan → Kernel → Kernel
wakeup1 c k = record k { procs = map (wake c) k.procs }

unfoldable pub wakeup : Chan → Kernel → Kernel
wakeup c k = wakeup1 c k

-- The index of the first entry from `i` on that passes a test.
unfoldable pub find_proc : (Proc → Bool) → ℕ → List Proc → Option ℕ
find_proc test i [] = none
find_proc test i (p ∷ ps) = if test p then some i else find_proc test (i + 1) ps

-- The entry that `kill` finds.
unfoldable pub kill_proc : Proc → Proc
kill_proc p =
    let marked = record p { killed = true } in
    if is_sleeping p.state then record marked { state = ProcState.runnable } else marked

-- `true` is the result 0, and `false` is -1.
unfoldable pub kill : ℕ → Kernel → Bool × Kernel
unfolding find_proc kill_proc
kill pid k = elim (find_proc (λ p. p.pid == pid) 0 k.procs) [
  | none ↦ (false, k)
  | some i ↦ (true, put_proc k i (kill_proc (proc_at k i)))
]

-- `sleep` up to the switch to the scheduler, in process `cur`. `none` is a panic: there is no
-- process.
unfoldable pub sleep : Option ℕ → Chan → Kernel → Option Kernel
sleep none c k = none
sleep (some cur) c k = some (
    call (put_proc k cur (record (proc_at k cur) { chan = c; state = ProcState.sleeping }))
      (Call.sched cur))

-- `sleep` after the switch back.
unfoldable pub awake : ℕ → Kernel → Kernel
awake cur k = put_proc k cur (record (proc_at k cur) { chan = Chan.null })

-- `yield` up to the switch to the scheduler.
unfoldable pub yield : ℕ → Kernel → Kernel
yield cur k =
    call (put_proc k cur (record (proc_at k cur) { state = ProcState.runnable; retime = k.ticks }))
      (Call.sched cur)
