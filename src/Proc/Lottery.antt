-- ===== src/Proc/Lottery.antt =====
-- `get_total_tickets` and `scheduler` of kernel/proc.c in homework-3-lottery-scheduling.
-- A process that is switched to is the parameter `run`: what the kernel is like when control comes
-- back to the scheduler.
pub mod Once
use cs_3224_operating_system.Base.{
  ℕ, zero, suc, ◌+◌, ◌-◌, ◌%◌, Bool, true, false, Option, none, some, List, [], ◌∷◌, if◌then◌else◌,
  ◌==◌, ltb, length,
}
use cs_3224_operating_system.Proc.Types.{
  ProcState, Proc, Call, Kernel, is_runnable, proc_at, put_proc, call,
}
use cs_3224_operating_system.Proc.Random.{get_random}

-- The loop of `get_total_tickets`.
unfoldable pub sum_tickets : List Proc → ℕ → ℕ
sum_tickets [] total = total
sum_tickets (p ∷ ps) total =
    sum_tickets ps (if is_runnable p.state then total + p.tickets else total)

unfoldable pub get_total_tickets : Kernel → ℕ
unfolding sum_tickets
get_total_tickets k = sum_tickets k.procs 0

-- `winner = get_random() % get_total_tickets() + 1`, before the scheduler's loop. `none` is the
-- division by zero that there is when nothing can run.
unfoldable pub draw_winner : Kernel → Option (ℕ × Kernel)
unfolding get_random get_total_tickets
draw_winner k =
    let (rand, turned) = get_random k.random_int in
    let total = get_total_tickets k in
    let k' = record k { random_int = turned } in
    if total == 0 then none else some (rand % total + 1, k')

-- The scheduler's own variables.
pub record Pass : Type 0 where
  pub counter : ℕ
  pub foundproc : Bool
  pub kernel : Kernel

-- A switch to process `i` and back.
unfoldable pub switch_to : (ℕ → Kernel → Kernel) → ℕ → Kernel → Kernel
switch_to run i k =
    call
      (run i (
        put_proc (call k (Call.switchuvm i)) i
          (record (proc_at k i) { state = ProcState.running })))
      Call.switchkvm

-- One round of the loop over the table.
unfoldable pub visit : (ℕ → Kernel → Kernel) → (winner i : ℕ) → Pass → Pass
unfolding switch_to
visit run winner i s =
    let p = proc_at s.kernel i in
    if is_runnable p.state
    then (if ltb s.counter winner
        then record s { counter = s.counter + p.tickets }
        else record s { foundproc = true; kernel = switch_to run i s.kernel })
    else s

-- `for (p = ptable.proc; p < &ptable.proc[NPROC]; p++)`, with the rounds left
unfoldable pub visit_loop : (ℕ → Kernel → Kernel) → (winner rounds i : ℕ) → Pass → Pass
unfolding visit
visit_loop run winner zero i s = s
visit_loop run winner (suc rounds) i s = visit_loop run winner rounds (i + 1) (visit run winner i s)

-- One round of `for (;;)`: `foundproc` is cleared and the table is walked. Whether the processor
-- halts before is whether `foundproc` was false.
unfoldable pub pass : (ℕ → Kernel → Kernel) → ℕ → Pass → Pass
unfolding visit_loop
pass run winner s = visit_loop run winner (length s.kernel.procs) 0 (record s { foundproc = false })

-- `n` rounds of `for (;;)`.
unfoldable pub passes : (ℕ → Kernel → Kernel) → (winner n : ℕ) → Pass → Pass
passes run winner zero s = s
passes run winner (suc n) s = passes run winner n (pass run winner s)

-- The body of the loop of the scheduler that the source keeps in a comment, "Default Scheduler".
unfoldable pub default_visit : (ℕ → Kernel → Kernel) → ℕ → Pass → Pass
unfolding switch_to
default_visit run i s =
    let p = proc_at s.kernel i in
    if is_runnable p.state
    then record s { foundproc = true; kernel = switch_to run i s.kernel }
    else s

unfoldable pub default_loop : (ℕ → Kernel → Kernel) → (rounds i : ℕ) → Pass → Pass
unfolding default_visit
default_loop run zero i s = s
default_loop run (suc rounds) i s = default_loop run rounds (i + 1) (default_visit run i s)

unfoldable pub default_pass : (ℕ → Kernel → Kernel) → Pass → Pass
unfolding default_loop
default_pass run s = default_loop run (length s.kernel.procs) 0 (record s { foundproc = false })
