-- ===== src/Proc/Tests.antt =====
-- Runs of kernel/proc.c from boot, and the theorems at concrete inputs.
use cs_3224_operating_system.Base.{
  ℕ, ◌+◌, ◌^◌, ◌<◌, arith, zero, suc, get_or, replicate, ◌≤◌, ◌≡◌, refl, true, none, some, [], ◌∷◌,
}
use cs_3224_operating_system.Proc.Types.{blank, nproc, is_unused, Kernel, proc_at, put_proc}
use cs_3224_operating_system.Proc.Random.{draws, draws_cycle}
use cs_3224_operating_system.Proc.Sleep.{find_proc, kill, yield}
use cs_3224_operating_system.Proc.Alloc.{Entries, claim, prepare, allocproc, userinit}
use cs_3224_operating_system.Proc.Fork.{dup_loop, copy_proc, name_child, publish, fork}
use cs_3224_operating_system.Proc.Lottery.{draw_winner, pass, passes, default_pass}
use cs_3224_operating_system.Proc.Lottery.Once.{pass-default_pass}
use cs_3224_operating_system.Proc.Table.Frame.{InUse}
use cs_3224_operating_system.Proc.Table.Create.{Allocated, allocproc-Allocated}
use cs_3224_operating_system.Proc.Table.Child.{Forked, fork-Forked}
use cs_3224_operating_system.Proc.Killed.{kill-allocproc}
use cs_3224_operating_system.Proc.Table.Steps.{
  boot, boot-WellFormed, Sound, Step, Reached, Reached-userinit,
}

abbrev entries : Entries
entries = record { forkret = 100; trapret = 200 }

-- The kernel after `userinit`.
abbrev first : Kernel
unfolding userinit
first = elim (userinit entries 4096 8192 3 (boot (5 ∷ 1007 ∷ []) 0)) [
  | none ↦ boot [] 0
  | some k ↦ k
]

first_eq : userinit entries 4096 8192 3 (boot (5 ∷ 1007 ∷ []) 0) ≡ some first
unfolding userinit
first_eq = refl

first-tickets : (proc_at first 0).tickets ≡ 6
unfolding userinit
first-tickets = refl

first-InUse : InUse first 0
unfolding userinit
first-InUse z = absurd (cc)

-- A second process, with its parent's tickets, after the parent has given up the processor.
abbrev second : Kernel
unfolding fork
second = (fork entries 12288 16384 0 (yield 0 first)).1

second-tickets : (proc_at second 1).tickets ≡ 6
unfolding userinit fork yield
second-tickets = refl

-- The steps of that fork.
abbrev parted : Kernel
parted = yield 0 first

abbrev claimed_one : Kernel
claimed_one = claim 1 parted

abbrev prepared_one : Kernel
prepared_one =
    put_proc claimed_one 1 (prepare entries 12288 claimed_one.ticks (proc_at claimed_one 1))

abbrev copied_one : Kernel
copied_one =
    put_proc prepared_one 1 (copy_proc 0 16384 (proc_at prepared_one 0) (proc_at prepared_one 1))

abbrev named_one : Kernel
named_one = name_child 0 1 (dup_loop 16 0 0 1 copied_one)

same_fork : publish 1 named_one ≡ second
unfolding userinit fork yield
same_fork = refl

claimed-InUse : InUse claimed_one 1
unfolding userinit fork yield
claimed-InUse z = absurd (cc)

prepared-InUse : InUse prepared_one 1
unfolding userinit fork yield
prepared-InUse z = absurd (cc)

parent-InUse : InUse prepared_one 0
unfolding userinit fork yield
parent-InUse z = absurd (cc)

dupped-InUse : InUse (dup_loop 16 0 0 1 copied_one) 1
unfolding userinit fork yield
dupped-InUse z = absurd (cc)

named-InUse : InUse named_one 1
unfolding userinit fork yield
named-InUse z = absurd (cc)

free_entry : find_proc (λ p. is_unused p.state) 0 parted.procs ≡ some 1
unfolding userinit fork yield
free_entry = refl

ids_left : parted.nextpid + 1 < 2 ^ 31
unfolding userinit yield
ids_left = omega arith

second-Reached : Reached entries first (publish 1 named_one)
second-Reached =
    let start = Reached.step Reached.start (Step.yields 0 first-InUse) in
    let one = Reached.step start (Step.claims 1 free_entry ids_left) in
    let two = Reached.step one (Step.prepares 12288 1 claimed-InUse) in
    let three = Reached.step two (Step.copies 0 16384 1 parent-InUse prepared-InUse) in
    let four = Reached.step three (Step.dups 16 0 0 1) in
    let five = Reached.step four (Step.names 0 1 dupped-InUse) in
    Reached.step five (Step.publishes 1 named-InUse)

Reached-userinit_example : Sound (publish 1 named_one)
Reached-userinit_example =
    Reached-userinit entries (5 ∷ 1007 ∷ []) 0 4096 8192 3 first_eq second-Reached

first-Sound : Sound first
first-Sound = Reached-userinit entries (5 ∷ 1007 ∷ []) 0 4096 8192 3 first_eq Reached.start

first_ids : first.nextpid + 1 < 2 ^ 31
unfolding userinit
first_ids = omega arith

allocproc-Allocated_example :
    Allocated first (allocproc entries 4096 first).0 (allocproc entries 4096 first).1
allocproc-Allocated_example = allocproc-Allocated entries 4096 first first-Sound.well first_ids

fork-Forked_example :
    Forked 0 16384 first (fork entries 12288 16384 0 first).0 (fork entries 12288 16384 0 first).1
fork-Forked_example = fork-Forked entries 12288 16384 0 first first-InUse first-Sound.well first_ids

draws_cycle_example : draws 3 (7 ∷ 8 ∷ 9 ∷ []) ≡ (7 ∷ 8 ∷ 9 ∷ [], 7 ∷ 8 ∷ 9 ∷ [])
draws_cycle_example = draws_cycle (7 ∷ 8 ∷ 9 ∷ [])

-- The winning ticket of the first draw, and a processor that every process gives up at once.
abbrev drawn : Kernel
unfolding draw_winner
drawn = elim (draw_winner second) [ none ↦ second | some r ↦ r.1 ]

drawn_eq : draw_winner second ≡ some (6, drawn)
unfolding draw_winner userinit fork yield
drawn_eq = refl

pass-default_pass_example :
    let s = passes yield 6 1 (record { counter = 0; foundproc = true; kernel = drawn }) in
    (6 ≤ s.counter) × (pass yield 6 s ≡ default_pass yield s)
pass-default_pass_example = pass-default_pass yield second true 6 drawn drawn_eq 0

-- At boot no entry is in use, and `kill` of 0 finds the first one.
abbrev rigged : Kernel
unfolding kill
rigged = (kill 0 (boot (5 ∷ []) 0)).1

abbrev taken : Kernel
unfolding allocproc
taken = (allocproc entries 4096 rigged).1

taken_eq : allocproc entries 4096 (kill 0 (boot (5 ∷ []) 0)).1 ≡ (some 0, taken)
unfolding taken rigged
taken_eq = refl

blank-pid : (n j : ℕ) → (get_or (replicate n blank) j blank).pid ≡ 0
blank-pid zero j = refl
blank-pid (suc n) zero = refl
blank-pid (suc n) (suc j) = blank-pid n j

kill-allocproc_example : (proc_at taken 0).killed ≡ true
kill-allocproc_example =
    kill-allocproc entries 4096 0 (boot (5 ∷ []) 0) taken (boot-WellFormed (5 ∷ []) 0)
      (λ j u. blank-pid nproc j) (omega arith) taken_eq
