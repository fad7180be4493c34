-- ===== src/Spinlock/Tests.antt =====
-- Runs of two processors in kernel/spinlock.c, and the theorem at a concrete schedule.
use cs_3224_operating_system.Base.{ℕ, ◌≡◌, refl, Bool, true, List, [], ◌∷◌, ◌==◌}
use cs_3224_operating_system.Log.{Outcome}
use cs_3224_operating_system.Spinlock.{
  pushcli, popcli, initlock, holding, Place, System, enter, try_lock, own, disown, unlock, leave,
  step, run, start,
}
use cs_3224_operating_system.Spinlock.Exclusion.{holds, CpuOk}
use cs_3224_operating_system.Spinlock.Steps.{run-start}

-- Processor 1 has its interrupts on, the others off.
abbrev on : ℕ → Bool
on c = c == 1

-- Both start to acquire; 1 takes the lock while 2 spins, then 1 releases and 2 takes it.
abbrev schedule : List ℕ
schedule = 1 ∷ 2 ∷ 1 ∷ 2 ∷ 1 ∷ 2 ∷ 1 ∷ 1 ∷ 1 ∷ 2 ∷ []

abbrev places : Outcome System → List Place
places o = elim o [ Outcome.panic ↦ [] | Outcome.ok t ↦ t.place 1 ∷ t.place 2 ∷ [] ]

handed_over : places (run schedule (start on)) ≡ Place.outside ∷ Place.won ∷ []
unfolding run step start initlock enter pushcli holding try_lock own disown unlock leave popcli
handed_over = refl

-- A release without the lock panics.
not_held : disown 2 (start on) ≡ Outcome.panic
unfolding start initlock disown holding
not_held = refl

run-start_example :
    (t : System) × (run schedule (start on) ≡ Outcome.ok t)
    × ((c d : ℕ) → holds (t.place c) ≡ true → holds (t.place d) ≡ true → c ≡ d)
    × ((c : ℕ) → CpuOk (on c) (t.place c) (t.cpus c))
run-start_example = run-start on schedule
