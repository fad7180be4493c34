-- ===== src/Spinlock.antt =====
-- Spin locks, homework-3-lottery-scheduling/kernel/spinlock.c (homework-1-sort has the same file):
-- processors that acquire and release one lock, one atomic access to it at a time, in any
-- interleaving. The name and the call stack of a lock, which are for debugging, are left out.
pub mod Exclusion
pub mod Steps
mod Tests
use cs_3224_operating_system.Base.{
  ℕ, zero, suc, ◌+◌, ◌-◌, Bool, true, false, not, ◌&&◌, Option, none, some, List, [], ◌∷◌,
  if◌then◌else◌, ◌==◌,
}
use cs_3224_operating_system.Log.{Outcome}

-- `ncli` and `intena` of `struct cpu`, and the interrupt flag of its eflags.
pub record Cpu : Type 0 where
  pub ncli : ℕ
  pub intena : Bool
  pub iflag : Bool

unfoldable pub pushcli : Cpu → Cpu
pushcli c = record {
  ncli = c.ncli + 1;
  intena = if c.ncli == 0 then c.iflag else c.intena;
  iflag = false;
}

unfoldable pub popcli : Cpu → Outcome Cpu
popcli c =
    if c.iflag
    then Outcome.panic
    else if c.ncli == 0
    then Outcome.panic
    else Outcome.ok (record c { ncli = c.ncli - 1; iflag = (c.ncli - 1 == 0) && c.intena })

-- `struct spinlock`; `none` is the null pointer.
pub record Lock : Type 0 where
  pub locked : Bool
  pub cpu : Option ℕ

unfoldable pub initlock : Lock
initlock = record { locked = false; cpu = none }

unfoldable pub holding : ℕ → Lock → Bool
holding c lk = lk.locked && (elim lk.cpu [ none ↦ false | some d ↦ d == c ])

-- Where a processor is: outside of the lock; in the loop of `acquire`, after the loop, and behind
-- `acquire`; in `release` after the lock's `cpu` is cleared, and after the lock is free.
pub data Place : Type 0 where
  outside spinning won inside leaving left : Place

pub record System : Type 0 where
  pub lock : Lock
  pub cpus : ℕ → Cpu
  pub place : ℕ → Place

abbrev pub at_cpu {ℓ} : {A : Type ℓ} → (ℕ → A) → ℕ → A → ℕ → A
at_cpu f c v d = if c == d then v else f d

abbrev pub move : System → ℕ → Place → System
move s c p = record s { place = at_cpu s.place c p }

-- `acquire` up to its loop.
unfoldable pub enter : ℕ → System → Outcome System
unfolding pushcli holding
enter c s =
    if holding c s.lock
    then Outcome.panic
    else Outcome.ok (record s {
      cpus = at_cpu s.cpus c (pushcli (s.cpus c));
      place = at_cpu s.place c Place.spinning;
    })

-- One `xchg(&lk->locked, 1)`: the old value 0 ends the loop.
unfoldable pub try_lock : ℕ → System → System
try_lock c s =
    let p = if s.lock.locked then Place.spinning else Place.won in
    record s { lock = record (s.lock) { locked = true }; place = at_cpu s.place c p }

-- `lk->cpu = cpu`
unfoldable pub own : ℕ → System → System
own c s = record (move s c Place.inside) { lock = record (s.lock) { cpu = some c } }

-- `release` up to `lk->cpu = 0`
unfoldable pub disown : ℕ → System → Outcome System
unfolding holding
disown c s =
    if not (holding c s.lock)
    then Outcome.panic
    else Outcome.ok (record (move s c Place.leaving) { lock = record (s.lock) { cpu = none } })

-- `xchg(&lk->locked, 0)`
unfoldable pub unlock : ℕ → System → System
unlock c s = record (move s c Place.left) { lock = record (s.lock) { locked = false } }

-- The `popcli` of `release`.
unfoldable pub leave : ℕ → System → Outcome System
unfolding popcli
leave c s = elim (popcli (s.cpus c)) [
  | Outcome.panic ↦ Outcome.panic
  | Outcome.ok x ↦
      Outcome.ok (record s { cpus = at_cpu s.cpus c x; place = at_cpu s.place c Place.outside })
]

-- The next access of processor `c`.
unfoldable pub step : ℕ → System → Outcome System
unfolding enter try_lock own disown unlock leave
step c s = elim (s.place c) [
  | Place.outside ↦ enter c s
  | Place.spinning ↦ Outcome.ok (try_lock c s)
  | Place.won ↦ Outcome.ok (own c s)
  | Place.inside ↦ disown c s
  | Place.leaving ↦ Outcome.ok (unlock c s)
  | Place.left ↦ leave c s
]

-- The processors take steps in the order of the schedule.
unfoldable pub run : List ℕ → System → Outcome System
unfolding step
run [] s = Outcome.ok s
run (c ∷ cs) s = elim (step c s) [ Outcome.panic ↦ Outcome.panic | Outcome.ok t ↦ run cs t ]

-- All processors outside, each with its interrupts on or off.
unfoldable pub start : (ℕ → Bool) → System
unfolding initlock
start iflags = record {
  lock = initlock;
  cpus = λ c. record { ncli = 0; intena = false; iflag = iflags c };
  place = λ c. Place.outside;
}
