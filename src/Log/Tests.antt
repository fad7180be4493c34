-- ===== src/Log/Tests.antt =====
-- Runs of log.c on a small disk, and the theorems at concrete inputs.
use cs_3224_operating_system.Base.{
  ℕ, ◌≤◌, ◌<◌, ◌≡◌, refl, ◌≢◌, ◌⊎◌, ◌↔◌, inr, true, false, [], ◌∷◌, arith, if◌then◌else◌, ◌==◌,
  none, replicate, length, ◌+◌,
}
use cs_3224_operating_system.Log.{
  Log, log_size, panic, begin_op, leave_op, log_write, find_block, exhausts,
}
use cs_3224_operating_system.Log.Header.{IsHeader}
use cs_3224_operating_system.Log.Blocks.{Block, Disk, Store}
use cs_3224_operating_system.Log.Commit.{Ready, Recoverable}
use cs_3224_operating_system.Log.Crash.{crash, reboot}
use cs_3224_operating_system.Log.Atomic.{reboot-crash}
use cs_3224_operating_system.Log.Recovery.{crash_recovery, reboot-crash_recovery}
use cs_3224_operating_system.Log.Absorb.{WellLogged, Named, log_write-Named}
use cs_3224_operating_system.Log.System.{Reach, here, next, begin, booted, leave_last}
use cs_3224_operating_system.Log.Reserve.{admitted-panic, commit_alone}

abbrev zeros : Block
zeros = replicate 128 0

-- One block, number 40, is logged; the region is blocks 2 to 32.
abbrev one_block : Log
one_block = record {
  start = 2;
  size = 31;
  outstanding = 0;
  committing = true;
  dev = 1;
  n = 1;
  block = 40 ∷ replicate 29 0;
  wakeups = 0;
}

abbrev fresh : Log
fresh = record one_block { n = 0; committing = false; block = replicate 30 0 }

abbrev changed : Store
changed = record { mem = λ b. if b == 40 then 7 ∷ [] else zeros; disk = λ b. zeros; trace = [] }

zeros-IsHeader : IsHeader zeros []
zeros-IsHeader = record { count = refl; entries = refl }

changed-Ready : Ready one_block changed
changed-Ready = record {
  fits = omega arith;
  bounded = omega arith;
  outside = (inr (omega arith), tt);
  words = omega arith;
  disk_words = omega arith;
  clean = zeros-IsHeader;
  untouched = refl;
}

-- After two writes the transaction survives.
reboot-crash_example :
    (2 ≤ 1 → reboot one_block fresh (crash one_block changed 2) 40 ≡ zeros)
    × (1 < 2 → reboot one_block fresh (crash one_block changed 2) 40 ≡ 7 ∷ [])
reboot-crash_example =
    reboot-crash one_block changed changed-Ready fresh refl 2 40 (inr (omega arith))

-- A disk whose log holds block 40.
abbrev half_done : Disk
half_done b = if b == 2 then 1 ∷ 40 ∷ replicate 126 0 else if b == 3 then 7 ∷ [] else zeros

half_done-Recoverable : Recoverable 2 31 (40 ∷ []) (λ b. 7 ∷ []) half_done
half_done-Recoverable = record {
  head = record { count = refl; entries = refl };
  holds = (refl, tt);
  outside = (inr (omega arith), tt);
  fits = omega arith;
  bounded = omega arith;
  words = omega arith;
}

reboot-crash_recovery_example :
    reboot one_block fresh (crash_recovery one_block fresh half_done 1) 40
    ≡ reboot one_block fresh half_done 40
reboot-crash_recovery_example =
    reboot-crash_recovery one_block fresh (40 ∷ []) (λ b. 7 ∷ []) half_done half_done-Recoverable
      refl 1 40 (inr (omega arith))

abbrev running : Log
running = record fresh { outstanding = 1 }

running-WellLogged : WellLogged running
running-WellLogged = record {
  entries = refl;
  few = omega arith;
  distinct = λ i j hi hj e. absurd (omega arith);
}

log_write-Named_example :
    WellLogged (record running { n = 1; block = 40 ∷ replicate 29 0 })
    × ((a : ℕ)
        → Named (record running { n = 1; block = 40 ∷ replicate 29 0 }) a
          ↔ ((a ≡ 40) ⊎ Named running a))
    × (Named running 40 → ◌≡◌ {A = ℕ} 1 0)
unfolding log_write find_block
log_write-Named_example = log_write-Named running 40 running-WellLogged refl

begun : Reach (booted fresh) (record { lg = running; budgets = 10 ∷ []; due = 0; done = 0 })
unfolding begin_op exhausts
begun = next here (begin refl)

admitted-panic_example :
    (running.n < log_size)
    × ((log_write running 40 ≡ panic) ↔ (running.size ≤ running.n + 1))
    × (leave_op running ≢ panic)
admitted-panic_example = admitted-panic 0 40 9 refl refl refl begun refl

abbrev locked : Log
locked = record fresh { committing = true }

last_left : Reach (booted fresh) (record { lg = locked; budgets = []; due = 1; done = 0 })
unfolding leave_op
last_left = next begun (leave_last 0 (omega arith) refl)

commit_alone_example : (length {A = ℕ} [] ≡ 0) × (◌≡◌ {A = ℕ} 1 1) × (begin_op locked ≡ none)
commit_alone_example = commit_alone {lg = fresh} refl refl refl last_left (omega arith)
