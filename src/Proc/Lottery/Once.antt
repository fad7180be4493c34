-- ===== src/Proc/Lottery/Once.antt =====
-- The lottery of kernel/proc.c is held once: after one walk over the table the scheduler is the
-- round-robin scheduler that it replaced.
use cs_3224_operating_system.Base.{
  ℕ, zero, suc, ◌+◌, ◌≤◌, ◌<◌, ◌≡◌, refl, ◌∙◌, ap, sym, Bool, true, false, none, some, some_inj,
  List, [], ◌∷◌, ◌++◌, arith, subst, if◌then◌else◌, ◌==◌, ltb, length, get_or, length-append,
  get_or-append_at, Bool-cases, inl, inr,
}
use native.Mathlib.Decide.{dec_lt}
use mathlib.Core.List.{append_assoc}
use cs_3224_operating_system.Proc.Types.{Proc, Kernel, blank, is_runnable, proc_at}
use cs_3224_operating_system.Proc.Lottery.{
  Pass, sum_tickets, get_total_tickets, draw_winner, visit, visit_loop, pass, passes, default_visit,
  default_loop, default_pass,
}

-- The tickets of the processes that can run.
pub runnable_tickets : List Proc → ℕ
runnable_tickets [] = 0
runnable_tickets (p ∷ ps) = (if is_runnable p.state then p.tickets else 0) + runnable_tickets ps

sum_tickets-eq : (ps : List Proc) (total : ℕ) → sum_tickets ps total ≡ total + runnable_tickets ps
unfolding sum_tickets runnable_tickets
sum_tickets-eq [] total = omega arith
sum_tickets-eq (p ∷ ps) total = elim (Bool-cases (is_runnable p.state)) [
  | inl can ↦ rw can (sum_tickets-eq ps (total + p.tickets) ∙ omega arith)
  | inr cannot ↦ rw cannot (sum_tickets-eq ps total ∙ omega arith)
]

-- What `draw_winner` returns: no winner exactly when no process can run or none has a ticket, and
-- otherwise a ticket number from 1 to the sum of the tickets of the processes that can run.
pub draw_winner_range :
    (k : Kernel)
    → ((draw_winner k ≡ none) → runnable_tickets k.procs ≡ 0)
      × ((w : ℕ) (k' : Kernel)
          → draw_winner k ≡ some (w, k')
          → (1 ≤ w) × (w ≤ runnable_tickets k.procs) × (k'.procs ≡ k.procs))
unfolding draw_winner get_total_tickets
draw_winner_range k =
    let e = sum_tickets-eq k.procs 0 in
    elim (Bool-cases (sum_tickets k.procs 0 == 0)) [
      | inl nothing ↦ rw nothing ((λ z. ground (arith, e)), (λ w k' z. absurd (cc)))
      | inr something ↦
          let pos : 0 < sum_tickets k.procs 0 = ground arith in
          rw something (
            (λ z. absurd (cc)),
            (λ w k' z.
                let q = some_inj z in
                let ew = ap (λ (x : ℕ × Kernel). x.0) q in
                (
                  omega (arith, ew),
                  omega (arith, ew, e, pos),
                  sym (ap (λ (x : ℕ × Kernel). x.1.procs) q),
                )),
          )
    ]

module _ (run : ℕ → Kernel → Kernel) (winner : ℕ) where
  -- Past the winner the counter stays, and the walk is the default one.
  visit-default :
      (i : ℕ) (s : Pass)
      → winner ≤ s.counter
      → (visit run winner i s ≡ default_visit run i s)
        × ((default_visit run i s).counter ≡ s.counter)
  unfolding visit default_visit
  visit-default i s h =
      let past : ltb s.counter winner ≡ false = ground arith in
      elim (Bool-cases (is_runnable (proc_at s.kernel i).state)) [
        | inl can ↦ rw (can, past) (refl, refl)
        | inr cannot ↦ rw cannot (refl, refl)
      ]

  visit_loop-default :
      (rounds i : ℕ) (s : Pass)
      → winner ≤ s.counter
      → (visit_loop run winner rounds i s ≡ default_loop run rounds i s)
        × ((default_loop run rounds i s).counter ≡ s.counter)
  unfolding visit_loop default_loop
  visit_loop-default zero i s h = (refl, refl)
  visit_loop-default (suc rounds) i s h =
      let (same, kept) = visit-default i s h in
      let (rest, still) =
        visit_loop-default rounds (i + 1) (default_visit run i s) (omega (arith, kept)) in
      (ap (visit_loop run winner rounds (i + 1)) same ∙ rest, still ∙ kept)

  -- Before the winner is reached, the tickets of every process that can run are added.
  visit-adds :
      (i : ℕ) (s : Pass)
      → s.counter < winner
      → (visit run winner i s).kernel ≡ s.kernel
        × ((visit run winner i s).counter
            ≡ s.counter
              + (if is_runnable (proc_at s.kernel i).state
                  then (proc_at s.kernel i).tickets
                  else 0))
  unfolding visit
  visit-adds i s h =
      let before : ltb s.counter winner ≡ true = ground arith in
      elim (Bool-cases (is_runnable (proc_at s.kernel i).state)) [
        | inl can ↦ rw (can, before) (refl, refl)
        | inr cannot ↦ rw cannot (refl, omega arith)
      ]

  -- A walk from entry `length front` on adds up to the winner, if the tickets to come reach it.
  visit_loop-reaches :
      (front back : List Proc) (s : Pass)
      → s.kernel.procs ≡ front ++ back
      → winner ≤ s.counter + runnable_tickets back
      → winner ≤ (visit_loop run winner (length back) (length front) s).counter
  unfolding visit_loop runnable_tickets
  visit_loop-reaches front [] s e h = omega arith
  visit_loop-reaches front (p ∷ back) s e h =
      let here : proc_at s.kernel (length front) ≡ p =
        ap (λ l. get_or l (length front) blank) e ∙ get_or-append_at front back p blank in
      let e' : s.kernel.procs ≡ (front ++ (p ∷ [])) ++ back =
        e ∙ sym (append_assoc front (p ∷ []) back) in
      let next : length (front ++ (p ∷ [])) ≡ length front + 1 = length-append front (p ∷ []) in
      let s' = visit run winner (length front) s in
      elim (dec_lt s.counter winner) [
        | yes before ↦
            let (k_eq, c_eq) = visit-adds (length front) s before in
            let c' : s'.counter ≡ s.counter + (if is_runnable p.state then p.tickets else 0) =
              c_eq
              ∙ ap (λ (q : Proc). s.counter + (if is_runnable q.state then q.tickets else 0))
                  here in
            let rest =
              visit_loop-reaches (front ++ (p ∷ [])) back s'
                (ap (λ (k : Kernel). k.procs) k_eq ∙ e') (omega (arith, c', h)) in
            subst (λ i. winner ≤ (visit_loop run winner (length back) i s').counter) next rest
        | no past ↦
            let (same, kept) =
              visit_loop-default (suc (length back)) (length front) s (omega (arith, past)) in
            omega (arith, ap (λ (r : Pass). r.counter) same, kept, past)
      ]

  -- Once the winner is reached it stays so.
  passes-past : (n : ℕ) (s : Pass) → winner ≤ s.counter → winner ≤ (passes run winner n s).counter
  unfolding passes pass
  passes-past zero s h = h
  passes-past (suc n) s h =
      let start : Pass = record s { foundproc = false } in
      let (same, kept) = visit_loop-default (length s.kernel.procs) 0 start h in
      passes-past n (pass run winner s) (omega (arith, ap (λ (r : Pass). r.counter) same, kept, h))

  pass-past : (s : Pass) → winner ≤ s.counter → pass run winner s ≡ default_pass run s
  unfolding pass default_pass
  pass-past s h =
      (visit_loop-default (length s.kernel.procs) 0 (record s { foundproc = false }) h).0

-- The winner is drawn before the loop of the scheduler and the counter is never set back: from the
-- second walk over the table on, whatever the processes do in between, the counter has reached the
-- winner and a walk of the lottery scheduler is a walk of the default scheduler, which runs every
-- process that can run, in table order, whatever its tickets.
pub pass-default_pass :
    (run : ℕ → Kernel → Kernel) (k : Kernel) (foundproc : Bool) (w : ℕ) (k' : Kernel)
    → draw_winner k ≡ some (w, k')
    → (n : ℕ)
    → let s = passes run w (suc n) (record { counter = 0; foundproc = foundproc; kernel = k' }) in
      (w ≤ s.counter) × (pass run w s ≡ default_pass run s)
unfolding passes pass
pass-default_pass run k found w k' drawn n =
    let s0 : Pass = record { counter = 0; foundproc = false; kernel = k' } in
    let (from_1, to_sum, same) = (draw_winner_range k).1 w k' drawn in
    let first =
      visit_loop-reaches run w [] k'.procs s0 refl
        (omega (arith, to_sum, ap runnable_tickets same)) in
    let past = passes-past run w n (visit_loop run w (length k'.procs) 0 s0) first in
    (past, pass-past run w _ past)
