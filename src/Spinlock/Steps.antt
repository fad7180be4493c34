-- ===== src/Spinlock/Steps.antt =====
-- Each access of a processor in kernel/spinlock.c keeps the lock safe, and none panics.
use cs_3224_operating_system.Base.{
  ℕ, ◌+◌, ◌-◌, ◌≡◌, refl, ◌≢◌, inl, inr, ◌∙◌, sym, ap, subst, Bool, true, false, ◌&&◌, Option, none,
  some, some_inj, List, [], ◌∷◌, if◌then◌else◌, ◌==◌, ==_iff, ==_refl, Bool-cases,
}
use cs_3224_operating_system.Log.{Outcome}
use cs_3224_operating_system.Spinlock.{
  Cpu, pushcli, popcli, Lock, initlock, holding, Place, System, at_cpu, enter, try_lock, own,
  disown, unlock, leave, step, run, start,
}
use cs_3224_operating_system.Spinlock.Exclusion.{
  holds, CpuOk, Safe, at_cpu_self, at_cpu_other, stepped-Safe,
}

-- The step does not panic, and what it leaves is safe.
pub data Goes (iflags : ℕ → Bool) : Outcome System → Type 0 where
  goes : {t : System} → Safe iflags t → Goes iflags (Outcome.ok t)

holding-owner : (c : ℕ) (lk : Lock) → holding c lk ≡ true → lk.cpu ≡ some c
unfolding holding
holding-owner c lk h = go lk.locked lk.cpu h
  where
    go :
        (b : Bool) (o : Option ℕ)
        → (b && (elim o as (λ x. Bool) [ none ↦ false | some d ↦ d == c ])) ≡ true
        → o ≡ some c
    go false o h = absurd (cc)
    go true none h = absurd (cc)
    go true (some d) h = ap some ((==_iff d c).0 h)

owner-holding : (c : ℕ) (lk : Lock) → lk.locked ≡ true → lk.cpu ≡ some c → holding c lk ≡ true
unfolding holding
owner-holding c lk l o = rw (l, o) (==_refl c)

module _ (iflags : ℕ → Bool) (s : System) (c : ℕ) (inv : Safe iflags s) where
  -- The premises of stepped-Safe where the lock is as before.
  not_owner : (p : Place) → s.place c ≡ p → p ≢ Place.inside → s.lock.cpu ≢ some c
  not_owner p e ne o = ne (sym e ∙ inv.owned c o)

  others_free : holds (s.place c) ≡ true → (d : ℕ) → c ≢ d → holds (s.place d) ≡ true → ⊥
  others_free mine d ne h = ne (inv.alone c d mine h)

  mine_ok : (p : Place) → s.place c ≡ p → CpuOk (iflags c) p (s.cpus c)
  mine_ok p e = subst (λ q. CpuOk (iflags c) q (s.cpus c)) e (inv.cpu_ok c)

  enter-Goes : s.place c ≡ Place.outside → Goes iflags (enter c s)
  unfolding enter CpuOk pushcli
  enter-Goes e =
      let stranger = not_owner Place.outside e (λ z. cc) in
      let free : holding c s.lock ≡ false = elim (Bool-cases (holding c s.lock)) [
        | inl h ↦ absurd (stranger (holding-owner c s.lock h))
        | inr h ↦ h
      ] in
      let (none_yet, was) = mine_ok Place.outside e in
      let x = pushcli (s.cpus c) in
      let pushed : CpuOk (iflags c) Place.spinning x = (
        ap (λ n. n + 1) none_yet,
        refl,
        ap (λ n. if n == 0 then (s.cpus c).iflag else (s.cpus c).intena) none_yet ∙ was,
      ) in
      rw free (
        Goes.goes (
          stepped-Safe iflags s c Place.spinning (at_cpu s.cpus c x) s.lock inv
            (subst (CpuOk (iflags c) Place.spinning) (sym (at_cpu_self s.cpus c x)) pushed)
            (λ d ne. at_cpu_other s.cpus c d x ne) (λ h. absurd (cc))
            (λ d ne h. (inv.taken d h, refl)) (λ h. absurd (cc)) (λ d ne h. inv.owner d h)
            (λ h. absurd (stranger h)) (λ d ne h. inv.owned d h)))

  try_lock-Goes : s.place c ≡ Place.spinning → Goes iflags (Outcome.ok (try_lock c s))
  unfolding try_lock CpuOk
  try_lock-Goes e =
      let stranger = not_owner Place.spinning e (λ z. cc) in
      let now = mine_ok Place.spinning e in
      let lk : Lock = record (s.lock) { locked = true } in
      elim (Bool-cases s.lock.locked) [
        | inl busy ↦ rw busy (
            Goes.goes (
              stepped-Safe iflags s c Place.spinning s.cpus lk inv now (λ d ne. refl) (λ h. refl)
                (λ d ne h. (refl, refl)) (λ h. absurd (cc)) (λ d ne h. inv.owner d h)
                (λ h. absurd (stranger h)) (λ d ne h. inv.owned d h)))
        | inr free ↦ rw free (
            Goes.goes (
              stepped-Safe iflags s c Place.won s.cpus lk inv now (λ d ne. refl) (λ h. refl)
                (λ d ne h. let clash = sym (inv.taken d h) ∙ free in absurd (cc)) (λ h. absurd (cc))
                (λ d ne h. inv.owner d h) (λ h. absurd (stranger h)) (λ d ne h. inv.owned d h)))
      ]

  own-Goes : s.place c ≡ Place.won → Goes iflags (Outcome.ok (own c s))
  unfolding own CpuOk
  own-Goes e =
      let mine : holds (s.place c) ≡ true = ap holds e in
      Goes.goes (
        stepped-Safe iflags s c Place.inside s.cpus (record (s.lock) { cpu = some c }) inv
          (mine_ok Place.won e) (λ d ne. refl) (λ h. inv.taken c mine)
          (λ d ne h. absurd (others_free mine d ne h)) (λ h. refl)
          (λ d ne h. absurd (others_free mine d ne (ap holds h))) (λ h. refl)
          (λ d ne h. absurd (ne (some_inj h))))

  disown-Goes : s.place c ≡ Place.inside → Goes iflags (disown c s)
  unfolding disown CpuOk
  disown-Goes e =
      let mine : holds (s.place c) ≡ true = ap holds e in
      rw (owner-holding c s.lock (inv.taken c mine) (inv.owner c e)) (
        Goes.goes (
          stepped-Safe iflags s c Place.leaving s.cpus (record (s.lock) { cpu = none }) inv
            (mine_ok Place.inside e) (λ d ne. refl) (λ h. inv.taken c mine)
            (λ d ne h. absurd (others_free mine d ne h)) (λ h. absurd (cc))
            (λ d ne h. absurd (others_free mine d ne (ap holds h))) (λ h. absurd (cc))
            (λ d ne h. absurd (cc))))

  unlock-Goes : s.place c ≡ Place.leaving → Goes iflags (Outcome.ok (unlock c s))
  unfolding unlock CpuOk
  unlock-Goes e =
      let mine : holds (s.place c) ≡ true = ap holds e in
      let stranger = not_owner Place.leaving e (λ z. cc) in
      Goes.goes (
        stepped-Safe iflags s c Place.left s.cpus (record (s.lock) { locked = false }) inv
          (mine_ok Place.leaving e) (λ d ne. refl) (λ h. absurd (cc))
          (λ d ne h. absurd (others_free mine d ne h)) (λ h. absurd (cc))
          (λ d ne h. absurd (others_free mine d ne (ap holds h))) (λ h. absurd (stranger h))
          (λ d ne h. inv.owned d h))

  leave-Goes : s.place c ≡ Place.left → Goes iflags (leave c s)
  unfolding leave popcli CpuOk
  leave-Goes e =
      let stranger = not_owner Place.left e (λ z. cc) in
      let (one, off, was) = mine_ok Place.left e in
      let x : Cpu = record (s.cpus c) {
        ncli = (s.cpus c).ncli - 1;
        iflag = ((s.cpus c).ncli - 1 == 0) && (s.cpus c).intena;
      } in
      let popped : popcli (s.cpus c) ≡ Outcome.ok x =
        rw (popcli, off) (ap (λ n. if n == 0 then Outcome.panic else Outcome.ok x) one) in
      let last : CpuOk (iflags c) Place.outside x =
        (ap (λ n. n - 1) one, ap (λ n. (n - 1 == 0) && (s.cpus c).intena) one ∙ was) in
      rw (leave, popped)
        (Goes.goes (
          stepped-Safe iflags s c Place.outside (at_cpu s.cpus c x) s.lock inv
            (subst (CpuOk (iflags c) Place.outside) (sym (at_cpu_self s.cpus c x)) last)
            (λ d ne. at_cpu_other s.cpus c d x ne) (λ h. absurd (cc))
            (λ d ne h. (inv.taken d h, refl)) (λ h. absurd (cc)) (λ d ne h. inv.owner d h)
            (λ h. absurd (stranger h)) (λ d ne h. inv.owned d h)))

  step-Goes : Goes iflags (step c s)
  unfolding step
  step-Goes = go (s.place c) refl
    where
      go :
          (p : Place)
          → s.place c ≡ p
          → Goes iflags (elim p as (λ x. Outcome System) [
            | Place.outside ↦ enter c s
            | Place.spinning ↦ Outcome.ok (try_lock c s)
            | Place.won ↦ Outcome.ok (own c s)
            | Place.inside ↦ disown c s
            | Place.leaving ↦ Outcome.ok (unlock c s)
            | Place.left ↦ leave c s
          ])
      go Place.outside e = enter-Goes e
      go Place.spinning e = try_lock-Goes e
      go Place.won e = own-Goes e
      go Place.inside e = disown-Goes e
      go Place.leaving e = unlock-Goes e
      go Place.left e = leave-Goes e

run-Goes :
    (iflags : ℕ → Bool) (schedule : List ℕ) (s : System)
    → Safe iflags s
    → Goes iflags (run schedule s)
unfolding run
run-Goes iflags [] s inv = Goes.goes inv
run-Goes iflags (c ∷ cs) s inv =
    go (step c s) (step-Goes iflags s c inv) (λ t. run-Goes iflags cs t)
  where
    go :
        (o : Outcome System)
        → Goes iflags o
        → ((t : System) → Safe iflags t → Goes iflags (run cs t))
        → Goes iflags (elim o as (λ x. Outcome System) [
          | Outcome.panic ↦ Outcome.panic
          | Outcome.ok t ↦ run cs t
        ])
    go Outcome.panic stuck more = elim stuck [ ]
    go (Outcome.ok t) (Goes.goes inv) more = more t inv

start-Safe : (iflags : ℕ → Bool) → Safe iflags (start iflags)
unfolding start initlock CpuOk
start-Safe iflags = record {
  cpu_ok = λ c. (refl, refl);
  taken = λ c h. absurd (cc);
  alone = λ c d h k. absurd (cc);
  owner = λ c h. absurd (cc);
  owned = λ c h. absurd (cc);
}

-- In every interleaving of processors that acquire and release the lock: no check of spinlock.c
-- panics; at most one processor is between the exchange that takes the lock and the one that
-- frees it; and a processor has its interrupts off from the start of acquire to the end of
-- release, and outside has them as they were at the start.
pub run-start :
    (iflags : ℕ → Bool) (schedule : List ℕ)
    → (t : System) × (run schedule (start iflags) ≡ Outcome.ok t)
      × ((c d : ℕ) → holds (t.place c) ≡ true → holds (t.place d) ≡ true → c ≡ d)
      × ((c : ℕ) → CpuOk (iflags c) (t.place c) (t.cpus c))
run-start iflags schedule =
    result (run schedule (start iflags))
      (run-Goes iflags schedule (start iflags) (start-Safe iflags))
  where
    result :
        (o : Outcome System)
        → Goes iflags o
        → (t : System) × (o ≡ Outcome.ok t)
          × ((c d : ℕ) → holds (t.place c) ≡ true → holds (t.place d) ≡ true → c ≡ d)
          × ((c : ℕ) → CpuOk (iflags c) (t.place c) (t.cpus c))
    result Outcome.panic stuck = elim stuck [ ]
    result (Outcome.ok t) (Goes.goes inv) = (t, refl, inv.alone, inv.cpu_ok)
