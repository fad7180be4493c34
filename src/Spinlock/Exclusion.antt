-- ===== src/Spinlock/Exclusion.antt =====
-- The lock of kernel/spinlock.c excludes: the invariant of the processors' steps.
use cs_3224_operating_system.Base.{
  ℕ, ◌≡◌, ◌≢◌, ◌⊎◌, inl, inr, ◌∙◌, sym, ap, subst, Bool, true, false, some, if◌then◌else◌, ==_refl,
  ne_==,
}
use native.Mathlib.Decide.{ℕ_discrete}
use cs_3224_operating_system.Spinlock.{Cpu, Lock, Place, System, at_cpu}

-- Between the xchg that took the lock and the one that frees it.
abbrev pub holds : Place → Bool
holds Place.outside = false
holds Place.spinning = false
holds Place.won = true
holds Place.inside = true
holds Place.leaving = true
holds Place.left = false

-- Outside, the interrupts are as they were; otherwise they are off, and remembered.
unfoldable pub CpuOk : Bool → Place → Cpu → Type 0
CpuOk iflag Place.outside x = (x.ncli ≡ 0) × (x.iflag ≡ iflag)
CpuOk iflag Place.spinning x = (x.ncli ≡ 1) × (x.iflag ≡ false) × (x.intena ≡ iflag)
CpuOk iflag Place.won x = (x.ncli ≡ 1) × (x.iflag ≡ false) × (x.intena ≡ iflag)
CpuOk iflag Place.inside x = (x.ncli ≡ 1) × (x.iflag ≡ false) × (x.intena ≡ iflag)
CpuOk iflag Place.leaving x = (x.ncli ≡ 1) × (x.iflag ≡ false) × (x.intena ≡ iflag)
CpuOk iflag Place.left x = (x.ncli ≡ 1) × (x.iflag ≡ false) × (x.intena ≡ iflag)

pub record Safe (iflags : ℕ → Bool) (s : System) : Type 0 where
  pub cpu_ok : (c : ℕ) → CpuOk (iflags c) (s.place c) (s.cpus c)
  pub taken : (c : ℕ) → holds (s.place c) ≡ true → s.lock.locked ≡ true
  pub alone : (c d : ℕ) → holds (s.place c) ≡ true → holds (s.place d) ≡ true → c ≡ d
  pub owner : (c : ℕ) → s.place c ≡ Place.inside → s.lock.cpu ≡ some c
  pub owned : (c : ℕ) → s.lock.cpu ≡ some c → s.place c ≡ Place.inside

pub at_cpu_self {ℓ} : {A : Type ℓ} (f : ℕ → A) (c : ℕ) (v : A) → at_cpu f c v c ≡ v
at_cpu_self f c v = ap (λ t. if t then v else f c) (==_refl c)

pub at_cpu_other {ℓ} : {A : Type ℓ} (f : ℕ → A) (c d : ℕ) (v : A) → c ≢ d → at_cpu f c v d ≡ f d
at_cpu_other f c d v ne = ap (λ t. if t then v else f d) (ne_== c d ne)

-- A step of processor `c` to place `p`, with the processors and the lock after it.
abbrev pub stepped : System → ℕ → Place → (ℕ → Cpu) → Lock → System
stepped s c p xs lk = record { lock = lk; cpus = xs; place = at_cpu s.place c p }

pub stepped-Safe :
    (iflags : ℕ → Bool) (s : System) (c : ℕ) (p : Place) (xs : ℕ → Cpu) (lk : Lock)
    → Safe iflags s
    → CpuOk (iflags c) p (xs c)
    → ((d : ℕ) → c ≢ d → xs d ≡ s.cpus d)
    → (holds p ≡ true → lk.locked ≡ true)
    → ((d : ℕ) → c ≢ d → holds (s.place d) ≡ true → (lk.locked ≡ true) × (holds p ≡ false))
    → (p ≡ Place.inside → lk.cpu ≡ some c)
    → ((d : ℕ) → c ≢ d → s.place d ≡ Place.inside → lk.cpu ≡ some d)
    → (lk.cpu ≡ some c → p ≡ Place.inside)
    → ((d : ℕ) → c ≢ d → lk.cpu ≡ some d → s.place d ≡ Place.inside)
    → Safe iflags (stepped s c p xs lk)
stepped-Safe iflags s c p xs lk inv ok same mine others owner owners owned owneds = record {
  cpu_ok = λ d. elim (ℕ_discrete c d) [
    | yes e ↦
        subst (λ d. CpuOk (iflags d) (at_cpu s.place c p d) (xs d)) e
          (subst (λ q. CpuOk (iflags c) q (xs c)) (sym (at_cpu_self s.place c p)) ok)
    | no ne ↦
        subst (λ q. CpuOk (iflags d) q (xs d)) (sym (at_cpu_other s.place c d p ne))
          (subst (CpuOk (iflags d) (s.place d)) (sym (same d ne)) (inv.cpu_ok d))
  ];
  taken = λ d h. elim (here d) [
    | inl (e, q) ↦ mine (ap holds (sym q) ∙ h)
    | inr (ne, q) ↦ (others d ne (ap holds (sym q) ∙ h)).0
  ];
  alone = λ d e hd he. elim (here d) [
    | inl (d_is, qd) ↦ elim (here e) [
      | inl (e_is, qe) ↦ sym d_is ∙ e_is
      | inr (ne, qe) ↦
          let free = (others e ne (ap holds (sym qe) ∙ he)).1 in
          let clash = sym (ap holds qd) ∙ hd in absurd (cc)
    ]
    | inr (ne, qd) ↦ elim (here e) [
      | inl (e_is, qe) ↦
          let free = (others d ne (ap holds (sym qd) ∙ hd)).1 in
          let clash = sym (ap holds qe) ∙ he in absurd (cc)
      | inr (ne', qe) ↦ inv.alone d e (ap holds (sym qd) ∙ hd) (ap holds (sym qe) ∙ he)
    ]
  ];
  owner = λ d h. elim (here d) [
    | inl (e, q) ↦ owner (sym q ∙ h) ∙ ap some e
    | inr (ne, q) ↦ owners d ne (sym q ∙ h)
  ];
  owned = λ d h. elim (here d) [
    | inl (e, q) ↦ q ∙ owned (h ∙ ap some (sym e))
    | inr (ne, q) ↦ q ∙ owneds d ne h
  ];
}
  where
    here :
        (d : ℕ)
        → ((c ≡ d) × (at_cpu s.place c p d ≡ p)) ⊎ ((c ≢ d) × (at_cpu s.place c p d ≡ s.place d))
    here d = elim (ℕ_discrete c d) [
      | yes e ↦ inl (e, ap (at_cpu s.place c p) (sym e) ∙ at_cpu_self s.place c p)
      | no ne ↦ inr (ne, at_cpu_other s.place c d p ne)
    ]
