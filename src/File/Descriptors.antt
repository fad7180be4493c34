-- ===== src/File/Descriptors.antt =====
-- The descriptor that argfd of kernel/sysfile.c finds, in the list of descriptors of a process.
use cs_3224_operating_system.Base.{
  ℕ, zero, suc, ◌^◌, ◌≤◌, ◌<◌, ◌≡◌, refl, ◌≢◌, ap, inl, inr, false, ◌||◌, Option, none, some,
  some_inj, List, [], ◌∷◌, arith, if◌then◌else◌, ◌==◌, ==_ne, leb, length, get_or, Bool-cases,
}
use native.Mathlib.Decide.{dec_lt}
use cs_3224_operating_system.Proc.Types.{nofile}
use cs_3224_operating_system.Syscall.{User, argint}
use cs_3224_operating_system.File.{argfd}
use cs_3224_operating_system.File.Counts.{occurrences}

get_or-past : (xs : List ℕ) (i : ℕ) → length xs ≤ i → get_or xs i 0 ≡ 0
get_or-past [] i h = refl
get_or-past (x ∷ xs) zero h = absurd (omega arith)
get_or-past (x ∷ xs) (suc i) h = get_or-past xs i (omega arith)

pub get_or-lt : (xs : List ℕ) (i : ℕ) → get_or xs i 0 ≢ 0 → i < length xs
get_or-lt xs i h = elim (dec_lt i (length xs)) [
  | yes lt ↦ lt
  | no past ↦ absurd (h (get_or-past xs i (omega (arith, past))))
]

-- A pointer that is in a descriptor is counted.
pub occurrences-get :
    (xs : List ℕ) (fd : ℕ) → get_or xs fd 0 ≢ 0 → 0 < occurrences (get_or xs fd 0) xs
occurrences-get [] fd h = absurd (h refl)
occurrences-get (x ∷ xs) zero h = ground arith
occurrences-get (x ∷ xs) (suc fd) h = omega (arith, occurrences-get xs fd h)

pub argfd-open :
    (u : User) (n : ℕ) (ofile : List ℕ) (fd f : ℕ)
    → argfd u n ofile ≡ some (fd, f)
    → (get_or ofile fd 0 ≡ f) × (f ≢ 0)
unfolding argfd
argfd-open u n ofile fd f h = go (argint u n) h
  where
    go :
        (o : Option ℕ)
        → (elim o as (λ x. Option (ℕ × ℕ)) [
          | none ↦ none
          | some a ↦
              if (leb (2 ^ 31) a || leb nofile a) || (get_or ofile a 0 == 0)
              then none
              else some (a, get_or ofile a 0)
        ])
          ≡ some (fd, f)
        → (get_or ofile fd 0 ≡ f) × (f ≢ 0)
    go none h = absurd (cc)
    go (some a) h =
        elim (Bool-cases ((leb (2 ^ 31) a || leb nofile a) || (get_or ofile a 0 == 0))) [
          | inl bad ↦ let h' = rw bad at h in absurd (cc)
          | inr good ↦
              let h' = some_inj (rw good at h) in
              let fd_eq = ap (λ (x : ℕ × ℕ). x.0) h' in
              let f_eq = ap (λ (x : ℕ × ℕ). x.1) h' in
              let some_file : (get_or ofile a 0 == 0) ≡ false = ground arith in
              rw (← fd_eq, ← f_eq) (refl, ==_ne (get_or ofile a 0) 0 some_file)
        ]
