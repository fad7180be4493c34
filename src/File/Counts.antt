-- ===== src/File/Counts.antt =====
-- How the operations of kernel/file.c change the reference counts.
use cs_3224_operating_system.Base.{
  ℕ, zero, suc, ◌+◌, ◌-◌, ◌≤◌, ◌<◌, ◌≡◌, refl, ◌≢◌, ◌∙◌, ap, inl, inr, true, false, Option, none,
  some, some_inj, List, [], ◌∷◌, arith, if◌then◌else◌, ◌==◌, ltb, length, get_or, set, get_or-set,
  length-set, Bool-cases,
}
use native.Mathlib.Decide.{dec_lt, ℕ_discrete}
use cs_3224_operating_system.Log.{Outcome}
use cs_3224_operating_system.File.{
  File, no_file, file_at, free_file, filealloc, filedup, fileclose, Release, release_of, free_fd,
  fdalloc, FileType,
}

abbrev pub ref_at : List File → ℕ → ℕ
ref_at table i = (file_at table i).ref

-- 1 for the number itself, and 0 for any other.
abbrev pub one_at : ℕ → ℕ → ℕ
one_at i j = if i == j then 1 else 0

-- How many descriptors hold a pointer.
abbrev pub occurrences : ℕ → List ℕ → ℕ
occurrences f [] = 0
occurrences f (x ∷ xs) = one_at x f + occurrences f xs

file_at-past : (table : List File) (i : ℕ) → length table ≤ i → file_at table i ≡ no_file
file_at-past [] i h = refl
file_at-past (f ∷ fs) zero h = absurd (omega arith)
file_at-past (f ∷ fs) (suc i) h = file_at-past fs i (omega arith)

-- An entry with a reference is in the table.
pub ref_at-lt : (table : List File) (i : ℕ) → 0 < ref_at table i → i < length table
ref_at-lt table i h = elim (dec_lt i (length table)) [
  | yes lt ↦ lt
  | no past ↦
      let e = ap (λ (f : File). f.ref) (file_at-past table i (omega (arith, past))) in
      absurd (omega (arith, h, e))
]

pub ref_at-set :
    (table : List File) (i : ℕ) (f : File) (j : ℕ)
    → i < length table
    → ref_at (set table i f) j ≡ (if i == j then f.ref else ref_at table j)
ref_at-set table i f j lt =
    ap (λ (g : File). g.ref) (get_or-set table i j f no_file) ∙ elim (Bool-cases (i == j)) [
      | inl same ↦ let here : ltb j (length table) ≡ true = ground arith in rw (same, here) refl
      | inr other ↦ rw other refl
    ]

module _ (table : List File) (i : ℕ) (f : File) where
  pub ref_at-up :
      ref_at table i + 1 ≡ f.ref
      → i < length table
      → (j : ℕ) → ref_at (set table i f) j ≡ ref_at table j + one_at i j
  ref_at-up e lt j = ref_at-set table i f j lt ∙ elim (ℕ_discrete i j) [
    | yes same ↦ let e' = ap (ref_at table) same in ground (arith, e, e', same)
    | no other ↦ ground (arith, other)
  ]

  pub ref_at-down :
      f.ref + 1 ≡ ref_at table i
      → i < length table
      → (j : ℕ) → ref_at (set table i f) j + one_at i j ≡ ref_at table j
  ref_at-down e lt j =
      let set_eq = ref_at-set table i f j lt in
      elim (ℕ_discrete i j) [
        | yes same ↦ let e' = ap (ref_at table) same in ground (arith, set_eq, e, e', same)
        | no other ↦ ground (arith, set_eq, other)
      ]

  pub ref_at-same :
      f.ref ≡ ref_at table i
      → i < length table
      → (j : ℕ) → ref_at (set table i f) j ≡ ref_at table j
  ref_at-same e lt j = ref_at-set table i f j lt ∙ elim (ℕ_discrete i j) [
    | yes same ↦ let e' = ap (ref_at table) same in ground (arith, e, e', same)
    | no other ↦ ground (arith, other)
  ]

free_file-free :
    (i : ℕ) (fs : List File) (j : ℕ)
    → free_file i fs ≡ some j
    → (i ≤ j) × (j - i < length fs) × (ref_at fs (j - i) ≡ 0)
unfolding free_file
free_file-free i [] j h = absurd (cc)
free_file-free i (f ∷ fs) j h = elim (Bool-cases (f.ref == 0)) [
  | inl free ↦
      let h' = rw free at h in
      let e : j - i ≡ 0 = omega (arith, some_inj h') in
      (omega (arith, some_inj h'), rw e (omega arith), rw e (ground arith))
  | inr used ↦
      let h' = rw used at h in
      let (le, lt, z) = free_file-free (i + 1) fs j h' in
      let e : j - i ≡ suc (j - (i + 1)) = omega (arith, le) in
      (omega (arith, le), rw e (omega (arith, lt)), rw e z)
]

-- `filealloc` returns an entry that had no references, and it then has one.
pub filealloc-ref :
    (table : List File) (i : ℕ) (t : List File)
    → filealloc table ≡ some (i, t)
    → (ref_at table i ≡ 0) × (i < length t) × ((j : ℕ) → ref_at t j ≡ ref_at table j + one_at i j)
unfolding filealloc
filealloc-ref table i t h = go (free_file 0 table) refl h
  where
    go :
        (o : Option ℕ)
        → free_file 0 table ≡ o
        → (elim o as (λ x. Option (ℕ × List File)) [
          | none ↦ none
          | some a ↦ some (a, set table a (record (file_at table a) { ref = 1 }))
        ])
          ≡ some (i, t)
        → (ref_at table i ≡ 0)
          × (i < length t)
          × ((j : ℕ) → ref_at t j ≡ ref_at table j + one_at i j)
    go none e h = absurd (cc)
    go (some a) e h =
        let (le, lt, z) = free_file-free 0 table a e in
        let at_a : a - 0 ≡ a = omega arith in
        let lt_a : a < length table = rw at_a at lt in
        let z_a : ref_at table a ≡ 0 = rw at_a at z in
        let t_eq = ap (λ (x : ℕ × List File). x.1) (some_inj h) in
        let i_eq : a ≡ i = ap (λ (x : ℕ × List File). x.0) (some_inj h) in
        let made = record (file_at table a) { ref = 1 } in
        let counts = ref_at-up table a made (omega (arith, z_a)) lt_a in
        rw (← i_eq, ← t_eq) (z_a, omega (arith, lt_a, length-set table a made), counts)

pub occurrences-set :
    (xs : List ℕ) (fd v g : ℕ)
    → fd < length xs
    → occurrences g (set xs fd v) + one_at (get_or xs fd 0) g ≡ occurrences g xs + one_at v g
occurrences-set [] fd v g h = absurd (omega arith)
occurrences-set (x ∷ xs) zero v g h = omega arith
occurrences-set (x ∷ xs) (suc fd) v g h = omega (arith, occurrences-set xs fd v g (omega arith))

-- `filedup` of an entry that has references does not panic, and adds one.
pub filedup-ref :
    (i : ℕ) (table : List File)
    → 0 < ref_at table i
    → (t : List File) × (filedup i table ≡ Outcome.ok t)
      × ((j : ℕ) → ref_at t j ≡ ref_at table j + one_at i j)
unfolding filedup
filedup-ref i table pos =
    let live : ltb (ref_at table i) 1 ≡ false = ground arith in
    let more = record (file_at table i) { ref = ref_at table i + 1 } in
    (set table i more, rw (filedup, live) refl, ref_at-up table i more refl (ref_at-lt table i pos))

-- `fileclose` of an entry that has references does not panic, and takes one away.
pub fileclose-ref :
    (i : ℕ) (table : List File)
    → 0 < ref_at table i
    → (r : Release) × (t : List File) × (fileclose i table ≡ Outcome.ok (r, t))
      × ((j : ℕ) → ref_at t j + one_at i j ≡ ref_at table j)
unfolding fileclose
fileclose-ref i table pos =
    let live : ltb (ref_at table i) 1 ≡ false = ground arith in
    let lt = ref_at-lt table i pos in
    elim (Bool-cases (ltb 0 (ref_at table i - 1))) [
      | inl shared ↦
          let less = record (file_at table i) { ref = ref_at table i - 1 } in
          (
            Release.nothing,
            set table i less,
            rw (fileclose, live, shared) refl,
            ref_at-down table i less (omega (arith, pos)) lt,
          )
      | inr last ↦
          let gone = record (file_at table i) { ref = 0; ty = FileType.fd_none } in
          let one : ref_at table i ≡ 1 = ground (arith, pos, last) in
          (
            release_of (file_at table i),
            set table i gone,
            rw (fileclose, live, last) refl,
            ref_at-down table i gone (omega (arith, one)) lt,
          )
    ]

free_fd-free :
    (fd : ℕ) (xs : List ℕ) (j : ℕ)
    → free_fd fd xs ≡ some j
    → (fd ≤ j) × (j - fd < length xs) × (get_or xs (j - fd) 0 ≡ 0)
unfolding free_fd
free_fd-free fd [] j h = absurd (cc)
free_fd-free fd (x ∷ xs) j h = elim (Bool-cases (x == 0)) [
  | inl free ↦
      let h' = rw free at h in
      let e : j - fd ≡ 0 = omega (arith, some_inj h') in
      (omega (arith, some_inj h'), rw e (omega arith), rw e (ground arith))
  | inr used ↦
      let h' = rw used at h in
      let (le, lt, z) = free_fd-free (fd + 1) xs j h' in
      let e : j - fd ≡ suc (j - (fd + 1)) = omega (arith, le) in
      (omega (arith, le), rw e (omega (arith, lt)), rw e z)
]

-- `fdalloc` stores the pointer in a descriptor that was free.
pub fdalloc-occurrences :
    (f : ℕ) (ofile : List ℕ) (fd : ℕ) (xs : List ℕ)
    → fdalloc f ofile ≡ some (fd, xs)
    → (get_or ofile fd 0 ≡ 0)
      × ((g : ℕ) → g ≢ 0 → occurrences g xs ≡ occurrences g ofile + one_at f g)
unfolding fdalloc
fdalloc-occurrences f ofile fd xs h = go (free_fd 0 ofile) refl h
  where
    go :
        (o : Option ℕ)
        → free_fd 0 ofile ≡ o
        → (elim o as (λ x. Option (ℕ × List ℕ)) [ none ↦ none | some a ↦ some (a, set ofile a f) ])
          ≡ some (fd, xs)
        → (get_or ofile fd 0 ≡ 0)
          × ((g : ℕ) → g ≢ 0 → occurrences g xs ≡ occurrences g ofile + one_at f g)
    go none e h = absurd (cc)
    go (some a) e h =
        let (le, lt, z) = free_fd-free 0 ofile a e in
        let at_a : a - 0 ≡ a = omega arith in
        let lt_a : a < length ofile = rw at_a at lt in
        let z_a : get_or ofile a 0 ≡ 0 = rw at_a at z in
        let t_eq = ap (λ (x : ℕ × List ℕ). x.1) (some_inj h) in
        let i_eq : a ≡ fd = ap (λ (x : ℕ × List ℕ). x.0) (some_inj h) in
        rw (← i_eq, ← t_eq) (z_a, λ g ne. ground (arith, occurrences-set ofile a f g lt_a, z_a, ne))
