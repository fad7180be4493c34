-- ===== src/Prle/Single.antt =====
-- The threads of prle.c encode the text chunk by chunk, and a single one prints what rle.c prints.
use cs_3224_operating_system.Base.{
  if◌then◌else◌, none, ℕ, zero, suc, ◌+◌, ◌-◌, ◌*◌, ◌/◌, ◌≤◌, ◌≡◌, refl, ◌∙◌, ap, sym, inl, inr,
  true, false, some, List, [], ◌∷◌, arith, ◌==◌, ltb, length, take, drop, map, Bool-cases,
}
use mathlib.Core.List.{append_assoc}
use cs_3224_operating_system.Rle.{take_run, emit, compress}
use cs_3224_operating_system.Rle.Runs.{Run, runs, IsCanonical, print, take_run-runs, compress-print}
use cs_3224_operating_system.Prle.{
  RunEntry, fits, prle_loop, prle, threads_for, chunk, run_threads, join, join_loop, last_loop, go,
}

-- A run of rle.c as an entry.
abbrev pub entry_of : Run → RunEntry
entry_of (n, c) = record { letter = c; length_of = n }

prle_loop-runs :
    (rounds : ℕ) (bytes : List ℕ)
    → length bytes ≤ rounds
    → prle_loop rounds bytes ≡ map entry_of (runs bytes)
unfolding prle_loop runs
prle_loop-runs zero [] h = refl
prle_loop-runs zero (c ∷ rest) h = absurd (omega arith)
prle_loop-runs (suc rounds) [] h = refl
prle_loop-runs (suc rounds) (c ∷ rest) h =
    let (same, shorter) = take_run-runs c 1 rest in
    rw same (
      ap (λ es. record { letter = c; length_of = (take_run c 1 rest).0 } ∷ es)
        (prle_loop-runs rounds (take_run c 1 rest).1 (omega (arith, shorter))))

length-map : (rs : List Run) → length (map entry_of rs) ≡ length rs
length-map [] = refl
length-map (x ∷ rs) = ap suc (length-map rs)

-- The entries of a thread are the runs of the bytes of its chunk, if they and the end mark fit the
-- buffer that is allocated for the chunk; otherwise the thread writes past it.
pub prle-runs :
    (base : List ℕ) (start end : ℕ)
    → prle base start end ≡ (
        if fits (end - start) (length (runs (take (end - start) (drop start base))))
        then some (map entry_of (runs (take (end - start) (drop start base))))
        else none)
unfolding prle
prle-runs base start end =
    let bytes = take (end - start) (drop start base) in
    let same = prle_loop-runs (length bytes) bytes (omega arith) in
    ap (λ es. if fits (end - start) (length es) then some es else none) same
    ∙ ap (λ n. if fits (end - start) n then some (map entry_of (runs bytes)) else none)
        (length-map (runs bytes))

last_loop-print :
    (decimal : ℕ → List ℕ) (rs : List Run)
    → IsCanonical rs
    → last_loop decimal (map entry_of rs) 0 ≡ print decimal rs
unfolding last_loop print emit
last_loop-print decimal [] h = refl
last_loop-print decimal ((n, c) ∷ rs) h =
    let rest = last_loop-print decimal rs h.2 in
    elim (Bool-cases (n == 1)) [
      | inl one ↦ let small : ltb 1 n ≡ false = ground arith in rw (one, small, rest) refl
      | inr more ↦
          let big : ltb 1 n ≡ true = ground (arith, h.0) in
          rw (more, big, rest) (sym (append_assoc (decimal n) (c ∷ []) (print decimal rs)))
    ]

threads_for-one : (n : ℕ) → n ≤ 24 → threads_for n ≡ 1
unfolding threads_for
threads_for-one n h = ground arith

take_all : (xs : List ℕ) → take (length xs) xs ≡ xs
take_all [] = refl
take_all (x ∷ xs) = ap (λ l. x ∷ l) (take_all xs)

single_result :
    (base : List ℕ)
    → run_threads 1 1 0 base ≡ (
        if fits (length base) (length (runs base))
        then some (map entry_of (runs base) ∷ [])
        else none)
unfolding run_threads chunk
single_result base =
    let e : 0 * (length base / 1) ≡ 0 = omega arith in
    let width : 0 + (length base - 0) - 0 ≡ length base = omega arith in
    let thread : prle base 0 (0 + (length base - 0)) ≡ (
        if fits (length base) (length (runs base)) then some (map entry_of (runs base)) else none) =
      prle-runs base 0 (0 + (length base - 0))
      ∙ ap
          (λ n.
            if fits n (length (runs (take n base)))
            then some (map entry_of (runs (take n base)))
            else none)
          width
      ∙ ap
          (λ l. if fits (length base) (length (runs l)) then some (map entry_of (runs l)) else none)
          (take_all base) in
    rw (run_threads, chunk, e, thread)
      (elim (Bool-cases (fits (length base) (length (runs base)))) [
        | inl room ↦ rw room refl
        | inr full ↦ rw full refl
      ])

some_runs :
    (base : List ℕ)
    → fits (length base) (length (runs base)) ≡ true
    → (length (runs base) == 0) ≡ false
unfolding runs fits
some_runs [] h = absurd (cc)
some_runs (c ∷ cs) h = ground arith

one_thread :
    (decimal : ℕ → List ℕ) (base : List ℕ) (es : List RunEntry)
    → threads_for (length base) ≡ 1
    → run_threads 1 1 0 base ≡ some (es ∷ [])
    → (length es == 0) ≡ false
    → go decimal base ≡ some (last_loop decimal es 0)
unfolding go join_loop join
one_thread decimal base es one threads filled =
    rw (go, one, threads, one, join_loop, join, filled, one) refl

no_room :
    (decimal : ℕ → List ℕ) (base : List ℕ)
    → threads_for (length base) ≡ 1
    → run_threads 1 1 0 base ≡ none
    → go decimal base ≡ none
unfolding go
no_room decimal base one threads = rw (go, one, threads) refl

-- Up to the threshold there is one thread. If its entries and the end mark fit the buffer that is
-- allocated for them, which the empty text does not allow, the program prints what `compress` of
-- rle.c prints; otherwise it writes past that buffer.
pub go-compress :
    (decimal : ℕ → List ℕ) (base : List ℕ)
    → length base ≤ 24
    → go decimal base
      ≡ (if fits (length base) (length (runs base)) then compress decimal base else none)
go-compress decimal base h =
    let one = threads_for-one (length base) h in
    elim (Bool-cases (fits (length base) (length (runs base)))) [
      | inl room ↦
          let threads : run_threads 1 1 0 base ≡ some (map entry_of (runs base) ∷ []) =
            single_result base ∙ rw room refl in
          let filled : (length (map entry_of (runs base)) == 0) ≡ false =
            ap (λ n. n == 0) (length-map (runs base)) ∙ some_runs base room in
          let same = compress-print decimal base in
          rw room (
            one_thread decimal base (map entry_of (runs base)) one threads filled
            ∙ ap some (last_loop-print decimal (runs base) same.1)
            ∙ sym same.0)
      | inr full ↦
          let threads : run_threads 1 1 0 base ≡ none = single_result base ∙ rw full refl in
          rw full (no_room decimal base one threads)
    ]
