-- ===== src/Rle/Runs.antt =====
-- What `compress` of rle.c prints, in terms of the maximal runs of its source.
use cs_3224_operating_system.Base.{
  ℕ, zero, suc, ◌+◌, ◌≤◌, ◌<◌, ◌≡◌, refl, ◌≢◌, ap, ◌∙◌, false, some, List, [], ◌∷◌, ◌++◌, arith,
  if◌then◌else◌, ◌==◌, length, replicate, Bool-cases, inl, inr,
}
use mathlib.Core.List.{append-nil, append_assoc}
use cs_3224_operating_system.Rle.{take_run, emit, encode_loop, compress}

-- A run: how often, and which byte.
abbrev pub Run : Type 0
Run = ℕ × ℕ

-- `k` more copies of `c` in front.
unfoldable pub add : ℕ → ℕ → List Run → List Run
add k c [] = (k, c) ∷ []
add k c ((n, d) ∷ rs) = if c == d then (k + n, d) ∷ rs else (k, c) ∷ (n, d) ∷ rs

-- The runs of a text.
unfoldable pub runs : List ℕ → List Run
unfolding add
runs [] = []
runs (c ∷ xs) = add 1 c (runs xs)

-- The text that runs stand for.
unfoldable pub expand : List Run → List ℕ
expand [] = []
expand ((n, c) ∷ rs) = replicate n c ++ expand rs

abbrev pub HeadNe : ℕ → List Run → Type 0
HeadNe c [] = Unit
HeadNe c ((_, d) ∷ _) = c ≢ d

-- No run is empty, and no two neighbours have the same byte.
abbrev pub IsCanonical : List Run → Type 0
IsCanonical [] = Unit
IsCanonical ((n, c) ∷ rs) = (0 < n) × HeadNe c rs × IsCanonical rs

add-IsCanonical : (k c : ℕ) (rs : List Run) → 0 < k → IsCanonical rs → IsCanonical (add k c rs)
unfolding add
add-IsCanonical k c [] pos h = (pos, tt, tt)
add-IsCanonical k c ((n, d) ∷ rs) pos h = elim (Bool-cases (c == d)) [
  | inl same ↦ rw same (omega arith, h.1, h.2)
  | inr other ↦ rw other (pos, ground arith, h)
]

pub runs-IsCanonical : (xs : List ℕ) → IsCanonical (runs xs)
unfolding runs
runs-IsCanonical [] = tt
runs-IsCanonical (c ∷ xs) = add-IsCanonical 1 c (runs xs) (omega arith) (runs-IsCanonical xs)

replicate-append :
    (k n c : ℕ) (ys : List ℕ) → replicate (k + n) c ++ ys ≡ replicate k c ++ (replicate n c ++ ys)
replicate-append zero n c ys = let e : 0 + n ≡ n = omega arith in rw e
replicate-append (suc k) n c ys =
    let e : suc k + n ≡ suc (k + n) = omega arith in
    rw e (ap (λ r. c ∷ r) (replicate-append k n c ys))

expand-add : (k c : ℕ) (rs : List Run) → expand (add k c rs) ≡ replicate k c ++ expand rs
unfolding add expand
expand-add k c [] = refl
expand-add k c ((n, d) ∷ rs) = elim (Bool-cases (c == d)) [
  | inl same ↦ let e : d ≡ c = ground arith in rw (same, e) (replicate-append k n c (expand rs))
  | inr other ↦ rw other refl
]

pub expand-runs : (xs : List ℕ) → expand (runs xs) ≡ xs
unfolding runs expand
expand-runs [] = refl
expand-runs (c ∷ xs) = expand-add 1 c (runs xs) ∙ ap (λ r. c ∷ r) (expand-runs xs)

add-add : (k c : ℕ) (rs : List Run) → add k c (add 1 c rs) ≡ add (k + 1) c rs
unfolding add
add-add k c [] = ground arith
add-add k c ((n, d) ∷ rs) = ground arith

add-ne : (k c d : ℕ) (rs : List Run) → (c == d) ≡ false → add k c (add 1 d rs) ≡ (k, c) ∷ add 1 d rs
unfolding add
add-ne k c d [] h = rw h refl
add-ne k c d ((n, e) ∷ rs) h = ground arith

-- The inner loop strips one run.
pub take_run-runs :
    (c k : ℕ) (xs : List ℕ)
    → (add k c (runs xs) ≡ ((take_run c k xs).0, c) ∷ runs (take_run c k xs).1)
      × (length (take_run c k xs).1 ≤ length xs)
unfolding take_run runs
take_run-runs c k [] = (refl, omega arith)
take_run-runs c k (d ∷ xs) = elim (Bool-cases (c == d)) [
  | inl same ↦
      let e : d ≡ c = ground arith in
      let ih = take_run-runs c (k + 1) xs in
      rw (same, e) (add-add k c (runs xs) ∙ ih.0, omega (arith, ih.1))
  | inr other ↦ rw other (add-ne k c d (runs xs) other, omega arith)
]

module _ (decimal : ℕ → List ℕ) where
  -- Runs as `compress` prints them.
  unfoldable pub print : List Run → List ℕ
  unfolding emit
  print [] = []
  print ((n, c) ∷ rs) = emit decimal n c ++ print rs

  pub encode_loop-print :
      (fuel : ℕ) (xs encode : List ℕ)
      → length xs ≤ fuel
      → encode_loop decimal fuel xs encode ≡ some (encode ++ print (runs xs))
  unfolding encode_loop runs print
  encode_loop-print zero [] encode h = ap some (rw append-nil)
  encode_loop-print (suc fuel) [] encode h = ap some (rw append-nil)
  encode_loop-print zero (c ∷ xs) encode h = absurd (omega arith)
  encode_loop-print (suc fuel) (c ∷ xs) encode h =
      let (same, shorter) = take_run-runs c 1 xs in
      encode_loop-print fuel (take_run c 1 xs).1 (encode ++ emit decimal (take_run c 1 xs).0 c)
        (omega (arith, shorter))
      ∙ ap some (rw (same, append_assoc))

  -- `compress` always finishes, and prints one group for each maximal run of its source: the runs
  -- are not empty, neighbours differ, and together they spell the source.
  pub compress-print :
      (src : List ℕ)
      → (compress decimal src ≡ some (print (runs src)))
        × IsCanonical (runs src)
        × (expand (runs src) ≡ src)
  unfolding compress
  compress-print src =
      (encode_loop-print (length src) src [] (omega arith), runs-IsCanonical src, expand-runs src)
