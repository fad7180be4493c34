-- ===== src/Rle/Size.antt =====
-- How long the output of `compress` of rle.c is, against the buffer that it allocates.
use cs_3224_operating_system.Base.{
  ℕ, zero, suc, ◌+◌, ◌-◌, ◌*◌, ◌^◌, ◌≤◌, ◌<◌, ◌≡◌, some, List, [], ◌∷◌, arith, ltb, length,
  replicate, length-append, length-replicate, Bool-cases, inl, inr,
}
use native.Mathlib.Nat.{pow-suc}
use cs_3224_operating_system.Rle.{emit, compress}
use cs_3224_operating_system.Rle.Runs.{
  Run, runs, expand, IsCanonical, print, compress-print, expand-runs, runs-IsCanonical,
}
use cs_3224_operating_system.Rle.Decimal.{Decimal}

lt_pow : (k : ℕ) → k < 10 ^ k
lt_pow zero = omega arith
lt_pow (suc k) = omega (arith, pow-suc 10 k, lt_pow k)

-- A positive number below `10 ^ k` digits leaves room for its letter.
short_lt : (l n : ℕ) → 10 ^ (l - 1) ≤ n → 1 < n → l < n
short_lt zero n h g = omega arith
short_lt (suc zero) n h g = omega arith
short_lt (suc (suc k)) n h g =
    let k1 : suc (suc k) - 1 ≡ suc k = omega arith in
    let e : 10 ^ suc k ≤ n = rw k1 at h in omega (arith, pow-suc 10 k, lt_pow k, e)

module _ (decimal : ℕ → List ℕ) (printer : Decimal decimal) where
  length-emit : (n c : ℕ) → 0 < n → length (emit decimal n c) ≤ n
  unfolding emit
  length-emit n c pos = elim (Bool-cases (ltb 1 n)) [
    | inl many ↦
        let big : 1 < n = ground arith in
        rw many (
          omega (
            arith,
            length-append (decimal n) (c ∷ []),
            short_lt (length (decimal n)) n (printer.short n pos) big,
          ))
    | inr one ↦ rw one (omega arith)
  ]

  length-print : (rs : List Run) → IsCanonical rs → length (print decimal rs) ≤ length (expand rs)
  unfolding print expand
  length-print [] can = omega arith
  length-print ((n, c) ∷ rs) can = omega (
    arith,
    length-append (emit decimal n c) (print decimal rs),
    length-append (replicate n c) (expand rs),
    length-replicate n c,
    length-emit n c can.0,
    length-print rs can.2,
  )

  -- `compress` finishes, and never writes more bytes than its source has; with the terminator they
  -- fit the `len * 2 + 1` bytes of `encode`.
  pub length-compress :
      (src : List ℕ)
      → (out : List ℕ) × (compress decimal src ≡ some out)
        × (length out ≤ length src)
        × (length out + 1 ≤ length src * 2 + 1)
  length-compress src =
      let e = length-print (runs src) (runs-IsCanonical src) in
      let same = expand-runs src in
      let short : length (print decimal (runs src)) ≤ length src = rw same at e in
      (print decimal (runs src), (compress-print decimal src).0, short, omega arith)
