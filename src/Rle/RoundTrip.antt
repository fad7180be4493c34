-- ===== src/Rle/RoundTrip.antt =====
-- The output of `compress` of rle.c determines its source, when that has no digits.
use cs_3224_operating_system.Base.{
  ℕ, ◌+◌, ◌-◌, ◌*◌, ◌<◌, ◌≡◌, refl, ◌∙◌, ap, true, false, Bool, ◌&&◌, Option, none, some, List, [],
  ◌∷◌, ◌++◌, arith, if◌then◌else◌, leb, ltb, ◌==◌, replicate, All, Bool-cases, inl, inr,
}
use mathlib.Core.List.{append_assoc}
use cs_3224_operating_system.Rle.{emit, compress}
use cs_3224_operating_system.Rle.Runs.{
  Run, add, runs, expand, IsCanonical, print, compress-print, expand-runs, runs-IsCanonical,
}
use cs_3224_operating_system.Rle.Decimal.{IsDigit, number, Decimal}

abbrev is_digit : ℕ → Bool
is_digit b = leb b'0' b && leb b b'9'

abbrev count_or : ℕ → Option ℕ → ℕ
count_or d none = d
count_or d (some n) = n

-- A decoder: digits make up a count, and any other byte is repeated by the count before it, or
-- stands for itself.
decode_from : Option ℕ → List ℕ → List ℕ
decode_from acc [] = []
decode_from acc (b ∷ bs) =
    let digit = decode_from (some (10 * count_or 0 acc + (b - b'0'))) bs in
    let letter = replicate (count_or 1 acc) b ++ decode_from none bs in
    if is_digit b then digit else letter

unfoldable pub decode : List ℕ → List ℕ
unfolding decode_from
decode bs = decode_from none bs

abbrev pub NotDigit : ℕ → Type 0
NotDigit b = is_digit b ≡ false

decode_digits :
    (n : ℕ) (ds rest : List ℕ)
    → All IsDigit ds
    → decode_from (some n) (ds ++ rest) ≡ decode_from (some (number n ds)) rest
unfolding decode_from number
decode_digits n [] rest h = refl
decode_digits n (d ∷ ds) rest h =
    let e : is_digit d ≡ true = ground (arith, h.0) in
    rw e (decode_digits (10 * n + (d - b'0')) ds rest h.1)

-- From no count, digits that spell more than nothing are read as their number.
decode_count :
    (ds rest : List ℕ)
    → All IsDigit ds
    → 0 < number 0 ds
    → decode_from none (ds ++ rest) ≡ decode_from (some (number 0 ds)) rest
unfolding decode_from number
decode_count [] rest h pos = absurd (omega arith)
decode_count (d ∷ ds) rest h pos =
    let e : is_digit d ≡ true = ground (arith, h.0) in
    rw e (decode_digits (10 * 0 + (d - b'0')) ds rest h.1)

decode_letter :
    (acc : Option ℕ) (c : ℕ) (rest : List ℕ)
    → NotDigit c
    → decode_from acc (c ∷ rest) ≡ replicate (count_or 1 acc) c ++ decode_from none rest
unfolding decode_from
decode_letter acc c rest h = rw h

-- The letters of runs are no digits.
abbrev Letters : List Run → Type 0
Letters [] = Unit
Letters ((n, c) ∷ rs) = NotDigit c × Letters rs

add-Letters : (c : ℕ) (rs : List Run) → NotDigit c → Letters rs → Letters (add 1 c rs)
unfolding add
add-Letters c [] h l = (h, tt)
add-Letters c ((n, d) ∷ rs) h l = elim (Bool-cases (c == d)) [
  | inl same ↦ rw same l
  | inr other ↦ rw other (h, l)
]

runs-Letters : (xs : List ℕ) → All NotDigit xs → Letters (runs xs)
unfolding runs
runs-Letters [] h = tt
runs-Letters (c ∷ xs) h = add-Letters c (runs xs) h.0 (runs-Letters xs h.1)

module _ (decimal : ℕ → List ℕ) (printer : Decimal decimal) where
  decode_emit :
      (n c : ℕ) (rest : List ℕ)
      → 0 < n
      → NotDigit c
      → decode_from none (emit decimal n c ++ rest) ≡ replicate n c ++ decode_from none rest
  unfolding emit
  decode_emit n c rest pos h = elim (Bool-cases (ltb 1 n)) [
    | inl many ↦
        let value = printer.value n in
        rw many (
          ap (decode_from none) (append_assoc (decimal n) (c ∷ []) rest)
          ∙ decode_count (decimal n) (c ∷ rest) (printer.digits n) (rw value pos)
          ∙ rw value (decode_letter (some n) c rest h))
    | inr one ↦ let e : n ≡ 1 = ground arith in rw (one, e) (decode_letter none c rest h)
  ]

  decode_print :
      (rs : List Run)
      → IsCanonical rs
      → Letters rs
      → decode_from none (print decimal rs) ≡ expand rs
  unfolding print expand decode_from
  decode_print [] can h = refl
  decode_print ((n, c) ∷ rs) can h =
      decode_emit n c (print decimal rs) can.0 h.0
      ∙ ap (λ r. replicate n c ++ r) (decode_print rs can.2 h.1)

  -- On a source with no digits in it, `compress` finishes, and its output decodes to the source.
  pub decode-compress :
      (src : List ℕ)
      → All NotDigit src
      → (out : List ℕ) × (compress decimal src ≡ some out) × (decode out ≡ src)
  unfolding decode
  decode-compress src h = (
    print decimal (runs src),
    (compress-print decimal src).0,
    decode_print (runs src) (runs-IsCanonical src) (runs-Letters src h) ∙ expand-runs src,
  )
