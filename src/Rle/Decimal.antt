-- ===== src/Rle/Decimal.antt =====
-- What rle.c relies on in `sprintf(count, "%d", n)`, which is not part of the repository: the
-- bytes are decimal digits, they spell `n`, and there is no leading zero. A printer that meets it.
use cs_3224_operating_system.Base.{
  ℕ, zero, suc, ◌+◌, ◌-◌, ◌*◌, ◌/◌, ◌%◌, ◌^◌, ◌≤◌, ◌<◌, ◌≡◌, refl, List, [], ◌∷◌, ◌++◌, arith,
  if◌then◌else◌, ltb, length, All, All-append, length-append, Bool-cases, inl, inr,
}
use native.Mathlib.Nat.{pow-suc}

abbrev pub IsDigit : ℕ → Type 0
IsDigit b = (b'0' ≤ b) × (b ≤ b'9')

-- The value of decimal digits, most significant first, after `acc`.
unfoldable pub number : ℕ → List ℕ → ℕ
number acc [] = acc
number acc (b ∷ bs) = number (10 * acc + (b - b'0')) bs

pub record Decimal (decimal : ℕ → List ℕ) : Type 0 where
  pub digits : (n : ℕ) → All IsDigit (decimal n)
  pub value : (n : ℕ) → number 0 (decimal n) ≡ n
  pub short : (n : ℕ) → 0 < n → 10 ^ (length (decimal n) - 1) ≤ n

-- Digits by repeated division.
digits_of : ℕ → ℕ → List ℕ
digits_of zero n = []
digits_of (suc fuel) n =
    let front = digits_of fuel (n / 10) in
    if ltb n 10 then (b'0' + n) ∷ [] else front ++ ((b'0' + n % 10) ∷ [])

unfoldable pub print_decimal : ℕ → List ℕ
unfolding digits_of
print_decimal n = digits_of (suc n) n

number-append :
    (acc : ℕ) (bs : List ℕ) (b : ℕ) → number acc (bs ++ (b ∷ [])) ≡ 10 * number acc bs + (b - b'0')
unfolding number
number-append acc [] b = refl
number-append acc (x ∷ bs) b = number-append (10 * acc + (x - b'0')) bs b

record Printed (n : ℕ) (bs : List ℕ) : Type 0 where
  digits : All IsDigit bs
  value : number 0 bs ≡ n
  some_digit : 0 < length bs
  short : 0 < n → 10 ^ (length bs - 1) ≤ n

pow_step : (k m n : ℕ) → 0 < k → 10 ^ (k - 1) ≤ m → 10 * m ≤ n → 10 ^ k ≤ n
pow_step zero m n pos h g = absurd (omega arith)
pow_step (suc k) m n pos h g =
    let e : suc k - 1 ≡ k = omega arith in
    let h' : 10 ^ k ≤ m = rw e at h in omega (arith, pow-suc 10 k, h')

digits_of-Printed : (fuel n : ℕ) → n < fuel → Printed n (digits_of fuel n)
unfolding digits_of number
digits_of-Printed zero n h = absurd (omega arith)
digits_of-Printed (suc fuel) n h = elim (Bool-cases (ltb n 10)) [
  | inl small ↦ rw small (record {
    digits = (ground arith, tt);
    value = ground arith;
    some_digit = omega arith;
    short = λ p. p;
  })
  | inr big ↦
      let n10 : 10 ≤ n = ground arith in
      let ih = digits_of-Printed fuel (n / 10) (omega arith) in
      let bs = digits_of fuel (n / 10) in
      rw big (record {
        digits = All-append IsDigit bs _ ih.digits (omega arith);
        value = omega (arith, number-append 0 bs (b'0' + n % 10), ih.value);
        some_digit = omega (arith, length-append bs ((b'0' + n % 10) ∷ []));
        short = λ p.
            let e : length (bs ++ ((b'0' + n % 10) ∷ [])) - 1 ≡ length bs =
              omega (arith, length-append bs ((b'0' + n % 10) ∷ [])) in
            rw e (
              pow_step (length bs) (n / 10) n ih.some_digit (ih.short (omega arith)) (omega arith));
      })
]

pub print_decimal-Decimal : Decimal print_decimal
unfolding print_decimal
print_decimal-Decimal = record {
  digits = λ n. (digits_of-Printed (suc n) n (omega arith)).digits;
  value = λ n. (digits_of-Printed (suc n) n (omega arith)).value;
  short = λ n. (digits_of-Printed (suc n) n (omega arith)).short;
}
