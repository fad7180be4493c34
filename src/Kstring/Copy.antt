-- ===== src/Kstring/Copy.antt =====
-- What `strncmp` and `safestrcpy` of kernel/string.c promise.
use cs_3224_operating_system.Base.{
  ℕ, zero, suc, ◌+◌, ◌-◌, ◌≤◌, ◌<◌, ◌≡◌, refl, ◌≢◌, ◌∙◌, ◌⊎◌, ◌↔◌, inl, inr, ◌&&◌, not, List, arith,
  ◌==◌, length, get_or, set, length-set, get_or-set, Bool-cases,
}
use native.Mathlib.Decide.{ℕ_discrete}
use cs_3224_operating_system.Kstring.Strings.{Bytes, strncmp_from, strncmp, safe_from, safestrcpy}

-- The strings agree in `n` bytes from `i` on, or up to a NUL before.
abbrev pub Agree : ℕ → ℕ → Bytes → Bytes → Type 0
Agree i n p q = (k : ℕ) → k < n → ((j : ℕ) → j < k → p (i + j) ≢ 0) → p (i + k) ≡ q (i + k)

strncmp_from-Agree :
    (n i : ℕ) (p q : Bytes) → ((strncmp_from n i p q).0 ≡ (strncmp_from n i p q).1) ↔ Agree i n p q
unfolding strncmp_from
strncmp_from-Agree zero i p q = (λ e k lt. absurd (omega arith), λ h. refl)
strncmp_from-Agree (suc n) i p q =
    let e0 : i + 0 ≡ i = omega arith in
    elim (Bool-cases (not (p i == 0) && (p i == q i))) [
      | inl goes_on ↦
          let ih = strncmp_from-Agree n (i + 1) p q in
          rw goes_on (
            λ e k lt ne. elim (ℕ_discrete k 0) [
              | yes z ↦ rw (z, e0) (ground arith)
              | no pos ↦
                  let ek : i + k ≡ i + 1 + (k - 1) = omega arith in
                  rw ek (
                    ih.0 e (k - 1) (omega arith) (λ j jlt.
                      let ej : i + 1 + j ≡ i + (j + 1) = omega arith in
                      rw ej (ne (j + 1) (omega arith))))
            ],
            λ agree. ih.1 (λ k lt ne.
                let ek : i + 1 + k ≡ i + (k + 1) = omega arith in
                rw ek (
                  agree (k + 1) (omega arith) (λ j jlt. elim (ℕ_discrete j 0) [
                    | yes z ↦ rw (z, e0) (λ q0. ground arith)
                    | no pos ↦
                        let ej : i + j ≡ i + 1 + (j - 1) = omega arith in
                        rw ej (ne (j - 1) (omega arith))
                  ]))),
          )
      | inr stops ↦ rw stops (
        λ e k lt ne. elim (ℕ_discrete k 0) [
          | yes z ↦ rw (z, e0) e
          | no pos ↦ let nz : p i ≢ 0 = rw e0 at (ne 0 (omega arith)) in absurd (ground arith)
        ],
        λ agree. rw e0 at (agree 0 (omega arith) (λ j jlt. absurd (omega arith))),
      )
    ]

-- The copy of a string in a buffer of `n` bytes from `i` on, with its NUL at `k`.
pub record Terminated (i n k : ℕ) (t : Bytes) (dst out : List ℕ) : Type 0 where
  pub lo : i ≤ k
  pub hi : k < i + n
  pub nul : get_or out k 0 ≡ 0
  pub prefix : (j : ℕ) → i ≤ j → j < k → (get_or out j 0 ≡ t j) × (t j ≢ 0)
  pub whole : (t k ≡ 0) ⊎ (k + 1 ≡ i + n)
  pub kept : (j : ℕ) → (j < i) ⊎ (i + n ≤ j) → get_or out j 0 ≡ get_or dst j 0
  pub same_length : length out ≡ length dst

safe_from-Terminated :
    (n i : ℕ) (t : Bytes) (dst : List ℕ)
    → i + n < length dst
    → (k : ℕ) × Terminated i (suc n) k t dst (safe_from n i t dst)
unfolding safe_from
safe_from-Terminated zero i t dst h = (
  i,
  record {
    lo = omega arith;
    hi = omega arith;
    nul = get_or-set dst i i 0 0 ∙ ground arith;
    prefix = λ j lo hi. absurd (omega arith);
    whole = inr (omega arith);
    kept = λ j out. get_or-set dst i j 0 0 ∙ ground arith;
    same_length = length-set dst i 0;
  },
)
safe_from-Terminated (suc n) i t dst h =
    let copied = set dst i (t i) in
    let len = length-set dst i (t i) in
    elim (Bool-cases (t i == 0)) [
      | inl ends ↦ rw ends (
        i,
        record {
          lo = omega arith;
          hi = omega arith;
          nul = get_or-set copied (i + 1) i 0 0 ∙ ground (arith, get_or-set dst i i (t i) 0);
          prefix = λ j lo hi. absurd (omega arith);
          whole = inl (ground arith);
          kept =
              λ j out. get_or-set copied (i + 1) j 0 0 ∙ ground (arith, get_or-set dst i j (t i) 0);
          same_length = length-set copied (i + 1) 0 ∙ len;
        },
      )
      | inr more ↦
          let (k, r) = safe_from-Terminated n (i + 1) t copied (omega (arith, len)) in
          rw more (
            k,
            record {
              lo = omega (arith, r.lo);
              hi = omega (arith, r.hi);
              nul = r.nul;
              prefix = λ j lo hi. elim (ℕ_discrete i j) [
                | yes e ↦ (
                  rw (← e)
                      (r.kept i (inl (omega arith)) ∙ get_or-set dst i i (t i) 0 ∙ ground arith),
                  rw (← e) (λ z. ground arith),
                )
                | no ne ↦ r.prefix j (omega arith) hi
              ];
              whole = elim r.whole [ inl z ↦ inl z | inr last ↦ inr (omega arith) ];
              kept = λ j out. r.kept j (omega arith) ∙ get_or-set dst i j (t i) 0 ∙ ground arith;
              same_length = r.same_length ∙ len;
            },
          )
    ]

-- `strncmp` returns 0 exactly when the two strings agree in `n` bytes, or up to a NUL before.
pub strncmp-Agree : (p q : Bytes) (n : ℕ) → ((strncmp p q n).0 ≡ (strncmp p q n).1) ↔ Agree 0 n p q
unfolding strncmp
strncmp-Agree p q n = strncmp_from-Agree n 0 p q

-- `safestrcpy` into a buffer of at least `n` bytes, with `n` above zero, leaves a string there: its
-- NUL is at some `k` below `n`, the bytes before it are the source's, which ends there or fills the
-- room, and no byte from `n` on is changed.
pub safestrcpy-Terminated :
    (n : ℕ) (t : Bytes) (dst : List ℕ)
    → 0 < n
    → n ≤ length dst
    → (k : ℕ) × Terminated 0 n k t dst (safestrcpy dst t n)
unfolding safestrcpy
safestrcpy-Terminated zero t dst pos h = absurd (omega arith)
safestrcpy-Terminated (suc n) t dst pos h = safe_from-Terminated n 0 t dst (omega arith)
