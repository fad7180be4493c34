-- ===== src/Path/SameName.antt =====
-- When namecmp of kernel/fs.c takes two names for the same, and the names that strncpy leaves in a
-- directory entry.
use cs_3224_operating_system.Base.{
  ℕ, zero, suc, ◌+◌, ◌≤◌, ◌<◌, ◌≡◌, refl, ◌≢◌, ◌↔◌, ◌∙◌, sym, ap, subst, inl, inr, true, false,
  List, arith, ◌==◌, ==_iff, length, get_or, set, get_or-set, length-set, Bool-cases,
}
use native.Mathlib.Decide.{ℕ_discrete}
use cs_3224_operating_system.Kstring.Strings.{Bytes, strncmp, zero_fill, strncpy_from, strncpy}
use cs_3224_operating_system.Kstring.Copy.{Agree, strncmp-Agree}
use cs_3224_operating_system.Path.{dirsiz}
use cs_3224_operating_system.Path.Directory.{bytes_of, namecmp_zero}

-- The strings agree in `n` bytes, or up to a NUL before.
abbrev SameString : ℕ → Bytes → Bytes → Type 0
SameString n p q = (k : ℕ) → k < n → ((j : ℕ) → j < k → p j ≢ 0) → p k ≡ q k

zero_add : (k : ℕ) → 0 + k ≡ k
zero_add k = omega arith

Agree-SameString : (n : ℕ) (p q : Bytes) → Agree 0 n p q ↔ SameString n p q
Agree-SameString n p q = (
  λ a k lt ne.
      subst (λ i. p i ≡ q i) (zero_add k)
        (a k lt (λ j h. subst (λ i. p i ≢ 0) (sym (zero_add j)) (ne j h))),
  λ a k lt ne.
      subst (λ i. p i ≡ q i) (sym (zero_add k))
        (a k lt (λ j h. subst (λ i. p i ≢ 0) (zero_add j) (ne j h))),
)

SameString-nonzero :
    (n : ℕ) (p q : Bytes)
    → SameString n p q
    → (k : ℕ) → k ≤ n
    → ((j : ℕ) → j < k → q j ≢ 0)
    → (j : ℕ) → j < k
    → p j ≢ 0
SameString-nonzero n p q a zero le ne j lt = absurd (omega arith)
SameString-nonzero n p q a (suc k) le ne j lt =
    let before = SameString-nonzero n p q a k (omega arith) (λ i h. ne i (omega arith)) in
    elim (ℕ_discrete j k) [
      | yes e ↦ λ z. ne k (omega arith) (sym (a k (omega arith) before) ∙ ap p (sym e) ∙ z)
      | no other ↦ before j (omega arith)
    ]

SameString-sym : (n : ℕ) (p q : Bytes) → SameString n p q → SameString n q p
SameString-sym n p q a k lt ne = sym (a k lt (SameString-nonzero n p q a k (omega arith) ne))

SameString-trans : (n : ℕ) (p q r : Bytes) → SameString n p q → SameString n q r → SameString n p r
SameString-trans n p q r a b k lt ne =
    a k lt ne ∙ b k lt (SameString-nonzero n q p (SameString-sym n p q a) k (omega arith) ne)

zero_fill-kept :
    (n i : ℕ) (dst : List ℕ) (j : ℕ) → j < i → get_or (zero_fill n i dst) j 0 ≡ get_or dst j 0
unfolding zero_fill
zero_fill-kept zero i dst j h = refl
zero_fill-kept (suc n) i dst j h =
    zero_fill-kept n (i + 1) (set dst i 0) j (omega arith) ∙ get_or-set dst i j 0 0 ∙ ground arith

strncpy_from-kept :
    (n i : ℕ) (t : Bytes) (dst : List ℕ) (j : ℕ)
    → j < i
    → get_or (strncpy_from n i t dst) j 0 ≡ get_or dst j 0
unfolding strncpy_from
strncpy_from-kept zero i t dst j h = refl
strncpy_from-kept (suc n) i t dst j h =
    let here : get_or (set dst i (t i)) j 0 ≡ get_or dst j 0 =
      get_or-set dst i j (t i) 0 ∙ ground arith in
    elim (Bool-cases (t i == 0)) [
      | inl e ↦ rw e (zero_fill-kept n (i + 1) (set dst i (t i)) j (omega arith) ∙ here)
      | inr e ↦ rw e (strncpy_from-kept n (i + 1) t (set dst i (t i)) j (omega arith) ∙ here)
    ]

strncpy_from-Agree :
    (n i : ℕ) (t : Bytes) (dst : List ℕ)
    → i + n ≤ length dst
    → (k : ℕ) → i ≤ k
    → k < i + n
    → ((j : ℕ) → i ≤ j → j < k → t j ≢ 0)
    → t k ≡ get_or (strncpy_from n i t dst) k 0
unfolding strncpy_from
strncpy_from-Agree zero i t dst room k lo hi ne = absurd (omega arith)
strncpy_from-Agree (suc n) i t dst room k lo hi ne =
    let len = length-set dst i (t i) in
    let here : get_or (set dst i (t i)) i 0 ≡ t i = get_or-set dst i i (t i) 0 ∙ ground arith in
    elim (ℕ_discrete k i) [
      | yes e ↦ rw e (elim (Bool-cases (t i == 0)) [
        | inl z ↦ rw z (sym (zero_fill-kept n (i + 1) (set dst i (t i)) i (omega arith) ∙ here))
        | inr z ↦
            rw z (sym (strncpy_from-kept n (i + 1) t (set dst i (t i)) i (omega arith) ∙ here))
      ])
      | no later ↦
          let go_on : (t i == 0) ≡ false = ground (arith, ne i (omega arith) (omega arith)) in
          rw go_on (
            strncpy_from-Agree n (i + 1) t (set dst i (t i)) (omega (arith, len)) k (omega arith)
              (omega arith) (λ j h. ne j (omega arith)))
    ]

strncpy-SameString :
    (name dst : List ℕ)
    → length dst ≡ dirsiz
    → SameString dirsiz (bytes_of name) (bytes_of (strncpy dst (bytes_of name) dirsiz))
unfolding strncpy
strncpy-SameString name dst len k lt ne =
    strncpy_from-Agree dirsiz 0 (bytes_of name) dst (omega (arith, len)) k (omega arith)
      (omega arith) (λ j lo h. ne j h)

namecmp_zero-SameString :
    (s t : List ℕ) → (namecmp_zero s t ≡ true) ↔ SameString dirsiz (bytes_of s) (bytes_of t)
unfolding namecmp_zero
namecmp_zero-SameString s t =
    let d = strncmp (bytes_of s) (bytes_of t) dirsiz in
    let same = strncmp-Agree (bytes_of s) (bytes_of t) dirsiz in
    let strings = Agree-SameString dirsiz (bytes_of s) (bytes_of t) in
    (λ e. strings.0 (same.0 ((==_iff d.0 d.1).0 e)), λ a. (==_iff d.0 d.1).1 (same.1 (strings.1 a)))

-- Names that are the same find the same.
pub namecmp_zero-same :
    (s t u : List ℕ) → namecmp_zero s t ≡ true → namecmp_zero s u ≡ namecmp_zero t u
namecmp_zero-same s t u e =
    let st = (namecmp_zero-SameString s t).0 e in
    elim (Bool-cases (namecmp_zero t u)) [
      | inl tu ↦
          (namecmp_zero-SameString s u).1 (
            SameString-trans dirsiz (bytes_of s) (bytes_of t) (bytes_of u) st
              ((namecmp_zero-SameString t u).0 tu))
          ∙ sym tu
      | inr tu ↦ elim (Bool-cases (namecmp_zero s u)) [
        | inl su ↦
            let back = (namecmp_zero-SameString t u).1 (
              SameString-trans dirsiz (bytes_of t) (bytes_of s) (bytes_of u)
                (SameString-sym dirsiz (bytes_of s) (bytes_of t) st)
                ((namecmp_zero-SameString s u).0 su)) in
            absurd (cc)
        | inr su ↦ su ∙ sym tu
      ]
    ]

namecmp_zero-sym : (s t : List ℕ) → namecmp_zero s t ≡ true → namecmp_zero t s ≡ true
namecmp_zero-sym s t e =
    (namecmp_zero-SameString t s).1
      (SameString-sym dirsiz (bytes_of s) (bytes_of t) ((namecmp_zero-SameString s t).0 e))

-- A look for a name compares with the copy of another as with that.
pub copied :
    (q name dst : List ℕ)
    → length dst ≡ dirsiz
    → namecmp_zero q (strncpy dst (bytes_of name) dirsiz) ≡ namecmp_zero q name
copied q name dst len =
    let out = strncpy dst (bytes_of name) dirsiz in
    let same : namecmp_zero name out ≡ true =
      (namecmp_zero-SameString name out).1 (strncpy-SameString name dst len) in
    elim (Bool-cases (namecmp_zero q name)) [
      | inl e ↦ namecmp_zero-same q name out e ∙ same ∙ sym e
      | inr e ↦ elim (Bool-cases (namecmp_zero q out)) [
        | inl f ↦
            let back = namecmp_zero-same out name q (namecmp_zero-sym name out same) in
            let onto = sym (namecmp_zero-sym q out f) ∙ back in
            let clash = namecmp_zero-sym name q (sym onto) in absurd (cc)
        | inr f ↦ f ∙ sym e
      ]
    ]
