-- ===== src/Syscall/Bounds.antt =====
-- What the argument checks of kernel/syscall.c let through.
use cs_3224_operating_system.Base.{
  not, ◌&&◌, if◌then◌else◌, ℕ, zero, suc, ◌+◌, ◌-◌, ◌%◌, ◌^◌, ◌≤◌, ◌<◌, ◌≡◌, refl, ◌≢◌, ◌∙◌, ap,
  inl, inr, true, false, ◌||◌, Option, none, some, some_inj, arith, if◌then◌else◌, ◌==◌, ltb, leb,
  Bool-cases, ==_ne,
}
use native.Mathlib.Decide.{ℕ_discrete}
use cs_3224_operating_system.Kstring.Memory.{Memory}
use cs_3224_operating_system.Syscall.{
  User, word_at, fetchint, string_loop, fetchstr, argint, argptr,
}

-- User memory ends below KERNBASE.
abbrev pub Below : User → Type 0
Below u = u.sz ≤ 2 ^ 31

-- `fetchint` succeeds exactly for the addresses whose four bytes lie in the memory of the process,
-- and returns the word there.
pub fetchint-inside :
    (u : User) (addr : ℕ)
    → Below u
    → (addr + 4 ≤ u.sz → fetchint u addr ≡ some (word_at u.mem addr))
      × (u.sz < addr + 4 → addr < 2 ^ 32 → fetchint u addr ≡ none)
unfolding fetchint
fetchint-inside u addr low = (
  (λ h.
      let pass : leb u.sz addr || ltb u.sz ((addr + 4) % 2 ^ 32) ≡ false = ground arith in
      rw pass refl),
  (λ h word.
      let stop : leb u.sz addr || ltb u.sz ((addr + 4) % 2 ^ 32) ≡ true = ground arith in
      rw stop refl),
)

-- The string at `addr` has length `len`.
pub record IsString (m : Memory) (addr len : ℕ) : Type 0 where
  pub bytes : (j : ℕ) → j < len → m (addr + j) ≢ 0
  pub nul : m (addr + len) ≡ 0

string_loop-found :
    (rounds s len : ℕ) (m : Memory) (r : ℕ)
    → string_loop rounds s len m ≡ some r
    → (d : ℕ) × (r ≡ len + d) × (d < rounds) × IsString m s d
unfolding string_loop
string_loop-found zero s len m r h = absurd (cc)
string_loop-found (suc rounds) s len m r h = elim (Bool-cases (m s == 0)) [
  | inl end ↦
      let h' = rw end at h in
      (
        0,
        omega (arith, some_inj h'),
        omega arith,
        record { bytes = λ j lt. absurd (omega arith); nul = ground arith },
      )
  | inr more ↦
      let h' = rw more at h in
      let (d, e, few, str) = string_loop-found rounds (s + 1) (len + 1) m r h' in
      (
        suc d,
        omega (arith, e),
        omega (arith, few),
        record {
          bytes = λ j lt. elim (ℕ_discrete j 0) [
            | yes z ↦ let e' : s + j ≡ s = omega (arith, z) in rw e' (==_ne (m s) 0 more)
            | no nz ↦
                let e' : s + j ≡ s + 1 + (j - 1) = omega (arith, nz) in
                rw e' (str.bytes (j - 1) (omega (arith, lt, nz)))
          ];
          nul = let e' : s + suc d ≡ s + 1 + d = omega arith in rw e' str.nul;
        },
      )
]

string_loop-none :
    (rounds s len : ℕ) (m : Memory)
    → string_loop rounds s len m ≡ none
    → (j : ℕ) → j < rounds
    → m (s + j) ≢ 0
unfolding string_loop
string_loop-none zero s len m h j lt = absurd (omega arith)
string_loop-none (suc rounds) s len m h j lt = elim (Bool-cases (m s == 0)) [
  | inl end ↦ let h' = rw end at h in absurd (cc)
  | inr more ↦
      let h' = rw more at h in
      elim (ℕ_discrete j 0) [
        | yes z ↦ let e : s + j ≡ s = omega (arith, z) in rw e (==_ne (m s) 0 more)
        | no nz ↦
            let e : s + j ≡ s + 1 + (j - 1) = omega (arith, nz) in
            rw e (string_loop-none rounds (s + 1) (len + 1) m h' (j - 1) (omega (arith, nz)))
      ]
]

-- What `fetchstr` promises of its result.
abbrev pub StringAt : User → ℕ → Option ℕ → Type 0
StringAt u addr none = (j : ℕ) → addr ≤ j → j < u.sz → u.mem j ≢ 0
StringAt u addr (some len) = (addr + len < u.sz) × IsString u.mem addr len

-- `fetchstr` returns the length of the string at the address, if the string with its NUL lies in the
-- memory of the process, and fails if there is no NUL from the address to the end of the memory.
pub fetchstr-StringAt : (u : User) (addr : ℕ) → StringAt u addr (fetchstr u addr)
unfolding fetchstr
fetchstr-StringAt u addr = elim (Bool-cases (leb u.sz addr)) [
  | inl out ↦ rw out (λ j lo hi. absurd (ground arith))
  | inr inside ↦ rw inside (go (string_loop (u.sz - addr) addr 0 u.mem) refl)
]
  where
    go : (o : Option ℕ) → string_loop (u.sz - addr) addr 0 u.mem ≡ o → StringAt u addr o
    go none h = λ j lo hi.
        let e : addr + (j - addr) ≡ j = omega arith in
        let full = string_loop-none (u.sz - addr) addr 0 u.mem h (j - addr) (omega arith) in
        λ z. full (ap u.mem e ∙ z)
    go (some len) h =
        let (d, e, few, str) = string_loop-found (u.sz - addr) addr 0 u.mem len h in
        let same : len ≡ d = omega (arith, e) in rw same (omega (arith, few), str)

-- With a size that is no negative number, `argptr` returns only addresses at which that many bytes
-- lie in the memory of the process.
pub argptr-inside :
    (u : User) (n size i : ℕ) → Below u → size < 2 ^ 31 → argptr u n size ≡ some i → i + size ≤ u.sz
unfolding argptr
argptr-inside u n size i low small h = go (argint u n) h
  where
    go :
        (o : Option ℕ)
        → (elim o as (λ x. Option ℕ) [
          | none ↦ none
          | some a ↦ if leb u.sz a || ltb u.sz ((a + size) % 2 ^ 32) then none else some a
        ])
          ≡ some i
        → i + size ≤ u.sz
    go none h = absurd (cc)
    go (some a) h = elim (Bool-cases (leb u.sz a || ltb u.sz ((a + size) % 2 ^ 32))) [
      | inl bad ↦ let h' = rw bad at h in absurd (cc)
      | inr good ↦
          let h' = rw good at h in
          let e = some_inj h' in
          let inside : a + size ≤ u.sz = ground arith in omega (arith, e, inside)
    ]

-- With a negative size -k, `argptr` lets through exactly the addresses of the process from k on, and
-- so says nothing about the bytes at the address.
pub argptr-negative :
    (u : User) (n k i : ℕ)
    → Below u
    → argint u n ≡ some i
    → i < 2 ^ 32
    → 0 < k
    → k < 2 ^ 31
    → argptr u n (2 ^ 32 - k) ≡ (if leb k i && ltb i u.sz then some i else none)
unfolding argptr
argptr-negative u n k i low arg word pos small =
    let same : leb u.sz i || ltb u.sz ((i + (2 ^ 32 - k)) % 2 ^ 32) ≡ not (leb k i && ltb i u.sz) =
      ground arith in
    rw (argptr, arg, same)
      (elim (Bool-cases (leb k i && ltb i u.sz)) [ inl e ↦ rw e refl | inr e ↦ rw e refl ])
