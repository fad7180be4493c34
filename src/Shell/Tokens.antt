-- ===== src/Shell/Tokens.antt =====
-- What `gettoken` and `peek` of user/sh.c promise. The parser calls them only at places where no word
-- goes on, so that a word is found whole.
use cs_3224_operating_system.Base.{
  ℕ, zero, suc, ◌+◌, ◌-◌, ◌≤◌, ◌<◌, ◌≡◌, refl, ◌≢◌, subst, inl, inr, true, false, ◌&&◌, List, [],
  ◌∷◌, arith, ◌==◌, ltb, length, Bool-cases,
}
use cs_3224_operating_system.Shell.Lexer.{
  strchr, whitespace, symbols, Token, byte_at, skip_loop, skip, scan, gettoken, peek,
}
use cs_3224_operating_system.Shell.Parser.{span_of}
use cs_3224_operating_system.Shell.Words.{
  in_word, byte_at-lt, skip-range, skip-stop, skip-still, IsWord, word_end-IsWord,
}

-- The bytes for which `scan` returns the byte itself.
abbrev operators : List ℕ
operators = b'|' ∷ b'(' ∷ b')' ∷ b';' ∷ b'&' ∷ b'<' ∷ []

operator_ne : (c : ℕ) → strchr operators c ≡ true → c ≢ b'a'
unfolding strchr
operator_ne c op e = let op' = rw e at op in cc

symbols-out : (c : ℕ) → strchr operators c ≡ false → (c == b'>') ≡ false → strchr symbols c ≡ false
unfolding strchr
symbols-out c op out = ground arith

operators-in : (c : ℕ) → strchr operators c ≡ true → strchr symbols c ≡ true
unfolding strchr
operators-in c op = ground arith

out-in : (c : ℕ) → (c == b'>') ≡ true → strchr symbols c ≡ true
unfolding strchr
out-in c out = ground arith

module _ (buf : List ℕ) where
  -- No word goes on at `s`: if the byte belongs to a word, the one before it does not.
  abbrev pub Edge : ℕ → Type 0
  Edge s = s < length buf → in_word buf s ≡ true → (j : ℕ) → j + 1 ≡ s → in_word buf j ≡ false

  -- A place of the parser.
  abbrev pub At : ℕ → Type 0
  At s = (s ≤ length buf) × Edge s

  symbol-Edge : (s : ℕ) → strchr symbols (byte_at buf s) ≡ true → Edge (s + 1)
  symbol-Edge s symbol lt here j e =
      let same : s ≡ j = omega (arith, e) in subst (λ i. in_word buf i ≡ false) same (ground arith)

  white-Edge : (s : ℕ) → strchr whitespace (byte_at buf s) ≡ true → Edge (s + 1)
  white-Edge s white lt here j e =
      let same : s ≡ j = omega (arith, e) in subst (λ i. in_word buf i ≡ false) same (ground arith)

  skip_loop-Edge : (rounds s : ℕ) → Edge s → Edge (skip_loop buf rounds s)
  unfolding skip_loop
  skip_loop-Edge zero s edge = edge
  skip_loop-Edge (suc rounds) s edge =
      elim (Bool-cases (ltb s (length buf) && strchr whitespace (byte_at buf s))) [
        | inl on ↦ rw on (skip_loop-Edge rounds (s + 1) (white-Edge s (ground arith)))
        | inr stop ↦ rw stop edge
      ]

  skip-At : (s : ℕ) → At s → At (skip buf s)
  unfolding skip
  skip-At s at = ((skip-range buf s at.0).1, skip_loop-Edge (length buf - s) s at.1)

  -- What `scan` promises of its result at `s`.
  abbrev pub Scanned : ℕ → ℕ × ℕ → Type 0
  Scanned s (kind, end) =
      (s ≤ end)
      × At end
      × (kind ≢ 0 → s < end)
      × (byte_at buf s ≢ 0 → s < end)
      × (kind ≡ b'a' → IsWord buf (record { from = s; upto = end }))

  scan-Scanned :
      (s : ℕ)
      → At s
      → (s < length buf → strchr whitespace (byte_at buf s) ≡ false)
      → Scanned s (scan buf s)
  unfolding scan
  scan-Scanned s h solid = elim (Bool-cases (byte_at buf s == 0)) [
    | inl nul ↦ rw nul (
      omega arith,
      h,
      (λ z. absurd (z refl)),
      (λ z. absurd (ground arith)),
      (λ z. absurd (omega (arith, z))),
    )
    | inr byte ↦
        let lt = byte_at-lt buf s (ground arith) in
        elim (Bool-cases (strchr operators (byte_at buf s))) [
          | inl op ↦
              rw (byte, op)
                (
                  omega arith,
                  (omega (arith, lt), symbol-Edge s (operators-in (byte_at buf s) op)),
                  (λ z. omega arith),
                  (λ z. omega arith),
                  (λ z. absurd (operator_ne (byte_at buf s) op z)),
                )
          | inr plain ↦ elim (Bool-cases (byte_at buf s == b'>')) [
            | inl out ↦ elim (Bool-cases (byte_at buf (s + 1) == b'>')) [
              | inl twice ↦
                  let two : s + 1 + 1 ≡ s + 2 = omega arith in
                  let lt' = byte_at-lt buf (s + 1) (ground arith) in
                  rw (byte, plain, out, twice)
                    (
                      omega arith,
                      (
                        omega (arith, lt'),
                        subst Edge two (symbol-Edge (s + 1) (out-in (byte_at buf (s + 1)) twice)),
                      ),
                      (λ z. omega arith),
                      (λ z. omega arith),
                      (λ z. absurd (omega (arith, z))),
                    )
              | inr once ↦
                  rw (byte, plain, out, once)
                    (
                      omega arith,
                      (omega (arith, lt), symbol-Edge s (out-in (byte_at buf s) out)),
                      (λ z. omega arith),
                      (λ z. omega arith),
                      (λ z. absurd (omega (arith, z))),
                    )
            ]
            | inr word ↦
                let no_symbol = symbols-out (byte_at buf s) plain word in
                let white = solid lt in
                let here : in_word buf s ≡ true = rw (white, no_symbol) refl in
                let w = word_end-IsWord buf s lt here (h.1 lt here) in
                rw (byte, plain, word)
                  (
                    omega (arith, w.some_byte),
                    (w.inside, λ more on j e. absurd (cc (on, w.ends more))),
                    (λ z. w.some_byte),
                    (λ z. w.some_byte),
                    (λ z. w),
                  )
          ]
        ]
  ]

  -- What `gettoken` promises.
  pub record Taken (s : ℕ) (t : Token) : Type 0 where
    pub forward : s ≤ t.next
    pub within : At t.next
    pub progress : t.kind ≢ 0 → s < t.next
    pub any_byte : byte_at buf (skip buf s) ≢ 0 → s < t.next
    pub word : t.kind ≡ b'a' → IsWord buf (span_of t)

  pub gettoken-Taken : (s : ℕ) → At s → Taken s (gettoken buf s)
  unfolding gettoken
  gettoken-Taken s h =
      let r = skip-range buf s h.0 in
      let (up, inside, moves, moves', word) =
        scan-Scanned (skip buf s) (skip-At s h) (skip-stop buf s) in
      let r' = skip-range buf (scan buf (skip buf s)).1 inside.0 in
      record {
        forward = omega (arith, r, up, r');
        within = skip-At (scan buf (skip buf s)).1 inside;
        progress = λ z. omega (arith, r, moves z, r');
        any_byte = λ z. omega (arith, r, moves' z, r');
        word = word;
      }

  -- What `peek` promises: where it finds a byte, there is one.
  pub peek-range :
      (toks : List ℕ) (s : ℕ)
      → At s
      → (s ≤ (peek buf toks s).1)
        × At (peek buf toks s).1
        × ((peek buf toks s).0 ≡ true → strchr toks (byte_at buf (peek buf toks s).1) ≡ true)
        × ((peek buf toks s).0 ≡ true → byte_at buf (peek buf toks s).1 ≢ 0)
        × (skip buf (peek buf toks s).1 ≡ (peek buf toks s).1)
  unfolding peek
  peek-range toks s h = (
    (skip-range buf s h.0).0,
    skip-At s h,
    (λ z. ground arith),
    (λ z. ground arith),
    skip-still buf (skip buf s) (skip-stop buf s),
  )

  -- Where `peek` finds a byte, `gettoken` takes it.
  pub found-progress :
      (toks : List ℕ) (s : ℕ)
      → At s
      → (peek buf toks s).0 ≡ true
      → (s < (gettoken buf (peek buf toks s).1).next) × At (gettoken buf (peek buf toks s).1).next
  found-progress toks s h found =
      let (up, inside, tok, byte, still) = peek-range toks s h in
      let t = gettoken-Taken (peek buf toks s).1 inside in
      let moved = t.any_byte (rw still (byte found)) in (omega (arith, up, moved), t.within)
