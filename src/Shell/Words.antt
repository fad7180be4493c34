-- ===== src/Shell/Words.antt =====
-- What the scanner of user/sh.c finds: it stays within the text, and a word is a maximal run of
-- bytes that are neither white space nor symbols.
use cs_3224_operating_system.Base.{
  ℕ, zero, suc, ◌+◌, ◌-◌, ◌≤◌, ◌<◌, ◌≡◌, refl, ◌≢◌, subst, inl, inr, Bool, true, false, not, ◌&&◌,
  List, [], ◌∷◌, arith, ltb, length, get_or, Bool-cases,
}
use native.Mathlib.Decide.{dec_lt, ℕ_discrete}
use cs_3224_operating_system.Shell.Lexer.{
  strchr, whitespace, symbols, byte_at, skip_loop, skip, word_loop, word_end,
}
use cs_3224_operating_system.Shell.Parser.{Span}

pub get_or-past : (buf : List ℕ) (i : ℕ) → length buf ≤ i → get_or buf i 0 ≡ 0
get_or-past [] i h = refl
get_or-past (x ∷ buf) zero h = absurd (omega arith)
get_or-past (x ∷ buf) (suc i) h = get_or-past buf i (omega arith)

module _ (buf : List ℕ) where
  pub byte_at-lt : (s : ℕ) → byte_at buf s ≢ 0 → s < length buf
  byte_at-lt s h = elim (dec_lt s (length buf)) [
    | yes lt ↦ lt
    | no ge ↦ absurd (h (get_or-past buf s (omega arith)))
  ]

  -- A byte that belongs to a word.
  abbrev pub in_word : ℕ → Bool
  in_word s = not (strchr whitespace (byte_at buf s)) && not (strchr symbols (byte_at buf s))

  skip_loop-range :
      (rounds s : ℕ)
      → s ≤ length buf
      → (s ≤ skip_loop buf rounds s) × (skip_loop buf rounds s ≤ length buf)
  unfolding skip_loop
  skip_loop-range zero s h = (omega arith, h)
  skip_loop-range (suc rounds) s h =
      elim (Bool-cases (ltb s (length buf) && strchr whitespace (byte_at buf s))) [
        | inl on ↦
            let lt : s < length buf = ground arith in
            let rest = skip_loop-range rounds (s + 1) (omega arith) in
            rw on (omega (arith, rest), rest.1)
        | inr stop ↦ rw stop (omega arith, h)
      ]

  pub skip-range : (s : ℕ) → s ≤ length buf → (s ≤ skip buf s) × (skip buf s ≤ length buf)
  unfolding skip
  skip-range s h = skip_loop-range (length buf - s) s h

  skip_loop-stop :
      (rounds s : ℕ)
      → length buf ≤ s + rounds
      → skip_loop buf rounds s < length buf
      → strchr whitespace (byte_at buf (skip_loop buf rounds s)) ≡ false
  unfolding skip_loop
  skip_loop-stop zero s h = λ lt. absurd (omega arith)
  skip_loop-stop (suc rounds) s h =
      elim (Bool-cases (ltb s (length buf) && strchr whitespace (byte_at buf s))) [
        | inl on ↦ rw on (skip_loop-stop rounds (s + 1) (omega arith))
        | inr stop ↦ rw stop (λ lt. ground arith)
      ]

  pub skip-stop :
      (s : ℕ) → skip buf s < length buf → strchr whitespace (byte_at buf (skip buf s)) ≡ false
  unfolding skip
  skip-stop s lt = skip_loop-stop (length buf - s) s (omega arith) lt

  pub skip-still :
      (s : ℕ) → (s < length buf → strchr whitespace (byte_at buf s) ≡ false) → skip buf s ≡ s
  unfolding skip skip_loop
  skip-still s solid = go (length buf - s)
    where
      go : (rounds : ℕ) → skip_loop buf rounds s ≡ s
      go zero = refl
      go (suc rounds) =
          elim (Bool-cases (ltb s (length buf) && strchr whitespace (byte_at buf s))) [
            | inl on ↦
                let lt : s < length buf = ground arith in
                let white = solid lt in absurd (ground arith)
            | inr stop ↦ rw stop refl
          ]

  word_loop-range :
      (rounds s : ℕ)
      → s ≤ length buf
      → (s ≤ word_loop buf rounds s)
        × (word_loop buf rounds s ≤ length buf)
        × ((j : ℕ) → s ≤ j → j < word_loop buf rounds s → in_word j ≡ true)
  unfolding word_loop
  word_loop-range zero s h = (omega arith, h, λ j lo hi. absurd (omega arith))
  word_loop-range (suc rounds) s h = elim (Bool-cases (ltb s (length buf) && in_word s)) [
    | inl on ↦
        let lt : s < length buf = ground arith in
        let here : in_word s ≡ true = ground arith in
        let rest = word_loop-range rounds (s + 1) (omega arith) in
        rw on (
          omega (arith, rest.0),
          rest.1,
          λ j lo hi. elim (ℕ_discrete s j) [
            | yes e ↦ subst (λ i. in_word i ≡ true) e here
            | no ne ↦ rest.2 j (omega arith) hi
          ],
        )
    | inr stop ↦ rw stop (omega arith, h, λ j lo hi. absurd (omega arith))
  ]

  word_loop-first :
      (rounds s : ℕ) → 0 < rounds → s < length buf → in_word s ≡ true → s < word_loop buf rounds s
  unfolding word_loop
  word_loop-first zero s pos lt here = absurd (omega arith)
  word_loop-first (suc rounds) s pos lt here =
      let on : ltb s (length buf) && in_word s ≡ true = ground arith in
      let rest = word_loop-range rounds (s + 1) (omega arith) in rw on (omega (arith, rest.0))

  word_loop-stop :
      (rounds s : ℕ)
      → length buf ≤ s + rounds
      → word_loop buf rounds s < length buf
      → in_word (word_loop buf rounds s) ≡ false
  unfolding word_loop
  word_loop-stop zero s h = λ lt. absurd (omega arith)
  word_loop-stop (suc rounds) s h = elim (Bool-cases (ltb s (length buf) && in_word s)) [
    | inl on ↦ rw on (word_loop-stop rounds (s + 1) (omega arith))
    | inr stop ↦ rw stop (λ lt. ground arith)
  ]

  -- A word: it is not empty, it lies in the text, and it cannot be made longer at either end.
  pub record IsWord (w : Span) : Type 0 where
    pub some_byte : w.from < w.upto
    pub inside : w.upto ≤ length buf
    pub bytes : (j : ℕ) → w.from ≤ j → j < w.upto → in_word j ≡ true
    pub starts : (j : ℕ) → j + 1 ≡ w.from → in_word j ≡ false
    pub ends : w.upto < length buf → in_word w.upto ≡ false

  pub word_end-IsWord :
      (s : ℕ)
      → s < length buf
      → in_word s ≡ true
      → ((j : ℕ) → j + 1 ≡ s → in_word j ≡ false)
      → IsWord (record { from = s; upto = word_end buf s })
  unfolding word_end
  word_end-IsWord s lt here starts =
      let r = word_loop-range (length buf - s) s (omega (arith, lt)) in
      record {
        some_byte = word_loop-first (length buf - s) s (omega (arith, lt)) lt here;
        inside = r.1;
        bytes = r.2;
        starts = starts;
        ends = λ more. word_loop-stop (length buf - s) s (omega arith) more;
      }
