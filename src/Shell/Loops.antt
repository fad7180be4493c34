-- ===== src/Shell/Loops.antt =====
-- The loops of the parser of user/sh.c end: redirections, arguments, and `&`. Each round reads a byte.
use cs_3224_operating_system.Base.{
  ℕ, zero, suc, ◌+◌, ◌≤◌, ◌<◌, ◌≡◌, inl, inr, true, List, [], ◌∷◌, ◌++◌, arith, ◌==◌, ==_iff, ==_ne,
  leb, length, All, All-append, Bool-cases,
}
use cs_3224_operating_system.Shell.Lexer.{Token, gettoken, peek}
use cs_3224_operating_system.Shell.Result.{Result, Settles, Settles-if, Settles-bind}
use cs_3224_operating_system.Shell.Parser.{
  Span, Redir, Cmd, maxargs, span_of, redir_of, wrap, redirs_loop, redirs, args_loop, simple,
  backs_loop,
}
use cs_3224_operating_system.Shell.Words.{IsWord}
use cs_3224_operating_system.Shell.Tokens.{At, gettoken-Taken, peek-range, found-progress}

-- The words of a command, in the order in which `nulterminate` ends them.
abbrev pub words_of : Cmd → List Span
words_of (Cmd.exec ws) = ws
words_of (Cmd.redir c r) = words_of c ++ (r.file ∷ [])
words_of (Cmd.pipe c d) = words_of c ++ words_of d
words_of (Cmd.list c d) = words_of c ++ words_of d
words_of (Cmd.back c) = words_of c

pub lt_of_lt_le : {a b c : ℕ} → a < b → b ≤ c → a < c
lt_of_lt_le h k = omega arith

pub le_of_lt : {a b : ℕ} → a < b → a ≤ b
le_of_lt h = omega arith

pub le_trans : {a b c : ℕ} → a ≤ b → b ≤ c → a ≤ c
le_trans h k = omega arith

pub lt_of_le_lt : {a b c : ℕ} → a ≤ b → b < c → a < c
lt_of_le_lt h k = omega arith

module _ (buf : List ℕ) where
  abbrev pub HasWords : Cmd → Type 0
  HasWords c = All (IsWord buf) (words_of c)

  abbrev IsFile : Redir → Type 0
  IsFile r = IsWord buf r.file

  -- The new place of the parser that started at `s`.
  abbrev pub Range : ℕ → ℕ → Type 0
  Range s e = (s ≤ e) × At buf e

  pub widen : {s t e : ℕ} → s < t → Range t e → Range s e
  widen lt r = (omega (arith, lt, r.0), r.1)

  pub spend : {s t : ℕ} (r : ℕ) → length buf < s + suc r → s < t → length buf < t + r
  spend r h lt = omega arith

  pub wrap-HasWords :
      (rs : List Redir) (c : Cmd) → All IsFile rs → HasWords c → HasWords (wrap rs c)
  unfolding wrap
  wrap-HasWords [] c files words = words
  wrap-HasWords (r ∷ rs) c files words =
      wrap-HasWords rs (Cmd.redir c r) files.1
        (All-append (IsWord buf) (words_of c) (r.file ∷ []) words (files.0, tt))

  redir_of-IsFile : (kind : ℕ) (t : Token) → IsWord buf (span_of t) → IsFile (redir_of kind t)
  unfolding redir_of
  redir_of-IsFile kind t w = elim (Bool-cases (kind == b'<')) [
    | inl from ↦ rw from w
    | inr to ↦ rw to w
  ]

  -- A redirection mark and the token after it.
  redir-step :
      (s : ℕ)
      → At buf s
      → (peek buf (b'<' ∷ b'>' ∷ []) s).0 ≡ true
      → let mark = gettoken buf (peek buf (b'<' ∷ b'>' ∷ []) s).1 in
        let file = gettoken buf mark.next in
        (s < file.next) × At buf file.next × (file.kind ≡ b'a' → IsWord buf (span_of file))
  redir-step s h found =
      let mark = gettoken buf (peek buf (b'<' ∷ b'>' ∷ []) s).1 in
      let step = found-progress buf (b'<' ∷ b'>' ∷ []) s h found in
      let taken = gettoken-Taken buf mark.next step.1 in
      (lt_of_lt_le step.0 taken.forward, taken.within, taken.word)

  redirs_loop-Settles :
      (rounds s : ℕ)
      → At buf s
      → length buf < s + rounds
      → Settles (λ (r : List Redir × ℕ). Range s r.1 × All IsFile r.0) (redirs_loop buf rounds s)
  unfolding redirs_loop
  redirs_loop-Settles zero s h enough = absurd (omega arith)
  redirs_loop-Settles (suc rounds) s h enough =
      let here = (peek buf (b'<' ∷ b'>' ∷ []) s).1 in
      let mark = gettoken buf here in
      let file = gettoken buf mark.next in
      Settles-if (peek buf (b'<' ∷ b'>' ∷ []) s).0
        (λ found.
          let (moved, inside, is_word) = redir-step s h found in
          Settles-if (file.kind == b'a')
            (λ word.
              let w = is_word ((==_iff file.kind b'a').0 word) in
              Settles-bind (redirs_loop-Settles rounds file.next inside (spend rounds enough moved))
                (λ (rest, end) r.
                  Settles.value (widen moved r.0, (redir_of-IsFile mark.kind file w, r.1))))
            (λ z. Settles.stopped))
        (λ z. let up = peek-range buf (b'<' ∷ b'>' ∷ []) s h in Settles.value ((up.0, up.1), tt))

  pub redirs-Settles :
      (s : ℕ)
      → At buf s
      → Settles (λ (r : List Redir × ℕ). Range s r.1 × All IsFile r.0) (redirs buf s)
  unfolding redirs
  redirs-Settles s h = redirs_loop-Settles (length buf + 1) s h (omega arith)

  args_loop-Settles :
      (rounds argc s : ℕ)
      → At buf s
      → length buf < s + rounds
      → Settles
          (λ (r : List Span × List Redir × ℕ). Range s r.2 × All (IsWord buf) r.0 × All IsFile r.1)
          (args_loop buf rounds argc s)
  unfolding args_loop
  args_loop-Settles zero argc s h enough = absurd (omega arith)
  args_loop-Settles (suc rounds) argc s h enough =
      let here = (peek buf (b'|' ∷ b')' ∷ b'&' ∷ b';' ∷ []) s).1 in
      let t = gettoken buf here in
      let up = peek-range buf (b'|' ∷ b')' ∷ b'&' ∷ b';' ∷ []) s h in
      let taken = gettoken-Taken buf here up.1 in
      Settles-if (peek buf (b'|' ∷ b')' ∷ b'&' ∷ b';' ∷ []) s).0
        (λ z. Settles.value ((up.0, up.1), tt, tt))
        (λ z.
          Settles-if (t.kind == 0)
            (λ z. Settles.value ((le_trans up.0 taken.forward, taken.within), tt, tt))
            (λ some_byte.
              let moved = lt_of_le_lt up.0 (taken.progress (==_ne t.kind 0 some_byte)) in
              Settles-if (t.kind == b'a')
                (λ word.
                  let w = taken.word ((==_iff t.kind b'a').0 word) in
                  Settles-if (leb maxargs (argc + 1)) (λ z. Settles.stopped)
                    (λ z. Settles-bind (redirs-Settles t.next taken.within) (λ (rs, after) r.
                      let further = lt_of_lt_le moved r.0.0 in
                      Settles-bind
                        (args_loop-Settles rounds (argc + 1) after r.0.1
                          (spend rounds enough further))
                        (λ (words, later, end) q.
                          Settles.value
                            (widen further q.0, (w, q.1), All-append IsFile rs later r.1 q.2)))))
                (λ z. Settles.stopped)))

  abbrev pub Parsed : ℕ → Cmd × ℕ → Type 0
  Parsed s (c, e) = Range s e × HasWords c

  pub Settles-later :
      {s t : ℕ} {r : Result (Cmd × ℕ)} → s < t → Settles (Parsed t) r → Settles (Parsed s) r
  Settles-later lt (Settles.value h) = Settles.value (widen lt h.0, h.1)
  Settles-later lt Settles.stopped = Settles.stopped

  pub Settles-after :
      {s t : ℕ} {r : Result (Cmd × ℕ)} → s ≤ t → Settles (Parsed t) r → Settles (Parsed s) r
  Settles-after le (Settles.value h) = Settles.value ((le_trans le h.0.0, h.0.1), h.1)
  Settles-after le Settles.stopped = Settles.stopped

  pub simple-Settles : (s : ℕ) → At buf s → Settles (Parsed s) (simple buf s)
  unfolding simple
  simple-Settles s h = Settles-bind (redirs-Settles s h) (λ (rs, here) r.
      Settles-bind (args_loop-Settles (length buf + 1) 0 here r.0.1 (omega arith))
        (λ (words, later, end) q. Settles.value (
          (le_trans r.0.0 q.0.0, q.0.1),
          wrap-HasWords (rs ++ later) (Cmd.exec words) (All-append IsFile rs later r.1 q.2) q.1,
        )))

  pub backs_loop-Settles :
      (rounds : ℕ) (c : Cmd) (s : ℕ)
      → At buf s
      → length buf < s + rounds
      → HasWords c
      → Settles (Parsed s) (backs_loop buf rounds c s)
  unfolding backs_loop
  backs_loop-Settles zero c s h enough words = absurd (omega arith)
  backs_loop-Settles (suc rounds) c s h enough words =
      Settles-if (peek buf (b'&' ∷ []) s).0
        (λ found.
          let step = found-progress buf (b'&' ∷ []) s h found in
          Settles-later step.0 (
            backs_loop-Settles rounds (Cmd.back c) (gettoken buf (peek buf (b'&' ∷ []) s).1).next
              step.1 (spend rounds enough step.0) words))
        (λ z. let up = peek-range buf (b'&' ∷ []) s h in Settles.value ((up.0, up.1), words))
