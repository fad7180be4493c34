-- ===== src/Shell/Total.antt =====
-- The parser of user/sh.c returns or panics on every text, and the words of the command that it
-- returns are words of the text.
use cs_3224_operating_system.Base.{
  ℕ, zero, suc, ◌+◌, ◌-◌, ◌*◌, ◌≤◌, ◌<◌, List, [], ◌∷◌, arith, ◌==◌, length, All-append,
}
use cs_3224_operating_system.Shell.Lexer.{gettoken, peek}
use cs_3224_operating_system.Shell.Result.{Settles, Settles-if, Settles-bind}
use cs_3224_operating_system.Shell.Parser.{parseline, parsepipe, parseexec, parseblock, parse}
use cs_3224_operating_system.Shell.Words.{IsWord}
use cs_3224_operating_system.Shell.Tokens.{At, peek-range, found-progress}
use cs_3224_operating_system.Shell.Loops.{
  words_of, HasWords, Parsed, lt_of_lt_le, le_of_lt, le_trans, lt_of_le_lt, widen, wrap-HasWords,
  redirs-Settles, simple-Settles, backs_loop-Settles, Settles-after,
}

module _ (buf : List ℕ) where
  -- With the fuel that is left at place `s`, each of the four parsers settles.
  record Parsers (f : ℕ) : Type 0 where
    line :
        (s : ℕ)
        → At buf s
        → 4 * (length buf - s) + 4 ≤ f
        → Settles (Parsed buf s) (parseline buf f s)
    pipe :
        (s : ℕ)
        → At buf s
        → 4 * (length buf - s) + 3 ≤ f
        → Settles (Parsed buf s) (parsepipe buf f s)
    exec :
        (s : ℕ)
        → At buf s
        → 4 * (length buf - s) + 2 ≤ f
        → Settles (Parsed buf s) (parseexec buf f s)
    block :
        (s : ℕ)
        → At buf s
        → 4 * (length buf - s) + 1 ≤ f
        → Settles (Parsed buf s) (parseblock buf f s)

  -- The fuel after a byte has been read.
  fuel_line :
      {s t f : ℕ}
      → At buf t
      → s < t
      → 4 * (length buf - s) + 1 ≤ suc f
      → 4 * (length buf - t) + 4 ≤ f
  fuel_line h lt e = omega arith

  fuel_pipe :
      {s t f : ℕ}
      → At buf t
      → s < t
      → 4 * (length buf - s) + 3 ≤ suc f
      → 4 * (length buf - t) + 3 ≤ f
  fuel_pipe h lt e = omega arith

  fuel_block : {s t f : ℕ} → s ≤ t → 4 * (length buf - s) + 2 ≤ suc f → 4 * (length buf - t) + 1 ≤ f
  fuel_block le e = omega arith

  line-step :
      (f : ℕ)
      → Parsers f
      → (s : ℕ) → At buf s
      → 4 * (length buf - s) + 4 ≤ suc f
      → Settles (Parsed buf s) (parseline buf (suc f) s)
  unfolding parseline
  line-step f p s h enough = Settles-bind (p.pipe s h (omega (arith, enough))) (λ (c, s1) r.
      Settles-bind (backs_loop-Settles buf (length buf + 1) c s1 r.0.1 (omega arith) r.1)
        (λ (c', s2) q.
          let before = le_trans r.0.0 q.0.0 in
          Settles-if (peek buf (b';' ∷ []) s2).0
            (λ found.
              let step = found-progress buf (b';' ∷ []) s2 q.0.1 found in
              let moved = lt_of_le_lt before step.0 in
              Settles-bind
                (p.line (gettoken buf (peek buf (b';' ∷ []) s2).1).next step.1
                  (fuel_line step.1 moved (omega (arith, enough))))
                (λ (d, end) t. Settles.value (
                  widen buf moved t.0,
                  All-append (IsWord buf) (words_of c') (words_of d) q.1 t.1,
                )))
            (λ z.
              let up = peek-range buf (b';' ∷ []) s2 q.0.1 in
              Settles.value ((le_trans before up.0, up.1), q.1))))

  pipe-step :
      (f : ℕ)
      → Parsers f
      → (s : ℕ) → At buf s
      → 4 * (length buf - s) + 3 ≤ suc f
      → Settles (Parsed buf s) (parsepipe buf (suc f) s)
  unfolding parsepipe
  pipe-step f p s h enough = Settles-bind (p.exec s h (omega (arith, enough))) (λ (c, s1) r.
      Settles-if (peek buf (b'|' ∷ []) s1).0
        (λ found.
          let step = found-progress buf (b'|' ∷ []) s1 r.0.1 found in
          let moved = lt_of_le_lt r.0.0 step.0 in
          Settles-bind
            (p.pipe (gettoken buf (peek buf (b'|' ∷ []) s1).1).next step.1
              (fuel_pipe step.1 moved enough))
            (λ (d, end) t.
              Settles.value
                (widen buf moved t.0, All-append (IsWord buf) (words_of c) (words_of d) r.1 t.1)))
        (λ z.
          let up = peek-range buf (b'|' ∷ []) s1 r.0.1 in
          Settles.value ((le_trans r.0.0 up.0, up.1), r.1)))

  exec-step :
      (f : ℕ)
      → Parsers f
      → (s : ℕ) → At buf s
      → 4 * (length buf - s) + 2 ≤ suc f
      → Settles (Parsed buf s) (parseexec buf (suc f) s)
  unfolding parseexec
  exec-step f p s h enough =
      let up = peek-range buf (b'(' ∷ []) s h in
      Settles-if (peek buf (b'(' ∷ []) s).0
        (λ found.
          Settles-after buf up.0 (p.block (peek buf (b'(' ∷ []) s).1 up.1 (fuel_block up.0 enough)))
        (λ z. Settles-after buf up.0 (simple-Settles buf (peek buf (b'(' ∷ []) s).1 up.1))

  block-step :
      (f : ℕ)
      → Parsers f
      → (s : ℕ) → At buf s
      → 4 * (length buf - s) + 1 ≤ suc f
      → Settles (Parsed buf s) (parseblock buf (suc f) s)
  unfolding parseblock
  block-step f p s h enough =
      Settles-if (peek buf (b'(' ∷ []) s).0
        (λ found.
          let step = found-progress buf (b'(' ∷ []) s h found in
          Settles-bind
            (p.line (gettoken buf (peek buf (b'(' ∷ []) s).1).next step.1
              (fuel_line step.1 step.0 enough))
            (λ (c, s1) r.
              Settles-if (peek buf (b')' ∷ []) s1).0
                (λ closed.
                  let close = found-progress buf (b')' ∷ []) s1 r.0.1 closed in
                  Settles-bind
                    (redirs-Settles buf (gettoken buf (peek buf (b')' ∷ []) s1).1).next close.1)
                    (λ (rs, end) q. Settles.value (
                      widen buf (lt_of_lt_le (lt_of_lt_le step.0 r.0.0) (le_of_lt close.0)) q.0,
                      wrap-HasWords buf rs c q.1 r.1,
                    )))
                (λ z. Settles.stopped)))
        (λ z. Settles.stopped)

  all-Parsers : (f : ℕ) → Parsers f
  all-Parsers zero = record {
    line = λ s h enough. absurd (omega (arith, enough));
    pipe = λ s h enough. absurd (omega (arith, enough));
    exec = λ s h enough. absurd (omega (arith, enough));
    block = λ s h enough. absurd (omega (arith, enough));
  }
  all-Parsers (suc f) =
      let p = all-Parsers f in
      record {
        line = line-step f p;
        pipe = pipe-step f p;
        exec = exec-step f p;
        block = block-step f p;
      }

  -- `parsecmd` ends on every text: its recursion, which goes round only after a byte has been read,
  -- returns a command or panics within the fuel that the length of the text gives; and every word
  -- of a command that it returns is a maximal run of bytes of the text that are neither white space
  -- nor symbols: the bytes before it and after it, where there are any, are not of this kind.
  pub parse-Settles : Settles (HasWords buf) (parse buf)
  unfolding parse
  parse-Settles =
      let start : At buf 0 = (omega arith, λ lt here j e. absurd (omega (arith, e))) in
      Settles-bind ((all-Parsers (4 * length buf + 4)).line 0 start (omega arith)) (λ (c, s) r.
        Settles-if ((peek buf [] s).1 == length buf) (λ z. Settles.value r.1)
          (λ z. Settles.stopped))
