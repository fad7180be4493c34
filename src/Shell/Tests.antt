-- ===== src/Shell/Tests.antt =====
-- Runs of the parser of user/sh.c, and the theorems at concrete inputs.
use cs_3224_operating_system.Base.{ℕ, zero, suc, ◌≡◌, refl, List, [], ◌∷◌, ◌<◌, arith, All}
use cs_3224_operating_system.Shell.Lexer.{gettoken}
use cs_3224_operating_system.Shell.Result.{Message, Result, Settles}
use cs_3224_operating_system.Shell.Parser.{
  Span, Cmd, parse, simple, backs_loop, parsecmd, write_mode,
}
use cs_3224_operating_system.Shell.Loops.{words_of, HasWords}
use cs_3224_operating_system.Shell.Total.{parse-Settles}
use cs_3224_operating_system.Shell.Terminated.{IsString, HasNoNul, parsecmd-IsString}

-- "ls >f|w&"
abbrev line : List ℕ
line = b'l' ∷ b's' ∷ b' ' ∷ b'>' ∷ b'f' ∷ b'|' ∷ b'w' ∷ b'&' ∷ []

span : ℕ → ℕ → Span
span a b = record { from = a; upto = b }

line-parse :
    parse line
    ≡ Result.ok (
        Cmd.back (
          Cmd.pipe
            (Cmd.redir
              (Cmd.exec (span 0 2 ∷ []))
              (record { file = span 4 5; mode = write_mode; fd = 1 }))
            (Cmd.exec (span 6 7 ∷ []))))
unfolding parse span simple backs_loop
line-parse = refl

-- "(ls"
open_paren : parse (b'(' ∷ b'l' ∷ b's' ∷ []) ≡ Result.panic Message.missing_paren
unfolding parse gettoken simple backs_loop
open_paren = refl

parse-Settles_example : Settles (HasWords line) (parse line)
parse-Settles_example = parse-Settles line

All-HasNoNul : (buf : List ℕ) → All (λ c. 0 < c) buf → HasNoNul buf
All-HasNoNul [] h j lt = absurd (omega arith)
All-HasNoNul (c ∷ buf) h zero lt = λ z. omega (arith, h.0, z)
All-HasNoNul (c ∷ buf) h (suc j) lt = All-HasNoNul buf h.1 j (omega arith)

line-HasNoNul : HasNoNul line
line-HasNoNul = All-HasNoNul line (
  omega arith,
  (
    omega arith,
    (omega arith, (omega arith, (omega arith, (omega arith, (omega arith, (omega arith, tt)))))),
  ),
)

parsecmd-IsString_example :
    Settles (λ (r : Cmd × List ℕ). All (IsString line r.1) (words_of r.0)) (parsecmd line)
parsecmd-IsString_example = parsecmd-IsString line line-HasNoNul
