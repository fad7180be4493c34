-- ===== src/Shell/Parser.antt =====
-- The constructors and the parser of user/sh.c.
use cs_3224_operating_system.Base.{
  ℕ, zero, suc, ◌+◌, ◌*◌, List, [], ◌∷◌, ◌++◌, if◌then◌else◌, ◌==◌, leb, length, set,
}
use cs_3224_operating_system.Shell.Lexer.{Token, gettoken, peek}
use cs_3224_operating_system.Shell.Result.{Message, Result, ◌>>=◌}

-- A word of the text: the pointers to its first byte and past its last one.
pub record Span : Type 0 where
  pub from : ℕ
  pub upto : ℕ

-- `file`, `efile`, `mode` and `fd` of `struct redircmd`
pub record Redir : Type 0 where
  pub file : Span
  pub mode : ℕ
  pub fd : ℕ

-- `struct cmd` with its five kinds; the argument list stops before the null pointer.
pub data Cmd : Type 0 where
  exec : List Span → Cmd
  redir : Cmd → Redir → Cmd
  pipe list : Cmd → Cmd → Cmd
  back : Cmd → Cmd

abbrev pub maxargs : ℕ
maxargs = 10

-- O_RDONLY, and O_WRONLY | O_CREATE
abbrev pub read_mode : ℕ
read_mode = 0

abbrev pub write_mode : ℕ
write_mode = 1 + 512

abbrev pub span_of : Token → Span
span_of t = record { from = t.from; upto = t.upto }

-- The `switch` of `parseredirs`.
unfoldable pub redir_of : ℕ → Token → Redir
redir_of kind t =
    if kind == b'<'
    then record { file = span_of t; mode = read_mode; fd = 0 }
    else record { file = span_of t; mode = write_mode; fd = 1 }

abbrev pub redircmd : Cmd → (file : Span) → (mode fd : ℕ) → Cmd
redircmd c file mode fd = Cmd.redir c (record { file = file; mode = mode; fd = fd })

abbrev pub pipecmd : Cmd → Cmd → Cmd
pipecmd left right = Cmd.pipe left right

abbrev pub listcmd : Cmd → Cmd → Cmd
listcmd left right = Cmd.list left right

abbrev pub backcmd : Cmd → Cmd
backcmd c = Cmd.back c

-- `redircmd` around a command, the first redirection innermost.
unfoldable pub wrap : List Redir → Cmd → Cmd
wrap [] c = c
wrap (r ∷ rs) c = wrap rs (redircmd c r.file r.mode r.fd)

module _ (buf : List ℕ) where
  -- The loop of `parseredirs`, on fuel: the redirections that it reads.
  unfoldable pub redirs_loop : ℕ → ℕ → Result (List Redir × ℕ)
  unfolding gettoken peek redir_of
  redirs_loop zero s = Result.out_of_fuel
  redirs_loop (suc rounds) s =
      let (found, here) = peek buf (b'<' ∷ b'>' ∷ []) s in
      let mark = gettoken buf here in
      let file = gettoken buf mark.next in
      let more : Result (List Redir × ℕ) = do
        (rest, end) ← redirs_loop rounds file.next
        Result.ok (redir_of mark.kind file ∷ rest, end)
      in if found
        then (if file.kind == b'a' then more else Result.panic Message.missing_file)
        else Result.ok ([], here)

  unfoldable pub redirs : ℕ → Result (List Redir × ℕ)
  unfolding redirs_loop
  redirs s = redirs_loop (length buf + 1) s

  -- The loop of `parseexec`: the arguments from number `argc` on, and the redirections between.
  unfoldable pub args_loop : ℕ → (argc : ℕ) → ℕ → Result (List Span × List Redir × ℕ)
  unfolding gettoken peek redirs
  args_loop zero argc s = Result.out_of_fuel
  args_loop (suc rounds) argc s =
      let (stop, here) = peek buf (b'|' ∷ b')' ∷ b'&' ∷ b';' ∷ []) s in
      let t = gettoken buf here in
      let more : Result (List Span × List Redir × ℕ) = do
        (rs, after) ← redirs t.next
        (words, later, end) ← args_loop rounds (argc + 1) after
        Result.ok (span_of t ∷ words, rs ++ later, end)
      in if stop
        then Result.ok ([], [], here)
        else if t.kind == 0
        then Result.ok ([], [], t.next)
        else if t.kind == b'a'
        then (if leb maxargs (argc + 1) then Result.panic Message.too_many_args else more)
        else Result.panic Message.syntax

  -- `parseexec` where no parenthesis opens.
  unfoldable pub simple : ℕ → Result (Cmd × ℕ)
  unfolding redirs args_loop wrap
  simple s = do
    (rs, here) ← redirs s
    (words, later, end) ← args_loop (length buf + 1) 0 here
    Result.ok (wrap (rs ++ later) (Cmd.exec words), end)

  -- `while (peek(ps, es, "&"))` of `parseline`
  unfoldable pub backs_loop : ℕ → Cmd → ℕ → Result (Cmd × ℕ)
  unfolding gettoken peek
  backs_loop zero c s = Result.out_of_fuel
  backs_loop (suc rounds) c s =
      let (found, here) = peek buf (b'&' ∷ []) s in
      let more = backs_loop rounds (backcmd c) (gettoken buf here).next in
      if found then more else Result.ok (c, here)

  unfoldable mutual
    pub parseline : ℕ → ℕ → Result (Cmd × ℕ)
    parseline zero s = Result.out_of_fuel
    parseline (suc f) s = do
      (c, s1) ← parsepipe f s
      (c', s2) ← backs_loop (length buf + 1) c s1
      let (found, here) = peek buf (b';' ∷ []) s2
      let rest = parseline f (gettoken buf here).next
      let both : Result (Cmd × ℕ) = do (d, end) ← rest; Result.ok (listcmd c' d, end)
      if found then both else Result.ok (c', here)

    pub parsepipe : ℕ → ℕ → Result (Cmd × ℕ)
    parsepipe zero s = Result.out_of_fuel
    parsepipe (suc f) s = do
      (c, s1) ← parseexec f s
      let (found, here) = peek buf (b'|' ∷ []) s1
      let rest = parsepipe f (gettoken buf here).next
      let both : Result (Cmd × ℕ) = do (d, end) ← rest; Result.ok (pipecmd c d, end)
      if found then both else Result.ok (c, here)

    pub parseexec : ℕ → ℕ → Result (Cmd × ℕ)
    parseexec zero s = Result.out_of_fuel
    parseexec (suc f) s =
        let (found, here) = peek buf (b'(' ∷ []) s in
        let block = parseblock f here in if found then block else simple here

    pub parseblock : ℕ → ℕ → Result (Cmd × ℕ)
    parseblock zero s = Result.out_of_fuel
    parseblock (suc f) s =
        let (found, here) = peek buf (b'(' ∷ []) s in
        let inside : Result (Cmd × ℕ) = do
          (c, s1) ← parseline f (gettoken buf here).next
          let (closed, there) = peek buf (b')' ∷ []) s1
          let after : Result (Cmd × ℕ) = do
            (rs, end) ← redirs (gettoken buf there).next
            Result.ok (wrap rs c, end)
          if closed then after else Result.panic Message.missing_paren
        in if found then inside else Result.panic Message.parseblock

  unfoldable pub parse : Result Cmd
  unfolding parseline peek
  parse = do
    (c, s) ← parseline (4 * length buf + 4) 0
    if (peek buf [] s).1 == length buf then Result.ok c else Result.panic Message.syntax

-- The loop of `nulterminate` over the arguments.
unfoldable pub end_words : List Span → List ℕ → List ℕ
end_words [] buf = buf
end_words (w ∷ ws) buf = end_words ws (set buf w.upto 0)

-- The NUL at the end of the text is already there, so a write of it changes nothing.
unfoldable pub nulterminate : Cmd → List ℕ → List ℕ
unfolding end_words
nulterminate (Cmd.exec ws) buf = end_words ws buf
nulterminate (Cmd.redir c r) buf = set (nulterminate c buf) (r.file).upto 0
nulterminate (Cmd.pipe c d) buf = nulterminate d (nulterminate c buf)
nulterminate (Cmd.list c d) buf = nulterminate d (nulterminate c buf)
nulterminate (Cmd.back c) buf = nulterminate c buf

-- The command and the text that `parsecmd` leaves.
unfoldable pub parsecmd : List ℕ → Result (Cmd × List ℕ)
unfolding parse nulterminate
parsecmd buf = do c ← parse buf; Result.ok (c, nulterminate c buf)
