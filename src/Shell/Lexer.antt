-- ===== src/Shell/Lexer.antt =====
-- `strchr` of user/ulib.c on the scanner's strings, and `gettoken` and `peek` of user/sh.c.
use cs_3224_operating_system.Base.{
  ℕ, zero, suc, ◌+◌, ◌-◌, Bool, true, false, not, ◌&&◌, List, [], ◌∷◌, if◌then◌else◌, ◌==◌, ltb,
  length, get_or,
}

-- `strchr(s, c)`: whether the string has the byte.
unfoldable pub strchr : List ℕ → ℕ → Bool
strchr [] c = false
strchr (t ∷ ts) c = let more = strchr ts c in if t == c then true else more

-- " \t\r\n\v"
abbrev pub whitespace : List ℕ
whitespace = 32 ∷ 9 ∷ 13 ∷ 10 ∷ 11 ∷ []

-- "<|>&;()"
abbrev pub symbols : List ℕ
symbols = b'<' ∷ b'|' ∷ b'>' ∷ b'&' ∷ b';' ∷ b'(' ∷ b')' ∷ []

-- What `gettoken` finds: the byte that it returns, the two ends of the token, and the new `*ps`.
pub record Token : Type 0 where
  pub kind : ℕ
  pub from : ℕ
  pub upto : ℕ
  pub next : ℕ

module _ (buf : List ℕ) where
  abbrev pub byte_at : ℕ → ℕ
  byte_at s = get_or buf s 0

  -- `while (s < es && strchr(whitespace, *s)) s++;`, with the rounds left
  unfoldable pub skip_loop : ℕ → ℕ → ℕ
  unfolding strchr
  skip_loop zero s = s
  skip_loop (suc rounds) s =
      let more = skip_loop rounds (s + 1) in
      if ltb s (length buf) && strchr whitespace (byte_at s) then more else s

  unfoldable pub skip : ℕ → ℕ
  unfolding skip_loop
  skip s = skip_loop (length buf - s) s

  -- `while (s < es && !strchr(whitespace, *s) && !strchr(symbols, *s)) s++;`
  unfoldable pub word_loop : ℕ → ℕ → ℕ
  unfolding strchr
  word_loop zero s = s
  word_loop (suc rounds) s =
      let more = word_loop rounds (s + 1) in
      if ltb s (length buf)
        && (not (strchr whitespace (byte_at s)) && not (strchr symbols (byte_at s)))
      then more
      else s

  unfoldable pub word_end : ℕ → ℕ
  unfolding word_loop
  word_end s = word_loop (length buf - s) s

  -- The `switch` of `gettoken`: the byte to return, and where the token ends.
  unfoldable pub scan : ℕ → ℕ × ℕ
  unfolding strchr word_end
  scan s =
      let c = byte_at s in
      if c == 0
      then (0, s)
      else if strchr (b'|' ∷ b'(' ∷ b')' ∷ b';' ∷ b'&' ∷ b'<' ∷ []) c
      then (c, s + 1)
      else if c == b'>'
      then (if byte_at (s + 1) == b'>' then (b'+', s + 2) else (b'>', s + 1))
      else (b'a', word_end s)

  unfoldable pub gettoken : ℕ → Token
  unfolding skip scan
  gettoken s =
      let from = skip s in
      let (kind, upto) = scan from in
      record { kind = kind; from = from; upto = upto; next = skip upto }

  -- Whether the next byte is one of `toks`, and the new `*ps`.
  unfoldable pub peek : List ℕ → ℕ → Bool × ℕ
  unfolding skip strchr
  peek toks s = let next = skip s in (not (byte_at next == 0) && strchr toks (byte_at next), next)
