-- ===== src/Shell/Terminated.antt =====
-- `nulterminate` of user/sh.c makes each word of a command a string of its own.
use cs_3224_operating_system.Base.{
  ℕ, ◌≤◌, ◌<◌, ◌≡◌, refl, ◌≢◌, ◌∙◌, ap, sym, subst, true, List, [], ◌∷◌, ◌++◌, arith, length,
  get_or, set, All, get_or-set_ne, get_or-set,
}
use native.Mathlib.Decide.{dec_lt, ℕ_discrete}
use cs_3224_operating_system.Shell.Result.{Settles, Settles-bind}
use cs_3224_operating_system.Shell.Parser.{Span, Cmd, end_words, nulterminate, parsecmd}
use cs_3224_operating_system.Shell.Words.{get_or-past, in_word, IsWord}
use cs_3224_operating_system.Shell.Loops.{words_of}
use cs_3224_operating_system.Shell.Total.{parse-Settles}

end_words-append :
    (vs ws : List Span) (buf : List ℕ) → end_words (vs ++ ws) buf ≡ end_words ws (end_words vs buf)
unfolding end_words
end_words-append [] ws buf = refl
end_words-append (v ∷ vs) ws buf = end_words-append vs ws (set buf v.upto 0)

nulterminate-words_of : (c : Cmd) (buf : List ℕ) → nulterminate c buf ≡ end_words (words_of c) buf
unfolding nulterminate end_words
nulterminate-words_of (Cmd.exec ws) buf = refl
nulterminate-words_of (Cmd.redir c r) buf =
    ap (λ b. set b (r.file).upto 0) (nulterminate-words_of c buf)
    ∙ sym (end_words-append (words_of c) (r.file ∷ []) buf)
nulterminate-words_of (Cmd.pipe c d) buf =
    nulterminate-words_of d (nulterminate c buf)
    ∙ ap (end_words (words_of d)) (nulterminate-words_of c buf)
    ∙ sym (end_words-append (words_of c) (words_of d) buf)
nulterminate-words_of (Cmd.list c d) buf =
    nulterminate-words_of d (nulterminate c buf)
    ∙ ap (end_words (words_of d)) (nulterminate-words_of c buf)
    ∙ sym (end_words-append (words_of c) (words_of d) buf)
nulterminate-words_of (Cmd.back c) buf = nulterminate-words_of c buf

set-nul : (buf : List ℕ) (i : ℕ) → get_or (set buf i 0) i 0 ≡ 0
set-nul buf i = elim (dec_lt i (length buf)) [
  | yes lt ↦ get_or-set buf i i 0 0 ∙ ground arith
  | no past ↦ get_or-set buf i i 0 0 ∙ ground (arith, get_or-past buf i (omega (arith, past)))
]

end_words-kept :
    (ws : List Span) (buf : List ℕ) (i : ℕ)
    → All (λ (w : Span). w.upto ≢ i) ws
    → get_or (end_words ws buf) i 0 ≡ get_or buf i 0
unfolding end_words
end_words-kept [] buf i h = refl
end_words-kept (w ∷ ws) buf i h =
    end_words-kept ws (set buf w.upto 0) i h.1 ∙ get_or-set_ne buf w.upto i 0 0 h.0

end_words-nul :
    (ws : List Span) (buf : List ℕ) (i : ℕ) → get_or buf i 0 ≡ 0 → get_or (end_words ws buf) i 0 ≡ 0
unfolding end_words
end_words-nul [] buf i h = h
end_words-nul (w ∷ ws) buf i h = end_words-nul ws (set buf w.upto 0) i (elim (ℕ_discrete w.upto i) [
  | yes e ↦ subst (λ k. get_or (set buf w.upto 0) k 0 ≡ 0) e (set-nul buf w.upto)
  | no ne ↦ get_or-set_ne buf w.upto i 0 0 ne ∙ h
])

-- In the text `after`, the word of the text `buf` is a string: its bytes are there, none of them is
-- NUL, and a NUL follows.
pub record IsString (buf after : List ℕ) (w : Span) : Type 0 where
  pub some_byte : w.from < w.upto
  pub same : (j : ℕ) → w.from ≤ j → j < w.upto → get_or after j 0 ≡ get_or buf j 0
  pub bytes : (j : ℕ) → w.from ≤ j → j < w.upto → get_or after j 0 ≢ 0
  pub nul : get_or after w.upto 0 ≡ 0

-- A text in which no byte is NUL.
abbrev pub HasNoNul : List ℕ → Type 0
HasNoNul buf = (j : ℕ) → j < length buf → get_or buf j 0 ≢ 0

module _ (buf : List ℕ) where
  -- No word ends inside of another.
  end_outside :
      (ws : List Span) (j : ℕ)
      → All (IsWord buf) ws
      → j < length buf
      → in_word buf j ≡ true
      → All (λ (w : Span). w.upto ≢ j) ws
  end_outside [] j h lt word = tt
  end_outside (w ∷ ws) j h lt word = (
    (λ e.
        let stop = (h.0).ends (omega (arith, e, lt)) in
        let clash = sym stop ∙ ap (in_word buf) e ∙ word in absurd (cc)),
    end_outside ws j h.1 lt word,
  )

  nuls_after :
      (ws : List Span) (b : List ℕ) → All (λ (w : Span). get_or (end_words ws b) w.upto 0 ≡ 0) ws
  unfolding end_words
  nuls_after [] b = tt
  nuls_after (w ∷ ws) b =
      (end_words-nul ws (set b w.upto 0) w.upto (set-nul b w.upto), nuls_after ws (set b w.upto 0))

  strings :
      (all ws : List Span)
      → HasNoNul buf
      → All (IsWord buf) all
      → All (IsWord buf) ws
      → All (λ (w : Span). get_or (end_words all buf) w.upto 0 ≡ 0) ws
      → All (IsString buf (end_words all buf)) ws
  strings all [] no_nul words h nuls = tt
  strings all (w ∷ ws) no_nul words h nuls =
      let kept : (j : ℕ)
          → w.from ≤ j
          → j < w.upto
          → get_or (end_words all buf) j 0 ≡ get_or buf j 0 =
        λ j lo hi.
          end_words-kept all buf j
            (end_outside all j words (omega (arith, hi, (h.0).inside)) ((h.0).bytes j lo hi)) in
      (
        record {
          some_byte = (h.0).some_byte;
          same = kept;
          bytes = λ j lo hi z. no_nul j (omega (arith, hi, (h.0).inside)) (sym (kept j lo hi) ∙ z);
          nul = nuls.0;
        },
        strings all ws no_nul words h.1 nuls.1,
      )

  -- `parsecmd` of a text without a NUL returns or panics; where it returns, the NULs that it has
  -- written make each word of the command a string of its own, with the bytes that the word had in
  -- the text.
  pub parsecmd-IsString :
      HasNoNul buf
      → Settles (λ (r : Cmd × List ℕ). All (IsString buf r.1) (words_of r.0)) (parsecmd buf)
  unfolding parsecmd
  parsecmd-IsString no_nul = Settles-bind (parse-Settles buf) (λ c words. Settles.value (
      subst (λ b. All (IsString buf b) (words_of c)) (sym (nulterminate-words_of c buf))
        (strings (words_of c) (words_of c) no_nul words words (nuls_after (words_of c) buf))))
