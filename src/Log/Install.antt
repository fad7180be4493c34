-- ===== src/Log/Install.antt =====
-- What the loops of log.c write, as lists of writes.
use cs_3224_operating_system.Base.{
  ℕ, zero, suc, ◌+◌, ◌≤◌, ◌<◌, ◌≡◌, refl, ◌≢◌, ◌∙◌, ap, subst, ◌⊎◌, List, [], ◌∷◌, ◌++◌, arith,
  length, get_or, All, ==_refl,
}
use mathlib.Core.Path.{ap₂}
use mathlib.Core.List.{append-nil, append_assoc}
use cs_3224_operating_system.Log.{Log, install_loop, write_head, log_loop}
use cs_3224_operating_system.Log.Header.{slice, length-slice, header_of}
use cs_3224_operating_system.Log.Blocks.{Block, Disk, Store, upd, fill, bwrite, apply}

-- Outside of the log's region of the disk, which has `size` blocks from `start` on.
abbrev pub Outside : ℕ → ℕ → ℕ → Type 0
Outside start size b = (b < start) ⊎ (start + size ≤ b)

-- The writes that copy the log's blocks, as memory has them, to their homes.
abbrev pub home_writes : ℕ → ℕ → List ℕ → Disk → List (ℕ × Block)
home_writes start tail [] m = []
home_writes start tail (b ∷ bs) m = (b, m (start + tail + 1)) ∷ home_writes start (tail + 1) bs m

-- The writes that put blocks into the log.
abbrev pub log_writes : ℕ → ℕ → List ℕ → Disk → List (ℕ × Block)
log_writes start tail [] m = []
log_writes start tail (b ∷ bs) m = (start + tail + 1, m b) ∷ log_writes start (tail + 1) bs m

-- From `s` to `t` exactly these buffers were filled and written.
pub record Wrote (s t : Store) (ws : List (ℕ × Block)) : Type 0 where
  pub mem : t.mem ≡ apply s.mem ws
  pub disk : t.disk ≡ apply s.disk ws
  pub trace : t.trace ≡ s.trace ++ ws

pub apply-append :
    (d : Disk) (ws vs : List (ℕ × Block)) → apply d (ws ++ vs) ≡ apply (apply d ws) vs
unfolding apply
apply-append d [] vs = refl
apply-append d ((b, v) ∷ ws) vs = apply-append (upd d b v) ws vs

pub Wrote-nil : (s : Store) → Wrote s s []
unfolding apply
Wrote-nil s = record { mem = refl; disk = refl; trace = rw append-nil }

pub Wrote-trans :
    {s t u : Store} (ws vs : List (ℕ × Block)) → Wrote s t ws → Wrote t u vs → Wrote s u (ws ++ vs)
Wrote-trans {s} ws vs p q = record {
  mem = q.mem ∙ ap (λ d. apply d vs) p.mem ∙ rw apply-append refl;
  disk = q.disk ∙ ap (λ d. apply d vs) p.disk ∙ rw apply-append refl;
  trace = q.trace ∙ ap (λ l. l ++ vs) p.trace ∙ append_assoc s.trace ws vs;
}

pub Wrote-bwrite : (s : Store) (b : ℕ) (v : Block) → Wrote s (bwrite (fill s b v) b) ((b, v) ∷ [])
unfolding fill bwrite apply
Wrote-bwrite s b v = record { mem = refl; disk = rw ==_refl refl; trace = rw ==_refl refl }

upd-ne : (d : Disk) (b a : ℕ) (v : Block) → a ≢ b → upd d b v a ≡ d a
upd-ne d b a v h = ground arith

-- Memory that agrees on the log's blocks gives the same writes.
pub home_writes-congr :
    (start tail : ℕ) (bs : List ℕ) (m m' : Disk)
    → ((a : ℕ) → start + tail + 1 ≤ a → a < start + tail + 1 + length bs → m a ≡ m' a)
    → home_writes start tail bs m ≡ home_writes start tail bs m'
home_writes-congr start tail [] m m' h = refl
home_writes-congr start tail (b ∷ bs) m m' h =
    ap₂ (λ v ws. (b, v) ∷ ws) (h (start + tail + 1) (omega arith) (omega arith))
      (home_writes-congr start (tail + 1) bs m m' (λ a lo hi. h a (omega arith) (omega arith)))

pub log_writes-congr :
    (start tail size : ℕ) (bs : List ℕ) (m m' : Disk)
    → ((a : ℕ) → Outside start size a → m a ≡ m' a)
    → All (Outside start size) bs
    → log_writes start tail bs m ≡ log_writes start tail bs m'
log_writes-congr start tail size [] m m' h out = refl
log_writes-congr start tail size (b ∷ bs) m m' h out =
    ap₂ (λ v ws. (start + tail + 1, v) ∷ ws) (h b out.0)
      (log_writes-congr start (tail + 1) size bs m m' h out.1)

module _ (lg : Log) (size : ℕ) where
  pub install_loop-Wrote :
      (rounds tail : ℕ) (s : Store)
      → tail + rounds < size
      → All (Outside lg.start size) (slice lg.block tail rounds)
      → Wrote s
          (install_loop rounds tail lg s)
          (home_writes lg.start tail (slice lg.block tail rounds) s.mem)
  unfolding install_loop fill bwrite
  install_loop-Wrote zero tail s fits out = Wrote-nil s
  install_loop-Wrote (suc rounds) tail s fits out =
      let b = get_or lg.block tail 0 in
      let v = s.mem (lg.start + tail + 1) in
      let s1 = bwrite (fill s b v) b in
      let bs = slice lg.block (tail + 1) rounds in
      let same = home_writes-congr lg.start (tail + 1) bs s1.mem s.mem (λ a lo hi.
        upd-ne s.mem b a v (omega (arith, out.0, length-slice lg.block (tail + 1) rounds))) in
      subst (λ ws. Wrote s (install_loop rounds (tail + 1) lg s1) ((b, v) ∷ ws)) same
        (Wrote-trans ((b, v) ∷ []) _ (Wrote-bwrite s b v)
          (install_loop-Wrote rounds (tail + 1) s1 (omega arith) out.1))

  pub log_loop-Wrote :
      (rounds tail : ℕ) (s : Store)
      → tail + rounds < size
      → All (Outside lg.start size) (slice lg.block tail rounds)
      → Wrote s
          (log_loop rounds tail lg s)
          (log_writes lg.start tail (slice lg.block tail rounds) s.mem)
  unfolding log_loop fill bwrite
  log_loop-Wrote zero tail s fits out = Wrote-nil s
  log_loop-Wrote (suc rounds) tail s fits out =
      let b = get_or lg.block tail 0 in
      let to = lg.start + tail + 1 in
      let s1 = bwrite (fill s to (s.mem b)) to in
      let bs = slice lg.block (tail + 1) rounds in
      let same =
        log_writes-congr lg.start (tail + 1) size bs s1.mem s.mem
          (λ a o. upd-ne s.mem to a (s.mem b) (omega arith)) out.1 in
      subst (λ ws. Wrote s (log_loop rounds (tail + 1) lg s1) ((to, s.mem b) ∷ ws)) same
        (Wrote-trans ((to, s.mem b) ∷ []) _ (Wrote-bwrite s to (s.mem b))
          (log_loop-Wrote rounds (tail + 1) s1 (omega arith) out.1))

pub write_head-Wrote :
    (lg : Log) (s : Store)
    → Wrote s (write_head lg s) ((lg.start, header_of lg (s.mem lg.start)) ∷ [])
unfolding write_head header_of
write_head-Wrote lg s = Wrote-bwrite s lg.start _
