-- ===== src/Log/Recovery.antt =====
-- A crash during the recovery of log.c, and the recovery after it.
use cs_3224_operating_system.Base.{
  ℕ, ◌+◌, ◌-◌, ◌≤◌, ◌<◌, ◌≡◌, refl, ◌∙◌, ap, sym, subst, List, [], ◌∷◌, ◌++◌, arith, if◌then◌else◌,
  length, take, Bool-cases, inl, inr,
}
use native.Mathlib.Decide.{dec_le}
use cs_3224_operating_system.Log.{Log, log_size, initlog}
use cs_3224_operating_system.Log.Header.{IsHeader}
use cs_3224_operating_system.Log.Blocks.{Block, Disk, apply, boot}
use cs_3224_operating_system.Log.Install.{Outside, apply-append}
use cs_3224_operating_system.Log.Trace.{
  homes, has, apply-homes, apply-Spares, homes-Spares, LogHolds-congr,
}
use cs_3224_operating_system.Log.Commit.{Recoverable, Recovered, recover-Recovered}
use cs_3224_operating_system.Log.Crash.{
  reboot, reboot-homes, reboot-clean, homes_prefix, length-homes, take-append_left,
  take-append_right, take_one, Spares-take,
}

-- The disk when the power fails after `k` writes of a recovery, or after all, if fewer.
pub crash_recovery : Log → Log → Disk → ℕ → Disk
crash_recovery lg junk d k =
    apply d (take k (initlog lg.dev lg.start lg.size junk (boot d)).1.trace)

module _ (lg junk : Log) (bs : List ℕ) (v d : Disk) (r : Recoverable lg.start lg.size bs v d)
    (entries : length junk.block ≡ log_size) where
  open r use {outside, fits}

  abbrev done : Recovered (record junk { start = lg.start; size = lg.size; dev = lg.dev }) d v bs
  done =
      recover-Recovered (record junk { start = lg.start; size = lg.size; dev = lg.dev }) bs v d r
        entries

  abbrev last : List (ℕ × Block)
  last = (lg.start, done.empty) ∷ []

  partial : (k : ℕ) → crash_recovery lg junk d k ≡ apply d (take k (homes bs v ++ last))
  unfolding crash_recovery initlog boot
  partial k = ap (λ t. apply d (take k t)) done.wrote.trace

  -- The header and the log are still there while blocks are copied.
  still : (j : ℕ) → Recoverable lg.start lg.size bs v (apply d (take j (homes bs v)))
  still j =
      let spared = λ (a : ℕ) (lo : lg.start ≤ a) (hi : a < lg.start + lg.size).
        apply-Spares d (take j (homes bs v)) a
          (Spares-take a j (homes bs v) (homes-Spares lg.start lg.size a bs v outside lo hi)) in
      let at_start = spared lg.start (omega arith) (omega arith) in
      record {
        head = subst (λ h. IsHeader h bs) (sym at_start) r.head;
        holds =
            LogHolds-congr lg.start 0 bs v d _ (λ a lo hi. spared a (omega arith) (omega arith))
              r.holds;
        outside = outside;
        fits = fits;
        bounded = r.bounded;
        words = rw at_start r.words;
      }

  agree :
      (j b : ℕ)
      → (if has b bs then v b else apply d (take j (homes bs v)) b)
        ≡ (if has b bs then v b else d b)
  agree j b = elim (Bool-cases (has b bs)) [
    | inl old ↦ rw old refl
    | inr new ↦ rw new (homes_prefix d bs v j b new)
  ]

  -- If the power fails after any number of the block writes of a recovery, the next recovery still
  -- leaves every block outside of the log as the first one would have.
  pub reboot-crash_recovery :
      (k b : ℕ)
      → Outside lg.start lg.size b
      → reboot lg junk (crash_recovery lg junk d k) b ≡ reboot lg junk d b
  unfolding apply
  reboot-crash_recovery k b out =
      let whole = (reboot-homes lg junk bs v d r entries).1 b out in
      let len = length-homes bs v in
      rw (partial k) (elim (dec_le k (length bs)) [
        | yes copying ↦ rw (take-append_left k (homes bs v) last (omega (arith, len))) (
            (reboot-homes lg junk bs v (apply d (take k (homes bs v))) (still k) entries).1 b out
            ∙ agree k b
            ∙ sym whole)
        | no finished ↦
            let split = apply-append d (homes bs v) last in
            let at_start : apply d (homes bs v ++ last) lg.start ≡ done.empty =
              ap (λ (m : Disk). m lg.start) split ∙ ground arith in
            rw
              (
                take-append_right k (homes bs v) last (omega (arith, len)),
                take_one (k - length (homes bs v)) (lg.start, done.empty) (omega (arith, len)),
              )
              (reboot-clean lg junk (apply d (homes bs v ++ last))
                  (subst (λ x. IsHeader x []) (sym at_start) done.empty-IsHeader)
                  (rw at_start done.empty_words) (omega (arith, fits)) entries b out
                ∙ ap (λ (m : Disk). m b) split
                ∙ ground (arith, fits)
                ∙ apply-homes d bs v b
                ∙ sym whole)
      ])
