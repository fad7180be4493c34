-- ===== src/Log/Atomic.antt =====
-- Transactions of log.c are atomic across power failures.
use cs_3224_operating_system.Base.{
  ℕ, suc, ◌+◌, ◌-◌, ◌≤◌, ◌<◌, ◌≡◌, refl, ◌∙◌, ap, sym, subst, false, List, [], ◌∷◌, ◌++◌, arith,
  if◌then◌else◌, ltb, length, take, Bool-cases, inl, inr,
}
use native.Mathlib.Decide.{dec_le, dec_lt}
use cs_3224_operating_system.Log.{Log, log_size, commit}
use cs_3224_operating_system.Log.Header.{IsHeader}
use cs_3224_operating_system.Log.Blocks.{Block, Disk, Store, apply}
use cs_3224_operating_system.Log.Install.{Outside, apply-append}
use cs_3224_operating_system.Log.Trace.{has, apply-homes}
use cs_3224_operating_system.Log.Commit.{logged, Ready, Committed, commit_writes, pending-Committed}
use cs_3224_operating_system.Log.Crash.{
  crash, reboot, with_transaction, reboot-homes, reboot-clean, homes_prefix, length-homes,
  length-log_writes, take-append_left, take-append_right, take_nil, take_one, length-logged,
  log_part, home_part, logged_disk, early, logged_disk-other, resumed,
}

take_all : (ws : List (ℕ × Block)) → take (length ws) ws ≡ ws
take_all [] = refl
take_all (w ∷ ws) = ap (λ r. w ∷ r) (take_all ws)

module _ (lg : Log) (s : Store) (ready : Ready lg s) (junk : Log)
    (entries : length junk.block ≡ log_size) where
  module _ (pending : 0 < lg.n) where
    abbrev done : Committed lg s
    done = pending-Committed lg s ready pending

    trace-eq : (commit lg s).1.trace ≡ commit_writes lg s done.full done.empty
    trace-eq =
        done.wrote.trace ∙ ap (λ t. t ++ commit_writes lg s done.full done.empty) ready.untouched

    crash-early : (k : ℕ) → k ≤ lg.n → crash lg s k ≡ apply s.disk (take k (log_part lg s))
    unfolding crash
    crash-early k h =
        ap (λ t. apply s.disk (take k t)) trace-eq
        ∙ ap (apply s.disk) (
            take-append_left k (log_part lg s) _
              (omega (arith, length-log_writes lg.start 0 (logged lg) s.mem, length-logged lg)))

    reboot-early :
        (k : ℕ)
        → k ≤ lg.n
        → (b : ℕ) → Outside lg.start lg.size b
        → reboot lg junk (crash lg s k) b ≡ s.disk b
    reboot-early k h b out =
        let at_start = early lg s ready k lg.start (inl refl) in
        rw (crash-early k h) (
          reboot-clean lg junk (apply s.disk (take k (log_part lg s)))
            (subst (λ x. IsHeader x []) (sym at_start) ready.clean) (rw at_start ready.disk_words)
            (omega (arith, ready.fits)) entries b out
          ∙ early lg s ready k b (inr out))

    crash-late :
        (j : ℕ)
        → crash lg s (lg.n + suc j)
          ≡ apply
              (logged_disk lg s done.full)
              (take j (home_part lg s ++ ((lg.start, done.empty) ∷ [])))
    unfolding crash apply
    crash-late j =
        let rest = home_part lg s ++ ((lg.start, done.empty) ∷ []) in
        let h : ℕ × Block = (lg.start, done.full) in
        let len = length-log_writes lg.start 0 (logged lg) s.mem ∙ length-logged lg in
        let e : lg.n + suc j - length (log_part lg s) ≡ suc j = omega (arith, len) in
        ap (λ t. apply s.disk (take (lg.n + suc j) t)) trace-eq
        ∙ ap (apply s.disk) (
            take-append_right (lg.n + suc j) (log_part lg s) (h ∷ rest) (omega (arith, len))
            ∙ ap (λ m. log_part lg s ++ take m (h ∷ rest)) e)
        ∙ apply-append s.disk (log_part lg s) (h ∷ take j rest)
        ∙ ap (λ d. apply d (take j rest)) (sym (apply-append s.disk (log_part lg s) (h ∷ [])))

    logged_disk-Outside :
        (b : ℕ) → Outside lg.start lg.size b → logged_disk lg s done.full b ≡ s.disk b
    logged_disk-Outside b out =
        logged_disk-other lg s ready done.full b (omega (arith, out, ready.fits))
        ∙ ap (λ t. apply s.disk t b) (sym (take_all (log_part lg s)))
        ∙ early lg s ready (length (log_part lg s)) b (inr out)

    -- While the blocks are copied home.
    reboot-copying :
        (j : ℕ)
        → j ≤ lg.n
        → (b : ℕ) → Outside lg.start lg.size b
        → reboot lg junk (crash lg s (lg.n + suc j)) b ≡ with_transaction lg s b
    reboot-copying j h b out =
        let last : List (ℕ × Block) = (lg.start, done.empty) ∷ [] in
        let len = length-homes (logged lg) s.mem ∙ length-logged lg in
        let d = apply (logged_disk lg s done.full) (take j (home_part lg s)) in
        let e =
          crash-late j
          ∙ ap (apply (logged_disk lg s done.full))
              (take-append_left j (home_part lg s) last (omega (arith, len))) in
        rw e (
          (reboot-homes lg junk (logged lg) s.mem d
              (resumed lg s ready done.full done.full-IsHeader done.full_words j) entries).1
            b out
          ∙ agree b out)
      where
        agree :
            (a : ℕ)
            → Outside lg.start lg.size a
            → (if has a (logged lg)
                then s.mem a
                else apply (logged_disk lg s done.full) (take j (home_part lg s)) a)
              ≡ with_transaction lg s a
        agree a o = elim (Bool-cases (has a (logged lg))) [
          | inl old ↦ rw old refl
          | inr new ↦ rw new (
              homes_prefix (logged_disk lg s done.full) (logged lg) s.mem j a new
              ∙ logged_disk-Outside a o)
        ]

    -- When everything is written, the header is empty again.
    reboot-finished :
        (j : ℕ)
        → lg.n < j
        → (b : ℕ) → Outside lg.start lg.size b
        → reboot lg junk (crash lg s (lg.n + suc j)) b ≡ with_transaction lg s b
    unfolding apply
    reboot-finished j h b out =
        let last : List (ℕ × Block) = (lg.start, done.empty) ∷ [] in
        let len = length-homes (logged lg) s.mem ∙ length-logged lg in
        let d = apply (logged_disk lg s done.full) (home_part lg s ++ last) in
        let all : take (j - length (home_part lg s)) last ≡ last =
          take_one (j - length (home_part lg s)) (lg.start, done.empty) (omega (arith, len)) in
        let e =
          crash-late j
          ∙ ap (apply (logged_disk lg s done.full)) (
              take-append_right j (home_part lg s) last (omega (arith, len))
              ∙ ap (λ t. home_part lg s ++ t) all) in
        let split = apply-append (logged_disk lg s done.full) (home_part lg s) last in
        let at_start : d lg.start ≡ done.empty =
          ap (λ (m : Disk). m lg.start) split ∙ ground arith in
        rw e (
          reboot-clean lg junk d (subst (λ x. IsHeader x []) (sym at_start) done.empty-IsHeader)
            (rw at_start done.empty_words) (omega (arith, ready.fits)) entries b out
          ∙ ap (λ (m : Disk). m b) split
          ∙ ground (arith, ready.fits)
          ∙ apply-homes (logged_disk lg s done.full) (logged lg) s.mem b
          ∙ rw (logged_disk-Outside b out) refl)

  -- Nothing is logged: a commit writes nothing.
  reboot-idle :
      lg.n ≡ 0 → (k b : ℕ) → Outside lg.start lg.size b → reboot lg junk (crash lg s k) b ≡ s.disk b
  unfolding crash commit apply
  reboot-idle none_logged k b out =
      let test : ltb 0 lg.n ≡ false = ground arith in
      let e : take k s.trace ≡ [] = rw ready.untouched (take_nil k) in
      rw (test, e)
        (reboot-clean lg junk s.disk ready.clean ready.disk_words (omega (arith, ready.fits))
          entries b out)

  -- A commit is atomic. If the power fails after any number `k` of the block writes of a commit,
  -- the next start leaves every block outside of the log as it was, when `k` is at most the number
  -- of logged blocks, and otherwise leaves the whole transaction there.
  pub reboot-crash :
      (k b : ℕ)
      → Outside lg.start lg.size b
      → (k ≤ lg.n → reboot lg junk (crash lg s k) b ≡ s.disk b)
        × (lg.n < k → reboot lg junk (crash lg s k) b ≡ with_transaction lg s b)
  reboot-crash k b out = elim (dec_lt 0 lg.n) [
    | yes pending ↦ (
      λ h. reboot-early pending k h b out,
      λ h.
          let e : k ≡ lg.n + suc (k - lg.n - 1) = omega arith in
          rw e (elim (dec_le (k - lg.n - 1) lg.n) [
            | yes copying ↦ reboot-copying pending (k - lg.n - 1) copying b out
            | no finished ↦ reboot-finished pending (k - lg.n - 1) (omega arith) b out
          ]),
    )
    | no idle ↦
        let e : lg.n ≡ 0 = omega arith in
        (λ h. reboot-idle e k b out, λ h. reboot-idle e k b out ∙ rw e refl)
  ]
