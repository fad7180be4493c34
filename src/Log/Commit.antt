-- ===== src/Log/Commit.antt =====
-- The writes of a whole `commit`, and of a recovery, of log.c.
use cs_3224_operating_system.Base.{
  ℕ, ◌≤◌, ◌<◌, ◌≡◌, ◌∙◌, ap, sym, subst, true, List, [], ◌∷◌, ◌++◌, arith, ltb, length, All, inl,
}
use cs_3224_operating_system.Log.{
  Log, log_size, write_log, write_head, install_trans, read_head, recover_from_log, commit,
}
use cs_3224_operating_system.Log.Header.{
  slice, IsHeader, header_of, header_of-IsHeader, length-header_of, read_head-IsHeader,
}
use cs_3224_operating_system.Log.Blocks.{Block, Disk, Store, apply, boot}
use cs_3224_operating_system.Log.Install.{
  Outside, home_writes, log_writes, Wrote, Wrote-trans, install_loop-Wrote, log_loop-Wrote,
  write_head-Wrote,
}
use cs_3224_operating_system.Log.Trace.{
  homes, LogHolds, apply-Spares, log_writes-Spares, homes-Spares, LogHolds-congr,
  log_writes-LogHolds, home_writes-homes,
}

-- The blocks that the log in memory names.
abbrev pub logged : Log → List ℕ
logged lg = slice lg.block 0 lg.n

-- A log and a store at the start of a commit: the header on disk is empty, and the blocks to write
-- are not the log's own.
pub record Ready (lg : Log) (s : Store) : Type 0 where
  pub fits : lg.n < lg.size
  pub bounded : lg.n ≤ log_size
  pub outside : All (Outside lg.start lg.size) (logged lg)
  pub words : log_size < length (s.mem lg.start)
  pub disk_words : 0 < length (s.disk lg.start)
  pub clean : IsHeader (s.disk lg.start) []
  pub untouched : s.trace ≡ []

-- The writes of a commit, in order, with the two headers.
abbrev pub commit_writes : Log → Store → Block → Block → List (ℕ × Block)
commit_writes lg s full empty =
    log_writes lg.start 0 (logged lg) s.mem
    ++ ((lg.start, full) ∷ (homes (logged lg) s.mem ++ ((lg.start, empty) ∷ [])))

-- After emptying the header.
clear-IsHeader :
    (lg : Log) (old : Block) → 0 < length old → IsHeader (header_of (record lg { n = 0 }) old) []
clear-IsHeader lg old h = header_of-IsHeader (record lg { n = 0 }) old h

pub record Committed (lg : Log) (s : Store) : Type 0 where
  pub full : Block
  pub empty : Block
  pub full_words : 0 < length full
  pub empty_words : 0 < length empty
  pub full-IsHeader : IsHeader full (logged lg)
  pub empty-IsHeader : IsHeader empty []
  pub wrote : Wrote s (commit lg s).1 (commit_writes lg s full empty)

module _ (lg : Log) (s : Store) (ready : Ready lg s) (pending : 0 < lg.n) where
  open ready use {fits, bounded, outside, words}

  abbrev s1 : Store
  s1 = write_log lg s

  abbrev s2 : Store
  s2 = write_head lg s1

  abbrev s3 : Store
  s3 = install_trans lg s2

  wrote1 : Wrote s s1 (log_writes lg.start 0 (logged lg) s.mem)
  unfolding write_log
  wrote1 = log_loop-Wrote lg lg.size lg.n 0 s (omega arith) outside

  s1-start : s1.mem lg.start ≡ s.mem lg.start
  s1-start =
      ap (λ (d : Disk). d lg.start) wrote1.mem
      ∙ apply-Spares s.mem _ lg.start
          (log_writes-Spares lg.start 0 lg.start (logged lg) s.mem (inl (omega arith)))

  wrote2 : Wrote s1 s2 ((lg.start, header_of lg (s1.mem lg.start)) ∷ [])
  wrote2 = write_head-Wrote lg s1

  s1-LogHolds : LogHolds lg.start 0 (logged lg) s.mem s1.mem
  s1-LogHolds = let e = wrote1.mem in rw e (log_writes-LogHolds lg.start 0 (logged lg) s.mem s.mem)

  s2-LogHolds : LogHolds lg.start 0 (logged lg) s.mem s2.mem
  unfolding apply
  s2-LogHolds =
      LogHolds-congr lg.start 0 (logged lg) s.mem s1.mem s2.mem
        (λ a lo hi. ap (λ (d : Disk). d a) wrote2.mem ∙ ground arith) s1-LogHolds

  wrote3 : Wrote s2 s3 (homes (logged lg) s.mem)
  unfolding install_trans
  wrote3 =
      subst (λ ws. Wrote s2 s3 ws)
        (home_writes-homes lg.start 0 (logged lg) s.mem s2.mem s2-LogHolds)
        (install_loop-Wrote lg lg.size lg.n 0 s2 (omega arith) outside)

  s2-start : s2.mem lg.start ≡ header_of lg (s1.mem lg.start)
  unfolding apply
  s2-start = ap (λ (d : Disk). d lg.start) wrote2.mem ∙ ground arith

  s3-start : s3.mem lg.start ≡ header_of lg (s1.mem lg.start)
  s3-start =
      ap (λ (d : Disk). d lg.start) wrote3.mem
      ∙ apply-Spares s2.mem _ lg.start (
          homes-Spares lg.start lg.size lg.start (logged lg) s.mem outside (omega arith)
            (omega arith))
      ∙ s2-start

  length-s1 : length (s1.mem lg.start) ≡ length (s.mem lg.start)
  length-s1 = ap length s1-start

  length-s3 : length (s3.mem lg.start) ≡ length (s.mem lg.start)
  length-s3 = ap length s3-start ∙ length-header_of lg (s1.mem lg.start) ∙ length-s1

  pub pending-Committed : Committed lg s
  unfolding commit
  pending-Committed =
      let full = header_of lg (s1.mem lg.start) in
      let empty = header_of (record lg { n = 0 }) (s3.mem lg.start) in
      let test : ltb 0 lg.n ≡ true = ground arith in
      record {
        full = full;
        empty = empty;
        full_words = omega (arith, length-header_of lg (s1.mem lg.start), length-s1);
        empty_words =
            omega (arith, length-header_of (record lg { n = 0 }) (s3.mem lg.start), length-s3);
        full-IsHeader = header_of-IsHeader lg (s1.mem lg.start) (omega (arith, length-s1));
        empty-IsHeader = clear-IsHeader lg (s3.mem lg.start) (omega (arith, length-s3));
        wrote = rw test (
            Wrote-trans (log_writes lg.start 0 (logged lg) s.mem) _ wrote1 (
              Wrote-trans ((lg.start, full) ∷ []) _ wrote2 (
                Wrote-trans (homes (logged lg) s.mem) _ wrote3
                  (write_head-Wrote (record lg { n = 0 }) s3))));
      }

-- What a recovery finds on disk: a header that names `bs`, and their contents `v` in the log.
pub record Recoverable (start size : ℕ) (bs : List ℕ) (v d : Disk) : Type 0 where
  pub head : IsHeader (d start) bs
  pub holds : LogHolds start 0 bs v d
  pub outside : All (Outside start size) bs
  pub fits : length bs < size
  pub bounded : length bs ≤ log_size
  pub words : 0 < length (d start)

pub record Recovered (lg : Log) (d v : Disk) (bs : List ℕ) : Type 0 where
  pub empty : Block
  pub empty_words : 0 < length empty
  pub empty-IsHeader : IsHeader empty []
  pub wrote :
      Wrote (boot d) (recover_from_log lg (boot d)).1 (homes bs v ++ ((lg.start, empty) ∷ []))

module _ (lg : Log) (bs : List ℕ) (v d : Disk) (r : Recoverable lg.start lg.size bs v d)
    (entries : length lg.block ≡ log_size) where
  open r use {head, holds, outside, fits, bounded, words}

  abbrev found : Log
  found = read_head lg (boot d)

  found-blocks : (found.n ≡ length bs) × (slice found.block 0 found.n ≡ bs)
  unfolding boot
  found-blocks = read_head-IsHeader lg (boot d) bs head (omega arith)

  abbrev installed : Store
  installed = install_trans found (boot d)

  Wrote-homes : Wrote (boot d) installed (homes bs v)
  unfolding install_trans boot read_head
  Wrote-homes =
      subst (λ ws. Wrote (boot d) installed ws)
        (ap (λ l. home_writes lg.start 0 l d) found-blocks.1
          ∙ home_writes-homes lg.start 0 bs v d holds)
        (install_loop-Wrote found lg.size found.n 0 (boot d) (omega (arith, found-blocks.0))
          (subst (λ l. All (Outside lg.start lg.size) l) (sym found-blocks.1) outside))

  installed-start : installed.mem lg.start ≡ d lg.start
  unfolding boot
  installed-start =
      ap (λ (m : Disk). m lg.start) Wrote-homes.mem
      ∙ apply-Spares d _ lg.start
          (homes-Spares lg.start lg.size lg.start bs v outside (omega arith) (omega arith))

  pub recover-Recovered : Recovered lg d v bs
  unfolding recover_from_log read_head
  recover-Recovered = record {
    empty = header_of (record found { n = 0 }) (installed.mem lg.start);
    empty_words = omega (
      arith,
      length-header_of (record found { n = 0 }) (installed.mem lg.start),
      ap length installed-start,
    );
    empty-IsHeader =
        clear-IsHeader found (installed.mem lg.start) (omega (arith, ap length installed-start));
    wrote =
        Wrote-trans (homes bs v) _ Wrote-homes
          (write_head-Wrote (record found { n = 0 }) installed);
  }
