-- ===== src/Log/Crash.antt =====
-- A crash at any point of `commit`, or of the recovery after it, in log.c.
use cs_3224_operating_system.Base.{
  ℕ, zero, suc, ◌+◌, ◌-◌, ◌≤◌, ◌<◌, ◌≡◌, refl, ◌≢◌, ◌∙◌, ap, sym, subst, false, ◌⊎◌, List, [], ◌∷◌,
  ◌++◌, arith, if◌then◌else◌, length, take,
}
use cs_3224_operating_system.Log.{Log, log_size, initlog, commit}
use cs_3224_operating_system.Log.Header.{length-slice, IsHeader}
use cs_3224_operating_system.Log.Blocks.{Block, Disk, Store, apply, boot}
use cs_3224_operating_system.Log.Install.{Outside, log_writes, apply-append}
use cs_3224_operating_system.Log.Trace.{
  homes, Spares, apply-Spares, log_writes-Spares, homes-Spares, LogHolds-congr, log_writes-LogHolds,
  has, apply-homes,
}
use cs_3224_operating_system.Log.Commit.{logged, Ready, Recoverable, recover-Recovered}

-- The disk after a power failure when `commit` has done `k` of its writes, or all, if fewer.
unfoldable pub crash : Log → Store → ℕ → Disk
crash lg s k = apply s.disk (take k (commit lg s).1.trace)

-- The disk after the next start: `initlog` on the contents of the disk, whatever `junk` the log
-- in memory holds.
unfoldable pub reboot : Log → Log → Disk → Disk
reboot lg junk d = (initlog lg.dev lg.start lg.size junk (boot d)).1.disk

-- The disk with the whole transaction.
abbrev pub with_transaction : Log → Store → Disk
with_transaction lg s b = if has b (logged lg) then s.mem b else s.disk b

pub length-log_writes :
    (start tail : ℕ) (bs : List ℕ) (v : Disk) → length (log_writes start tail bs v) ≡ length bs
length-log_writes start tail [] v = refl
length-log_writes start tail (b ∷ bs) v = ap suc (length-log_writes start (tail + 1) bs v)

pub length-homes : (bs : List ℕ) (v : Disk) → length (homes bs v) ≡ length bs
length-homes [] v = refl
length-homes (b ∷ bs) v = ap suc (length-homes bs v)

pub Spares-take : (a k : ℕ) (ws : List (ℕ × Block)) → Spares a ws → Spares a (take k ws)
Spares-take a zero ws h = tt
Spares-take a (suc k) [] h = tt
Spares-take a (suc k) (w ∷ ws) h = (h.0, Spares-take a k ws h.1)

pub take-append_left :
    (k : ℕ) (ws vs : List (ℕ × Block)) → k ≤ length ws → take k (ws ++ vs) ≡ take k ws
take-append_left zero ws vs h = refl
take-append_left (suc k) [] vs h = absurd (omega arith)
take-append_left (suc k) (w ∷ ws) vs h = ap (λ r. w ∷ r) (take-append_left k ws vs (omega arith))

pub take-append_right :
    (k : ℕ) (ws vs : List (ℕ × Block))
    → length ws ≤ k
    → take k (ws ++ vs) ≡ ws ++ take (k - length ws) vs
take-append_right k [] vs h = let e : k - 0 ≡ k = omega arith in rw e
take-append_right zero (w ∷ ws) vs h = absurd (omega arith)
take-append_right (suc k) (w ∷ ws) vs h =
    let e : suc k - suc (length ws) ≡ k - length ws = omega arith in
    rw e (ap (λ r. w ∷ r) (take-append_right k ws vs (omega arith)))

pub take_nil : (k : ℕ) → take {A = ℕ × Block} k [] ≡ []
take_nil zero = refl
take_nil (suc k) = refl

pub take_one : (k : ℕ) (w : ℕ × Block) → 0 < k → take k (w ∷ []) ≡ w ∷ []
take_one zero w h = absurd (omega arith)
take_one (suc k) w h = ap (λ r. w ∷ r) (take_nil k)

-- A prefix of the writes home does not change what all of them leave.
pub homes_prefix :
    (d : Disk) (bs : List ℕ) (v : Disk) (j a : ℕ)
    → has a bs ≡ false
    → apply d (take j (homes bs v)) a ≡ d a
homes_prefix d bs v j a h =
    apply-Spares d (take j (homes bs v)) a (Spares-take a j (homes bs v) (absent bs h))
  where
    absent : (cs : List ℕ) → has a cs ≡ false → Spares a (homes cs v)
    absent [] e = tt
    absent (c ∷ cs) e = (ground arith, absent cs (ground arith))

module _ (lg junk : Log) (bs : List ℕ) (v d : Disk) (r : Recoverable lg.start lg.size bs v d)
    (entries : length junk.block ≡ log_size) where
  -- A recovery copies the logged blocks home, and empties the header.
  pub reboot-homes :
      (IsHeader (reboot lg junk d lg.start) [])
      × ((b : ℕ)
          → Outside lg.start lg.size b
          → reboot lg junk d b ≡ (if has b bs then v b else d b))
  unfolding reboot initlog apply boot
  reboot-homes =
      let found = record junk { start = lg.start; size = lg.size; dev = lg.dev } in
      let done = recover-Recovered found bs v d r entries in
      let last = (lg.start, done.empty) ∷ [] in
      let e =
        λ (b : ℕ). ap (λ (m : Disk). m b) (done.wrote.disk ∙ apply-append d (homes bs v) last) in
      (
        subst (λ h. IsHeader h []) (sym (e lg.start ∙ ground arith)) done.empty-IsHeader,
        λ b out. e b ∙ ground (arith, r.fits) ∙ apply-homes d bs v b,
      )

-- A disk with an empty header is left as it is.
pub reboot-clean :
    (lg junk : Log) (d : Disk)
    → IsHeader (d lg.start) []
    → 0 < length (d lg.start)
    → 0 < lg.size
    → length junk.block ≡ log_size
    → (b : ℕ) → Outside lg.start lg.size b
    → reboot lg junk d b ≡ d b
reboot-clean lg junk d head words room entries b out =
    (reboot-homes lg junk [] d d
        (record {
          head = head;
          holds = tt;
          outside = tt;
          fits = room;
          bounded = omega arith;
          words = words;
        })
        entries).1
      b out

pub length-logged : (lg : Log) → length (logged lg) ≡ lg.n
length-logged lg = length-slice lg.block 0 lg.n

-- The two long parts of a commit's writes.
abbrev pub log_part : Log → Store → List (ℕ × Block)
log_part lg s = log_writes lg.start 0 (logged lg) s.mem

abbrev pub home_part : Log → Store → List (ℕ × Block)
home_part lg s = homes (logged lg) s.mem

-- The disk when the log and its header `full` are written.
abbrev pub logged_disk : Log → Store → Block → Disk
logged_disk lg s full = apply s.disk (log_part lg s ++ ((lg.start, full) ∷ []))

module _ (lg : Log) (s : Store) (ready : Ready lg s) where
  open ready use {fits, outside}

  -- Before the header is written, the disk has changed in the log's blocks only.
  pub early :
      (k b : ℕ)
      → (b ≡ lg.start) ⊎ Outside lg.start lg.size b
      → apply s.disk (take k (log_part lg s)) b ≡ s.disk b
  early k b out = apply-Spares s.disk (take k (log_part lg s)) b (
      Spares-take b k (log_part lg s)
        (log_writes-Spares lg.start 0 b (logged lg) s.mem (omega (arith, length-logged lg))))

  pub logged_disk-other :
      (full : Block) (b : ℕ)
      → b ≢ lg.start
      → logged_disk lg s full b ≡ apply s.disk (log_part lg s) b
  unfolding apply
  logged_disk-other full b ne =
      ap (λ (m : Disk). m b) (apply-append s.disk (log_part lg s) ((lg.start, full) ∷ []))
      ∙ ground arith

  pub logged_disk-start : (full : Block) → logged_disk lg s full lg.start ≡ full
  unfolding apply
  logged_disk-start full =
      ap (λ (m : Disk). m lg.start) (apply-append s.disk (log_part lg s) ((lg.start, full) ∷ []))
      ∙ ground arith

  -- After the header is written, the copying home can be redone from any point.
  pub resumed :
      (full : Block)
      → IsHeader full (logged lg)
      → 0 < length full
      → (j : ℕ)
      → Recoverable lg.start lg.size
          (logged lg)
          s.mem
          (apply (logged_disk lg s full) (take j (home_part lg s)))
  resumed full is words j =
      let spared = λ (a : ℕ) (lo : lg.start ≤ a) (hi : a < lg.start + lg.size).
        apply-Spares (logged_disk lg s full) (take j (home_part lg s)) a (
          Spares-take a j (home_part lg s)
            (homes-Spares lg.start lg.size a (logged lg) s.mem outside lo hi)) in
      let at_start = spared lg.start (omega arith) (omega arith) ∙ logged_disk-start full in
      record {
        head = subst (λ h. IsHeader h (logged lg)) (sym at_start) is;
        holds =
            LogHolds-congr lg.start 0 (logged lg) s.mem (apply s.disk (log_part lg s)) _
              (λ a lo hi.
                spared a (omega arith) (omega (arith, length-logged lg))
                ∙ logged_disk-other full a (omega arith))
              (log_writes-LogHolds lg.start 0 (logged lg) s.mem s.disk);
        outside = outside;
        fits = omega (arith, length-logged lg);
        bounded = omega (arith, length-logged lg, ready.bounded);
        words = rw at_start words;
      }
