-- ===== src/Log/Trace.antt =====
-- What a list of block writes by log.c leaves on the disk.
use cs_3224_operating_system.Base.{
  ℕ, ◌+◌, ◌≤◌, ◌<◌, ◌≡◌, refl, ◌≢◌, ◌∙◌, ap, sym, ◌⊎◌, Bool, false, ◌||◌, List, [], ◌∷◌, arith,
  if◌then◌else◌, ◌==◌, length, All, Bool-cases, inl, inr,
}
use mathlib.Core.Path.{ap₂}
use cs_3224_operating_system.Log.Blocks.{Block, Disk, upd, apply}
use cs_3224_operating_system.Log.Install.{Outside, home_writes, log_writes}

-- Blocks written to their homes with the contents `v`.
abbrev pub homes : List ℕ → Disk → List (ℕ × Block)
homes [] v = []
homes (b ∷ bs) v = (b, v b) ∷ homes bs v

-- The log blocks from `tail` on hold the contents `v` of the blocks `bs`.
abbrev pub LogHolds : ℕ → ℕ → List ℕ → Disk → Disk → Type 0
LogHolds start tail [] v d = Unit
LogHolds start tail (b ∷ bs) v d = (d (start + tail + 1) ≡ v b) × LogHolds start (tail + 1) bs v d

-- No write goes to `a`.
abbrev pub Spares : ℕ → List (ℕ × Block) → Type 0
Spares a ws = All (λ w. w.0 ≢ a) ws

pub apply-Spares : (d : Disk) (ws : List (ℕ × Block)) (a : ℕ) → Spares a ws → apply d ws a ≡ d a
unfolding apply
apply-Spares d [] a h = refl
apply-Spares d ((b, v) ∷ ws) a h = apply-Spares (upd d b v) ws a h.1 ∙ ground (arith, h.0)

pub log_writes-Spares :
    (start tail a : ℕ) (bs : List ℕ) (v : Disk)
    → (a < start + tail + 1) ⊎ (start + tail + length bs < a)
    → Spares a (log_writes start tail bs v)
log_writes-Spares start tail a [] v h = tt
log_writes-Spares start tail a (b ∷ bs) v h =
    (omega arith, log_writes-Spares start (tail + 1) a bs v (omega arith))

pub homes-Spares :
    (start size a : ℕ) (bs : List ℕ) (v : Disk)
    → All (Outside start size) bs
    → start ≤ a
    → a < start + size
    → Spares a (homes bs v)
homes-Spares start size a [] v h lo hi = tt
homes-Spares start size a (b ∷ bs) v h lo hi =
    (omega (arith, h.0), homes-Spares start size a bs v h.1 lo hi)

pub LogHolds-congr :
    (start tail : ℕ) (bs : List ℕ) (v d d' : Disk)
    → ((a : ℕ) → start + tail < a → a ≤ start + tail + length bs → d' a ≡ d a)
    → LogHolds start tail bs v d
    → LogHolds start tail bs v d'
LogHolds-congr start tail [] v d d' h holds = tt
LogHolds-congr start tail (b ∷ bs) v d d' h holds = (
  h (start + tail + 1) (omega arith) (omega arith) ∙ holds.0,
  LogHolds-congr start (tail + 1) bs v d d' (λ a lo hi. h a (omega arith) (omega arith)) holds.1,
)

pub log_writes-LogHolds :
    (start tail : ℕ) (bs : List ℕ) (v d : Disk)
    → LogHolds start tail bs v (apply d (log_writes start tail bs v))
unfolding apply
log_writes-LogHolds start tail [] v d = tt
log_writes-LogHolds start tail (b ∷ bs) v d =
    let to = start + tail + 1 in
    let here : upd d to (v b) to ≡ v b = ground arith in
    (
      apply-Spares (upd d to (v b)) (log_writes start (tail + 1) bs v) to
            (log_writes-Spares start (tail + 1) to bs v (inl (omega arith)))
          ∙ here,
      log_writes-LogHolds start (tail + 1) bs v (upd d to (v b)),
    )

pub home_writes-homes :
    (start tail : ℕ) (bs : List ℕ) (v m : Disk)
    → LogHolds start tail bs v m
    → home_writes start tail bs m ≡ homes bs v
home_writes-homes start tail [] v m h = refl
home_writes-homes start tail (b ∷ bs) v m h =
    ap₂ (λ x ws. (b, x) ∷ ws) h.0 (home_writes-homes start (tail + 1) bs v m h.1)

-- A block number that is listed.
abbrev pub has : ℕ → List ℕ → Bool
has a [] = false
has a (b ∷ bs) = (a == b) || has a bs

pub apply-homes :
    (d : Disk) (bs : List ℕ) (v : Disk) (a : ℕ)
    → apply d (homes bs v) a ≡ (if has a bs then v a else d a)
unfolding apply
apply-homes d [] v a = refl
apply-homes d (b ∷ bs) v a = apply-homes (upd d b (v b)) bs v a ∙ step
  where
    step : (if has a bs then v a else upd d b (v b) a) ≡ (if (a == b) || has a bs then v a else d a)
    step = elim (Bool-cases (a == b)) [
      | inl same ↦
          let e : a ≡ b = ground arith in
          rw same (elim (Bool-cases (has a bs)) [
            | inl old ↦ rw old refl
            | inr new ↦ rw new (ap v (sym e))
          ])
      | inr other ↦ rw other refl
    ]
