-- ===== src/Path/Calls.antt =====
-- The references and locks that namex of kernel/fs.c takes and gives back.
use cs_3224_operating_system.Base.{
  ℕ, ◌+◌, ◌≡◌, Bool, false, Option, none, some, List, [], ◌∷◌, arith, if◌then◌else◌, ◌==◌,
}
use cs_3224_operating_system.Path.{Directories, Call, Found, namex}
use cs_3224_operating_system.Path.Walk.{Returns, Walked, map-Returns, namex-Walked}

-- How many of the calls pass a test.
unfoldable pub count : (Call → Bool) → List Call → ℕ
count p [] = 0
count p (c ∷ cs) = (if p c then 1 else 0) + count p cs

abbrev pub gets : ℕ → Call → Bool
gets i c = elim c [ Call.get j ↦ i == j | _ ↦ false ]

abbrev pub puts : ℕ → Call → Bool
puts i c = elim c [ Call.put j ↦ i == j | _ ↦ false ]

abbrev pub locks : ℕ → Call → Bool
locks i c = elim c [ Call.lock j ↦ i == j | _ ↦ false ]

abbrev pub unlocks : ℕ → Call → Bool
unlocks i c = elim c [ Call.unlock j ↦ i == j | _ ↦ false ]

-- The reference that the caller gets.
abbrev pub returned : Option ℕ → ℕ → ℕ
returned o i = elim o [ none ↦ 0 | some j ↦ if i == j then 1 else 0 ]

Walked-count :
    (dirs : Directories) (parent : Bool) (i : ℕ) {ip : ℕ} {path : List ℕ} {w : Found}
    → Walked dirs parent ip path w
    → (count (gets i) w.calls + (if i == ip then 1 else 0)
        ≡ count (puts i) w.calls + returned w.inode i)
      × (count (locks i) w.calls ≡ count (unlocks i) w.calls)
unfolding count
Walked-count dirs parent i (Walked.ended {ip} e p) = (omega arith, omega arith)
Walked-count dirs parent i (Walked.no_parent {ip} e p) = (omega arith, omega arith)
Walked-count dirs parent i (Walked.not_dir {ip} e dir) = (omega arith, omega arith)
Walked-count dirs parent i (Walked.stopped {ip} rest e dir p) = (omega arith, omega arith)
Walked-count dirs parent i (Walked.missing {ip} rest e dir p ok found) = (omega arith, omega arith)
Walked-count dirs parent i (Walked.down {ip} {next} {w = w} rest e dir p ok found more) =
    let (refs, held) = Walked-count dirs parent i more in (omega (arith, refs), omega (arith, held))

-- On every path and every branch, errors included: the walk drops each reference that it has
-- taken, but the one to the inode that it returns, and unlocks what it has locked.
pub namex-count :
    (dirs : Directories) (parent : Bool) (root cwd : ℕ) (path : List ℕ) (i : ℕ)
    → Returns
        (λ w.
          (count (gets i) w.calls ≡ count (puts i) w.calls + returned w.inode i)
          × (count (locks i) w.calls ≡ count (unlocks i) w.calls))
        (namex dirs parent root cwd path)
unfolding count
namex-count dirs parent root cwd path i =
    map-Returns
      (λ w (calls, walked, e).
        let (refs, held) = Walked-count dirs parent i walked in
        rw e (omega (arith, refs), omega (arith, held)))
      (namex-Walked dirs parent root cwd path)
