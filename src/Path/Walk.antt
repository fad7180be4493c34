-- ===== src/Path/Walk.antt =====
-- What namex of kernel/fs.c finds, and the references and locks that it takes on its way.
use cs_3224_operating_system.Base.{
  ℕ, zero, suc, ◌+◌, ◌<◌, ◌≡◌, refl, Bool, true, false, not, ◌&&◌, Option, none, some, List, [],
  ◌∷◌, ◌++◌, arith, if◌then◌else◌, ◌==◌, length,
}
use cs_3224_operating_system.Path.{
  skipelem, Directories, Call, Found, after_calls, is_end, left_calls, next_calls, namex_loop,
  namex,
}
use cs_3224_operating_system.Path.Elements.{elements, NoSlash, Step, skipelem-Step}

-- From inode `ip` down through directories by names.
unfoldable pub walk : Directories → ℕ → List (List ℕ) → Option ℕ
walk dirs ip [] = some ip
walk dirs ip (e ∷ es) =
    let next : Option ℕ = elim (dirs.dirlookup ip e) [ none ↦ none | some n ↦ walk dirs n es ] in
    if dirs.is_dir ip then next else none

-- The same up to the last name, which is returned with the directory to look it up in.
unfoldable pub walk_parent : Directories → ℕ → List (List ℕ) → Option (ℕ × List ℕ)
walk_parent dirs ip [] = none
walk_parent dirs ip (e ∷ []) = if dirs.is_dir ip then some (ip, e) else none
walk_parent dirs ip (e ∷ f ∷ es) =
    let next : Option (ℕ × List ℕ) = elim (dirs.dirlookup ip e) [
      | none ↦ none
      | some n ↦ walk_parent dirs n (f ∷ es)
    ] in
    if dirs.is_dir ip then next else none

-- Where a path starts.
abbrev pub start_of : (root cwd : ℕ) → List ℕ → ℕ
start_of root cwd path = elim path [ [] ↦ cwd | c ∷ _ ↦ if c == b'/' then root else cwd ]

-- What `nameiparent` says: the inode with the bytes in `name`.
abbrev pub parent_of : Found → Option (ℕ × List ℕ)
parent_of w = elim w.inode [ none ↦ none | some ip ↦ some (ip, w.name) ]

-- The loop returns, with a result of which P holds.
pub data Returns {ℓ} (P : Found → Type ℓ) : Option Found → Type ℓ where
  returns : {w : Found} → P w → Returns P (some w)

-- How the loop of `namex` goes: the directory `ip`, the path that is left, and what it returns.
pub data Walked (dirs : Directories) (parent : Bool) : ℕ → List ℕ → Found → Type 0 where
  ended :
      {ip : ℕ} {path name : List ℕ}
      → elements path ≡ []
      → parent ≡ false
      → Walked dirs parent ip path (record { inode = some ip; name = name; calls = [] })
  no_parent :
      {ip : ℕ} {path name : List ℕ}
      → elements path ≡ []
      → parent ≡ true
      → Walked dirs parent ip path (record { inode = none; name = name; calls = Call.put ip ∷ [] })
  not_dir :
      {ip : ℕ} {path elem : List ℕ} {es : List (List ℕ)}
      → elements path ≡ elem ∷ es
      → dirs.is_dir ip ≡ false
      → Walked dirs parent ip path (record { inode = none; name = elem; calls = left_calls ip })
  stopped :
      {ip : ℕ} {path elem : List ℕ} (rest : List ℕ)
      → elements path ≡ elem ∷ elements rest
      → dirs.is_dir ip ≡ true
      → parent && is_end rest ≡ true
      → Walked dirs parent ip path
          (record { inode = some ip; name = elem; calls = Call.lock ip ∷ Call.unlock ip ∷ [] })
  missing :
      {ip : ℕ} {path elem : List ℕ} (rest : List ℕ)
      → elements path ≡ elem ∷ elements rest
      → dirs.is_dir ip ≡ true
      → parent && is_end rest ≡ false
      → NoSlash rest
      → dirs.dirlookup ip elem ≡ none
      → Walked dirs parent ip path (record { inode = none; name = elem; calls = left_calls ip })
  down :
      {ip next : ℕ} {path elem : List ℕ} {w : Found} (rest : List ℕ)
      → elements path ≡ elem ∷ elements rest
      → dirs.is_dir ip ≡ true
      → parent && is_end rest ≡ false
      → NoSlash rest
      → dirs.dirlookup ip elem ≡ some next
      → Walked dirs parent next rest w
      → Walked dirs parent ip path (record w { calls = next_calls ip next ++ w.calls })

pub map-Returns {ℓ} :
    {P Q : Found → Type ℓ} {o : Option Found}
    → ((w : Found) → P w → Q w)
    → Returns P o
    → Returns Q o
map-Returns f (Returns.returns {w} p) = Returns.returns (f w p)

after-Returns {ℓ} :
    {P : Found → Type ℓ} {o : Option Found} (cs : List Call)
    → Returns (λ w. P (record w { calls = cs ++ w.calls })) o
    → Returns P (after_calls cs o)
after-Returns cs (Returns.returns p) = Returns.returns p

module _ (dirs : Directories) (parent : Bool) where
  namex_loop-Walked :
      (rounds : ℕ) (path : List ℕ) (ip : ℕ) (name : List ℕ)
      → length path < rounds
      → Returns (Walked dirs parent ip path) (namex_loop dirs parent rounds path ip name)
  unfolding namex_loop
  namex_loop-Walked zero path ip name h = absurd (omega arith)
  namex_loop-Walked (suc rounds) path ip name h =
      go (skipelem path) (skipelem-Step path)
        (λ rest elem next short. namex_loop-Walked rounds rest next elem (omega (arith, h, short)))
    where
      Goal : Option Found → Type 0
      Goal = Returns (Walked dirs parent ip path)

      -- What follows when the inode has no next one.
      left : List ℕ → Option Found
      left elem = some (record { inode = none; name = elem; calls = left_calls ip })

      search : List ℕ → List ℕ → Option ℕ → Option Found
      search rest elem o = elim o [
        | none ↦ left elem
        | some next ↦
            after_calls (next_calls ip next) (namex_loop dirs parent rounds rest next elem)
      ]

      More : List ℕ → List ℕ → Type 0
      More rest elem =
          (next : ℕ)
          → Returns (Walked dirs parent next rest) (namex_loop dirs parent rounds rest next elem)

      find :
          (rest elem : List ℕ) (o : Option ℕ)
          → dirs.dirlookup ip elem ≡ o
          → elements path ≡ elem ∷ elements rest
          → dirs.is_dir ip ≡ true
          → parent && is_end rest ≡ false
          → NoSlash rest
          → More rest elem
          → Goal (search rest elem o)
      find rest elem none found e dir more_left ok more =
          Returns.returns (Walked.missing rest e dir more_left ok found)
      find rest elem (some next) found e dir more_left ok more =
          after-Returns (next_calls ip next)
            (map-Returns (λ w walked. Walked.down rest e dir more_left ok found walked) (more next))

      last :
          (rest elem : List ℕ) (end : Bool)
          → parent && is_end rest ≡ end
          → elements path ≡ elem ∷ elements rest
          → dirs.is_dir ip ≡ true
          → NoSlash rest
          → More rest elem
          → Goal (
              if end
              then some (record {
                inode = some ip;
                name = elem;
                calls = Call.lock ip ∷ Call.unlock ip ∷ [];
              })
              else search rest elem (dirs.dirlookup ip elem))
      last rest elem true h e dir ok more = Returns.returns (Walked.stopped rest e dir h)
      last rest elem false h e dir ok more =
          find rest elem (dirs.dirlookup ip elem) refl e dir h ok more

      enter :
          (rest elem : List ℕ) (dir : Bool)
          → dirs.is_dir ip ≡ dir
          → elements path ≡ elem ∷ elements rest
          → NoSlash rest
          → More rest elem
          → Goal (
              if not dir
              then left elem
              else if parent && is_end rest
              then some (record {
                inode = some ip;
                name = elem;
                calls = Call.lock ip ∷ Call.unlock ip ∷ [];
              })
              else search rest elem (dirs.dirlookup ip elem))
      enter rest elem false dir e ok more = Returns.returns (Walked.not_dir e dir)
      enter rest elem true dir e ok more = last rest elem (parent && is_end rest) refl e dir ok more

      over :
          (p : Bool)
          → parent ≡ p
          → elements path ≡ []
          → Goal (
              some (
                if p
                then record { inode = none; name = name; calls = Call.put ip ∷ [] }
                else record { inode = some ip; name = name; calls = [] }))
      over true e nothing = Returns.returns (Walked.no_parent nothing e)
      over false e nothing = Returns.returns (Walked.ended nothing e)

      go :
          (o : Option (List ℕ × List ℕ))
          → Step path o
          → ((rest elem : List ℕ) (next : ℕ)
              → length rest < length path
              → Returns
                  (Walked dirs parent next rest)
                  (namex_loop dirs parent rounds rest next elem))
          → Goal (elim o as (λ x. Option Found) [
            | none ↦ some (
                if parent
                then record { inode = none; name = name; calls = Call.put ip ∷ [] }
                else record { inode = some ip; name = name; calls = [] })
            | some (rest, elem) ↦
                if not (dirs.is_dir ip)
                then left elem
                else if parent && is_end rest
                then some (record {
                  inode = some ip;
                  name = elem;
                  calls = Call.lock ip ∷ Call.unlock ip ∷ [];
                })
                else search rest elem (dirs.dirlookup ip elem)
          ])
      go none (Step.done e) more = over parent refl e
      go (some (rest, elem)) (Step.elem e short ok) more =
          enter rest elem (dirs.is_dir ip) refl e ok (λ next. more rest elem next short)

  pub namex-Walked :
      (root cwd : ℕ) (path : List ℕ)
      → Returns
          (λ w.
            (calls : List Call) × Walked dirs parent
              (start_of root cwd path)
              path
              (record w { calls = calls })
            × (w.calls ≡ Call.get (start_of root cwd path) ∷ calls))
          (namex dirs parent root cwd path)
  unfolding namex
  namex-Walked root cwd path =
      let ip = start_of root cwd path in
      after-Returns (Call.get ip ∷ []) (
        map-Returns (λ w walked. (w.calls, walked, refl))
          (namex_loop-Walked (length path + 1) path ip [] (omega arith)))
