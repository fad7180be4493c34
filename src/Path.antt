-- ===== src/Path.antt =====
-- The path names of homework-3-lottery-scheduling/kernel/fs.c (homework-1-sort has the same file):
-- skipelem, namex, namei and nameiparent. A path is the list of its bytes before the NUL. What the
-- walk needs of the directories is an interface, with dirlookup as the search of one.
pub mod Elements
pub mod Walk
pub mod Names
pub mod Calls
pub mod Directory
pub mod SameName
pub mod Link
mod Tests
use cs_3224_operating_system.Base.{
  ℕ, zero, suc, ◌+◌, Bool, true, false, not, ◌&&◌, Option, none, some, List, [], ◌∷◌, ◌++◌,
  if◌then◌else◌, ◌==◌, leb, length, take,
}

abbrev pub dirsiz : ℕ
dirsiz = 14

-- `while (*path == '/') path++;`
unfoldable pub skip_slashes : List ℕ → List ℕ
skip_slashes [] = []
skip_slashes (c ∷ cs) = let rest = skip_slashes cs in if c == b'/' then rest else c ∷ cs

-- `while (*path != '/' && *path != 0) path++;`: the bytes that it passes, and the rest.
unfoldable pub cut_elem : List ℕ → List ℕ × List ℕ
cut_elem [] = ([], [])
cut_elem (c ∷ cs) = let (e, rest) = cut_elem cs in if c == b'/' then ([], c ∷ cs) else (c ∷ e, rest)

-- The bytes of `name` that namecmp reads.
unfoldable pub copy_name : List ℕ → List ℕ
copy_name e = if leb dirsiz (length e) then take dirsiz e else e

-- What is left of the path, and the name.
unfoldable pub skipelem : List ℕ → Option (List ℕ × List ℕ)
unfolding skip_slashes cut_elem copy_name
skipelem path = elim (skip_slashes path) [
  | [] ↦ none
  | c ∷ cs ↦ let (e, rest) = cut_elem (c ∷ cs) in some (skip_slashes rest, copy_name e)
]

-- Whether an inode is a directory, and `dirlookup` in it.
pub record Directories : Type 0 where
  pub is_dir : ℕ → Bool
  pub dirlookup : ℕ → List ℕ → Option ℕ

-- The calls of namex that take a reference to an inode, or drop one, or lock it.
pub data Call : Type 0 where
  get put lock unlock : ℕ → Call

-- What namex returns, the bytes in `name`, and the calls in their order.
pub record Found : Type 0 where
  pub inode : Option ℕ
  pub name : List ℕ
  pub calls : List Call

-- The calls before those of the rest of the walk.
abbrev pub after_calls : List Call → Option Found → Option Found
after_calls cs o = elim o [ none ↦ none | some w ↦ some (record w { calls = cs ++ w.calls }) ]

abbrev pub is_end : List ℕ → Bool
is_end path = elim path [ [] ↦ true | _ ∷ _ ↦ false ]

-- The call iunlockput, and ilock before it.
abbrev pub left_calls : ℕ → List Call
left_calls ip = Call.lock ip ∷ Call.unlock ip ∷ Call.put ip ∷ []

-- dirlookup returns its inode with a reference.
abbrev pub next_calls : ℕ → ℕ → List Call
next_calls ip next = Call.lock ip ∷ Call.get next ∷ Call.unlock ip ∷ Call.put ip ∷ []

module _ (dirs : Directories) (parent : Bool) where
  -- The loop of `namex` and what follows it, on fuel.
  unfoldable pub namex_loop : ℕ → (path : List ℕ) → (ip : ℕ) → (name : List ℕ) → Option Found
  unfolding skipelem
  namex_loop zero path ip name = none
  namex_loop (suc rounds) path ip name = elim (skipelem path) [
    | none ↦ some (
        if parent
        then record { inode = none; name = name; calls = Call.put ip ∷ [] }
        else record { inode = some ip; name = name; calls = [] })
    | some (rest, elem) ↦
        let left : Option Found =
          some (record { inode = none; name = elem; calls = left_calls ip }) in
        let stop : Option Found =
          some
            (record { inode = some ip; name = elem; calls = Call.lock ip ∷ Call.unlock ip ∷ [] }) in
        let go_on : Option Found = elim (dirs.dirlookup ip elem) [
          | none ↦ left
          | some next ↦ after_calls (next_calls ip next) (namex_loop rounds rest next elem)
        ] in
        if not (dirs.is_dir ip) then left else (if parent && is_end rest then stop else go_on)
  ]

  -- `root` is the inode ROOTINO of ROOTDEV, and `cwd` that of the process.
  unfoldable pub namex : (root cwd : ℕ) → List ℕ → Option Found
  unfolding namex_loop
  namex root cwd path =
      let ip : ℕ = elim path [ [] ↦ cwd | c ∷ _ ↦ if c == b'/' then root else cwd ] in
      after_calls (Call.get ip ∷ []) (namex_loop (length path + 1) path ip [])

unfoldable pub namei : Directories → (root cwd : ℕ) → List ℕ → Option Found
unfolding namex
namei dirs root cwd path = namex dirs false root cwd path

unfoldable pub nameiparent : Directories → (root cwd : ℕ) → List ℕ → Option Found
unfolding namex
nameiparent dirs root cwd path = namex dirs true root cwd path
