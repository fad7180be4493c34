-- ===== src/Path/Directory.antt =====
-- The directories of kernel/fs.c: namecmp, dirlookup and dirlink. A directory is the list of its
-- entries, which readi and writei read and write whole, at multiples of the size of one. dirlookup
-- panics on an inode that is no directory: its callers have checked the type before.
use cs_3224_operating_system.Base.{
  ℕ, ◌+◌, ◌%◌, ◌^◌, Bool, Option, none, some, List, [], ◌∷◌, if◌then◌else◌, ◌==◌, get_or,
}
use cs_3224_operating_system.Kstring.Strings.{Bytes, strncmp, strncpy}
use cs_3224_operating_system.Path.{dirsiz, Directories}

-- `struct dirent`; the name has DIRSIZ bytes.
pub record Dirent : Type 0 where
  pub inum : ℕ
  pub name_of : List ℕ

-- A string as a pointer to it, with NUL from its end on.
abbrev pub bytes_of : List ℕ → Bytes
bytes_of s i = get_or s i 0

-- Whether `namecmp` returns 0.
unfoldable pub namecmp_zero : List ℕ → List ℕ → Bool
unfolding strncmp
namecmp_zero s t = let (a, b) = strncmp (bytes_of s) (bytes_of t) dirsiz in a == b

-- The loop of `dirlookup` from entry `i` on: the inode number, and the number of the entry.
unfoldable pub lookup_loop : List ℕ → ℕ → List Dirent → Option (ℕ × ℕ)
lookup_loop name i [] = none
lookup_loop name i (de ∷ des) =
    let more = lookup_loop name (i + 1) des in
    if de.inum == 0
    then more
    else (if namecmp_zero name de.name_of then some (de.inum, i) else more)

unfoldable pub dirlookup : List Dirent → List ℕ → Option (ℕ × ℕ)
unfolding lookup_loop
dirlookup entries name = lookup_loop name 0 entries

-- The loop of `dirlink` and the write after it, with `de` as last read: the new entry takes the
-- first place without an inode, or is added at the end.
unfoldable pub link_loop : List ℕ → ℕ → Dirent → List Dirent → List Dirent
link_loop name inum de [] =
    record { inum = inum % 2 ^ 16; name_of = strncpy de.name_of (bytes_of name) dirsiz } ∷ []
link_loop name inum last (de ∷ des) =
    let more = de ∷ link_loop name inum de des in
    if de.inum == 0
    then record { inum = inum % 2 ^ 16; name_of = strncpy de.name_of (bytes_of name) dirsiz } ∷ des
    else more

-- `none` is -1; `fresh` is what `de` holds at the start.
unfoldable pub dirlink : (fresh : Dirent) → List Dirent → List ℕ → ℕ → Option (List Dirent)
unfolding dirlookup link_loop
dirlink fresh entries name inum = elim (dirlookup entries name) [
  | some _ ↦ none
  | none ↦ some (link_loop name inum fresh entries)
]

-- The directories for a walk, by inode number.
unfoldable pub directories : (ℕ → Bool) → (ℕ → List Dirent) → Directories
unfolding dirlookup
directories is_dir entries = record {
  is_dir = is_dir;
  dirlookup =
      λ ip name. elim (dirlookup (entries ip) name) [ none ↦ none | some (inum, i) ↦ some inum ];
}
