-- ===== src/Path/Tests.antt =====
-- Runs of skipelem and namex of kernel/fs.c, and the theorems at concrete inputs.
use cs_3224_operating_system.Base.{
  arith, replicate, ℕ, ◌+◌, ◌≡◌, refl, ◌≢◌, true, Option, none, some, List, [], ◌∷◌, ◌==◌, ltb,
  ◌&&◌, if◌then◌else◌, length,
}
use cs_3224_operating_system.Path.{
  skip_slashes, cut_elem, copy_name, skipelem, Directories, Call, namex_loop, namex, namei,
  nameiparent,
}
use cs_3224_operating_system.Path.Elements.{fields, nonempty, elements}
use cs_3224_operating_system.Path.Walk.{Returns, walk, start_of, parent_of}
use cs_3224_operating_system.Path.Names.{in_parent, namei-walk, nameiparent-namei}
use cs_3224_operating_system.Kstring.Strings.{
  strncmp, strncmp_from, strncpy, strncpy_from, zero_fill,
}
use cs_3224_operating_system.Path.Directory.{
  Dirent, namecmp_zero, lookup_loop, dirlookup, link_loop, dirlink, directories,
}
use cs_3224_operating_system.Path.Link.{inode_of, HasNames, dirlink-dirlookup}
use cs_3224_operating_system.Path.Calls.{count, gets, puts, locks, unlocks, returned, namex-count}

-- Inodes 1 and 2 are directories; "bb" in 1 is 2, and "c" in 2 is 3.
abbrev find : ℕ → List ℕ → Option ℕ
find ip name =
    if (ip == 1) && (length name == 2)
    then some 2
    else if (ip == 2) && (length name == 1)
    then some 3
    else none

abbrev dirs : Directories
dirs = record { is_dir = λ ip. ltb ip 3; dirlookup = find }

-- "//bb/c/"
abbrev path : List ℕ
path = b'/' ∷ b'/' ∷ b'b' ∷ b'b' ∷ b'/' ∷ b'c' ∷ b'/' ∷ []

first_elem : skipelem path ≡ some (b'c' ∷ b'/' ∷ [], b'b' ∷ b'b' ∷ [])
unfolding skipelem skip_slashes cut_elem copy_name
first_elem = refl

no_elem : skipelem (b'/' ∷ b'/' ∷ []) ≡ none
unfolding skipelem skip_slashes cut_elem copy_name
no_elem = refl

whole_walk :
    namei dirs 1 9 path
    ≡ some (record {
      inode = some 3;
      name = b'c' ∷ [];
      calls =
          Call.get 1
          ∷ Call.lock 1
          ∷ Call.get 2
          ∷ Call.unlock 1
          ∷ Call.put 1
          ∷ Call.lock 2
          ∷ Call.get 3
          ∷ Call.unlock 2
          ∷ Call.put 2
          ∷ [];
    })
unfolding namei namex namex_loop skipelem skip_slashes cut_elem copy_name
whole_walk = refl

two_names : elements path ≡ (b'b' ∷ b'b' ∷ []) ∷ (b'c' ∷ []) ∷ []
unfolding elements fields nonempty
two_names = refl

some_names : elements path ≢ []
some_names e = let e' = rw two_names at e in absurd (cc)

namei-walk_example :
    Returns (λ w. w.inode ≡ walk dirs (start_of 1 9 path) (elements path)) (namei dirs 1 9 path)
namei-walk_example = namei-walk dirs 1 9 path

nameiparent-namei_example :
    Returns
      (λ w. Returns (λ v. v.inode ≡ in_parent dirs (parent_of w)) (namei dirs 1 9 path))
      (nameiparent dirs 1 9 path)
nameiparent-namei_example = nameiparent-namei dirs 1 9 path some_names

namex-count_example :
    Returns
      (λ w.
        (count (gets 2) w.calls ≡ count (puts 2) w.calls + returned w.inode 2)
        × (count (locks 2) w.calls ≡ count (unlocks 2) w.calls))
      (namex dirs true 1 9 path)
namex-count_example = namex-count dirs true 1 9 path 2

-- The name "b", and an entry that has it.
abbrev name_b : List ℕ
name_b = b'b' ∷ []

abbrev fresh : Dirent
fresh = record { inum = 0; name_of = replicate 14 0 }

abbrev entry_b : Dirent
entry_b = record { inum = 5; name_of = b'b' ∷ replicate 13 0 }

abbrev entries : List Dirent
entries = entry_b ∷ fresh ∷ []

-- "c" takes the free entry.
abbrev linked : List Dirent
linked = entry_b ∷ record { inum = 7; name_of = b'c' ∷ replicate 13 0 } ∷ []

linked_ok : dirlink fresh entries (b'c' ∷ []) 7 ≡ some linked
unfolding dirlink dirlookup lookup_loop link_loop namecmp_zero strncmp strncmp_from strncpy
    strncpy_from zero_fill
linked_ok = refl

name_taken : dirlink fresh entries name_b 7 ≡ none
unfolding dirlink dirlookup lookup_loop link_loop namecmp_zero strncmp strncmp_from strncpy
    strncpy_from zero_fill
name_taken = refl

entries-HasNames : HasNames entries
unfolding HasNames
entries-HasNames = (refl, (refl, tt))

dirlink-dirlookup_example :
    inode_of (dirlookup linked name_b)
    ≡ (if namecmp_zero name_b (b'c' ∷ []) then some 7 else inode_of (dirlookup entries name_b))
dirlink-dirlookup_example =
    dirlink-dirlookup fresh entries linked (b'c' ∷ []) name_b 7 refl entries-HasNames (omega arith)
      (omega arith) linked_ok

-- A walk through the entries of a directory.
entries_walk :
    (elim (namei (directories (λ ip. ip == 1) (λ ip. entries)) 1 1 name_b) as (λ x. Option ℕ) [
      | none ↦ none
      | some w ↦ w.inode
    ])
    ≡ some 5
unfolding namei namex namex_loop skipelem skip_slashes cut_elem copy_name directories dirlookup
    lookup_loop namecmp_zero strncmp strncmp_from
entries_walk = refl
