-- ===== src/Path/Link.antt =====
-- dirlink of kernel/fs.c enters a name, and dirlookup finds it and the others.
use cs_3224_operating_system.Base.{
  ℕ, ◌+◌, ◌%◌, ◌^◌, ◌<◌, ◌≡◌, refl, ◌∙◌, sym, subst, inl, inr, false, Option, none, some, some_inj,
  List, [], ◌∷◌, arith, if◌then◌else◌, ◌==◌, length, Bool-cases,
}
use cs_3224_operating_system.Kstring.Strings.{strncpy}
use cs_3224_operating_system.Path.{dirsiz}
use cs_3224_operating_system.Path.SameName.{namecmp_zero-same, copied}
use cs_3224_operating_system.Path.Directory.{
  Dirent, bytes_of, namecmp_zero, lookup_loop, dirlookup, link_loop, dirlink,
}

-- The number of the inode that `dirlookup` finds.
abbrev pub inode_of : Option (ℕ × ℕ) → Option ℕ
inode_of o = elim o [ none ↦ none | some (inum, i) ↦ some inum ]

-- Every entry has a name of DIRSIZ bytes.
unfoldable pub HasNames : List Dirent → Type 0
HasNames [] = Unit
HasNames (de ∷ des) = (length de.name_of ≡ dirsiz) × HasNames des

-- A new entry in front.
new_entry :
    (name q dst : List ℕ) (inum i : ℕ) (des : List Dirent)
    → 0 < inum
    → inum < 2 ^ 16
    → length dst ≡ dirsiz
    → inode_of (
        lookup_loop q i
          (record { inum = inum % 2 ^ 16; name_of = strncpy dst (bytes_of name) dirsiz } ∷ des))
      ≡ (if namecmp_zero q name then some inum else inode_of (lookup_loop q (i + 1) des))
unfolding lookup_loop
new_entry name q dst inum i des pos small len =
    let word : inum % 2 ^ 16 ≡ inum = omega arith in
    let used : (inum == 0) ≡ false = ground arith in
    rw (word, used, copied q name dst len)
      (elim (Bool-cases (namecmp_zero q name)) [ inl e ↦ rw e refl | inr e ↦ rw e refl ])

-- What the new entry adds, in front of entries without the name or at the end.
link_loop-lookup :
    (name q : List ℕ) (inum i : ℕ) (last : Dirent) (des : List Dirent)
    → 0 < inum
    → inum < 2 ^ 16
    → length last.name_of ≡ dirsiz
    → HasNames des
    → lookup_loop name i des ≡ none
    → inode_of (lookup_loop q i (link_loop name inum last des))
      ≡ (if namecmp_zero q name then some inum else inode_of (lookup_loop q i des))
unfolding lookup_loop link_loop HasNames
link_loop-lookup name q inum i last [] pos small len names absent =
    new_entry name q last.name_of inum i [] pos small len
link_loop-lookup name q inum i last (de ∷ des) pos small len names absent =
    elim (Bool-cases (de.inum == 0)) [
      | inl free ↦ rw free (new_entry name q de.name_of inum i des pos small names.0)
      | inr used ↦ elim (Bool-cases (namecmp_zero name de.name_of)) [
        | inl found ↦ let absent' = rw (used, found) at absent in absurd (cc)
        | inr other ↦
            let below : lookup_loop name (i + 1) des ≡ none = rw (used, other) at absent in
            rw used (elim (Bool-cases (namecmp_zero q de.name_of)) [
              | inl here ↦
                  let differs : namecmp_zero q name ≡ false =
                    elim (Bool-cases (namecmp_zero q name)) [
                      | inl e ↦
                          let clash = sym (namecmp_zero-same q name de.name_of e ∙ other) ∙ here in
                          absurd (cc)
                      | inr e ↦ e
                    ] in
                  rw (used, here, differs) refl
              | inr past ↦
                  rw (used, past)
                    (link_loop-lookup name q inum (i + 1) de des pos small names.0 names.1 below)
            ])
      ]
    ]

-- Where `dirlink` of a name and an inode number that is not 0 and has 16 bits succeeds, `dirlookup`
-- of a name that namecmp takes for the same finds that inode, and of any other name what it found
-- before.
pub dirlink-dirlookup :
    (fresh : Dirent) (entries linked : List Dirent) (name q : List ℕ) (inum : ℕ)
    → length fresh.name_of ≡ dirsiz
    → HasNames entries
    → 0 < inum
    → inum < 2 ^ 16
    → dirlink fresh entries name inum ≡ some linked
    → inode_of (dirlookup linked q)
      ≡ (if namecmp_zero q name then some inum else inode_of (dirlookup entries q))
unfolding dirlink dirlookup
dirlink-dirlookup fresh entries linked name q inum len names pos small h =
    go (lookup_loop name 0 entries) refl h
  where
    go :
        (o : Option (ℕ × ℕ))
        → lookup_loop name 0 entries ≡ o
        → (elim o as (λ x. Option (List Dirent)) [
          | some _ ↦ none
          | none ↦ some (link_loop name inum fresh entries)
        ])
          ≡ some linked
        → inode_of (lookup_loop q 0 linked)
          ≡ (if namecmp_zero q name then some inum else inode_of (lookup_loop q 0 entries))
    go (some x) e h = absurd (cc)
    go none e h =
        subst
          (λ l.
            inode_of (lookup_loop q 0 l)
            ≡ (if namecmp_zero q name then some inum else inode_of (lookup_loop q 0 entries)))
          (some_inj h) (link_loop-lookup name q inum 0 fresh entries pos small len names e)
