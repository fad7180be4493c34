-- ===== src/Path/Names.antt =====
-- What namei and nameiparent of kernel/fs.c find, and the references and locks that they leave.
use cs_3224_operating_system.Base.{
  ℕ, ◌≡◌, refl, ◌≢◌, ◌∙◌, sym, ap, Bool, true, false, Option, none, some, List, [], ◌∷◌,
  if◌then◌else◌,
}
use cs_3224_operating_system.Path.{Directories, Found, is_end, namei, nameiparent}
use cs_3224_operating_system.Path.Elements.{elements, NoSlash, elements-end}
use cs_3224_operating_system.Path.Walk.{
  walk, walk_parent, start_of, parent_of, Returns, Walked, map-Returns, namex-Walked,
}

module _ (dirs : Directories) where
  enter :
      (ip : ℕ) (e : List ℕ) (es : List (List ℕ)) (o : Option ℕ)
      → dirs.is_dir ip ≡ true
      → dirs.dirlookup ip e ≡ o
      → walk dirs ip (e ∷ es)
        ≡ (elim o as (λ x. Option ℕ) [ none ↦ none | some n ↦ walk dirs n es ])
  unfolding walk
  enter ip e es o dir found = rw (dir, found) refl

  barred :
      (ip : ℕ) (e : List ℕ) (es : List (List ℕ))
      → dirs.is_dir ip ≡ false
      → walk dirs ip (e ∷ es) ≡ none
  unfolding walk
  barred ip e es dir = rw dir refl

  Walked-walk :
      {ip : ℕ} {path : List ℕ} {w : Found}
      → Walked dirs false ip path w
      → w.inode ≡ walk dirs ip (elements path)
  unfolding walk
  Walked-walk (Walked.ended {ip} e p) = ap (walk dirs ip) (sym e)
  Walked-walk (Walked.no_parent e p) = absurd (cc)
  Walked-walk (Walked.not_dir {ip} {elem = elem} {es} e dir) =
      sym (ap (walk dirs ip) e ∙ barred ip elem es dir)
  Walked-walk (Walked.stopped rest e dir p) = absurd (cc)
  Walked-walk (Walked.missing {ip} {elem = elem} rest e dir p ok found) =
      sym (ap (walk dirs ip) e ∙ enter ip elem (elements rest) none dir found)
  Walked-walk (Walked.down {ip} {next} {elem = elem} rest e dir p ok found more) =
      Walked-walk more
      ∙ sym (ap (walk dirs ip) e ∙ enter ip elem (elements rest) (some next) dir found)

  -- `namei` ends on every path, and finds what the names of the path lead to, from the root where
  -- the path starts with a slash and from the directory of the process otherwise.
  pub namei-walk :
      (root cwd : ℕ) (path : List ℕ)
      → Returns
          (λ w. w.inode ≡ walk dirs (start_of root cwd path) (elements path))
          (namei dirs root cwd path)
  unfolding namei
  namei-walk root cwd path =
      map-Returns (λ w (calls, walked, e). Walked-walk walked)
        (namex-Walked dirs false root cwd path)

  parent_step :
      (ip : ℕ) (e : List ℕ) (es : List (List ℕ)) (o : Option ℕ)
      → es ≢ []
      → dirs.is_dir ip ≡ true
      → dirs.dirlookup ip e ≡ o
      → walk_parent dirs ip (e ∷ es)
        ≡ (elim o as (λ x. Option (ℕ × List ℕ)) [ none ↦ none | some n ↦ walk_parent dirs n es ])
  unfolding walk_parent
  parent_step ip e [] o ne dir found = absurd (ne refl)
  parent_step ip e (f ∷ fs) o ne dir found = rw (dir, found) refl

  parent_barred :
      (ip : ℕ) (e : List ℕ) (es : List (List ℕ))
      → dirs.is_dir ip ≡ false
      → walk_parent dirs ip (e ∷ es) ≡ none
  unfolding walk_parent
  parent_barred ip e [] dir = rw dir refl
  parent_barred ip e (f ∷ fs) dir = rw dir refl

  parent_last :
      (ip : ℕ) (e rest : List ℕ)
      → dirs.is_dir ip ≡ true
      → is_end rest ≡ true
      → walk_parent dirs ip (e ∷ elements rest) ≡ some (ip, e)
  unfolding walk_parent elements
  parent_last ip e [] dir end = rw dir refl
  parent_last ip e (c ∷ cs) dir end = absurd (cc)

  names_left : (rest : List ℕ) → NoSlash rest → is_end rest ≡ false → elements rest ≢ []
  names_left [] ok more = absurd (cc)
  names_left (c ∷ cs) ok more = λ e. let e' = elements-end (c ∷ cs) ok e in absurd (cc)

  Walked-walk_parent :
      {ip : ℕ} {path : List ℕ} {w : Found}
      → Walked dirs true ip path w
      → parent_of w ≡ walk_parent dirs ip (elements path)
  unfolding walk_parent
  Walked-walk_parent (Walked.ended e p) = absurd (cc)
  Walked-walk_parent (Walked.no_parent {ip} e p) = ap (walk_parent dirs ip) (sym e)
  Walked-walk_parent (Walked.not_dir {ip} {elem = elem} {es} e dir) =
      sym (ap (walk_parent dirs ip) e ∙ parent_barred ip elem es dir)
  Walked-walk_parent (Walked.stopped {ip} {elem = elem} rest e dir p) =
      sym (ap (walk_parent dirs ip) e ∙ parent_last ip elem rest dir p)
  Walked-walk_parent (Walked.missing {ip} {elem = elem} rest e dir p ok found) = sym (
      ap (walk_parent dirs ip) e
      ∙ parent_step ip elem (elements rest) none (names_left rest ok p) dir found)
  Walked-walk_parent (Walked.down {ip} {next} {elem = elem} rest e dir p ok found more) =
      Walked-walk_parent more
      ∙ sym (
          ap (walk_parent dirs ip) e
          ∙ parent_step ip elem (elements rest) (some next) (names_left rest ok p) dir found)

  -- The name looked up in the directory.
  abbrev pub in_parent : Option (ℕ × List ℕ) → Option ℕ
  in_parent o = elim o [ none ↦ none | some (ip, name) ↦ dirs.dirlookup ip name ]

  walk-in_parent :
      (ip : ℕ) (e : List ℕ) (es : List (List ℕ))
      → walk dirs ip (e ∷ es) ≡ in_parent (walk_parent dirs ip (e ∷ es))
  unfolding walk walk_parent
  walk-in_parent ip e [] = go (dirs.is_dir ip)
    where
      same : (o : Option ℕ) → (elim o as (λ x. Option ℕ) [ none ↦ none | some n ↦ some n ]) ≡ o
      same none = refl
      same (some n) = refl

      go :
          (dir : Bool)
          → (if dir
              then elim (dirs.dirlookup ip e) as (λ x. Option ℕ) [ none ↦ none | some n ↦ some n ]
              else none)
            ≡ in_parent (if dir then some (ip, e) else none)
      go false = refl
      go true = same (dirs.dirlookup ip e)
  walk-in_parent ip e (f ∷ fs) =
      go (dirs.is_dir ip) (dirs.dirlookup ip e) (λ n. walk-in_parent n f fs)
    where
      go :
          (dir : Bool) (o : Option ℕ)
          → ((n : ℕ) → walk dirs n (f ∷ fs) ≡ in_parent (walk_parent dirs n (f ∷ fs)))
          → (if dir
              then elim o as (λ x. Option ℕ) [ none ↦ none | some n ↦ walk dirs n (f ∷ fs) ]
              else none)
            ≡ in_parent (
                if dir
                then elim o as (λ x. Option (ℕ × List ℕ)) [
                  | none ↦ none
                  | some n ↦ walk_parent dirs n (f ∷ fs)
                ]
                else none)
      go false o h = refl
      go true none h = refl
      go true (some n) h = h n

  -- `nameiparent` ends on every path with a name: what it finds is the directory and the name in
  -- it where `namei` of the same path looks last; where it finds nothing, `namei` finds nothing.
  pub nameiparent-namei :
      (root cwd : ℕ) (path : List ℕ)
      → elements path ≢ []
      → Returns
          (λ w. Returns (λ v. v.inode ≡ in_parent (parent_of w)) (namei dirs root cwd path))
          (nameiparent dirs root cwd path)
  unfolding nameiparent
  nameiparent-namei root cwd path ne =
      let ip = start_of root cwd path in
      map-Returns
        (λ w (calls, walked, e).
          map-Returns
            (λ v found.
              found ∙ split ip (elements path) ne ∙ ap in_parent (sym (Walked-walk_parent walked)))
            (namei-walk root cwd path))
        (namex-Walked dirs true root cwd path)
    where
      split :
          (ip : ℕ) (es : List (List ℕ))
          → es ≢ []
          → walk dirs ip es ≡ in_parent (walk_parent dirs ip es)
      split ip [] ne = absurd (ne refl)
      split ip (e ∷ es) ne = walk-in_parent ip e es
