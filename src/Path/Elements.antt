-- ===== src/Path/Elements.antt =====
-- The elements of a path: skipelem of kernel/fs.c takes them off one by one.
use cs_3224_operating_system.Base.{
  ℕ, zero, suc, ◌≤◌, ◌<◌, ◌≡◌, refl, ◌∙◌, sym, ap, subst, inl, inr, Bool, false, Option, none, some,
  List, [], ◌∷◌, map, arith, if◌then◌else◌, ◌==◌, leb, length, take, Bool-cases,
}
use cs_3224_operating_system.Path.{dirsiz, skip_slashes, cut_elem, copy_name, skipelem}

abbrev cons_head : ℕ → List (List ℕ) → List (List ℕ)
cons_head c [] = (c ∷ []) ∷ []
cons_head c (f ∷ fs) = (c ∷ f) ∷ fs

-- The parts of a path between its slashes.
unfoldable pub fields : List ℕ → List (List ℕ)
fields [] = [] ∷ []
fields (c ∷ cs) = if c == b'/' then [] ∷ fields cs else cons_head c (fields cs)

-- Those that are not empty.
unfoldable pub nonempty : List (List ℕ) → List (List ℕ)
nonempty [] = []
nonempty ([] ∷ fs) = nonempty fs
nonempty ((c ∷ cs) ∷ fs) = (c ∷ cs) ∷ nonempty fs

-- The names of a path, cut to what a directory entry has room for.
unfoldable pub elements : List ℕ → List (List ℕ)
unfolding fields nonempty
elements path = map (take dirsiz) (nonempty (fields path))

-- The fields that follow the first one.
abbrev after_first : List ℕ → List (List ℕ)
after_first [] = []
after_first (c ∷ cs) = fields cs

fields-cut_elem : (p : List ℕ) → fields p ≡ (cut_elem p).0 ∷ after_first (cut_elem p).1
unfolding fields cut_elem
fields-cut_elem [] = refl
fields-cut_elem (c ∷ cs) = elim (Bool-cases (c == b'/')) [
  | inl e ↦ rw e refl
  | inr e ↦ rw e (ap (cons_head c) (fields-cut_elem cs))
]

-- The rest of a cut is empty or starts with a slash.
nonempty-rest :
    (p : List ℕ) → nonempty (fields (cut_elem p).1) ≡ nonempty (after_first (cut_elem p).1)
unfolding fields cut_elem nonempty
nonempty-rest [] = refl
nonempty-rest (c ∷ cs) = elim (Bool-cases (c == b'/')) [
  | inl e ↦ rw e (ap (λ t. nonempty (if t then [] ∷ fields cs else cons_head c (fields cs))) e)
  | inr e ↦ rw e (nonempty-rest cs)
]

elements-skip_slashes : (p : List ℕ) → elements (skip_slashes p) ≡ elements p
unfolding elements skip_slashes
elements-skip_slashes [] = refl
elements-skip_slashes (c ∷ cs) = elim (Bool-cases (c == b'/')) [
  | inl e ↦ rw e (elements-skip_slashes cs)
  | inr e ↦ rw e (
      ap (λ t. map (take dirsiz) (nonempty (if t then [] ∷ fields cs else cons_head c (fields cs))))
        e)
]

take_short : (n : ℕ) (xs : List ℕ) → length xs ≤ n → take n xs ≡ xs
take_short zero [] h = refl
take_short (suc n) [] h = refl
take_short zero (x ∷ xs) h = absurd (omega arith)
take_short (suc n) (x ∷ xs) h = ap (λ l. x ∷ l) (take_short n xs (omega arith))

copy_name-take : (e : List ℕ) → copy_name e ≡ take dirsiz e
unfolding copy_name
copy_name-take e = elim (Bool-cases (leb dirsiz (length e))) [
  | inl h ↦ rw h refl
  | inr h ↦ rw h (sym (take_short dirsiz e (ground arith)))
]

length-skip_slashes : (p : List ℕ) → length (skip_slashes p) ≤ length p
unfolding skip_slashes
length-skip_slashes [] = omega arith
length-skip_slashes (c ∷ cs) = elim (Bool-cases (c == b'/')) [
  | inl e ↦ rw e (omega (arith, length-skip_slashes cs))
  | inr e ↦ rw e (omega arith)
]

length-cut_elem : (p : List ℕ) → length (cut_elem p).1 ≤ length p
unfolding cut_elem
length-cut_elem [] = omega arith
length-cut_elem (c ∷ cs) = elim (Bool-cases (c == b'/')) [
  | inl e ↦ rw e (omega arith)
  | inr e ↦ rw e (omega (arith, length-cut_elem cs))
]

-- A list that starts with no slash.
unfoldable pub NoSlash : List ℕ → Type 0
NoSlash [] = Unit
NoSlash (c ∷ cs) = (c == b'/') ≡ false

skip_slashes-NoSlash : (p : List ℕ) → NoSlash (skip_slashes p)
unfolding skip_slashes NoSlash
skip_slashes-NoSlash [] = tt
skip_slashes-NoSlash (c ∷ cs) = elim (Bool-cases (c == b'/')) [
  | inl e ↦ rw e (skip_slashes-NoSlash cs)
  | inr e ↦ rw e e
]

-- One round of the walk: the path has no elements left, or its first element is the name, and the
-- others those of a shorter rest, which is empty only where there are none.
pub data Step (path : List ℕ) : Option (List ℕ × List ℕ) → Type 0 where
  done : elements path ≡ [] → Step path none
  elem :
      {rest name : List ℕ}
      → elements path ≡ name ∷ elements rest
      → length rest < length path
      → NoSlash rest
      → Step path (some (rest, name))

elements-NoSlash :
    (c : ℕ) (cs : List ℕ)
    → (c == b'/') ≡ false
    → elements (c ∷ cs) ≡ copy_name (c ∷ (cut_elem cs).0) ∷ elements (skip_slashes (cut_elem cs).1)
unfolding elements fields nonempty
elements-NoSlash c cs e =
    rw (e, fields-cut_elem cs)
      (ap (λ x. x ∷ map (take dirsiz) (nonempty (after_first (cut_elem cs).1)))
          (sym (copy_name-take (c ∷ (cut_elem cs).0)))
        ∙ ap (λ x. copy_name (c ∷ (cut_elem cs).0) ∷ x)
            (ap (map (take dirsiz)) (sym (nonempty-rest cs))
              ∙ sym (elements-skip_slashes (cut_elem cs).1)))

pub skipelem-Step : (path : List ℕ) → Step path (skipelem path)
unfolding skipelem cut_elem elements fields nonempty NoSlash
skipelem-Step path =
    go (skip_slashes path) (elements-skip_slashes path) (length-skip_slashes path)
      (skip_slashes-NoSlash path)
  where
    cut_at : ℕ → List ℕ → Bool → List ℕ × List ℕ
    cut_at c cs t = if t then ([], c ∷ cs) else (c ∷ (cut_elem cs).0, (cut_elem cs).1)

    go :
        (p : List ℕ)
        → elements p ≡ elements path
        → length p ≤ length path
        → NoSlash p
        → Step path (elim p as (λ x. Option (List ℕ × List ℕ)) [
          | [] ↦ none
          | c ∷ cs ↦ some (skip_slashes (cut_elem (c ∷ cs)).1, copy_name (cut_elem (c ∷ cs)).0)
        ])
    go [] same short ok = Step.done (sym same)
    go (c ∷ cs) same short ok =
        subst (λ t. Step path (some (skip_slashes (cut_at c cs t).1, copy_name (cut_at c cs t).0)))
          (sym ok)
          (Step.elem (sym same ∙ elements-NoSlash c cs ok)
            (omega (arith, short, length-cut_elem cs, length-skip_slashes (cut_elem cs).1))
            (skip_slashes-NoSlash (cut_elem cs).1))

-- A rest of `skipelem` is empty only where no names are left.
pub elements-end : (rest : List ℕ) → NoSlash rest → elements rest ≡ [] → rest ≡ []
unfolding elements fields nonempty NoSlash
elements-end [] ok e = refl
elements-end (c ∷ cs) ok e = let e' = sym (elements-NoSlash c cs ok) ∙ e in absurd (cc)
