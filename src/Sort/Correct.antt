-- ===== src/Sort/Correct.antt =====
-- `insertionSort` of homework-1-sort/user/sort.c sorts: its result is ascending and has the same
-- elements. The sorted part of the array is seen from its right end, as the inner loop walks it.
use cs_3224_operating_system.Base.{
  ℕ, suc, ◌+◌, ◌-◌, ◌≤◌, ◌≡◌, refl, ◌∙◌, ap, List, [], ◌∷◌, ◌++◌, arith, if◌then◌else◌, ltb, length,
  get_or, set, Bool-cases, inl, inr,
}
use mathlib.Core.List.{reverse_aux, reverse_aux-eq, reverse_perm, append-nil, Perm, perm_middle}
use mathlib.Core.List.Perm
use cs_3224_operating_system.Sort.Insertion.{shift, sort_loop, insertion_sort}

-- Insertion into a descending list.
insert_desc : ℕ → List ℕ → List ℕ
insert_desc tmp [] = tmp ∷ []
insert_desc tmp (x ∷ rs) = if ltb tmp x then x ∷ insert_desc tmp rs else tmp ∷ x ∷ rs

-- The elements of `ys` inserted one after the other.
insert_all : List ℕ → List ℕ → List ℕ
insert_all rs [] = rs
insert_all rs (y ∷ ys) = insert_all (insert_desc y rs) ys

length-insert_desc : (tmp : ℕ) (rs : List ℕ) → length (insert_desc tmp rs) ≡ suc (length rs)
unfolding insert_desc
length-insert_desc tmp [] = refl
length-insert_desc tmp (x ∷ rs) = ground (arith, length-insert_desc tmp rs)

-- `reverse_aux rs ys` is the array with `rs` before `ys`, the end of `rs` first.
get_or-reverse_aux :
    (rs ys : List ℕ) (i : ℕ) → get_or (reverse_aux rs ys) (length rs + i) 0 ≡ get_or ys i 0
get_or-reverse_aux [] ys i = let e : 0 + i ≡ i = omega arith in rw e
get_or-reverse_aux (x ∷ rs) ys i =
    let e : suc (length rs) + i ≡ length rs + suc i = omega arith in
    rw e (get_or-reverse_aux rs (x ∷ ys) (suc i))

set-reverse_aux :
    (rs ys : List ℕ) (i v : ℕ)
    → set (reverse_aux rs ys) (length rs + i) v ≡ reverse_aux rs (set ys i v)
set-reverse_aux [] ys i v = let e : 0 + i ≡ i = omega arith in rw e
set-reverse_aux (x ∷ rs) ys i v =
    let e : suc (length rs) + i ≡ length rs + suc i = omega arith in
    rw e (set-reverse_aux rs (x ∷ ys) (suc i) v)

get_or-here : (rs ys : List ℕ) (y : ℕ) → get_or (reverse_aux rs (y ∷ ys)) (length rs) 0 ≡ y
get_or-here rs ys y =
    let e : length rs ≡ length rs + 0 = omega arith in
    let at_zero = get_or-reverse_aux rs (y ∷ ys) 0 in rw (← e) at at_zero

set-here :
    (rs ys : List ℕ) (y v : ℕ)
    → set (reverse_aux rs (y ∷ ys)) (length rs) v ≡ reverse_aux rs (v ∷ ys)
set-here rs ys y v =
    let e : length rs ≡ length rs + 0 = omega arith in
    let at_zero = set-reverse_aux rs (y ∷ ys) 0 v in rw (← e) at at_zero

set-next :
    (rs ys : List ℕ) (x d v : ℕ)
    → set (reverse_aux rs (x ∷ d ∷ ys)) (suc (length rs)) v ≡ reverse_aux rs (x ∷ v ∷ ys)
set-next rs ys x d v =
    let e : suc (length rs) ≡ length rs + 1 = omega arith in
    rw e (set-reverse_aux rs (x ∷ d ∷ ys) 1 v)

-- The inner loop puts `tmp` where it belongs in the sorted part.
shift-insert_desc :
    (rs ys : List ℕ) (tmp d : ℕ)
    → shift (length rs) tmp (reverse_aux rs (d ∷ ys)) ≡ reverse_aux (insert_desc tmp rs) ys
unfolding shift insert_desc
shift-insert_desc [] ys tmp d = refl
shift-insert_desc (x ∷ rs) ys tmp d = elim (Bool-cases (ltb tmp x)) [
  | inl above ↦
      rw (get_or-here rs (d ∷ ys) x, set-next rs ys x d x, above)
        (shift-insert_desc rs (x ∷ ys) tmp x)
  | inr below ↦ rw (get_or-here rs (d ∷ ys) x, set-next rs ys x d tmp, below) refl
]

sort_loop-insert_all :
    (rs ys zs : List ℕ)
    → sort_loop (length ys) (length rs) (reverse_aux rs (ys ++ zs))
      ≡ reverse_aux (insert_all rs ys) zs
unfolding sort_loop insert_all
sort_loop-insert_all rs [] zs = refl
sort_loop-insert_all rs (y ∷ ys) zs =
    let e : length rs + 1 ≡ length (insert_desc y rs) = omega (arith, length-insert_desc y rs) in
    let arr = reverse_aux rs (y ∷ (ys ++ zs)) in
    ap (λ v. sort_loop (length ys) (length rs + 1) (shift (length rs) v arr))
      (get_or-here rs (ys ++ zs) y)
    ∙ ap (sort_loop (length ys) (length rs + 1)) (shift-insert_desc rs (ys ++ zs) y y)
    ∙ ap (λ i. sort_loop (length ys) i (reverse_aux (insert_desc y rs) (ys ++ zs))) e
    ∙ sort_loop-insert_all (insert_desc y rs) ys zs

abbrev LeHead : ℕ → List ℕ → Type 0
LeHead x [] = Unit
LeHead x (y ∷ _) = x ≤ y

-- Each element is at most the next.
abbrev pub IsSorted : List ℕ → Type 0
IsSorted [] = Unit
IsSorted (x ∷ xs) = LeHead x xs × IsSorted xs

abbrev GeHead : ℕ → List ℕ → Type 0
GeHead x [] = Unit
GeHead x (y ∷ _) = y ≤ x

abbrev IsDescending : List ℕ → Type 0
IsDescending [] = Unit
IsDescending (x ∷ xs) = GeHead x xs × IsDescending xs

GeHead-insert_desc :
    (x tmp : ℕ) (rs : List ℕ) → GeHead x rs → tmp ≤ x → GeHead x (insert_desc tmp rs)
unfolding insert_desc
GeHead-insert_desc x tmp [] h le = le
GeHead-insert_desc x tmp (y ∷ rs) h le = elim (Bool-cases (ltb tmp y)) [
  | inl above ↦ rw above h
  | inr below ↦ rw below le
]

insert_desc-IsDescending :
    (tmp : ℕ) (rs : List ℕ) → IsDescending rs → IsDescending (insert_desc tmp rs)
unfolding insert_desc
insert_desc-IsDescending tmp [] h = (tt, tt)
insert_desc-IsDescending tmp (x ∷ rs) h = elim (Bool-cases (ltb tmp x)) [
  | inl above ↦
      rw above (GeHead-insert_desc x tmp rs h.0 (ground arith), insert_desc-IsDescending tmp rs h.1)
  | inr below ↦ rw below (ground arith, h)
]

insert_all-IsDescending : (rs ys : List ℕ) → IsDescending rs → IsDescending (insert_all rs ys)
unfolding insert_all
insert_all-IsDescending rs [] h = h
insert_all-IsDescending rs (y ∷ ys) h =
    insert_all-IsDescending (insert_desc y rs) ys (insert_desc-IsDescending y rs h)

abbrev Meets : List ℕ → List ℕ → Type 0
Meets [] zs = Unit
Meets (x ∷ _) zs = LeHead x zs

Meets-nil : (rs : List ℕ) → Meets rs []
Meets-nil [] = tt
Meets-nil (x ∷ rs) = tt

reverse_aux-IsSorted :
    (rs zs : List ℕ) → IsDescending rs → IsSorted zs → Meets rs zs → IsSorted (reverse_aux rs zs)
reverse_aux-IsSorted [] zs d s m = s
reverse_aux-IsSorted (x ∷ []) zs d s m = (m, s)
reverse_aux-IsSorted (x ∷ y ∷ rs) zs d s m = reverse_aux-IsSorted (y ∷ rs) (x ∷ zs) d.1 (m, s) d.0

insert_desc-perm : (tmp : ℕ) (rs : List ℕ) → Perm (insert_desc tmp rs) (tmp ∷ rs)
unfolding insert_desc
insert_desc-perm tmp [] = Perm.refl _
insert_desc-perm tmp (x ∷ rs) = elim (Bool-cases (ltb tmp x)) [
  | inl above ↦ rw above (Perm.trans (Perm.cons x (insert_desc-perm tmp rs)) (Perm.swap tmp x rs))
  | inr below ↦ rw below (Perm.refl _)
]

insert_all-perm : (rs ys : List ℕ) → Perm (insert_all rs ys) (rs ++ ys)
unfolding insert_all
insert_all-perm rs [] = rw append-nil (Perm.refl rs)
insert_all-perm rs (y ∷ ys) = Perm.trans (insert_all-perm (insert_desc y rs) ys) (
    Perm.trans (Perm.append (insert_desc-perm y rs) (Perm.refl ys)) (Perm.symm (perm_middle rs ys)))

-- What the sort leaves in the part of the array that it sorts.
abbrev sorted : List ℕ → List ℕ
sorted xs = reverse_aux (insert_all [] xs) []

insertion_sort-eq :
    (xs zs : List ℕ) → insertion_sort (xs ++ zs) (length xs) ≡ reverse_aux (insert_all [] xs) zs
unfolding insertion_sort insert_all sort_loop insert_desc
insertion_sort-eq [] zs = refl
insertion_sort-eq (x ∷ xs) zs =
    let e : suc (length xs) - 1 ≡ length xs = omega arith in
    rw e (sort_loop-insert_all (x ∷ []) xs zs)

-- Sorting the first `length xs` elements of an array leaves them a permutation in ascending order,
-- and does not touch the rest.
pub insertion_sort_correct :
    (xs zs : List ℕ)
    → (ys : List ℕ) × (insertion_sort (xs ++ zs) (length xs) ≡ ys ++ zs) × IsSorted ys × Perm ys xs
insertion_sort_correct xs zs = (
  sorted xs,
  insertion_sort-eq xs zs ∙ reverse_aux-eq (insert_all [] xs) zs,
  reverse_aux-IsSorted (insert_all [] xs) [] (insert_all-IsDescending [] xs tt) tt
      (Meets-nil (insert_all [] xs)),
  Perm.trans (reverse_perm (insert_all [] xs)) (insert_all-perm [] xs),
)
