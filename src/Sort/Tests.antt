-- ===== src/Sort/Tests.antt =====
-- Runs of `insertionSort` of homework-1-sort/user/sort.c, and its theorem at a concrete input.
use cs_3224_operating_system.Base.{ℕ, ◌≡◌, refl, List, [], ◌∷◌, ◌++◌}
use mathlib.Core.List.{Perm}
use cs_3224_operating_system.Sort.Insertion.{shift, sort_loop, insertion_sort}
use cs_3224_operating_system.Sort.Correct.{IsSorted, insertion_sort_correct}

abbrev numbers : List ℕ
numbers = 3 ∷ 1 ∷ 2 ∷ []

sorted_numbers : insertion_sort (3 ∷ 1 ∷ 2 ∷ 0 ∷ []) 3 ≡ 1 ∷ 2 ∷ 3 ∷ 0 ∷ []
unfolding insertion_sort sort_loop shift
sorted_numbers = refl

insertion_sort_correct_example :
    (ys : List ℕ) × (insertion_sort (3 ∷ 1 ∷ 2 ∷ 0 ∷ []) 3 ≡ ys ++ (0 ∷ []))
    × IsSorted ys
    × Perm ys numbers
insertion_sort_correct_example = insertion_sort_correct numbers (0 ∷ [])
