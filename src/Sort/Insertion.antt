-- ===== src/Sort/Insertion.antt =====
-- `insertionSort`, `Printing` and `Reverseprint` of homework-1-sort/user/sort.c.
-- The numbers come from `atoi`, which reads no sign, so an element of the array is a number.
use cs_3224_operating_system.Base.{
  ℕ, zero, suc, ◌+◌, ◌-◌, List, [], ◌∷◌, ◌++◌, if◌then◌else◌, ltb, get_or, set,
}

-- `while (j >= 0 && arr[j] > tmp) { arr[j + 1] = arr[j]; j = j - 1; } arr[j + 1] = tmp;`
-- The number is `j + 1`, so that `j = -1` is `zero`.
unfoldable pub shift : ℕ → ℕ → List ℕ → List ℕ
shift zero tmp arr = set arr zero tmp
shift (suc j) tmp arr =
    let moved = shift j tmp (set arr (suc j) (get_or arr j 0)) in
    if ltb tmp (get_or arr j 0) then moved else set arr (suc j) tmp

-- `for (i = 1; i < n; i++)`: the first number counts the rounds left.
unfoldable pub sort_loop : ℕ → ℕ → List ℕ → List ℕ
sort_loop zero i arr = arr
sort_loop (suc rounds) i arr = sort_loop rounds (i + 1) (shift i (get_or arr i 0) arr)

unfoldable pub insertion_sort : List ℕ → ℕ → List ℕ
insertion_sort arr n = sort_loop (n - 1) 1 arr

module _ (decimal : ℕ → List ℕ) where
  -- `for (i = 0; i < n; i++) printf(1, "%d ", arr[i]);`, with the rounds left
  printing_loop : ℕ → ℕ → List ℕ → List ℕ
  printing_loop zero i arr = []
  printing_loop (suc rounds) i arr =
      decimal (get_or arr i 0) ++ (b' ' ∷ printing_loop rounds (i + 1) arr)

  unfoldable pub printing : List ℕ → ℕ → List ℕ
  unfolding printing_loop
  printing arr n = printing_loop n 0 arr ++ (b'\n' ∷ [])

  -- `for (i = n - 1; i >= 0; i--)`: the number is `i + 1`.
  reverse_loop : ℕ → List ℕ → List ℕ
  reverse_loop zero arr = []
  reverse_loop (suc i) arr = decimal (get_or arr i 0) ++ (b' ' ∷ reverse_loop i arr)

  unfoldable pub reverse_print : List ℕ → ℕ → List ℕ
  unfolding reverse_loop
  reverse_print arr n = reverse_loop n arr ++ (b'\n' ∷ [])
