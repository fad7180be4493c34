-- ===== src/Proc/Random.antt =====
-- `get_random` of kernel/proc.c in homework-3-lottery-scheduling: a table of numbers that turns
-- round by one entry at each call.
use cs_3224_operating_system.Base.{
  ℕ, zero, suc, ◌+◌, ◌-◌, ◌≡◌, refl, ◌∙◌, ap, sym, List, [], ◌∷◌, ◌++◌, arith, length, get_or, set,
  length-append, set-append_at,
}
use mathlib.Core.List.{append-nil, append_assoc}

-- `for (i = 0; i < 255; i++) random_int[i] = random_int[i + 1];`, with the rounds left
unfoldable pub turn_loop : ℕ → ℕ → List ℕ → List ℕ
turn_loop zero i xs = xs
turn_loop (suc rounds) i xs = turn_loop rounds (i + 1) (set xs i (get_or xs (i + 1) 0))

-- The number returned, and the table after the call. The source's table has 256 entries; the last
-- index is `length - 1`.
unfoldable pub get_random : List ℕ → ℕ × List ℕ
unfolding turn_loop
get_random xs =
    let last = length xs - 1 in (get_or xs 0 0, set (turn_loop last 0 xs) last (get_or xs 0 0))

-- `n` calls in a row: the numbers, and the table after them.
unfoldable pub draws : ℕ → List ℕ → List ℕ × List ℕ
draws zero xs = ([], xs)
draws (suc n) xs = let (r, xs') = get_random xs in let (rs, end) = draws n xs' in (r ∷ rs, end)

-- Turning moves the entries after `front` one place down.
get_or-append_next :
    (front : List ℕ) (x y : ℕ) (back : List ℕ)
    → get_or (front ++ (x ∷ (y ∷ back))) (length front + 1) 0 ≡ y
get_or-append_next [] x y back = refl
get_or-append_next (z ∷ front) x y back =
    let e : suc (length front) + 1 ≡ suc (length front + 1) = omega arith in
    rw e (get_or-append_next front x y back)

turn_loop-front :
    (front : List ℕ) (x : ℕ) (back : List ℕ)
    → (d : ℕ) × (turn_loop (length back) (length front) (front ++ (x ∷ back))
        ≡ (front ++ back) ++ (d ∷ []))
unfolding turn_loop
turn_loop-front front x [] = (x, rw append-nil)
turn_loop-front front x (y ∷ back) =
    let front' = front ++ (y ∷ []) in
    let (d, ih) = turn_loop-front front' y back in
    let next : length front + 1 ≡ length front' = omega (arith, length-append front (y ∷ [])) in
    let read : get_or (front ++ (x ∷ (y ∷ back))) (length front + 1) 0 ≡ y =
      get_or-append_next front x y back in
    let written : set (front ++ (x ∷ (y ∷ back))) (length front) y ≡ front' ++ (y ∷ back) =
      set-append_at front (y ∷ back) x y ∙ sym (append_assoc front (y ∷ []) (y ∷ back)) in
    (
      d,
      ap
            (λ v.
              turn_loop (length back) (length front + 1)
                (set (front ++ (x ∷ (y ∷ back))) (length front) v))
            read
          ∙ ap (turn_loop (length back) (length front + 1)) written
          ∙ ap (λ i. turn_loop (length back) i (front' ++ (y ∷ back))) next
          ∙ ih
          ∙ ap (λ l. l ++ (d ∷ [])) (append_assoc front (y ∷ []) back),
    )

-- A call returns the first number and moves it to the end.
pub get_random-cons : (x : ℕ) (xs : List ℕ) → get_random (x ∷ xs) ≡ (x, xs ++ (x ∷ []))
unfolding get_random
get_random-cons x xs =
    let (d, e) = turn_loop-front [] x xs in
    let last : suc (length xs) - 1 ≡ length xs = omega arith in
    ap (λ l. (x, l))
      (ap (λ i. set (turn_loop i 0 (x ∷ xs)) i x) last
        ∙ ap (λ l. set l (length xs) x) e
        ∙ set-append_at xs [] d x)

draws-append : (xs ys : List ℕ) → draws (length xs) (xs ++ ys) ≡ (xs, ys ++ xs)
unfolding draws
draws-append [] ys = rw append-nil
draws-append (x ∷ xs) ys =
    rw (get_random-cons x (xs ++ ys), append_assoc xs ys (x ∷ []), draws-append xs (ys ++ (x ∷ [])))
      (ap (λ l. (x ∷ xs, l)) (append_assoc ys (x ∷ []) xs))

-- As many calls as the table has entries return each entry once, in order, and leave the table as
-- it was.
pub draws_cycle : (xs : List ℕ) → draws (length xs) xs ≡ (xs, xs)
draws_cycle xs = let e = draws-append xs [] in ap (draws (length xs)) (sym (append-nil xs)) ∙ e
