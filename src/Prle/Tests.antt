-- ===== src/Prle/Tests.antt =====
-- Runs of prle.c, and its theorems at concrete inputs.
use cs_3224_operating_system.Base.{
  if◌then◌else◌, none, Option, length, ◌-◌, ℕ, ◌+◌, ◌≡◌, refl, some, List, [], ◌∷◌, ◌++◌, map,
  replicate, take, drop, arith,
}
use cs_3224_operating_system.Rle.{take_run, compress}
use cs_3224_operating_system.Rle.Runs.{runs}
use cs_3224_operating_system.Prle.{
  fits, prle, threads_for, chunk, run_threads, join_loop, last_loop, go,
}
use cs_3224_operating_system.Prle.Single.{entry_of, prle-runs, go-compress}

-- A stand-in for "%d" below ten.
digit : ℕ → List ℕ
digit n = (n + b'0') ∷ []

-- "aaaaab"
abbrev text : List ℕ
text = b'a' ∷ b'a' ∷ b'a' ∷ b'a' ∷ b'a' ∷ b'b' ∷ []

go-text : go digit text ≡ some (b'5' ∷ b'a' ∷ b'b' ∷ [])
unfolding go digit take_run run_threads threads_for prle chunk join_loop last_loop
go-text = refl

-- Three letters that differ need 32 bytes, and 9 are allocated.
too_small : go digit (b'a' ∷ b'b' ∷ b'c' ∷ []) ≡ none
unfolding go digit take_run run_threads threads_for prle chunk
too_small = refl

-- "aaaabbcc", and six letters four times each: the chunks are of four bytes.
mixed : List ℕ
mixed =
    replicate 4 b'a'
    ++ (b'b' ∷ b'b' ∷ b'c' ∷ b'c' ∷ [])
    ++ (replicate 4 b'd' ++ replicate 4 b'e')
    ++ (replicate 4 b'f' ++ replicate 4 b'g')
    ++ (replicate 4 b'h' ++ replicate 4 b'i')

-- The chunks of four and five bytes have buffers of 16 and 25 bytes: those with one run fit, and
-- "bbcc" with two does not.
mixed_start : go digit mixed ≡ none
unfolding go digit mixed take_run run_threads threads_for prle chunk
mixed_start = refl

-- Eight chunks of eight bytes, each of one letter but the second, "bbbbcccc".
long : List ℕ
long =
    replicate 8 b'a'
    ++ (replicate 4 b'b' ++ replicate 4 b'c')
    ++ (replicate 8 b'd' ++ replicate 8 b'e')
    ++ (replicate 8 b'f' ++ replicate 8 b'g')
    ++ (replicate 8 b'h' ++ replicate 8 b'i')

printed : Option (List ℕ) → List ℕ
printed none = []
printed (some cs) = take 4 cs

-- The counts are those of the second chunk, and the letters are those of the first, which has one
-- run only: "4a" stands for eight bytes, and no 'c' is printed.
long_start : printed (go digit long) ≡ b'4' ∷ b'a' ∷ b'4' ∷ 0 ∷ []
unfolding go digit long take_run printed run_threads threads_for prle chunk join_loop
long_start = refl

prle-runs_example : prle text 0 6 ≡ (
    if fits (6 - 0) (length (runs (take (6 - 0) (drop 0 text))))
    then some (map entry_of (runs (take (6 - 0) (drop 0 text))))
    else none)
prle-runs_example = prle-runs text 0 6

go-compress_example :
    go digit text ≡ (if fits (length text) (length (runs text)) then compress digit text else none)
go-compress_example = go-compress digit text (omega arith)
