-- ===== src/Prle.antt =====
-- homework-4-run-length-encodinng-RLE/prle.c: the run-length encoder whose threads each encode a
-- chunk of the text, and the loop that joins and prints their results. `printf("%d")` is the
-- parameter `decimal`. `none` is what the program has no defined result for: a write past the buffer of
-- a thread, or an index that wraps. A read past the entries of a thread gives `junk`, the end mark that
-- follows them; no theorem depends on what comes after it.
pub mod Single
mod Tests
use cs_3224_operating_system.Base.{
  leb, ◌^◌, Option, none, some, ℕ, zero, suc, ◌+◌, ◌-◌, ◌*◌, ◌/◌, Bool, true, false, not, ◌&&◌,
  List, [], ◌∷◌, ◌++◌, if◌then◌else◌, ◌==◌, ltb, length, get_or, set, take, drop,
}
use cs_3224_operating_system.Rle.{take_run}

abbrev pub nthreads : ℕ
nthreads = 8

-- INPUT_THRESHOLD, `NTHREADS * 3`
abbrev pub input_threshold : ℕ
input_threshold = nthreads * 3

pub record RunEntry : Type 0 where
  pub letter : ℕ
  pub length_of : ℕ

abbrev pub junk : RunEntry
junk = record { letter = 0; length_of = 0 }

-- The loop of `prle`, on the bytes from `start` to `end` and with the rounds left. The inner loop is
-- that of rle.c.
unfoldable pub prle_loop : ℕ → List ℕ → List RunEntry
prle_loop zero bytes = []
prle_loop (suc rounds) [] = []
prle_loop (suc rounds) (c ∷ rest) =
    let (counter, after) = take_run c 1 rest in
    record { letter = c; length_of = counter } ∷ prle_loop rounds after

-- `allocBuffer(end - start)` gives `enc` the square of its argument in bytes, an `int` product; an
-- entry has 8 bytes, and an end mark follows the entries.
unfoldable pub fits : (size entries : ℕ) → Bool
fits size entries = ltb (size * size) (2 ^ 31) && leb (8 * (entries + 1)) (size * size)

-- `prle`: the entries of `result`, as many as `bytesRead` says.
unfoldable pub prle : List ℕ → (start end : ℕ) → Option (List RunEntry)
unfolding prle_loop fits
prle base start end =
    let bytes = take (end - start) (drop start base) in
    let entries = prle_loop (length bytes) bytes in
    if fits (end - start) (length entries) then some entries else none

-- The number of threads for a text of `n` bytes.
unfoldable pub threads_for : ℕ → ℕ
threads_for n = if ltb input_threshold n then nthreads else 1

-- The offset and the size of the chunk of thread `i`.
unfoldable pub chunk : (n n_threads i : ℕ) → ℕ × ℕ
chunk n n_threads i =
    let chunk_size = n / n_threads in
    (i * chunk_size, if i == n_threads - 1 then n - i * chunk_size else chunk_size)

-- The results of the threads from `i` on, which do not depend on the order in which they run.
unfoldable pub run_threads : (n_threads rounds i : ℕ) → List ℕ → Option (List (List RunEntry))
run_threads n_threads zero i base = some []
run_threads n_threads (suc rounds) i base =
    let (offset, size) = chunk (length base) n_threads i in
    let more = run_threads n_threads rounds (i + 1) base in
    elim (prle base offset (offset + size)) [
      | none ↦ none
      | some result ↦ elim more [ none ↦ none | some rest ↦ some (result ∷ rest) ]
    ]

-- The variables of `go` that the joining loops change.
pub record Join : Type 0 where
  pub results : List (List RunEntry)
  pub prev_char : RunEntry
  pub new_length : ℕ
  pub out : List ℕ

-- `results[i].enc[j]`, and `results[i].bytesRead`
abbrev pub entry : List (List RunEntry) → (i j : ℕ) → RunEntry
entry results i j = get_or (get_or results i []) j junk

abbrev pub count : List (List RunEntry) → ℕ → ℕ
count results i = length (get_or results i [])

-- The first loop over `j`: the last entry that differs from the one before becomes `prev_char`.
unfoldable pub match_loop : (rounds i j : ℕ) → Join → Join
match_loop zero i j s = s
match_loop (suc rounds) i j s =
    let e = entry s.results i j in
    match_loop rounds i (j + 1) (
      if not (s.prev_char.letter == e.letter)
      then record s { new_length = e.length_of; prev_char = e }
      else s)

module _ (decimal : ℕ → List ℕ) where
  -- The second loop over `j`, which prints the letters of the results before.
  unfoldable pub print_loop : (rounds i j : ℕ) → Join → Join
  print_loop zero i j s = s
  print_loop (suc rounds) i j s =
      let e = entry s.results i j in
      let letter = (entry s.results (i - 1) j).letter in
      print_loop rounds i (j + 1) (
        if s.new_length == 0
        then record s {
          out = s.out ++ ((if e.length_of == 1 then [] else decimal e.length_of) ++ (letter ∷ []));
        }
        else s)

  -- One round of the joining loop. `bytesRead - 1` is unsigned, and wraps where a thread has no entry.
  unfoldable pub join : (n_threads i : ℕ) → Join → Option Join
  unfolding match_loop print_loop
  join n_threads i s =
      let first = entry s.results i 0 in
      let last = entry s.results i (count s.results i - 1) in
      let longer = first.length_of + s.prev_char.length_of in
      let merged =
        set s.results i (set (get_or s.results i []) 0 (record first { length_of = longer })) in
      let alone = record s {
        results = merged;
        new_length = longer;
        prev_char = record (s.prev_char) { length_of = longer };
      } in
      let several = match_loop (count s.results i) i 0 (record s {
        results = merged;
        new_length = longer;
        out = s.out ++ (decimal longer ++ (s.prev_char.letter ∷ []));
      }) in
      let printed = print_loop (count s.results i) i 0 s in
      let empty = count s.results i == 0 in
      if i == 0
      then (if empty then none else some (record s { prev_char = last }))
      else if (s.prev_char.letter == first.letter) && not (i == n_threads - 1)
      then (if count s.results i == 1 then some alone else some several)
      else (if empty then none else some (record printed { prev_char = last }))

  unfoldable pub join_loop : (n_threads rounds i : ℕ) → Join → Option Join
  unfolding join
  join_loop n_threads zero i s = some s
  join_loop n_threads (suc rounds) i s = elim (join n_threads i s) [
    | none ↦ none
    | some t ↦ join_loop n_threads rounds (i + 1) t
  ]

  -- The loop that prints the values of the last thread.
  unfoldable pub last_loop : List RunEntry → (new_length : ℕ) → List ℕ
  last_loop [] new_length = []
  last_loop (e ∷ es) new_length =
      if new_length == 0
      then (if e.length_of == 1 then [] else decimal e.length_of) ++ (e.letter ∷ last_loop es 0)
      else decimal (new_length + e.length_of) ++ (e.letter ∷ last_loop es 0)

  abbrev pub joining : List (List RunEntry) → Join
  joining results = record {
    results = results;
    prev_char = record { letter = b' '; length_of = 0 };
    new_length = 0;
    out = [];
  }

  -- What `go` prints.
  unfoldable pub go : List ℕ → Option (List ℕ)
  go base =
      let n_threads = threads_for (length base) in
      elim (run_threads n_threads n_threads 0 base) [
        | none ↦ none
        | some results ↦ elim (join_loop n_threads n_threads 0 (joining results)) [
          | none ↦ none
          | some s ↦ some (s.out ++ last_loop (get_or s.results (n_threads - 1) []) s.new_length)
        ]
      ]
