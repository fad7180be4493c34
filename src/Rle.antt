-- ===== src/Rle.antt =====
-- rle.c: the run-length encoder `compress` and its two nested loops.
-- The source text is the list of the bytes before its NUL; `sprintf(count, "%d", counter)` is the
-- parameter `decimal`, the bytes that it stores before the NUL.
pub mod Runs
pub mod Decimal
pub mod RoundTrip
pub mod Size
mod Tests
use cs_3224_operating_system.Base.{
  ℕ, zero, suc, ◌+◌, Option, none, some, List, [], ◌∷◌, ◌++◌, if◌then◌else◌, ◌==◌, ltb, length,
}

-- `while (i + 1 < len && src[i] == src[i + 1]) { counter++; i++; }`: the list is what follows
-- `src[i]`, which is `c`. The result is the counter and what follows the run.
unfoldable pub take_run : ℕ → ℕ → List ℕ → ℕ × List ℕ
take_run c counter [] = (counter, [])
take_run c counter (d ∷ rest) =
    if c == d then take_run c (counter + 1) rest else (counter, d ∷ rest)

module _ (decimal : ℕ → List ℕ) where
  -- What one round of the outer loop adds to `encode`: the counter where it is above one, and the
  -- byte.
  unfoldable pub emit : ℕ → ℕ → List ℕ
  emit counter c = (if ltb 1 counter then decimal counter else []) ++ (c ∷ [])

  -- `for (i = 0; i < len; i++)`, on fuel; `none` means that the fuel ran out.
  pub encode_loop : ℕ → List ℕ → List ℕ → Option (List ℕ)
  encode_loop fuel [] encode = some encode
  encode_loop zero (c ∷ rest) encode = none
  encode_loop (suc fuel) (c ∷ rest) encode =
      let (counter, after) = take_run c 1 rest in encode_loop fuel after (encode ++ emit counter c)

  -- What `compress` prints. The outer loop has at most a round for each byte.
  pub compress : List ℕ → Option (List ℕ)
  compress src = encode_loop (length src) src []
