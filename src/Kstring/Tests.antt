-- ===== src/Kstring/Tests.antt =====
-- Runs of kernel/string.c, and the theorems at concrete inputs.
use cs_3224_operating_system.Base.{◌%◌, ◌↔◌, ℕ, ◌≡◌, refl, [], ◌∷◌, arith, replicate, get_or}
use cs_3224_operating_system.Kstring.Memory.{Memory, backward, memmove, memset}
use cs_3224_operating_system.Kstring.Strings.{Bytes, safestrcpy, strncmp, strncpy}
use cs_3224_operating_system.Kstring.Copy.{Agree, Terminated, strncmp-Agree, safestrcpy-Terminated}
use cs_3224_operating_system.Kstring.Move.{Copied, Filled, memmove-Copied, memset-Filled}

abbrev hello : Bytes
hello i = get_or (b'h' ∷ b'i' ∷ []) i 0

copied : safestrcpy (replicate 4 9) hello 4 ≡ b'h' ∷ b'i' ∷ 0 ∷ 0 ∷ []
unfolding safestrcpy
copied = refl

cut : safestrcpy (replicate 4 9) hello 2 ≡ b'h' ∷ 0 ∷ 9 ∷ 9 ∷ []
unfolding safestrcpy
cut = refl

padded : strncpy (replicate 5 9) hello 4 ≡ b'h' ∷ b'i' ∷ 0 ∷ 0 ∷ 9 ∷ []
unfolding strncpy
padded = refl

-- Overlapping buffers, upwards.
overlap : memmove 2 0 4 (λ a. a) 5 ≡ 3
unfolding memmove backward
overlap = refl

safestrcpy-Terminated_example :
    (k : ℕ) × Terminated 0 2 k hello (replicate 4 9) (safestrcpy (replicate 4 9) hello 2)
safestrcpy-Terminated_example =
    safestrcpy-Terminated 2 hello (replicate 4 9) (omega arith) (omega arith)

-- Each byte is the low byte of its address.
abbrev ramp : Memory
ramp a = a % 256

memmove-Copied_example : Copied 2 0 4 ramp (memmove 2 0 4 ramp)
memmove-Copied_example = memmove-Copied 2 0 4 ramp

memset-Filled_example : Filled 8 12 7 ramp (memset 8 263 12 ramp)
memset-Filled_example = memset-Filled 8 263 12 ramp

strncmp-Agree_example :
    ((strncmp hello hello 9).0 ≡ (strncmp hello hello 9).1) ↔ Agree 0 9 hello hello
strncmp-Agree_example = strncmp-Agree hello hello 9
