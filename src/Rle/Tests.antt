-- ===== src/Rle/Tests.antt =====
-- Runs of `compress` of rle.c on small texts, and the theorems at concrete inputs.
use cs_3224_operating_system.Base.{ℕ, ◌+◌, ◌*◌, ◌≤◌, ◌≡◌, refl, some, List, [], ◌∷◌, length}
use cs_3224_operating_system.Rle.{take_run, emit, encode_loop, compress}
use cs_3224_operating_system.Rle.Runs.{runs, expand, IsCanonical, print, compress-print}
use cs_3224_operating_system.Rle.Decimal.{print_decimal, print_decimal-Decimal}
use cs_3224_operating_system.Rle.RoundTrip.{decode, decode-compress}
use cs_3224_operating_system.Rle.Size.{length-compress}

-- "aaab"
abbrev text : List ℕ
text = b'a' ∷ b'a' ∷ b'a' ∷ b'b' ∷ []

compress-text : compress print_decimal text ≡ some (b'3' ∷ b'a' ∷ b'b' ∷ [])
unfolding compress encode_loop take_run emit print_decimal
compress-text = refl

decode-text : decode (b'3' ∷ b'a' ∷ b'b' ∷ []) ≡ text
unfolding decode
decode-text = refl

compress-print_example :
    (compress print_decimal text ≡ some (print print_decimal (runs text)))
    × IsCanonical (runs text)
    × (expand (runs text) ≡ text)
compress-print_example = compress-print print_decimal text

decode-compress_example :
    (out : List ℕ) × (compress print_decimal text ≡ some out) × (decode out ≡ text)
decode-compress_example =
    decode-compress print_decimal print_decimal-Decimal text (refl, (refl, (refl, (refl, tt))))

length-compress_example :
    (out : List ℕ) × (compress print_decimal text ≡ some out)
    × (length out ≤ 4)
    × (length out + 1 ≤ 4 * 2 + 1)
length-compress_example = length-compress print_decimal print_decimal-Decimal text
