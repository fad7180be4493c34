-- ===== src/Kstring/Strings.antt =====
-- `strlen`, `strncmp`, `memcmp`, `strncpy` and `safestrcpy` of kernel/string.c. A string is read
-- byte by byte as a function of the index; a buffer that is written is the list of its bytes, and
-- a write outside of it changes nothing.
use cs_3224_operating_system.Base.{
  ℕ, zero, suc, ◌+◌, ◌&&◌, not, Option, none, some, List, if◌then◌else◌, ◌==◌, set,
}

abbrev pub Bytes : Type 0
Bytes = ℕ → ℕ

-- `for (n = 0; s[n]; n++)`, on fuel: `none` means that no NUL was met.
unfoldable pub strlen_from : ℕ → ℕ → Bytes → Option ℕ
strlen_from zero n s = none
strlen_from (suc fuel) n s =
    let more = strlen_from fuel (n + 1) s in if s n == 0 then some n else more

-- The difference of two bytes is returned with its sign: `(a, b)` stands for `a - b`.
abbrev pub Difference : Type 0
Difference = ℕ × ℕ

unfoldable pub memcmp_from : ℕ → ℕ → Bytes → Bytes → Difference
memcmp_from zero i p q = (0, 0)
memcmp_from (suc n) i p q =
    let more = memcmp_from n (i + 1) p q in if p i == q i then more else (p i, q i)

unfoldable pub memcmp : Bytes → Bytes → ℕ → Difference
unfolding memcmp_from
memcmp p q n = memcmp_from n 0 p q

unfoldable pub strncmp_from : ℕ → ℕ → Bytes → Bytes → Difference
strncmp_from zero i p q = (0, 0)
strncmp_from (suc n) i p q =
    let more = strncmp_from n (i + 1) p q in
    if not (p i == 0) && (p i == q i) then more else (p i, q i)

unfoldable pub strncmp : Bytes → Bytes → ℕ → Difference
unfolding strncmp_from
strncmp p q n = strncmp_from n 0 p q

-- `while (n-- > 0) *s++ = 0;`
unfoldable pub zero_fill : ℕ → ℕ → List ℕ → List ℕ
zero_fill zero i dst = dst
zero_fill (suc n) i dst = zero_fill n (i + 1) (set dst i 0)

-- `while (n-- > 0 && (*s++ = *t++) != 0);` and the loop after it. At the end of the first loop
-- `n` is -1 where it ran out, and the second loop does not run.
unfoldable pub strncpy_from : ℕ → ℕ → Bytes → List ℕ → List ℕ
unfolding zero_fill
strncpy_from zero i t dst = dst
strncpy_from (suc n) i t dst =
    let more = strncpy_from n (i + 1) t (set dst i (t i)) in
    if t i == 0 then zero_fill n (i + 1) (set dst i (t i)) else more

unfoldable pub strncpy : List ℕ → Bytes → ℕ → List ℕ
unfolding strncpy_from
strncpy dst t n = strncpy_from n 0 t dst

-- `while (--n > 0 && (*s++ = *t++) != 0); *s = 0;` with `n` above zero: the number is `n - 1`.
unfoldable pub safe_from : ℕ → ℕ → Bytes → List ℕ → List ℕ
safe_from zero i t dst = set dst i 0
safe_from (suc n) i t dst =
    let copied = set dst i (t i) in
    let more = safe_from n (i + 1) t copied in if t i == 0 then set copied (i + 1) 0 else more

unfoldable pub safestrcpy : List ℕ → Bytes → ℕ → List ℕ
unfolding safe_from
safestrcpy dst t zero = dst
safestrcpy dst t (suc n) = safe_from n 0 t dst
