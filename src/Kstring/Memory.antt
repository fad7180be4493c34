-- ===== src/Kstring/Memory.antt =====
-- `memset`, `memcmp`, `memmove` and `memcpy` of kernel/string.c, over a memory of bytes by address.
-- Pointers are 32 bits wide; the buffers are taken not to wrap round the end of memory.
use cs_3224_operating_system.Base.{
  ℕ, zero, suc, ◌+◌, ◌*◌, ◌/◌, ◌%◌, ◌^◌, ◌&&◌, if◌then◌else◌, ◌==◌, ltb,
}

abbrev pub Memory : Type 0
Memory = ℕ → ℕ

abbrev pub store : Memory → ℕ → ℕ → Memory
store m a v x = if x == a then v else m x

-- `while (n-- > 0) *d++ = *s++;`
unfoldable pub forward : ℕ → ℕ → ℕ → Memory → Memory
forward zero d s m = m
forward (suc n) d s m = forward n (d + 1) (s + 1) (store m d (m s))

-- `while (n-- > 0) *--d = *--s;`, from pointers `n` past the start
unfoldable pub backward : ℕ → ℕ → ℕ → Memory → Memory
backward zero d s m = m
backward (suc n) d s m = backward n d s (store m (d + n) (m (s + n)))

unfoldable pub memmove : (dst src n : ℕ) → Memory → Memory
memmove dst src n m =
    if ltb src dst && ltb dst (src + n) then backward n dst src m else forward n dst src m

unfoldable pub memcpy : (dst src n : ℕ) → Memory → Memory
memcpy dst src n m = memmove dst src n m

-- `stosb` writes `n` bytes with the low byte of `c`.
unfoldable pub stosb : (dst c n : ℕ) → Memory → Memory
stosb dst c zero m = m
stosb dst c (suc n) m = stosb (dst + 1) c n (store m dst (c % 256))

-- `stosl` writes `n` words, the low byte first.
unfoldable pub stosl : (dst w n : ℕ) → Memory → Memory
stosl dst w zero m = m
stosl dst w (suc n) m = stosl (dst + 4) w n (
    store
      (store (store (store m dst (w % 256)) (dst + 1) (w / 2 ^ 8 % 256)) (dst + 2)
        (w / 2 ^ 16 % 256))
      (dst + 3) (w / 2 ^ 24 % 256))

-- The word with the byte `c & 0xFF` four times.
abbrev pub spread : ℕ → ℕ
spread c = c % 256 * 2 ^ 24 + c % 256 * 2 ^ 16 + c % 256 * 2 ^ 8 + c % 256

unfoldable pub memset : (dst c n : ℕ) → Memory → Memory
memset dst c n m =
    if (dst % 4 == 0) && (n % 4 == 0) then stosl dst (spread c) (n / 4) m else stosb dst c n m
