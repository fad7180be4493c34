-- ===== src/Syscall.antt =====
-- The argument checks of homework-3-lottery-scheduling/kernel/syscall.c (homework-1-sort has the same
-- functions): what a system call reads from the memory of its process. An `int` is its 32-bit
-- pattern.
pub mod Bounds
mod Tests
use cs_3224_operating_system.Base.{
  ℕ, zero, suc, ◌+◌, ◌-◌, ◌*◌, ◌%◌, ◌^◌, Bool, true, false, ◌||◌, Option, none, some, if◌then◌else◌,
  ◌==◌, ltb, leb,
}
use cs_3224_operating_system.Kstring.Memory.{Memory}

-- `proc->sz`, `proc->tf->esp` and the memory of the process.
pub record User : Type 0 where
  pub sz : ℕ
  pub esp : ℕ
  pub mem : Memory

-- `*(int *)addr`, the low byte first
abbrev pub word_at : Memory → ℕ → ℕ
word_at m a = m a + 256 * m (a + 1) + 65536 * m (a + 2) + 16777216 * m (a + 3)

-- `none` is the result -1.
unfoldable pub fetchint : User → ℕ → Option ℕ
fetchint u addr =
    if leb u.sz addr || ltb u.sz ((addr + 4) % 2 ^ 32) then none else some (word_at u.mem addr)

-- `for (s = *pp; s < ep; s++) if (*s == 0) return s - *pp;`, with the rounds left
unfoldable pub string_loop : ℕ → ℕ → ℕ → Memory → Option ℕ
string_loop zero s len m = none
string_loop (suc rounds) s len m =
    let more = string_loop rounds (s + 1) (len + 1) m in if m s == 0 then some len else more

-- The length of the string.
unfoldable pub fetchstr : User → ℕ → Option ℕ
unfolding string_loop
fetchstr u addr = if leb u.sz addr then none else string_loop (u.sz - addr) addr 0 u.mem

unfoldable pub argint : User → ℕ → Option ℕ
unfolding fetchint
argint u n = fetchint u ((u.esp + 4 + 4 * n) % 2 ^ 32)

unfoldable pub argptr : User → (n size : ℕ) → Option ℕ
unfolding argint
argptr u n size = elim (argint u n) [
  | none ↦ none
  | some i ↦ if leb u.sz i || ltb u.sz ((i + size) % 2 ^ 32) then none else some i
]

-- The address and the length of the string.
unfoldable pub argstr : User → ℕ → Option (ℕ × ℕ)
unfolding argint fetchstr
argstr u n = elim (argint u n) [
  | none ↦ none
  | some addr ↦ elim (fetchstr u addr) [ none ↦ none | some len ↦ some (addr, len) ]
]
