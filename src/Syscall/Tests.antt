-- ===== src/Syscall/Tests.antt =====
-- Runs of the argument checks of kernel/syscall.c, and the theorems at concrete inputs.
use cs_3224_operating_system.Base.{
  leb, ltb, ◌&&◌, if◌then◌else◌, ◌+◌, ◌-◌, ◌^◌, ◌≤◌, ◌<◌, ◌≡◌, refl, none, some, [], ◌∷◌, arith,
  get_or,
}
use cs_3224_operating_system.Kstring.Memory.{Memory}
use cs_3224_operating_system.Syscall.{User, word_at, fetchint, fetchstr, argint, argptr}
use cs_3224_operating_system.Syscall.Bounds.{
  StringAt, fetchint-inside, fetchstr-StringAt, argptr-inside, argptr-negative,
}

-- A stack with the return address at 8, then the arguments 4, "hi" at 20 and 6.
abbrev bytes : Memory
bytes a =
    get_or
      (0 ∷ 0 ∷ 0 ∷ 0 ∷ 0 ∷ 0 ∷ 0 ∷ 0 ∷ 9 ∷ 0 ∷ 0 ∷ 0 ∷ 4 ∷ 0 ∷ 0 ∷ 0 ∷ 20 ∷ 0 ∷ 0 ∷ 0 ∷ b'h' ∷ b'i'
        ∷ [])
      a 0

abbrev user : User
user = record { sz = 32; esp = 8; mem = bytes }

first_argument : argint user 0 ≡ some 4
unfolding argint
first_argument = refl

string_argument : fetchstr user 20 ≡ some 2
unfolding fetchstr
string_argument = refl

fetchint-inside_example :
    (12 + 4 ≤ 32 → fetchint user 12 ≡ some (word_at bytes 12))
    × (32 < 12 + 4 → 12 < 2 ^ 32 → fetchint user 12 ≡ none)
fetchint-inside_example = fetchint-inside user 12 (omega arith)

fetchstr-StringAt_example : StringAt user 20 (fetchstr user 20)
fetchstr-StringAt_example = fetchstr-StringAt user 20

four_bytes : argptr user 0 4 ≡ some 4
unfolding argptr
four_bytes = refl

argptr-inside_example : 4 + 4 ≤ 32
argptr-inside_example = argptr-inside user 0 4 4 (omega arith) (omega arith) four_bytes

argptr-negative_example :
    argptr user 0 (2 ^ 32 - 1) ≡ (if leb 1 4 && ltb 4 32 then some 4 else none)
argptr-negative_example =
    argptr-negative user 0 1 4 (omega arith) first_argument (omega arith) (omega arith)
      (omega arith)
