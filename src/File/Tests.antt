-- ===== src/File/Tests.antt =====
-- Runs of the descriptors of kernel/file.c and kernel/sysfile.c, and the theorem at concrete inputs.
use cs_3224_operating_system.Base.{
  Bool, ℕ, zero, suc, ◌+◌, ◌≡◌, refl, true, false, some, List, [], ◌∷◌, arith,
}
use cs_3224_operating_system.Log.{Outcome}
use cs_3224_operating_system.Syscall.{User, argint}
use cs_3224_operating_system.File.{
  File, FileType, no_file, filealloc, Release, Files, sys_dup, sys_close, open_inode,
}
use cs_3224_operating_system.File.Counts.{occurrences}
use cs_3224_operating_system.File.Calls.{Counted, Keeps, Run, Run-Keeps}

-- Every argument of this process is 0.
abbrev user : User
user = record { sz = 32; esp = 8; mem = λ _. 0 }

abbrev boot : Files
boot = record { table = no_file ∷ no_file ∷ no_file ∷ []; ofile = 0 ∷ 0 ∷ 0 ∷ []; released = [] }

abbrev inode_file : ℕ → File
inode_file refs = record no_file { ty = FileType.fd_inode; ref = refs; readable = true; ip = 7 }

abbrev opened : Files
opened = record boot { table = inode_file 1 ∷ no_file ∷ no_file ∷ []; ofile = 1 ∷ 0 ∷ 0 ∷ [] }

abbrev doubled : Files
doubled = record boot { table = inode_file 2 ∷ no_file ∷ no_file ∷ []; ofile = 1 ∷ 1 ∷ 0 ∷ [] }

open_twice : Run boot doubled
unfolding sys_dup open_inode argint
open_twice =
    Run.dup {r = some 1} user (Run.open_file {t = opened} {r = some 0} 7 false false Run.here refl)
      refl

-- The last close lets the inode go.
close_last :
    sys_close user opened
    ≡ Outcome.ok (
      some 0,
      record boot {
        table = record (inode_file 0) { ty = FileType.fd_none } ∷ no_file ∷ no_file ∷ [];
        released = Release.put_inode 7 ∷ [];
      },
    )
unfolding sys_close argint
close_last = refl

boot-Counted : Counted (λ _. 0) boot
boot-Counted zero = refl
boot-Counted (suc zero) = refl
boot-Counted (suc (suc zero)) = refl
boot-Counted (suc (suc (suc i))) = ground arith

Run-Keeps_example :
    Keeps (λ _. 0) (sys_dup user doubled)
    × Keeps (λ _. 0) (sys_close user doubled)
    × ((ip : ℕ) (wronly rdwr : Bool) → Keeps (λ _. 0) (open_inode ip wronly rdwr doubled))
    × ((i : ℕ) (table : List File)
        → filealloc doubled.table ≡ some (i, table)
        → (occurrences (i + 1) doubled.ofile ≡ 0) × ◌≡◌ {A = ℕ} 0 0)
Run-Keeps_example = Run-Keeps (λ _. 0) open_twice boot-Counted user
