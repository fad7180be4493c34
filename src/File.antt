-- ===== src/File.antt =====
-- The table of open files of homework-3-lottery-scheduling/kernel/file.c, and the descriptors of a
-- process with the system calls on them of kernel/sysfile.c (homework-1-sort has the same files). A
-- pointer to entry `i` of the table is the number `i + 1`, and the null pointer is 0.
pub mod Counts
pub mod Descriptors
pub mod Calls
mod Tests
use cs_3224_operating_system.Base.{
  ℕ, zero, suc, ◌+◌, ◌-◌, ◌*◌, ◌/◌, ◌^◌, Bool, true, false, not, ◌||◌, Option, none, some, List, [],
  ◌∷◌, if◌then◌else◌, ◌==◌, ltb, leb, get_or, set,
}
use cs_3224_operating_system.Log.{Outcome, log_size}
use cs_3224_operating_system.Proc.Types.{nofile}
use cs_3224_operating_system.Syscall.{User, argint}

pub data FileType : Type 0 where
  fd_none fd_pipe fd_inode : FileType

-- `struct file`
pub record File : Type 0 where
  pub ty : FileType
  pub ref : ℕ
  pub readable : Bool
  pub writable : Bool
  pub pipe_of : ℕ
  pub ip : ℕ
  pub off : ℕ

-- An entry at boot.
abbrev pub no_file : File
no_file = record {
  ty = FileType.fd_none;
  ref = 0;
  readable = false;
  writable = false;
  pipe_of = 0;
  ip = 0;
  off = 0;
}

abbrev pub file_at : List File → ℕ → File
file_at table i = get_or table i no_file

-- The loop of `filealloc`: the first entry without references, from `i` on.
unfoldable pub free_file : ℕ → List File → Option ℕ
free_file i [] = none
free_file i (f ∷ fs) = let more = free_file (i + 1) fs in if f.ref == 0 then some i else more

unfoldable pub filealloc : List File → Option (ℕ × List File)
unfolding free_file
filealloc table = elim (free_file 0 table) [
  | none ↦ none
  | some i ↦ some (i, set table i (record (file_at table i) { ref = 1 }))
]

unfoldable pub filedup : ℕ → List File → Outcome (List File)
filedup i table =
    let f = file_at table i in
    if ltb f.ref 1 then Outcome.panic else Outcome.ok (set table i (record f { ref = f.ref + 1 }))

-- What the end of `fileclose` lets go of.
pub data Release : Type 0 where
  nothing : Release
  close_pipe : (pipe_of : ℕ) → (writable : Bool) → Release
  put_inode : ℕ → Release

abbrev pub release_of : File → Release
release_of f = elim f.ty [
  | FileType.fd_none ↦ Release.nothing
  | FileType.fd_pipe ↦ Release.close_pipe f.pipe_of f.writable
  | FileType.fd_inode ↦ Release.put_inode f.ip
]

unfoldable pub fileclose : ℕ → List File → Outcome (Release × List File)
fileclose i table =
    let f = file_at table i in
    let last = set table i (record f { ref = 0; ty = FileType.fd_none }) in
    if ltb f.ref 1
    then Outcome.panic
    else if ltb 0 (f.ref - 1)
    then Outcome.ok (Release.nothing, set table i (record f { ref = f.ref - 1 }))
    else Outcome.ok (release_of f, last)

-- `argfd`: the descriptor and the pointer to its file.
unfoldable pub argfd : User → ℕ → List ℕ → Option (ℕ × ℕ)
argfd u n ofile = elim (argint u n) [
  | none ↦ none
  | some fd ↦
      if (leb (2 ^ 31) fd || leb nofile fd) || (get_or ofile fd 0 == 0)
      then none
      else some (fd, get_or ofile fd 0)
]

-- The loop of `fdalloc`.
unfoldable pub free_fd : ℕ → List ℕ → Option ℕ
free_fd fd [] = none
free_fd fd (f ∷ fs) = let more = free_fd (fd + 1) fs in if f == 0 then some fd else more

unfoldable pub fdalloc : ℕ → List ℕ → Option (ℕ × List ℕ)
unfolding free_fd
fdalloc f ofile = elim (free_fd 0 ofile) [ none ↦ none | some fd ↦ some (fd, set ofile fd f) ]

-- The table, the descriptors of the process, and what has been let go of.
pub record Files : Type 0 where
  pub table : List File
  pub ofile : List ℕ
  pub released : List Release

-- A system call returns a descriptor or 0, or -1, and leaves the files, or panics.
abbrev pub Called : Type 0
Called = Outcome (Option ℕ × Files)

abbrev pub failed : Files → Called
failed s = Outcome.ok (none, s)

abbrev pub close_at : ℕ → (List File → List Release → Called) → Files → Called
close_at f k s = elim (fileclose (f - 1) s.table) [
  | Outcome.panic ↦ Outcome.panic
  | Outcome.ok (r, t) ↦ k t (r ∷ s.released)
]

unfoldable pub sys_dup : User → Files → Called
unfolding argfd fdalloc filedup
sys_dup u s = elim (argfd u 0 s.ofile) [
  | none ↦ failed s
  | some (_, f) ↦ elim (fdalloc f s.ofile) [
    | none ↦ failed s
    | some (fd, ofile) ↦ elim (filedup (f - 1) s.table) [
      | Outcome.panic ↦ Outcome.panic
      | Outcome.ok t ↦ Outcome.ok (some fd, record s { table = t; ofile = ofile })
    ]
  ]
]

unfoldable pub sys_close : User → Files → Called
unfolding argfd fileclose
sys_close u s = elim (argfd u 0 s.ofile) [
  | none ↦ failed s
  | some (fd, f) ↦
      close_at f
        (λ t rs. Outcome.ok (some 0, record { table = t; ofile = set s.ofile fd 0; released = rs }))
        s
]

-- The end of `sys_open`, from `filealloc` on, for the inode `ip`. `omode` has O_WRONLY as bit 0 and
-- O_RDWR as bit 1.
unfoldable pub open_inode : (ip : ℕ) → (wronly rdwr : Bool) → Files → Called
unfolding filealloc fdalloc fileclose
open_inode ip wronly rdwr s = elim (filealloc s.table) [
  | none ↦ failed s
  | some (i, t) ↦ elim (fdalloc (i + 1) s.ofile) [
    | none ↦
        close_at (i + 1) (λ t' rs. failed (record s { table = t'; released = rs }))
          (record s { table = t })
    | some (fd, ofile) ↦ Outcome.ok (
      some fd,
      record s {
        table = set t i (record (file_at t i) {
          ty = FileType.fd_inode;
          ip = ip;
          off = 0;
          readable = not wronly;
          writable = wronly || rdwr;
        });
        ofile = ofile;
      },
    )
  ]
]
