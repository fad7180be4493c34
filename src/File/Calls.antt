-- ===== src/File/Calls.antt =====
-- The system calls on descriptors of kernel/sysfile.c keep the reference counts right.
use cs_3224_operating_system.Base.{
  ℕ, ◌+◌, ◌-◌, ◌<◌, ◌≡◌, refl, ◌≢◌, ◌∙◌, ap, sym, subst, Bool, not, ◌||◌, Option, none, some, List,
  arith, length, get_or, set,
}
use cs_3224_operating_system.Log.{Outcome}
use cs_3224_operating_system.Syscall.{User}
use cs_3224_operating_system.File.{
  File, FileType, file_at, filealloc, filedup, argfd, fdalloc, Files, Called, failed, close_at,
  sys_dup, sys_close, open_inode,
}
use cs_3224_operating_system.File.Counts.{
  ref_at, one_at, occurrences, ref_at-same, filealloc-ref, filedup-ref, fileclose-ref,
  occurrences-set, fdalloc-occurrences,
}
use cs_3224_operating_system.File.Descriptors.{get_or-lt, occurrences-get, argfd-open}

-- Each count is the number of the process's descriptors for the file and of the other references,
-- which other processes hold.
abbrev pub Counted : (ℕ → ℕ) → Files → Type 0
Counted others s = (i : ℕ) → ref_at s.table i ≡ occurrences (i + 1) s.ofile + others i

-- The call does not panic, and leaves the counts right.
pub data Keeps (others : ℕ → ℕ) : Called → Type 0 where
  keeps : {r : Option ℕ} {s : Files} → Counted others s → Keeps others (Outcome.ok (r, s))

module _ (others : ℕ → ℕ) where
  -- A file that a descriptor has is referred to.
  Counted-pos :
      (s : Files) (fd f : ℕ)
      → Counted others s
      → get_or s.ofile fd 0 ≡ f
      → f ≢ 0
      → 0 < ref_at s.table (f - 1)
  Counted-pos s fd f c here ne =
      let some_file : get_or s.ofile fd 0 ≢ 0 = λ z. ne (sym here ∙ z) in
      let e : f - 1 + 1 ≡ f = omega (arith, ne) in
      let pos = occurrences-get s.ofile fd some_file in
      let c' : ref_at s.table (f - 1) ≡ occurrences f s.ofile + others (f - 1) =
        c (f - 1) ∙ ap (λ g. occurrences g s.ofile + others (f - 1)) e in
      let pos' : 0 < occurrences f s.ofile = subst (λ g. 0 < occurrences g s.ofile) here pos in
      omega (arith, c', pos')

  pub sys_dup-Keeps : (u : User) (s : Files) → Counted others s → Keeps others (sys_dup u s)
  unfolding sys_dup
  sys_dup-Keeps u s c = go (argfd u 0 s.ofile) (λ fd f e. argfd-open u 0 s.ofile fd f e)
    where
      last :
          (fd ofd f : ℕ) (xs : List ℕ)
          → get_or s.ofile ofd 0 ≡ f
          → f ≢ 0
          → fdalloc f s.ofile ≡ some (fd, xs)
          → Keeps others (elim (filedup (f - 1) s.table) as (λ x. Called) [
            | Outcome.panic ↦ Outcome.panic
            | Outcome.ok t ↦ Outcome.ok (some fd, record s { table = t; ofile = xs })
          ])
      last fd ofd f xs here ne e =
          let (t, done, refs) = filedup-ref (f - 1) s.table (Counted-pos s ofd f c here ne) in
          let (free, occ) = fdalloc-occurrences f s.ofile fd xs e in
          rw done (Keeps.keeps (λ i. ground (arith, c i, refs i, occ (i + 1) (omega arith), ne)))

      mid :
          (o : Option (ℕ × List ℕ)) (fd f : ℕ)
          → get_or s.ofile fd 0 ≡ f
          → f ≢ 0
          → fdalloc f s.ofile ≡ o
          → Keeps others (elim o as (λ x. Called) [
            | none ↦ failed s
            | some (new, ofile) ↦ elim (filedup (f - 1) s.table) [
              | Outcome.panic ↦ Outcome.panic
              | Outcome.ok t ↦ Outcome.ok (some new, record s { table = t; ofile = ofile })
            ]
          ])
      mid none fd f here ne e = Keeps.keeps c
      mid (some (new, ofile)) fd f here ne e = last new fd f ofile here ne e

      go :
          (o : Option (ℕ × ℕ))
          → ((fd f : ℕ) → o ≡ some (fd, f) → (get_or s.ofile fd 0 ≡ f) × (f ≢ 0))
          → Keeps others (elim o as (λ x. Called) [
            | none ↦ failed s
            | some (_, f) ↦ elim (fdalloc f s.ofile) [
              | none ↦ failed s
              | some (fd, ofile) ↦ elim (filedup (f - 1) s.table) [
                | Outcome.panic ↦ Outcome.panic
                | Outcome.ok t ↦ Outcome.ok (some fd, record s { table = t; ofile = ofile })
              ]
            ]
          ])
      go none h = Keeps.keeps c
      go (some (fd, f)) h =
          let (here, ne) = h fd f refl in mid (fdalloc f s.ofile) fd f here ne refl

  pub sys_close-Keeps : (u : User) (s : Files) → Counted others s → Keeps others (sys_close u s)
  unfolding sys_close
  sys_close-Keeps u s c = go (argfd u 0 s.ofile) (λ fd f e. argfd-open u 0 s.ofile fd f e)
    where
      go :
          (o : Option (ℕ × ℕ))
          → ((fd f : ℕ) → o ≡ some (fd, f) → (get_or s.ofile fd 0 ≡ f) × (f ≢ 0))
          → Keeps others (elim o as (λ x. Called) [
            | none ↦ failed s
            | some (fd, f) ↦
                close_at f
                  (λ t rs.
                    Outcome.ok
                      (some 0, record { table = t; ofile = set s.ofile fd 0; released = rs }))
                  s
          ])
      go none h = Keeps.keeps c
      go (some (fd, f)) h =
          let (here, ne) = h fd f refl in
          let (r, t, done, refs) = fileclose-ref (f - 1) s.table (Counted-pos s fd f c here ne) in
          let lt = get_or-lt s.ofile fd (λ z. ne (sym here ∙ z)) in
          rw (close_at, done)
            (Keeps.keeps (λ i.
              let occ = occurrences-set s.ofile fd 0 (i + 1) lt in
              ground (arith, c i, refs i, occ, here, ne)))

  pub open_inode-Keeps :
      (ip : ℕ) (wronly rdwr : Bool) (s : Files)
      → Counted others s
      → Keeps others (open_inode ip wronly rdwr s)
  unfolding open_inode
  open_inode-Keeps ip wronly rdwr s c =
      go (filealloc s.table) (λ i t e. filealloc-ref s.table i t e)
    where
      opened : ℕ → List File → File
      opened i t = record (file_at t i) {
        ty = FileType.fd_inode;
        ip = ip;
        off = 0;
        readable = not wronly;
        writable = wronly || rdwr;
      }

      mid :
          (o : Option (ℕ × List ℕ)) (i : ℕ) (t : List File)
          → ref_at s.table i ≡ 0
          → i < length t
          → ((j : ℕ) → ref_at t j ≡ ref_at s.table j + one_at i j)
          → fdalloc (i + 1) s.ofile ≡ o
          → Keeps others (elim o as (λ x. Called) [
            | none ↦
                close_at
                  (i + 1)
                  (λ t' rs. failed (record s { table = t'; released = rs }))
                  (record s { table = t })
            | some (fd, ofile) ↦
                Outcome.ok (some fd, record s { table = set t i (opened i t); ofile = ofile })
          ])
      mid none i t free lt up e =
          let same : i + 1 - 1 ≡ i = omega arith in
          let pos : 0 < ref_at t (i + 1 - 1) = rw same (ground (arith, up i, free)) in
          let (r, t', done, down) = fileclose-ref (i + 1 - 1) t pos in
          rw (close_at, done)
            (Keeps.keeps (λ j. let d = rw same at (down j) in omega (arith, c j, up j, d)))
      mid (some (fd, ofile)) i t free lt up e =
          let (was_free, occ) = fdalloc-occurrences (i + 1) s.ofile fd ofile e in
          let kept = ref_at-same t i (opened i t) refl lt in
          Keeps.keeps (λ j. ground (arith, c j, up j, kept j, occ (j + 1) (omega arith)))

      go :
          (o : Option (ℕ × List File))
          → ((i : ℕ) (t : List File)
              → o ≡ some (i, t)
              → (ref_at s.table i ≡ 0)
                × (i < length t)
                × ((j : ℕ) → ref_at t j ≡ ref_at s.table j + one_at i j))
          → Keeps others (elim o as (λ x. Called) [
            | none ↦ failed s
            | some (i, t) ↦ elim (fdalloc (i + 1) s.ofile) [
              | none ↦
                  close_at
                    (i + 1)
                    (λ t' rs. failed (record s { table = t'; released = rs }))
                    (record s { table = t })
              | some (fd, ofile) ↦
                  Outcome.ok (some fd, record s { table = set t i (opened i t); ofile = ofile })
            ]
          ])
      go none h = Keeps.keeps c
      go (some (i, t)) h =
          let (free, lt, up) = h i t refl in mid (fdalloc (i + 1) s.ofile) i t free lt up refl

-- The system calls on descriptors, in any order.
pub data Run (start : Files) : Files → Type 0 where
  here : Run start start
  dup :
      {s t : Files} {r : Option ℕ} (u : User)
      → Run start s
      → sys_dup u s ≡ Outcome.ok (r, t)
      → Run start t
  close :
      {s t : Files} {r : Option ℕ} (u : User)
      → Run start s
      → sys_close u s ≡ Outcome.ok (r, t)
      → Run start t
  open_file :
      {s t : Files} {r : Option ℕ} (ip : ℕ) (wronly rdwr : Bool)
      → Run start s
      → open_inode ip wronly rdwr s ≡ Outcome.ok (r, t)
      → Run start t

kept :
    {others : ℕ → ℕ} {x : Called} {r : Option ℕ} {t : Files}
    → Keeps others x
    → x ≡ Outcome.ok (r, t)
    → Counted others t
kept (Keeps.keeps {r} {s} c) e = subst (Counted _) (ok_inj e) c
  where
    ok_inj :
        {r r' : Option ℕ} {s s' : Files}
        → ◌≡◌ {A = Called} (Outcome.ok (r, s)) (Outcome.ok (r', s'))
        → s ≡ s'
    ok_inj e = cc

Run-Counted : (others : ℕ → ℕ) {s t : Files} → Run s t → Counted others s → Counted others t
Run-Counted others Run.here c = c
Run-Counted others (Run.dup {s} u run e) c = kept (sys_dup-Keeps _ u s (Run-Counted others run c)) e
Run-Counted others (Run.close {s} u run e) c =
    kept (sys_close-Keeps _ u s (Run-Counted others run c)) e
Run-Counted others (Run.open_file {s} ip wronly rdwr run e) c =
    kept (open_inode-Keeps _ ip wronly rdwr s (Run-Counted others run c)) e

-- Whatever descriptors a process opens, duplicates and closes, and in which order: no call of
-- these panics on a reference count, also where it fails, each count stays the number of descriptors
-- and other references, and `filealloc` hands out an entry to which nothing refers.
pub Run-Keeps :
    (others : ℕ → ℕ) {s t : Files}
    → Run s t
    → Counted others s
    → (u : User)
    → Keeps others (sys_dup u t)
      × Keeps others (sys_close u t)
      × ((ip : ℕ) (wronly rdwr : Bool) → Keeps others (open_inode ip wronly rdwr t))
      × ((i : ℕ) (table : List File)
          → filealloc t.table ≡ some (i, table)
          → (occurrences (i + 1) t.ofile ≡ 0) × (others i ≡ 0))
Run-Keeps others {s} {t} run c u =
    let now = Run-Counted others run c in
    (
      sys_dup-Keeps others u t now,
      sys_close-Keeps others u t now,
      λ ip wronly rdwr. open_inode-Keeps others ip wronly rdwr t now,
      λ i table e. let free = (filealloc-ref t.table i table e).0 in omega (arith, now i, free),
    )
