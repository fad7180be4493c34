-- ===== src/Log/System.antt =====
-- The steps that processes take through log.c, in any order: each critical section is one, and so is
-- `commit`, which end_op runs between two of them without the lock.
use cs_3224_operating_system.Base.{
  ℕ, zero, suc, ◌+◌, ◌*◌, ◌≤◌, ◌<◌, ◌≡◌, true, false, some, List, [], ◌∷◌, arith, length, get_elem?,
  set, All,
}
use cs_3224_operating_system.Log.{
  Log, max_op_blocks, ok, begin_op, leave_op, leave_commit, log_write, commit,
}
use cs_3224_operating_system.Log.Blocks.{Store}

-- The log, with the number of blocks that each running operation may still write. `due` processes
-- have left the first critical section of `end_op` with `do_commit` set and have not yet run
-- `commit`; `done` processes have run it and not yet the second critical section.
pub record System : Type 0 where
  pub lg : Log
  pub budgets : List ℕ
  pub due : ℕ
  pub done : ℕ

-- What `initlog` leaves.
abbrev pub booted : Log → System
booted lg = record { lg = lg; budgets = []; due = 0; done = 0 }

abbrev pub sum : List ℕ → ℕ
sum [] = 0
sum (x ∷ xs) = x + sum xs

-- A list without the element at an index.
abbrev pub remove : List ℕ → ℕ → List ℕ
remove [] i = []
remove (x ∷ xs) zero = xs
remove (x ∷ xs) (suc i) = x ∷ remove xs i

-- One step of some process: an operation begins, operation `i` writes block `b`, or it leaves by the
-- first critical section of `end_op`; or a process commits, or runs the second critical section.
pub data Step (s : System) : System → Type 0 where
  begin :
      {lg' : Log}
      → begin_op s.lg ≡ some lg'
      → Step s (record s { lg = lg'; budgets = max_op_blocks ∷ s.budgets })
  write :
      (i b left : ℕ) {lg' : Log}
      → get_elem? s.budgets i ≡ some (suc left)
      → log_write s.lg b ≡ ok lg'
      → Step s (record s { lg = lg'; budgets = set s.budgets i left })
  leave :
      (i : ℕ) {lg' : Log}
      → i < length s.budgets
      → leave_op s.lg ≡ ok (lg', false)
      → Step s (record s { lg = lg'; budgets = remove s.budgets i })
  leave_last :
      (i : ℕ) {lg' : Log}
      → i < length s.budgets
      → leave_op s.lg ≡ ok (lg', true)
      → Step s (record s { lg = lg'; budgets = remove s.budgets i; due = s.due + 1 })
  commits :
      (st : Store) (others : ℕ)
      → s.due ≡ suc others
      → Step s (record s { lg = (commit s.lg st).0; due = others; done = s.done + 1 })
  finish :
      (others : ℕ)
      → s.done ≡ suc others
      → Step s (record s { lg = leave_commit s.lg; done = others })

pub data Reach (s : System) : System → Type 0 where
  here : Reach s s
  next : {t u : System} → Reach s t → Step t u → Reach s u

pub sum-set :
    (xs : List ℕ) (i left : ℕ) → get_elem? xs i ≡ some (suc left) → sum (set xs i left) + 1 ≡ sum xs
sum-set [] i left h = absurd (cc)
sum-set (x ∷ xs) zero left h = let e : x ≡ suc left = ground arith in omega (arith, e)
sum-set (x ∷ xs) (suc i) left h = omega (arith, sum-set xs i left h)

pub sum-le : (xs : List ℕ) → All (λ x. x ≤ max_op_blocks) xs → sum xs ≤ length xs * max_op_blocks
sum-le [] h = omega arith
sum-le (x ∷ xs) h = omega (arith, h.0, sum-le xs h.1)

pub All-set :
    (xs : List ℕ) (i left : ℕ)
    → get_elem? xs i ≡ some (suc left)
    → All (λ x. x ≤ max_op_blocks) xs
    → All (λ x. x ≤ max_op_blocks) (set xs i left)
All-set [] i left h all = tt
All-set (x ∷ xs) zero left h all = let e : x ≡ suc left = ground arith in (omega (arith, e), all.1)
All-set (x ∷ xs) (suc i) left h all = (all.0, All-set xs i left h all.1)

pub All-remove :
    (xs : List ℕ) (i : ℕ)
    → All (λ x. x ≤ max_op_blocks) xs
    → All (λ x. x ≤ max_op_blocks) (remove xs i)
All-remove [] i all = tt
All-remove (x ∷ xs) zero all = all.1
All-remove (x ∷ xs) (suc i) all = (all.0, All-remove xs i all.1)

pub sum-remove : (xs : List ℕ) (i : ℕ) → sum (remove xs i) ≤ sum xs
sum-remove [] i = omega arith
sum-remove (x ∷ xs) zero = omega arith
sum-remove (x ∷ xs) (suc i) = omega (arith, sum-remove xs i)

pub length-remove : (xs : List ℕ) (i : ℕ) → i < length xs → length (remove xs i) + 1 ≡ length xs
length-remove [] i h = absurd (omega arith)
length-remove (x ∷ xs) zero h = omega arith
length-remove (x ∷ xs) (suc i) h = omega (arith, length-remove xs i (omega arith))
