-- ===== src/Log/Reserve.antt =====
-- Admission of operations by `begin_op` of log.c: each operation may write `max_op_blocks` blocks,
-- and the log has room for all that are admitted.
use cs_3224_operating_system.Base.{
  ℕ, suc, ◌+◌, ◌-◌, ◌*◌, ◌%◌, ◌^◌, ◌≤◌, ◌<◌, ◌≡◌, ◌≢◌, ◌↔◌, ◌∙◌, sym, refl, ap, true, false, Bool,
  none, some, ltb, ==_iff, inl, inr, Bool-cases, ◌==◌, ◌∷◌, arith, length, get_elem?, set,
  length-set, lt_of_get_elem?, All,
}
use cs_3224_operating_system.Log.{
  Log, log_size, max_op_blocks, ok, panic, exhausts, begin_op, leave_op, leave_commit, log_write,
  commit,
}
use cs_3224_operating_system.Log.Blocks.{Store}
use cs_3224_operating_system.Log.Absorb.{log_write-Logged}
use cs_3224_operating_system.Log.System.{
  System, booted, sum, remove, Step, begin, write, leave, leave_last, commits, finish, Reach, here,
  next, sum-set, sum-le, All-set, All-remove, sum-remove, length-remove,
}

-- What is written and what may still be written fits the log. At most one process commits, and
-- while it does, no operation runs.
pub record Reserved (s : System) : Type 0 where
  pub counted : s.lg.outstanding ≡ length s.budgets
  pub fits : s.lg.n + sum s.budgets ≤ log_size
  pub each : All (λ x. x ≤ max_op_blocks) s.budgets
  pub few : length s.budgets ≤ 3
  pub one : s.due + s.done ≤ 1
  pub marked : s.lg.committing ≡ ltb 0 (s.due + s.done)
  pub quiet : 0 < s.due + s.done → length s.budgets ≡ 0

record Begun (lg lg' : Log) : Type 0 where
  admitted : exhausts lg ≡ false
  outstanding : lg'.outstanding ≡ (lg.outstanding + 1) % 2 ^ 32
  same_n : lg'.n ≡ lg.n
  idle : lg.committing ≡ false
  still_idle : lg'.committing ≡ false

begin_op-Begun : (lg : Log) {lg' : Log} → begin_op lg ≡ some lg' → Begun lg lg'
unfolding begin_op
begin_op-Begun lg h = ground arith

commit-fields :
    (lg : Log) (st : Store)
    → ((commit lg st).0.n ≡ 0)
      × ((commit lg st).0.outstanding ≡ lg.outstanding)
      × ((commit lg st).0.committing ≡ lg.committing)
unfolding commit
commit-fields lg st = ground arith

record Left (lg lg' : Log) (do_commit : Bool) : Type 0 where
  outstanding : lg'.outstanding ≡ (lg.outstanding + (2 ^ 32 - 1)) % 2 ^ 32
  same_n : lg'.n ≡ lg.n
  idle : lg.committing ≡ false
  marked : lg'.committing ≡ do_commit
  last : do_commit ≡ (lg'.outstanding == 0)

leave_op-Left :
    (lg : Log) {lg' : Log} {do_commit : Bool}
    → leave_op lg ≡ ok (lg', do_commit)
    → Left lg lg' do_commit
unfolding leave_op
leave_op-Left lg h = ground arith

none_busy : (n : ℕ) → ltb 0 n ≡ false → n ≡ 0
none_busy n h = ground arith

module _ {s : System} (inv : Reserved s) where
  open inv use {counted, fits, each, few, one, marked, quiet}

  begin-Reserved :
      {lg' : Log}
      → begin_op s.lg ≡ some lg'
      → Reserved (record s { lg = lg'; budgets = max_op_blocks ∷ s.budgets })
  unfolding exhausts
  begin-Reserved h =
      let b = begin_op-Begun s.lg h in
      let room : s.lg.n + (length s.budgets + 1) * max_op_blocks ≤ log_size =
        ground (arith, b.admitted, counted) in
      let free = none_busy (s.due + s.done) (sym marked ∙ b.idle) in
      record {
        counted = b.outstanding ∙ omega (arith, counted);
        fits = omega (arith, b.same_n, sum-le s.budgets each);
        each = (omega arith, each);
        few = omega arith;
        one = one;
        marked = b.still_idle ∙ sym b.idle ∙ marked;
        quiet = λ busy. absurd (omega (arith, free, busy));
      }

  write-Reserved :
      (i b left : ℕ) {lg' : Log}
      → get_elem? s.budgets i ≡ some (suc left)
      → log_write s.lg b ≡ ok lg'
      → Reserved (record s { lg = lg'; budgets = set s.budgets i left })
  write-Reserved i b left {lg'} e h =
      let l = log_write-Logged s.lg b h in
      let more : lg'.n ≤ s.lg.n + 1 = ground (arith, l.count) in
      record {
        counted = l.same_outstanding ∙ counted ∙ sym (length-set s.budgets i left);
        fits = omega (arith, sum-set s.budgets i left e);
        each = All-set s.budgets i left e each;
        few = omega (arith, length-set s.budgets i left);
        one = one;
        marked = l.same_committing ∙ marked;
        quiet = λ busy. length-set s.budgets i left ∙ quiet busy;
      }

  leave-Reserved :
      (i : ℕ) {lg' : Log}
      → i < length s.budgets
      → leave_op s.lg ≡ ok (lg', false)
      → Reserved (record s { lg = lg'; budgets = remove s.budgets i })
  leave-Reserved i {lg'} lt h =
      let e = leave_op-Left s.lg h in
      let free = none_busy (s.due + s.done) (sym marked ∙ e.idle) in
      record {
        counted = e.outstanding ∙ omega (arith, counted, length-remove s.budgets i lt);
        fits = omega (arith, e.same_n, sum-remove s.budgets i);
        each = All-remove s.budgets i each;
        few = omega (arith, length-remove s.budgets i lt);
        one = one;
        marked = e.marked ∙ sym e.idle ∙ marked;
        quiet = λ busy. absurd (omega (arith, free, busy));
      }

  leave_last-Reserved :
      (i : ℕ) {lg' : Log}
      → i < length s.budgets
      → leave_op s.lg ≡ ok (lg', true)
      → Reserved (record s { lg = lg'; budgets = remove s.budgets i; due = s.due + 1 })
  leave_last-Reserved i {lg'} lt h =
      let e = leave_op-Left s.lg h in
      let free = none_busy (s.due + s.done) (sym marked ∙ e.idle) in
      let shorter = length-remove s.budgets i lt in
      let out : lg'.outstanding ≡ length (remove s.budgets i) =
        e.outstanding ∙ omega (arith, counted, shorter) in
      let zero_left : lg'.outstanding ≡ 0 = (==_iff lg'.outstanding 0).0 (sym e.last) in
      let busy : ltb 0 (s.due + 1 + s.done) ≡ true = ground (arith, free) in
      record {
        counted = out;
        fits = omega (arith, e.same_n, sum-remove s.budgets i);
        each = All-remove s.budgets i each;
        few = omega (arith, shorter);
        one = omega (arith, free);
        marked = e.marked ∙ sym busy;
        quiet = λ b. sym out ∙ zero_left;
      }

  commits-Reserved :
      (st : Store) (others : ℕ)
      → s.due ≡ suc others
      → Reserved (record s { lg = (commit s.lg st).0; due = others; done = s.done + 1 })
  commits-Reserved st others due =
      let c = commit-fields s.lg st in
      let same : s.due + s.done ≡ others + (s.done + 1) = omega (arith, due) in
      record {
        counted = c.1 ∙ counted;
        fits = omega (arith, c.0, fits);
        each = each;
        few = few;
        one = omega (arith, same, one);
        marked = c.2 ∙ marked ∙ ap (ltb 0) same;
        quiet = λ busy. quiet (omega (arith, same, busy));
      }

  finish-Reserved :
      (others : ℕ)
      → s.done ≡ suc others
      → Reserved (record s { lg = leave_commit s.lg; done = others })
  unfolding leave_commit
  finish-Reserved others done =
      let free : s.due + others ≡ 0 = omega (arith, done, one) in
      record {
        counted = counted;
        fits = fits;
        each = each;
        few = few;
        one = omega (arith, free);
        marked = ap (ltb 0) (sym free);
        quiet = λ busy. absurd (omega (arith, free, busy));
      }

  -- With a block of its budget left, an operation's `log_write` panics just if the region is full.
  write-panic :
      (i b left : ℕ)
      → get_elem? s.budgets i ≡ some (suc left)
      → (log_write s.lg b ≡ panic) ↔ (s.lg.size ≤ s.lg.n + 1)
  unfolding log_write
  write-panic i b left e =
      let n_room : s.lg.n < log_size = omega (arith, sum-set s.budgets i left e) in
      let some_op : 0 < s.lg.outstanding = omega (arith, counted, lt_of_get_elem? s.budgets i e) in
      let bounded : s.lg.outstanding ≤ 3 = omega (arith, counted, few) in
      ((λ h. ground arith), (λ h. ground arith))

  -- A running operation finds no commit when it ends.
  leave-ok : (i : ℕ) → i < length s.budgets → leave_op s.lg ≢ panic
  unfolding leave_op
  leave-ok i lt h =
      let idle : s.lg.committing ≡ false = elim (Bool-cases s.lg.committing) [
        | inl on ↦ absurd (omega (arith, lt, quiet (ground (arith, on, marked))))
        | inr off ↦ off
      ] in
      ground arith

-- Every step keeps the reservation.
pub Step-Reserved : {s t : System} → Step s t → Reserved s → Reserved t
Step-Reserved (begin h) inv = begin-Reserved inv h
Step-Reserved (write i b left e h) inv = write-Reserved inv i b left e h
Step-Reserved (leave i lt h) inv = leave-Reserved inv i lt h
Step-Reserved (leave_last i lt h) inv = leave_last-Reserved inv i lt h
Step-Reserved (commits st others e) inv = commits-Reserved inv st others e
Step-Reserved (finish others e) inv = finish-Reserved inv others e

pub Reach-Reserved : {s t : System} → Reserved s → Reach s t → Reserved t
Reach-Reserved inv here = inv
Reach-Reserved inv (next r st) = Step-Reserved st (Reach-Reserved inv r)

booted-Reserved :
    (lg : Log) → lg.n ≡ 0 → lg.outstanding ≡ 0 → lg.committing ≡ false → Reserved (booted lg)
booted-Reserved lg n out idle = record {
  counted = out;
  fits = omega (arith, n);
  each = tt;
  few = omega arith;
  one = omega arith;
  marked = idle;
  quiet = λ busy. absurd (omega arith);
}

-- In every state that the steps of any processes lead to from an empty log without operations, for
-- an operation that has a block of its budget left: the log has fewer than `log_size` entries;
-- `log_write` of any block panics just if the entries and the header fill the log's region; and the
-- first critical section of `end_op` does not panic.
pub admitted-panic :
    {lg : Log} {t : System} (i b left : ℕ)
    → lg.n ≡ 0
    → lg.outstanding ≡ 0
    → lg.committing ≡ false
    → Reach (booted lg) t
    → get_elem? t.budgets i ≡ some (suc left)
    → (t.lg.n < log_size)
      × ((log_write t.lg b ≡ panic) ↔ (t.lg.size ≤ t.lg.n + 1))
      × (leave_op t.lg ≢ panic)
admitted-panic {lg} {t} i b left n out idle r e =
    let now = Reach-Reserved (booted-Reserved lg n out idle) r in
    (
      omega (arith, now.fits, sum-set t.budgets i left e),
      write-panic now i b left e,
      leave-ok now i (lt_of_get_elem? t.budgets i e),
    )

-- In every state that the steps of any processes lead to from an empty log without operations: while
-- a process is between the critical sections of `end_op` to commit, no operation runs, no other
-- process is there, and `begin_op` sleeps.
pub commit_alone :
    {lg : Log} {t : System}
    → lg.n ≡ 0
    → lg.outstanding ≡ 0
    → lg.committing ≡ false
    → Reach (booted lg) t
    → 0 < t.due + t.done
    → (length t.budgets ≡ 0) × (t.due + t.done ≡ 1) × (begin_op t.lg ≡ none)
unfolding begin_op
commit_alone {lg} {t} n out idle r busy =
    let now = Reach-Reserved (booted-Reserved lg n out idle) r in
    let on : t.lg.committing ≡ true = now.marked ∙ ground (arith, busy) in
    (now.quiet busy, omega (arith, busy, now.one), rw on refl)
