-- ===== src/Proc/Table/Child.antt =====
-- `fork` of kernel/proc.c: the child that it makes, and the table after it.
use cs_3224_operating_system.Base.{
  ℕ, zero, suc, ◌+◌, ◌^◌, ◌≤◌, ◌<◌, ◌≡◌, refl, ◌∙◌, ap, sym, subst, inl, inr, ◌&&◌, Option, none,
  some, List, [], ◌∷◌, arith, if◌then◌else◌, ◌==◌, ltb, length, get_or, set, length-set,
  get_or-set_self, Bool-cases, some_inj,
}
use native.Mathlib.Decide.{dec_lt}
use cs_3224_operating_system.Proc.Types.{
  ProcState, Proc, Call, Kernel, blank, nofile, proc_at, put_proc, call,
}
use cs_3224_operating_system.Proc.Alloc.{Entries, allocproc}
use cs_3224_operating_system.Proc.Fork.{dup_loop, copy_proc, name_child, publish, undo, fork}
use cs_3224_operating_system.Proc.Table.Frame.{
  InUse, ValidTickets, WellFormed, Keeps, Keeps-trans, Keeps-WellFormed, Keeps-call, Keeps-put,
  proc_at-put,
}
use cs_3224_operating_system.Proc.Table.Create.{Allocated, allocproc-Allocated}

-- Two entries that differ in their open files at most.
pub record ButFiles (p q : Proc) : Type 0 where
  pub state : q.state ≡ p.state
  pub pid : q.pid ≡ p.pid
  pub parent : q.parent ≡ p.parent
  pub tickets : q.tickets ≡ p.tickets
  pub frame : q.tf ≡ p.tf
  pub size : q.sz ≡ p.sz
  pub pages : q.pgdir ≡ p.pgdir

ButFiles-refl : (p : Proc) → ButFiles p p
ButFiles-refl p = record {
  state = refl;
  pid = refl;
  parent = refl;
  tickets = refl;
  frame = refl;
  size = refl;
  pages = refl;
}

ButFiles-trans : {p q r : Proc} → ButFiles p q → ButFiles q r → ButFiles p r
ButFiles-trans a b = record {
  state = b.state ∙ a.state;
  pid = b.pid ∙ a.pid;
  parent = b.parent ∙ a.parent;
  tickets = b.tickets ∙ a.tickets;
  frame = b.frame ∙ a.frame;
  size = b.size ∙ a.size;
  pages = b.pages ∙ a.pages;
}

-- A step that changes no entry but for its open files.
pub record FilesOnly (k k' : Kernel) : Type 0 where
  pub same_length : length k'.procs ≡ length k.procs
  pub same_next : k'.nextpid ≡ k.nextpid
  pub entry : (i : ℕ) → ButFiles (proc_at k i) (proc_at k' i)

pub FilesOnly-Keeps : {k k' : Kernel} → FilesOnly k k' → Keeps k k'
FilesOnly-Keeps f = record {
  size = f.same_length;
  next = f.same_next;
  entry = λ i u.
      let e = f.entry i in
      record { in_use = λ z. u (e.state ∙ z); pid = e.pid; tickets = inl e.tickets };
}

FilesOnly-put :
    (k : Kernel) (np : ℕ) (p : Proc) (c : Call)
    → ButFiles (proc_at k np) p
    → FilesOnly k (call (put_proc k np p) c)
FilesOnly-put k np p c h = record {
  same_length = length-set k.procs np p;
  same_next = refl;
  entry = λ j. elim (Bool-cases ((np == j) && ltb j (length k.procs))) [
    | inl here ↦
        let e : np ≡ j = ground arith in
        let now : proc_at (put_proc k np p) j ≡ p = proc_at-put k np p j ∙ rw here refl in
        rw (now, ← e) h
    | inr away ↦
        let now : proc_at (put_proc k np p) j ≡ proc_at k j = proc_at-put k np p j ∙ rw away refl in
        rw now (ButFiles-refl (proc_at k j))
  ];
}

FilesOnly-refl : (k : Kernel) → FilesOnly k k
FilesOnly-refl k = record {
  same_length = refl;
  same_next = refl;
  entry = λ i. ButFiles-refl (proc_at k i);
}

FilesOnly-trans : {k l m : Kernel} → FilesOnly k l → FilesOnly l m → FilesOnly k m
FilesOnly-trans a b = record {
  same_length = b.same_length ∙ a.same_length;
  same_next = b.same_next ∙ a.same_next;
  entry = λ i. ButFiles-trans (a.entry i) (b.entry i);
}

pub dup_loop-FilesOnly :
    (rounds i cur np : ℕ) (k : Kernel) → FilesOnly k (dup_loop rounds i cur np k)
unfolding dup_loop
dup_loop-FilesOnly zero i cur np k = FilesOnly-refl k
dup_loop-FilesOnly (suc rounds) i cur np k =
    let f = get_or (proc_at k cur).ofile i 0 in
    let child = proc_at k np in
    let child' = record child { ofile = set child.ofile i f } in
    let dupped = call (put_proc k np child') (Call.filedup f) in
    let step : FilesOnly k (if f == 0 then k else dupped) = elim (Bool-cases (f == 0)) [
      | inl shut ↦ rw shut (FilesOnly-refl k)
      | inr open_file ↦ rw open_file (
          FilesOnly-put k np child' (Call.filedup f) (record {
            state = refl;
            pid = refl;
            parent = refl;
            tickets = refl;
            frame = refl;
            size = refl;
            pages = refl;
          }))
    ] in
    FilesOnly-trans step (dup_loop-FilesOnly rounds (i + 1) cur np (if f == 0 then k else dupped))

-- What `fork` promises of its result: the table is well formed; a child is runnable, has the
-- parent's tickets and memory size, the page table that was made for it, and the parent's registers
-- with 0 in `eax`.
pub record Forked (cur pgdir : ℕ) (k : Kernel) (o : Option ℕ) (k' : Kernel) : Type 0 where
  pub well : WellFormed k'
  pub next : k'.nextpid ≤ k.nextpid + 1
  pub child :
      (pid : ℕ)
      → o ≡ some pid
      → (np : ℕ) × ((proc_at k np).state ≡ ProcState.unused)
        × ((proc_at k' np).pid ≡ pid)
        × ((proc_at k' np).state ≡ ProcState.runnable)
        × ((proc_at k' np).parent ≡ some cur)
        × ((proc_at k' np).tickets ≡ (proc_at k cur).tickets)
        × ((proc_at k' np).tf ≡ record ((proc_at k cur).tf) { eax = 0 })
        × ((proc_at k' np).sz ≡ (proc_at k cur).sz)
        × ((proc_at k' np).pgdir ≡ pgdir)

get_or-past : (ps : List Proc) (i : ℕ) → length ps ≤ i → get_or ps i blank ≡ blank
get_or-past [] i h = refl
get_or-past (p ∷ ps) zero h = absurd (omega arith)
get_or-past (p ∷ ps) (suc i) h = get_or-past ps i (omega arith)

InUse-lt : (k : Kernel) (i : ℕ) → InUse k i → i < length k.procs
InUse-lt k i u = elim (dec_lt i (length k.procs)) [
  | yes h ↦ h
  | no past ↦ absurd (u (ap (λ (p : Proc). p.state) (get_or-past k.procs i (omega arith))))
]

at_self : (k : Kernel) (i : ℕ) (p : Proc) → i < length k.procs → proc_at (put_proc k i p) i ≡ p
at_self k i p h = get_or-set_self k.procs i p blank h

pub publish-Keeps : (np : ℕ) (k : Kernel) → InUse k np → Keeps k (publish np k)
unfolding publish
publish-Keeps np k u = Keeps-put k np _ (λ v. record { in_use = u; pid = refl; tickets = inl refl })

pub undo-Keeps : (np : ℕ) (k : Kernel) → Keeps k (undo np k)
unfolding undo
undo-Keeps np k =
    let c = Call.kfree (proc_at k np).kstack in
    Keeps-trans (Keeps-call k c) (Keeps-put (call k c) np _ (λ u. absurd (u refl)))

module _ (cur pgdir np : ℕ) (k k1 : Kernel) (live : InUse k cur) (w : WellFormed k)
    (a : Allocated k (some np) k1) where
  abbrev child : Proc
  child = copy_proc cur pgdir (proc_at k1 cur) (proc_at k1 np)

  abbrev started : Kernel
  started = put_proc k1 np child

  abbrev dupped : Kernel
  dupped = dup_loop nofile 0 cur np started

  same_parent : proc_at k1 cur ≡ proc_at k cur
  same_parent = a.others cur live

  new : InUse k1 np
  new = (a.fresh np refl).1

  np_lt : np < length k1.procs
  np_lt = InUse-lt k1 np new

  files : FilesOnly started dupped
  files = dup_loop-FilesOnly nofile 0 cur np started

  started_np : proc_at started np ≡ child
  started_np = at_self k1 np child np_lt

  dupped_np : ButFiles child (proc_at dupped np)
  dupped_np = subst (λ p. ButFiles p (proc_at dupped np)) started_np (files.entry np)

  dupped_lt : np < length dupped.procs
  dupped_lt = omega (arith, np_lt, files.same_length, length-set k1.procs np child)

  parent_tickets : ValidTickets child.tickets
  unfolding copy_proc
  parent_tickets =
      let v = w.tickets cur live in
      let e = ap (λ (p : Proc). p.tickets) same_parent in omega (arith, v, e)

  dupped_use : InUse dupped np
  unfolding copy_proc
  dupped_use z = new (sym dupped_np.state ∙ z)

  abbrev named : Kernel
  named = name_child cur np dupped

  named_use : InUse named np
  unfolding name_child copy_proc
  named_use z = dupped_use (sym (ap (λ (p : Proc). p.state) (at_self dupped np _ dupped_lt)) ∙ z)

  named_lt : np < length named.procs
  unfolding name_child
  named_lt = subst (λ n. np < n) (sym (length-set dupped.procs np _)) dupped_lt

  finished-Keeps : Keeps k1 (publish np named)
  unfolding name_child publish copy_proc
  finished-Keeps =
      let tickets : ValidTickets child.tickets = parent_tickets in
      let start : Keeps k1 started =
        Keeps-put k1 np child (λ u. record { in_use = new; pid = refl; tickets = inr tickets }) in
      let last =
        Keeps-put dupped np _
          (λ u. record { in_use = dupped_use; pid = refl; tickets = inl refl }) in
      Keeps-trans start (
        Keeps-trans (FilesOnly-Keeps files)
          (Keeps-trans (Keeps-trans last (Keeps-call _ _)) (publish-Keeps np named named_use)))

  finished_np :
      ((proc_at (publish np named) np).state ≡ ProcState.runnable)
      × ((proc_at (publish np named) np).parent ≡ some cur)
      × ((proc_at (publish np named) np).tickets ≡ (proc_at k cur).tickets)
      × ((proc_at (publish np named) np).tf ≡ record ((proc_at k cur).tf) { eax = 0 })
      × ((proc_at (publish np named) np).sz ≡ (proc_at k cur).sz)
      × ((proc_at (publish np named) np).pgdir ≡ pgdir)
  unfolding name_child publish copy_proc
  finished_np =
      let was = at_self dupped np _ dupped_lt in
      let now = at_self named np _ named_lt in
      let d = dupped_np in
      (
        ap (λ (p : Proc). p.state) now,
        ap (λ (p : Proc). p.parent) now ∙ ap (λ (p : Proc). p.parent) was ∙ d.parent,
        ap (λ (p : Proc). p.tickets) now
            ∙ ap (λ (p : Proc). p.tickets) was
            ∙ d.tickets
            ∙ ap (λ (p : Proc). p.tickets) same_parent,
        ap (λ (p : Proc). p.tf) now
            ∙ ap (λ (p : Proc). p.tf) was
            ∙ d.frame
            ∙ ap (λ (p : Proc). record (p.tf) { eax = 0 }) same_parent,
        ap (λ (p : Proc). p.sz) now
            ∙ ap (λ (p : Proc). p.sz) was
            ∙ d.size
            ∙ ap (λ (p : Proc). p.sz) same_parent,
        ap (λ (p : Proc). p.pgdir) now ∙ ap (λ (p : Proc). p.pgdir) was ∙ d.pages,
      )

-- While `nextpid` has not reached the largest `int`: `fork` in a process of a well-formed table keeps the table well formed, also when it fails. Where
-- it succeeds, its result is the id of a child in an entry that was free; the child is runnable, and
-- it has its parent's tickets, memory size and registers, but for 0 in `eax`, and the page table
-- that was made for it.
pub fork-Forked :
    (e : Entries) (page pgdir cur : ℕ) (k : Kernel)
    → InUse k cur
    → WellFormed k
    → k.nextpid + 1 < 2 ^ 31
    → Forked cur pgdir k (fork e page pgdir cur k).0 (fork e page pgdir cur k).1
unfolding fork
fork-Forked e page pgdir cur k live w ids =
    go (allocproc e page k).0 (allocproc-Allocated e page k w ids)
  where
    go :
        (o : Option ℕ)
        → Allocated k o (allocproc e page k).1
        → let r : Option ℕ × Kernel = elim o as (λ x. Option ℕ × Kernel) [
          | none ↦ (none, (allocproc e page k).1)
          | some np ↦
              (let k' = (allocproc e page k).1 in
                let child = proc_at k' np in
                let undone = undo np k' in
                let started = put_proc k' np (copy_proc cur pgdir (proc_at k' cur) child) in
                let finished = publish np (name_child cur np (dup_loop nofile 0 cur np started)) in
                if pgdir == 0 then (none, undone) else (some (proc_at finished np).pid, finished))
        ] in
          Forked cur pgdir k r.0 r.1
    go none a = record { well = a.well; next = a.next; child = λ pid z. absurd (cc) }
    go (some np) a =
        let k1 = (allocproc e page k).1 in
        elim (Bool-cases (pgdir == 0)) [
          | inl full ↦ rw full (record {
            well = Keeps-WellFormed (undo-Keeps np k1) a.well;
            next = omega (arith, a.next, (undo-Keeps np k1).next);
            child = λ pid z. absurd (cc);
          })
          | inr room ↦
              let f = finished_np cur pgdir np k k1 live w a in
              rw room (record {
                well = Keeps-WellFormed (finished-Keeps cur pgdir np k k1 live w a) a.well;
                next = omega (arith, a.next, (finished-Keeps cur pgdir np k k1 live w a).next);
                child =
                    λ pid z. (np, (a.fresh np refl).0, some_inj z, f.0, f.1, f.2, f.3, f.4, f.5);
              })
        ]
