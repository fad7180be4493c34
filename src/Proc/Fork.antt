-- ===== src/Proc/Fork.antt =====
-- `fork` of kernel/proc.c.
use cs_3224_operating_system.Base.{
  ℕ, zero, suc, ◌+◌, Option, none, some, if◌then◌else◌, ◌==◌, get_or, set,
}
use cs_3224_operating_system.Kstring.Strings.{safestrcpy}
use cs_3224_operating_system.Proc.Types.{
  ProcState, Proc, Call, Kernel, nofile, proc_at, put_proc, call,
}
use cs_3224_operating_system.Proc.Alloc.{Entries, allocproc}

-- `for (i = 0; i < NOFILE; i++) if (proc->ofile[i]) np->ofile[i] = filedup(proc->ofile[i]);`, with
-- the rounds left. `filedup` returns its argument.
unfoldable pub dup_loop : (rounds i : ℕ) (cur np : ℕ) → Kernel → Kernel
dup_loop zero i cur np k = k
dup_loop (suc rounds) i cur np k =
    let f = get_or (proc_at k cur).ofile i 0 in
    let child = proc_at k np in
    let dupped =
      call (put_proc k np (record child { ofile = set child.ofile i f })) (Call.filedup f) in
    dup_loop rounds (i + 1) cur np (if f == 0 then k else dupped)

-- What `fork` copies from the parent before the files.
unfoldable pub copy_proc : (cur pgdir : ℕ) → Proc → Proc → Proc
copy_proc cur pgdir parent child = record child {
  pgdir = pgdir;
  sz = parent.sz;
  parent = some cur;
  tickets = parent.tickets;
  tf = record (parent.tf) { eax = 0 };
}

-- After the files: the directory and the name.
unfoldable pub name_child : (cur np : ℕ) → Kernel → Kernel
name_child cur np k =
    let parent = proc_at k cur in
    let child = proc_at k np in
    call
      (put_proc k np (record child {
        cwd = parent.cwd;
        name = safestrcpy child.name (λ i. get_or parent.name i 0) 16;
      }))
      (Call.idup parent.cwd)

-- The critical section at the end.
unfoldable pub publish : (np : ℕ) → Kernel → Kernel
publish np k = put_proc k np (record (proc_at k np) { state = ProcState.runnable })

-- What `fork` undoes when `copyuvm` fails.
unfoldable pub undo : (np : ℕ) → Kernel → Kernel
undo np k =
    let child = proc_at k np in
    put_proc (call k (Call.kfree child.kstack)) np
      (record child { pgdir = 0; kstack = 0; state = ProcState.unused })

-- `page` is what `kalloc` returns, and `pgdir` what `copyuvm` does. `none` is the result -1. This is
-- `fork` with no other process in between; its parts are steps of their own in Table/Steps.
unfoldable pub fork : Entries → (page pgdir cur : ℕ) → Kernel → Option ℕ × Kernel
unfolding allocproc dup_loop copy_proc name_child publish undo
fork e page pgdir cur k =
    let (found, k') = allocproc e page k in
    elim found [
      | none ↦ (none, k')
      | some np ↦
          (let child = proc_at k' np in
            let undone = undo np k' in
            let started = put_proc k' np (copy_proc cur pgdir (proc_at k' cur) child) in
            let finished = publish np (name_child cur np (dup_loop nofile 0 cur np started)) in
            if pgdir == 0 then (none, undone) else (some (proc_at finished np).pid, finished))
    ]
