-- ===== src/Proc/Alloc.antt =====
-- `allocproc`, `userinit` and `growproc` of kernel/proc.c.
use cs_3224_operating_system.Base.{
  ℕ, Bool, true, false, ◌+◌, ◌*◌, ◌%◌, ◌^◌, Option, none, some, [], ◌∷◌, if◌then◌else◌, ◌==◌,
  get_or,
}
use cs_3224_operating_system.Kstring.Strings.{safestrcpy}
use cs_3224_operating_system.Proc.Types.{
  ProcState, Proc, Call, Kernel, is_unused, no_frame, no_context, proc_at, put_proc, call,
}
use cs_3224_operating_system.Proc.Random.{get_random}
use cs_3224_operating_system.Proc.Sleep.{find_proc}

-- The addresses of `forkret` and `trapret`.
pub record Entries : Type 0 where
  pub forkret : ℕ
  pub trapret : ℕ

-- The entry after the label `found`: the state, the process id and the tickets. `nextpid` is an `int`,
-- as its 32-bit pattern.
unfoldable pub claim : ℕ → Kernel → Kernel
unfolding get_random
claim i k =
    let (rand, turned) = get_random k.random_int in
    put_proc (record k { nextpid = (k.nextpid + 1) % 2 ^ 32; random_int = turned }) i
      (record (proc_at k i) { state = ProcState.embryo; pid = k.nextpid; tickets = rand % 999 + 1 })

-- The stack, the context and the times of a claimed entry.
unfoldable pub prepare : Entries → ℕ → ℕ → Proc → Proc
prepare e kstack ticks p = record p {
  kstack = kstack;
  return_to = e.trapret;
  context = record no_context { eip = e.forkret };
  ctime = ticks;
  ttime = 0;
  retime = 0;
  rutime = 0;
  stime = 0;
}

-- `page` is what `kalloc` returns. The result is the entry's index, or `none` for the null pointer.
unfoldable pub allocproc : Entries → (page : ℕ) → Kernel → Option ℕ × Kernel
unfolding claim prepare find_proc
allocproc e page k = elim (find_proc (λ p. is_unused p.state) 0 k.procs) [
  | none ↦ (none, k)
  | some i ↦
      (let k' = claim i k in
        let p = proc_at k' i in
        if page == 0
        then (none, put_proc k' i (record p { kstack = 0; state = ProcState.unused }))
        else (some i, put_proc k' i (prepare e page k.ticks p)))
]

-- "initcode", with its NUL
abbrev pub initcode : ℕ → ℕ
initcode i = get_or (b'i' ∷ b'n' ∷ b'i' ∷ b't' ∷ b'c' ∷ b'o' ∷ b'd' ∷ b'e' ∷ []) i 0

-- SEG_UCODE << 3 | DPL_USER, and SEG_UDATA << 3 | DPL_USER
abbrev pub user_cs : ℕ
user_cs = 4 * 8 + 3

abbrev pub user_ds : ℕ
user_ds = 5 * 8 + 3

abbrev pub page_size : ℕ
page_size = 4096

-- The first process, after `setupkvm` has returned the page table `pgdir`.
unfoldable pub first_proc : (pgdir root : ℕ) → Proc → Proc
first_proc pgdir root p = record p {
  pgdir = pgdir;
  sz = page_size;
  tf = record no_frame {
    cs = user_cs;
    ds = user_ds;
    es = user_ds;
    ss = user_ds;
    eflags = 512;
    esp = page_size;
    eip = 0;
  };
  name = safestrcpy p.name initcode 16;
  cwd = root;
  state = ProcState.runnable;
}

-- `pgdir` is what `setupkvm` returns, and `root` what `namei("/")` does. `none` is a panic, or a
-- write through a null pointer.
unfoldable pub userinit : Entries → (page pgdir root : ℕ) → Kernel → Option Kernel
unfolding allocproc first_proc
userinit e page pgdir root k =
    let (found, k') = allocproc e page k in
    elim found [
      | none ↦ none
      | some i ↦
          (let k'' = call (record k' { initproc = some i }) (Call.inituvm pgdir) in
            if pgdir == 0
            then none
            else some (put_proc k'' i (first_proc pgdir root (proc_at k'' i))))
    ]

-- `size` is what `allocuvm` returns for a positive `n`, and `deallocuvm` for a negative one; neither
-- is called for 0. `true` is the result 0, and `false` is -1.
unfoldable pub growproc : (cur n size : ℕ) → Kernel → Bool × Kernel
growproc cur n size k =
    let p = proc_at k cur in
    let resized = λ (sz : ℕ). call (put_proc k cur (record p { sz = sz })) (Call.switchuvm cur) in
    if n == 0 then (true, resized p.sz) else if size == 0 then (false, k) else (true, resized size)
