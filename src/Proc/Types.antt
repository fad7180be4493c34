-- ===== src/Proc/Types.antt =====
-- The data of kernel/proc.h and the state of kernel/proc.c in homework-3-lottery-scheduling.
use cs_3224_operating_system.Base.{
  ℕ, Bool, true, false, Option, none, List, [], ◌∷◌, ◌++◌, ◌==◌, get_or, set, replicate,
}

abbrev pub nproc : ℕ
nproc = 64

abbrev pub nofile : ℕ
nofile = 16

-- `enum procstate`
pub data ProcState : Type 0 where
  unused embryo sleeping runnable running zombie : ProcState

abbrev pub is_unused : ProcState → Bool
is_unused ProcState.unused = true
is_unused _ = false

abbrev pub is_sleeping : ProcState → Bool
is_sleeping ProcState.sleeping = true
is_sleeping _ = false

abbrev pub is_runnable : ProcState → Bool
is_runnable ProcState.runnable = true
is_runnable _ = false

abbrev pub is_running : ProcState → Bool
is_running ProcState.running = true
is_running _ = false

abbrev pub is_zombie : ProcState → Bool
is_zombie ProcState.zombie = true
is_zombie _ = false

-- A sleep channel: null, the address of a table entry, or another address.
pub data Chan : Type 0 where
  null : Chan
  of_proc : ℕ → Chan
  at : ℕ → Chan

abbrev pub same_chan : Chan → Chan → Bool
same_chan Chan.null Chan.null = true
same_chan (Chan.of_proc i) (Chan.of_proc j) = i == j
same_chan (Chan.at a) (Chan.at b) = a == b
same_chan _ _ = false

-- The registers of `struct trapframe` that the kernel sets or copies one by one; `rest` has the
-- other words, which are only copied as a whole.
pub record TrapFrame : Type 0 where
  pub eax : ℕ
  pub es : ℕ
  pub ds : ℕ
  pub eip : ℕ
  pub cs : ℕ
  pub eflags : ℕ
  pub esp : ℕ
  pub ss : ℕ
  pub rest : List ℕ

-- `struct context`
pub record Context : Type 0 where
  pub edi : ℕ
  pub esi : ℕ
  pub ebx : ℕ
  pub ebp : ℕ
  pub eip : ℕ

-- `struct proc`. A null pointer is 0, and `none` for `parent`. `tf` and `context` are what the
-- pointers of these names point to, in the kernel stack, and `return_to` is the word between them.
pub record Proc : Type 0 where
  pub sz : ℕ
  pub pgdir : ℕ
  pub kstack : ℕ
  pub state : ProcState
  pub pid : ℕ
  pub parent : Option ℕ
  pub tf : TrapFrame
  pub return_to : ℕ
  pub context : Context
  pub chan : Chan
  pub killed : Bool
  pub ofile : List ℕ
  pub cwd : ℕ
  pub name : List ℕ
  pub ctime : ℕ
  pub ttime : ℕ
  pub stime : ℕ
  pub retime : ℕ
  pub rutime : ℕ
  pub tickets : ℕ

-- A call of another component, with its arguments.
pub data Call : Type 0 where
  filedup : ℕ → Call
  fileclose : ℕ → Call
  idup : ℕ → Call
  iput : ℕ → Call
  begin_op : Call
  end_op : Call
  kfree : ℕ → Call
  freevm : ℕ → Call
  inituvm : ℕ → Call
  switchuvm : ℕ → Call
  switchkvm : Call
  sched : ℕ → Call

-- The variables of proc.c, `ticks` of trap.c, and the calls made so far.
pub record Kernel : Type 0 where
  pub procs : List Proc
  pub nextpid : ℕ
  pub random_int : List ℕ
  pub initproc : Option ℕ
  pub ticks : ℕ
  pub calls : List Call

abbrev pub no_frame : TrapFrame
no_frame = record {
  eax = 0;
  es = 0;
  ds = 0;
  eip = 0;
  cs = 0;
  eflags = 0;
  esp = 0;
  ss = 0;
  rest = [];
}

abbrev pub no_context : Context
no_context = record { edi = 0; esi = 0; ebx = 0; ebp = 0; eip = 0 }

-- An entry of the table at boot: all its bytes are 0.
abbrev pub blank : Proc
blank = record {
  sz = 0;
  pgdir = 0;
  kstack = 0;
  state = ProcState.unused;
  pid = 0;
  parent = none;
  tf = no_frame;
  return_to = 0;
  context = no_context;
  chan = Chan.null;
  killed = false;
  ofile = replicate nofile 0;
  cwd = 0;
  name = replicate 16 0;
  ctime = 0;
  ttime = 0;
  stime = 0;
  retime = 0;
  rutime = 0;
  tickets = 0;
}

-- `ptable.proc[i]`; an index past the table has a blank entry, and no write reaches it.
abbrev pub proc_at : Kernel → ℕ → Proc
proc_at k i = get_or k.procs i blank

abbrev pub put_proc : Kernel → ℕ → Proc → Kernel
put_proc k i p = record k { procs = set k.procs i p }

abbrev pub call : Kernel → Call → Kernel
call k c = record k { calls = k.calls ++ (c ∷ []) }
