-- ===== src/Pipe.antt =====
-- homework-3-lottery-scheduling/kernel/pipe.c (homework-1-sort has the same file): a ring of 512
-- bytes between two counters. The lock makes each stretch between two sleeps one step: an
-- operation that sleeps returns what is left to do, and does it when it is called again.
pub mod Holds
pub mod Fifo
mod Tests
use cs_3224_operating_system.Base.{
  ℕ, zero, suc, ◌+◌, ◌%◌, ◌^◌, Bool, true, false, not, ◌&&◌, ◌||◌, List, [], ◌∷◌, ◌++◌,
  if◌then◌else◌, ◌==◌, get_or, set,
}

abbrev pub pipe_size : ℕ
pipe_size = 512

-- The channels `&p->nread`, where readers sleep, and `&p->nwrite`.
pub data End : Type 0 where
  readers writers : End

-- `struct pipe`. `wakeups` lists the calls of `wakeup`, and `freed` says whether the page has been
-- given back.
pub record Pipe : Type 0 where
  pub data_of : List ℕ
  pub nread : ℕ
  pub nwrite : ℕ
  pub readopen : Bool
  pub writeopen : Bool
  pub wakeups : List End
  pub freed : Bool

abbrev pub wake_up : End → Pipe → Pipe
wake_up e p = record p { wakeups = p.wakeups ++ (e ∷ []) }

-- What `pipealloc` makes of a page with the bytes `page` at `data`.
unfoldable pub new_pipe : List ℕ → Pipe
new_pipe page = record {
  data_of = page;
  nread = 0;
  nwrite = 0;
  readopen = true;
  writeopen = true;
  wakeups = [];
  freed = false;
}

unfoldable pub pipeclose : (writable : Bool) → Pipe → Pipe
pipeclose writable p =
    let closed =
      if writable
      then wake_up End.readers (record p { writeopen = false })
      else wake_up End.writers (record p { readopen = false }) in
    if not closed.readopen && not closed.writeopen then record closed { freed = true } else closed

abbrev pub is_full : Pipe → Bool
is_full p = p.nwrite == (p.nread + pipe_size) % 2 ^ 32

abbrev pub is_empty : Pipe → Bool
is_empty p = p.nread == p.nwrite

-- `p->data[p->nwrite++ % PIPESIZE] = c`
unfoldable pub put_byte : ℕ → Pipe → Pipe
put_byte c p = record p {
  data_of = set p.data_of (p.nwrite % pipe_size) c;
  nwrite = (p.nwrite + 1) % 2 ^ 32;
}

-- `pipewrite` returns, or fails with -1, or sleeps with bytes left to write.
pub data Written : Type 0 where
  done : Pipe → Written
  failed : Pipe → Written
  asleep : List ℕ → Pipe → Written

-- `pipewrite` of the bytes that are left.
unfoldable pub pipewrite : (killed : Bool) → List ℕ → Pipe → Written
unfolding put_byte
pipewrite killed [] p = Written.done (wake_up End.readers p)
pipewrite killed (c ∷ cs) p =
    let rest = pipewrite killed cs (put_byte c p) in
    if is_full p
    then (if not p.readopen || killed
        then Written.failed p
        else Written.asleep (c ∷ cs) (wake_up End.readers p))
    else rest

-- The loop that copies at most `n` bytes out.
unfoldable pub read_bytes : ℕ → Pipe → List ℕ × Pipe
read_bytes zero p = ([], p)
read_bytes (suc n) p =
    let c = get_or p.data_of (p.nread % pipe_size) 0 in
    let (cs, p') = read_bytes n (record p { nread = (p.nread + 1) % 2 ^ 32 }) in
    if is_empty p then ([], p) else (c ∷ cs, p')

-- `piperead` returns bytes, or fails with -1, or sleeps.
pub data Got : Type 0 where
  bytes : List ℕ → Pipe → Got
  failed : Pipe → Got
  asleep : Pipe → Got

unfoldable pub piperead : (killed : Bool) → ℕ → Pipe → Got
unfolding read_bytes
piperead killed n p =
    let (cs, p') = read_bytes n p in
    if is_empty p && p.writeopen
    then (if killed then Got.failed p else Got.asleep p)
    else Got.bytes cs (wake_up End.writers p')
