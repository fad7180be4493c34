-- ===== src/Pipe/Tests.antt =====
-- Runs of kernel/pipe.c, and the theorems at concrete inputs.
use cs_3224_operating_system.Base.{
  ℕ, ◌≡◌, refl, true, false, List, [], ◌∷◌, ◌++◌, arith, replicate, length-replicate,
}
use cs_3224_operating_system.Pipe.{
  Pipe, End, pipe_size, wake_up, new_pipe, put_byte, Written, pipewrite, Got, piperead,
}
use cs_3224_operating_system.Pipe.Holds.{Holds, Leaves, pipewrite-Leaves, Returns, piperead-Returns}
use cs_3224_operating_system.Pipe.Fifo.{Run, Run-Holds}

abbrev fresh : Pipe
unfolding new_pipe
fresh = new_pipe (replicate pipe_size 7)

abbrev word : List ℕ
word = b'a' ∷ b'b' ∷ b'c' ∷ []

-- The pipe after "abc".
abbrev filled : Pipe
unfolding put_byte
filled = wake_up End.readers (put_byte b'c' (put_byte b'b' (put_byte b'a' fresh)))

written_eq : pipewrite false word fresh ≡ Written.done filled
unfolding pipewrite fresh
written_eq = refl

-- The pipe after a read of two bytes.
abbrev drained : Pipe
drained = wake_up End.writers (record filled { nread = 2 })

read_eq : piperead false 2 filled ≡ Got.bytes (b'a' ∷ b'b' ∷ []) drained
unfolding piperead fresh filled
read_eq = refl

fresh_run : Run [] [] fresh
unfolding fresh
fresh_run = Run.start (replicate pipe_size 7) (length-replicate {A = ℕ} pipe_size 7)

filled_run : Run word [] filled
filled_run = Run.writes false word fresh_run written_eq

drained_run : Run word (b'a' ∷ b'b' ∷ []) drained
drained_run = Run.reads false 2 (b'a' ∷ b'b' ∷ []) filled_run read_eq

Run-Holds_example : (q : List ℕ) × (word ≡ (b'a' ∷ b'b' ∷ []) ++ q) × Holds drained q
Run-Holds_example = Run-Holds drained_run

fresh-Holds : Holds fresh []
unfolding fresh
fresh-Holds = record {
  size = length-replicate {A = ℕ} pipe_size 7;
  room = omega arith;
  low = omega arith;
  count = refl;
  cell = λ j lt. absurd (omega arith);
}

pipewrite-Leaves_example : Leaves false fresh [] word (pipewrite false word fresh)
pipewrite-Leaves_example = pipewrite-Leaves false word fresh [] fresh-Holds

piperead-Returns_example : Returns true 5 fresh [] (piperead true 5 fresh)
piperead-Returns_example = piperead-Returns true 5 fresh [] fresh-Holds
