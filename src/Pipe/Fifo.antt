-- ===== src/Pipe/Fifo.antt =====
-- The pipe of kernel/pipe.c over any sequence of operations: first in, first out.
use cs_3224_operating_system.Base.{
  ℕ, ◌-◌, ◌≡◌, refl, ◌∙◌, ap, sym, subst, Bool, true, false, not, ◌&&◌, List, [], ◌∷◌, ◌++◌, arith,
  length, take, drop, length-append, take-append-drop, Bool-cases, inl, inr,
}
use mathlib.Core.List.{append_assoc}
use cs_3224_operating_system.Pipe.{
  Pipe, pipe_size, new_pipe, pipeclose, Written, pipewrite, Got, piperead,
}
use cs_3224_operating_system.Pipe.Holds.{Holds, Leaves, pipewrite-Leaves, Returns, piperead-Returns}

-- The operations on one pipe, with all the bytes that have been written to it and read from it. A
-- `pipewrite` that sleeps has written what comes before the bytes that are left.
pub data Run : (written read : List ℕ) → Pipe → Type 0 where
  start : (page : List ℕ) → length page ≡ pipe_size → Run [] [] (new_pipe page)
  writes :
      {w r : List ℕ} {p p' : Pipe} (killed : Bool) (bytes : List ℕ)
      → Run w r p
      → pipewrite killed bytes p ≡ Written.done p'
      → Run (w ++ bytes) r p'
  sleeps :
      {w r : List ℕ} {p p' : Pipe} (killed : Bool) (bytes left : List ℕ)
      → Run w r p
      → pipewrite killed bytes p ≡ Written.asleep left p'
      → Run (w ++ take (length bytes - length left) bytes) r p'
  -- A write that fails has put the bytes for which there was room.
  fails :
      {w r : List ℕ} {p p' : Pipe} (killed : Bool) (bytes : List ℕ)
      → Run w r p
      → pipewrite killed bytes p ≡ Written.failed p'
      → Run (w ++ take (pipe_size - (length w - length r)) bytes) r p'
  reads :
      {w r : List ℕ} {p p' : Pipe} (killed : Bool) (n : ℕ) (bytes : List ℕ)
      → Run w r p
      → piperead killed n p ≡ Got.bytes bytes p'
      → Run w (r ++ bytes) p'
  read_fails :
      {w r : List ℕ} {p p' : Pipe} (killed : Bool) (n : ℕ)
      → Run w r p
      → piperead killed n p ≡ Got.failed p'
      → Run w r p'
  read_sleeps :
      {w r : List ℕ} {p p' : Pipe} (killed : Bool) (n : ℕ)
      → Run w r p
      → piperead killed n p ≡ Got.asleep p'
      → Run w r p'
  closes : {w r : List ℕ} {p : Pipe} (writable : Bool) → Run w r p → Run w r (pipeclose writable p)

take-append : (xs ys : List ℕ) → take (length xs) (xs ++ ys) ≡ xs
take-append [] ys = refl
take-append (x ∷ xs) ys = ap (λ l. x ∷ l) (take-append xs ys)

before-left :
    (bytes sent left : List ℕ)
    → bytes ≡ sent ++ left
    → take (length bytes - length left) bytes ≡ sent
before-left bytes sent left e =
    let len : length bytes - length left ≡ length sent =
      omega (arith, ap length e, length-append sent left) in
    rw (len, e) (take-append sent left)

pipeclose-Holds :
    (writable : Bool) (p : Pipe) (q : List ℕ) → Holds p q → Holds (pipeclose writable p) q
unfolding pipeclose
pipeclose-Holds true p q h = elim (Bool-cases (not p.readopen && true)) [
  | inl last ↦
      rw last (record { size = h.size; room = h.room; low = h.low; count = h.count; cell = h.cell })
  | inr other ↦
      rw other
        (record { size = h.size; room = h.room; low = h.low; count = h.count; cell = h.cell })
]
pipeclose-Holds false p q h = elim (Bool-cases (not p.writeopen)) [
  | inl last ↦
      rw last (record { size = h.size; room = h.room; low = h.low; count = h.count; cell = h.cell })
  | inr other ↦
      rw other
        (record { size = h.size; room = h.room; low = h.low; count = h.count; cell = h.cell })
]

-- Whatever the order of the writes and reads, those that sleep or fail included, and closes, the
-- bytes read are the first ones
-- written, in the order in which they were written, and the pipe holds exactly the others, at most
-- 512.
pub Run-Holds : {w r : List ℕ} {p : Pipe} → Run w r p → (q : List ℕ) × (w ≡ r ++ q) × Holds p q
unfolding new_pipe
Run-Holds (Run.start page len) = (
  [],
  refl,
  record {
    size = len;
    room = omega arith;
    low = omega arith;
    count = refl;
    cell = λ j lt. absurd (omega arith);
  },
)
Run-Holds (Run.writes {w} {r} {p} killed bytes run e) =
    let (q, split, h) = Run-Holds run in
    (
      q ++ bytes,
      ap (λ l. l ++ bytes) split ∙ append_assoc r q bytes,
      subst (Leaves killed p q bytes) e (pipewrite-Leaves killed bytes p q h),
    )
Run-Holds (Run.sleeps {w} {r} {p} killed bytes left run e) =
    let (q, split, h) = Run-Holds run in
    let (sent, parts, after, len, reader, alive) =
      subst (Leaves killed p q bytes) e (pipewrite-Leaves killed bytes p q h) in
    let part = before-left bytes sent left parts in
    (q ++ sent, rw part (ap (λ l. l ++ sent) split ∙ append_assoc r q sent), after)
Run-Holds (Run.fails {w} {r} {p} killed bytes run e) =
    let (q, split, h) = Run-Holds run in
    let (sent, left, parts, after, len, why) =
      subst (Leaves killed p q bytes) e (pipewrite-Leaves killed bytes p q h) in
    let count : pipe_size - (length w - length r) ≡ length sent =
      omega (arith, ap length split, length-append r q, len, length-append q sent) in
    let part : take (pipe_size - (length w - length r)) bytes ≡ sent =
      ap (λ n. take n bytes) count ∙ ap (take (length sent)) parts ∙ take-append sent left in
    (q ++ sent, rw part (ap (λ l. l ++ sent) split ∙ append_assoc r q sent), after)
Run-Holds (Run.read_fails {w} {r} {p} killed n run e) =
    let (q, split, h) = Run-Holds run in
    let (same, _, _, _) = subst (Returns killed n p q) e (piperead-Returns killed n p q h) in
    (q, split, subst (λ x. Holds x q) (sym same) h)
Run-Holds (Run.read_sleeps {w} {r} {p} killed n run e) =
    let (q, split, h) = Run-Holds run in
    let (same, _, _, _) = subst (Returns killed n p q) e (piperead-Returns killed n p q h) in
    (q, split, subst (λ x. Holds x q) (sym same) h)
Run-Holds (Run.reads {w} {r} {p} killed n bytes run e) =
    let (q, split, h) = Run-Holds run in
    let (got, after, ends) = subst (Returns killed n p q) e (piperead-Returns killed n p q h) in
    (
      drop n q,
      split
          ∙ ap (λ l. r ++ l) (sym (take-append-drop n q))
          ∙ sym (append_assoc r (take n q) (drop n q))
          ∙ ap (λ l. (r ++ l) ++ drop n q) (sym got),
      after,
    )
Run-Holds (Run.closes {w} {r} {p} writable run) =
    let (q, split, h) = Run-Holds run in (q, split, pipeclose-Holds writable p q h)
