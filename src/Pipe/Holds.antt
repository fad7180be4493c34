-- ===== src/Pipe/Holds.antt =====
-- The bytes that a pipe of kernel/pipe.c holds, as a queue.
use cs_3224_operating_system.Base.{
  ℕ, zero, suc, ◌+◌, ◌%◌, ◌^◌, ◌≤◌, ◌<◌, ◌≡◌, refl, ◌∙◌, ap, sym, Bool, true, false, not, ◌&&◌,
  ◌||◌, ◌⊎◌, List, [], ◌∷◌, ◌++◌, arith, ◌==◌, length, get_or, take, drop, length-set,
  length-append, get_or-set, get_or-append_at, Bool-cases, inl, inr,
}
use native.Mathlib.Decide.{ℕ_discrete}
use mathlib.Core.List.{append-nil, append_assoc}
use cs_3224_operating_system.Pipe.{
  Pipe, End, pipe_size, wake_up, is_full, is_empty, put_byte, Written, pipewrite, read_bytes, Got,
  piperead,
}

-- The pipe holds the bytes `q`, the oldest first.
pub record Holds (p : Pipe) (q : List ℕ) : Type 0 where
  pub size : length p.data_of ≡ pipe_size
  pub room : length q ≤ pipe_size
  pub low : p.nread < 2 ^ 32
  pub count : p.nwrite ≡ (p.nread + length q) % 2 ^ 32
  pub cell : (j : ℕ) → j < length q → get_or p.data_of ((p.nread + j) % pipe_size) 0 ≡ get_or q j 0

pub is_full_iff : (p : Pipe) (q : List ℕ) → Holds p q → is_full p ≡ (length q == pipe_size)
is_full_iff p q h = ground (arith, h.room, h.low, h.count)

pub is_empty_iff : (p : Pipe) (q : List ℕ) → Holds p q → is_empty p ≡ (length q == 0)
is_empty_iff p q h = ground (arith, h.room, h.low, h.count)

get_or-append_front :
    (q : List ℕ) (c j : ℕ) → j < length q → get_or (q ++ (c ∷ [])) j 0 ≡ get_or q j 0
get_or-append_front [] c j h = absurd (omega arith)
get_or-append_front (x ∷ q) c zero h = refl
get_or-append_front (x ∷ q) c (suc j) h = get_or-append_front q c j (omega arith)

pub put_byte-Holds :
    (c : ℕ) (p : Pipe) (q : List ℕ)
    → Holds p q
    → length q < pipe_size
    → Holds (put_byte c p) (q ++ (c ∷ []))
unfolding put_byte
put_byte-Holds c p q h free =
    let len : length (q ++ (c ∷ [])) ≡ length q + 1 = length-append q (c ∷ []) in
    let at : p.nwrite % pipe_size ≡ (p.nread + length q) % pipe_size =
      omega (arith, h.low, h.count) in
    record {
      size = length-set p.data_of (p.nwrite % pipe_size) c ∙ h.size;
      room = omega (arith, len);
      low = h.low;
      count = omega (arith, len, h.low, h.count);
      cell = λ j lt. elim (ℕ_discrete j (length q)) [
        | yes e ↦
            rw (e, ← at)
              (get_or-set p.data_of (p.nwrite % pipe_size) (p.nwrite % pipe_size) c 0
                ∙ ground (arith, h.size, sym (get_or-append_at q [] c 0)))
        | no ne ↦
            get_or-set p.data_of (p.nwrite % pipe_size) ((p.nread + j) % pipe_size) c 0
            ∙ ground (arith, at, h.room)
            ∙ h.cell j (omega (arith, len, lt))
            ∙ sym (get_or-append_front q c j (omega (arith, len, lt)))
      ];
    }

pub take_byte-Holds :
    (p : Pipe) (c : ℕ) (q : List ℕ)
    → Holds p (c ∷ q)
    → (get_or p.data_of (p.nread % pipe_size) 0 ≡ c)
      × Holds (record p { nread = (p.nread + 1) % 2 ^ 32 }) q
take_byte-Holds p c q h = (
  (let e : p.nread + 0 ≡ p.nread = omega arith in
      ap (λ n. get_or p.data_of (n % pipe_size) 0) (sym e) ∙ h.cell 0 (omega arith)),
  record {
    size = h.size;
    room = omega (arith, h.room);
    low = omega arith;
    count = omega (arith, h.count, h.low, h.room);
    cell = λ j lt.
        let e : ((p.nread + 1) % 2 ^ 32 + j) % pipe_size ≡ (p.nread + suc j) % pipe_size =
          omega arith in
        ap (λ n. get_or p.data_of n 0) e ∙ h.cell (suc j) (omega (arith, lt));
  },
)

pub wake_up-Holds : (e : End) {p : Pipe} {q : List ℕ} → Holds p q → Holds (wake_up e p) q
wake_up-Holds e h = record {
  size = h.size;
  room = h.room;
  low = h.low;
  count = h.count;
  cell = h.cell;
}

-- What `pipewrite` of `bytes` leaves of a pipe that held `q`.
abbrev pub Leaves : Bool → Pipe → (q bytes : List ℕ) → Written → Type 0
Leaves killed p q bytes (Written.done p') = Holds p' (q ++ bytes)
Leaves killed p q bytes (Written.failed p') =
    (sent left : List ℕ) × (bytes ≡ sent ++ left)
    × Holds p' (q ++ sent)
    × (length (q ++ sent) ≡ pipe_size)
    × ((p.readopen ≡ false) ⊎ (killed ≡ true))
Leaves killed p q bytes (Written.asleep left p') =
    (sent : List ℕ) × (bytes ≡ sent ++ left)
    × Holds p' (q ++ sent)
    × (length (q ++ sent) ≡ pipe_size)
    × (p.readopen ≡ true)
    × (killed ≡ false)

Leaves-cons :
    (killed : Bool) (c : ℕ) (p : Pipe) (q cs : List ℕ) (w : Written)
    → Leaves killed (put_byte c p) (q ++ (c ∷ [])) cs w
    → Leaves killed p q (c ∷ cs) w
unfolding put_byte
Leaves-cons killed c p q cs (Written.done p') h = rw (← append_assoc q (c ∷ []) cs) h
Leaves-cons killed c p q cs (Written.failed p') (sent, left, e, h, len, why) = (
  c ∷ sent,
  left,
  ap (λ l. c ∷ l) e,
  rw (← append_assoc q (c ∷ []) sent) h,
  rw (← append_assoc q (c ∷ []) sent) len,
  why,
)
Leaves-cons killed c p q cs (Written.asleep left p') (sent, e, h, len, reader, alive) = (
  c ∷ sent,
  ap (λ l. c ∷ l) e,
  rw (← append_assoc q (c ∷ []) sent) h,
  rw (← append_assoc q (c ∷ []) sent) len,
  reader,
  alive,
)

-- `pipewrite` puts the bytes behind those that the pipe holds, in order: all of them, or, where the
-- pipe is full before, a first part. It then fails if no reader is left or the process has been
-- killed, and otherwise sleeps with the rest.
pub pipewrite-Leaves :
    (killed : Bool) (bytes : List ℕ) (p : Pipe) (q : List ℕ)
    → Holds p q
    → Leaves killed p q bytes (pipewrite killed bytes p)
unfolding pipewrite
pipewrite-Leaves killed [] p q h = rw append-nil (wake_up-Holds End.readers h)
pipewrite-Leaves killed (c ∷ cs) p q h = elim (Bool-cases (is_full p)) [
  | inl full ↦
      let len : length (q ++ []) ≡ pipe_size =
        ap length (append-nil q) ∙ ground (arith, is_full_iff p q h) in
      elim (Bool-cases (not p.readopen || killed)) [
        | inl stop ↦ rw (full, stop) ([], c ∷ cs, refl, rw append-nil h, len, ground arith)
        | inr on ↦
            rw (full, on)
              (
                [],
                refl,
                rw append-nil (wake_up-Holds End.readers h),
                len,
                ground arith,
                ground arith,
              )
      ]
  | inr free ↦
      let below : length q < pipe_size = ground (arith, is_full_iff p q h, h.room) in
      rw free (
        Leaves-cons killed c p q cs (pipewrite killed cs (put_byte c p)) (
          pipewrite-Leaves killed cs (put_byte c p) (q ++ (c ∷ [])) (put_byte-Holds c p q h below)))
]

pub read_bytes-Holds :
    (n : ℕ) (p : Pipe) (q : List ℕ)
    → Holds p q
    → ((read_bytes n p).0 ≡ take n q) × Holds (read_bytes n p).1 (drop n q)
unfolding read_bytes
read_bytes-Holds zero p q h = (refl, h)
read_bytes-Holds (suc n) p [] h =
    let nothing : is_empty p ≡ true = is_empty_iff p [] h in rw nothing (refl, h)
read_bytes-Holds (suc n) p (c ∷ q) h =
    let some_left : is_empty p ≡ false = is_empty_iff p (c ∷ q) h ∙ ground arith in
    let (first, rest) = take_byte-Holds p c q h in
    let (cs, left) = read_bytes-Holds n (record p { nread = (p.nread + 1) % 2 ^ 32 }) q rest in
    rw some_left (
      ap (λ x. x ∷ (read_bytes n (record p { nread = (p.nread + 1) % 2 ^ 32 })).0) first
          ∙ ap (λ l. c ∷ l) cs,
      left,
    )

nil_of : (q : List ℕ) → (length q == 0) ≡ true → q ≡ []
nil_of [] h = refl
nil_of (c ∷ q) h = absurd (ground arith)

-- What `piperead` of `n` bytes returns from a pipe that held `q`.
abbrev pub Returns : Bool → ℕ → Pipe → List ℕ → Got → Type 0
Returns killed n p q (Got.bytes cs p') =
    (cs ≡ take n q) × Holds p' (drop n q) × ((q ≡ []) → p.writeopen ≡ false)
Returns killed n p q (Got.failed p') = (p' ≡ p) × (q ≡ []) × (p.writeopen ≡ true) × (killed ≡ true)
Returns killed n p q (Got.asleep p') = (p' ≡ p) × (q ≡ []) × (p.writeopen ≡ true) × (killed ≡ false)

-- `piperead` takes the oldest bytes, at most `n` and as many as there are, and leaves the others. On
-- an empty pipe it returns no byte if no writer is left; otherwise it fails if the process has been
-- killed, or sleeps, and leaves the pipe as it was.
pub piperead-Returns :
    (killed : Bool) (n : ℕ) (p : Pipe) (q : List ℕ)
    → Holds p q
    → Returns killed n p q (piperead killed n p)
unfolding piperead
piperead-Returns killed n p q h =
    let (cs, left) = read_bytes-Holds n p q h in
    let shut : q ≡ [] → is_empty p && p.writeopen ≡ false → p.writeopen ≡ false =
      λ e go. ground (arith, is_empty_iff p q h, ap length e) in
    elim (Bool-cases (is_empty p && p.writeopen)) [
      | inl wait ↦
          let nil : q ≡ [] = nil_of q (sym (is_empty_iff p q h) ∙ ground arith) in
          let open_end : p.writeopen ≡ true = ground arith in
          elim (Bool-cases killed) [
            | inl dead ↦ rw (wait, dead) (refl, nil, open_end, refl)
            | inr alive ↦ rw (wait, alive) (refl, nil, open_end, refl)
          ]
      | inr go ↦ rw go (cs, wake_up-Holds End.writers left, λ e. shut e go)
    ]
