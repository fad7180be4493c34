-- ===== src/Proc/Table/Frame.antt =====
-- Well-formed process tables, and changes that keep them so.
use cs_3224_operating_system.Base.{
  ℕ, zero, suc, ◌≤◌, ◌<◌, ◌≡◌, refl, ◌≢◌, ◌∙◌, ap, sym, true, ◌&&◌, ◌⊎◌, inl, inr, List, [], ◌∷◌,
  arith, if◌then◌else◌, ◌==◌, ltb, length, get_or, length-set, get_or-set, Bool-cases, map,
}
use cs_3224_operating_system.Proc.Types.{
  ProcState, Chan, Proc, Call, Kernel, nproc, blank, is_sleeping, same_chan, proc_at, put_proc,
  call,
}
use cs_3224_operating_system.Proc.Sleep.{wake, wakeup1}

-- In use: the entry is a process, or one that is being made.
abbrev pub InUse : Kernel → ℕ → Type 0
InUse k i = (proc_at k i).state ≢ ProcState.unused

abbrev pub ValidTickets : ℕ → Type 0
ValidTickets t = (1 ≤ t) × (t ≤ 999)

pub record WellFormed (k : Kernel) : Type 0 where
  pub size : length k.procs ≡ nproc
  pub next : 0 < k.nextpid
  pub pids : (i : ℕ) → InUse k i → (0 < (proc_at k i).pid) × ((proc_at k i).pid < k.nextpid)
  pub unique : (i j : ℕ) → InUse k i → InUse k j → (proc_at k i).pid ≡ (proc_at k j).pid → i ≡ j
  pub tickets : (i : ℕ) → InUse k i → ValidTickets (proc_at k i).tickets

-- What a step may do to an entry that it leaves in use.
pub record Same (p q : Proc) : Type 0 where
  pub in_use : p.state ≢ ProcState.unused
  pub pid : q.pid ≡ p.pid
  pub tickets : (q.tickets ≡ p.tickets) ⊎ ValidTickets q.tickets

-- A step that makes no process.
pub record Keeps (k k' : Kernel) : Type 0 where
  pub size : length k'.procs ≡ length k.procs
  pub next : k'.nextpid ≡ k.nextpid
  pub entry : (i : ℕ) → InUse k' i → Same (proc_at k i) (proc_at k' i)

pub Keeps-refl : (k : Kernel) → Keeps k k
Keeps-refl k = record {
  size = refl;
  next = omega arith;
  entry = λ i use_i. record { in_use = use_i; pid = refl; tickets = inl refl };
}

Same-trans : {p q r : Proc} → Same p q → Same q r → Same p r
Same-trans a b = record {
  in_use = a.in_use;
  pid = b.pid ∙ a.pid;
  tickets = elim b.tickets [
    | inl e ↦ (elim a.tickets [ inl e' ↦ inl (e ∙ e') | inr v ↦ inr (omega (arith, v, e)) ])
    | inr v ↦ inr v
  ];
}

pub Keeps-trans : {k l m : Kernel} → Keeps k l → Keeps l m → Keeps k m
Keeps-trans a b = record {
  size = b.size ∙ a.size;
  next = omega (arith, a.next, b.next);
  entry = λ i use_i. let last = b.entry i use_i in Same-trans (a.entry i last.in_use) last;
}

pub Keeps-WellFormed : {k k' : Kernel} → Keeps k k' → WellFormed k → WellFormed k'
Keeps-WellFormed {k} {k'} s w = record {
  size = s.size ∙ w.size;
  next = omega (arith, w.next, s.next);
  pids = λ i use_i.
      let e = s.entry i use_i in
      let p = w.pids i e.in_use in omega (arith, p.0, p.1, e.pid, s.next);
  unique = λ i j use_i use_j same.
      let e = s.entry i use_i in
      let f = s.entry j use_j in w.unique i j e.in_use f.in_use (sym e.pid ∙ same ∙ f.pid);
  tickets = λ i use_i.
      let e = s.entry i use_i in
      elim e.tickets [
        | inl same ↦ let v = w.tickets i e.in_use in omega (arith, v, same)
        | inr v ↦ v
      ];
}

pub Keeps-call : (k : Kernel) (c : Call) → Keeps k (call k c)
Keeps-call k c = record {
  size = refl;
  next = omega arith;
  entry = λ i use_i. record { in_use = use_i; pid = refl; tickets = inl refl };
}

pub proc_at-put :
    (k : Kernel) (i : ℕ) (p : Proc) (j : ℕ)
    → proc_at (put_proc k i p) j ≡ (if (i == j) && ltb j (length k.procs) then p else proc_at k j)
proc_at-put k i p j = get_or-set k.procs i j p blank

-- One entry changes.
pub Keeps-put :
    (k : Kernel) (i : ℕ) (p : Proc)
    → (p.state ≢ ProcState.unused → Same (proc_at k i) p)
    → Keeps k (put_proc k i p)
Keeps-put k i p h = record {
  size = length-set k.procs i p;
  next = omega arith;
  entry = λ j use_j. elim (Bool-cases ((i == j) && ltb j (length k.procs))) [
    | inl here ↦
        let e : i ≡ j = ground arith in
        let now : proc_at (put_proc k i p) j ≡ p = proc_at-put k i p j ∙ rw here refl in
        rw (now, ← e) (h (λ z. use_j (ap (λ (q : Proc). q.state) now ∙ z)))
    | inr away ↦
        let now : proc_at (put_proc k i p) j ≡ proc_at k j = proc_at-put k i p j ∙ rw away refl in
        rw now (record {
          in_use = λ z. use_j (ap (λ (q : Proc). q.state) now ∙ z);
          pid = refl;
          tickets = inl refl;
        })
  ];
}

pub get_or-map :
    (f : Proc → Proc) (ps : List Proc) (i : ℕ)
    → f blank ≡ blank
    → get_or (map f ps) i blank ≡ f (get_or ps i blank)
get_or-map f [] i h = sym h
get_or-map f (p ∷ ps) zero h = refl
get_or-map f (p ∷ ps) (suc i) h = get_or-map f ps i h

pub length-map : (f : Proc → Proc) (ps : List Proc) → length (map f ps) ≡ length ps
length-map f [] = refl
length-map f (p ∷ ps) = ap suc (length-map f ps)

pub proc_at-wakeup1 :
    (c : Chan) (k : Kernel) (i : ℕ) → proc_at (wakeup1 c k) i ≡ wake c (proc_at k i)
unfolding wakeup1 wake
proc_at-wakeup1 c k i = get_or-map (wake c) k.procs i refl

wake-Same : (c : Chan) (p : Proc) → (wake c p).state ≢ ProcState.unused → Same p (wake c p)
unfolding wake
wake-Same c p h = elim (Bool-cases (is_sleeping p.state && same_chan p.chan c)) [
  | inl woken ↦
      let asleep : is_sleeping p.state ≡ true = ground arith in
      rw woken (record {
        in_use = λ z. let clash = sym asleep ∙ ap is_sleeping z in cc;
        pid = refl;
        tickets = inl refl;
      })
  | inr other ↦ rw other (record { in_use = λ z. h (rw other z); pid = refl; tickets = inl refl })
]

pub Keeps-wakeup1 : (c : Chan) (k : Kernel) → Keeps k (wakeup1 c k)
unfolding wakeup1
Keeps-wakeup1 c k = record {
  size = length-map (wake c) k.procs;
  next = omega arith;
  entry = λ i use_i.
      let now = proc_at-wakeup1 c k i in
      rw now (wake-Same c (proc_at k i) (λ z. use_i (ap (λ (q : Proc). q.state) now ∙ z)));
}

-- A step after which every entry in use is still in use.
abbrev pub Retains : Kernel → Kernel → Type 0
Retains k k' = (i : ℕ) → InUse k i → InUse k' i

pub Retains-put :
    (k : Kernel) (i : ℕ) (p : Proc)
    → (InUse k i → p.state ≢ ProcState.unused)
    → Retains k (put_proc k i p)
Retains-put k i p h j use_j z = elim (Bool-cases ((i == j) && ltb j (length k.procs))) [
  | inl here ↦
      let e : i ≡ j = ground arith in
      let now : proc_at (put_proc k i p) j ≡ p = proc_at-put k i p j ∙ rw here refl in
      h (rw e use_j) (ap (λ (q : Proc). q.state) (sym now) ∙ z)
  | inr away ↦
      let now : proc_at (put_proc k i p) j ≡ proc_at k j = proc_at-put k i p j ∙ rw away refl in
      use_j (ap (λ (q : Proc). q.state) (sym now) ∙ z)
]

pub Retains-wakeup1 : (c : Chan) (k : Kernel) → Retains k (wakeup1 c k)
unfolding wake
Retains-wakeup1 c k i use_i z =
    let now = ap (λ (q : Proc). q.state) (sym (proc_at-wakeup1 c k i)) ∙ z in ground arith
