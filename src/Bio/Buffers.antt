-- ===== src/Bio/Buffers.antt =====
-- The list of buffers of kernel/bio.c: what the searches of bget find, and what a write of one buffer
-- leaves in the list.
use cs_3224_operating_system.Base.{
  ℕ, ◌≡◌, refl, ◌≢◌, ◌⊎◌, inl, inr, ◌∙◌, sym, ap, subst, Bool, true, false, not, ◌&&◌, none, some,
  some_inj, List, [], ◌∷◌, arith, if◌then◌else◌, ◌==◌, ==_iff, ==_ne, ne_==, Bool-cases,
  Option-cases,
}
use mathlib.Core.List.{Memᴰ}
use cs_3224_operating_system.Bio.{Buf, put, unlink, cached, idle}

-- A buffer that holds the block, or is to hold it.
abbrev pub IsFor : (dev blockno : ℕ) → Buf → Type 0
IsFor dev blockno b = (b.dev ≡ dev) × (b.blockno ≡ blockno)

both_equal : (a b c d : ℕ) → ((a == b) && (c == d)) ≡ true → (a ≡ b) × (c ≡ d)
both_equal a b c d h = (ground arith, ground arith)

pub test_sound : (d n : ℕ) (b : Buf) → ((b.dev == d) && (b.blockno == n)) ≡ true → IsFor d n b
test_sound d n b h = both_equal (b.dev) d (b.blockno) n h

pub test_complete : (d n : ℕ) (b : Buf) → IsFor d n b → ((b.dev == d) && (b.blockno == n)) ≡ true
test_complete d n b (p, q) = let x = b.dev in ground arith

pub test_false : (d n : ℕ) (b : Buf) → ¬ (IsFor d n b) → ((b.dev == d) && (b.blockno == n)) ≡ false
test_false d n b h = elim (Bool-cases ((b.dev == d) && (b.blockno == n))) [
  | inl e ↦ absurd (h (both_equal (b.dev) d (b.blockno) n e))
  | inr e ↦ e
]

pub cached-some :
    (d n : ℕ) (bs : List Buf) (b : Buf) → cached d n bs ≡ some b → Memᴰ b bs × IsFor d n b
unfolding cached
cached-some d n [] b h = absurd (cc)
cached-some d n (c ∷ cs) b h = elim (Bool-cases ((c.dev == d) && (c.blockno == n))) [
  | inl e ↦
      let h' = some_inj (rw e at h) in
      (Memᴰ.head (sym h'), subst (IsFor d n) h' (both_equal (c.dev) d (c.blockno) n e))
  | inr e ↦ let (m, f) = cached-some d n cs b (rw e at h) in (Memᴰ.tail m, f)
]

pub cached-none :
    (d n : ℕ) (bs : List Buf) → cached d n bs ≡ none → (b : Buf) → Memᴰ b bs → ¬ (IsFor d n b)
unfolding cached
cached-none d n [] h b (m) f = absurd (elim m [ ])
cached-none d n (c ∷ cs) h b (Memᴰ.head e) f =
    let on : ((c.dev == d) && (c.blockno == n)) ≡ true =
      test_complete d n c (subst (IsFor d n) e f) in
    let h' = rw on at h in absurd (cc)
cached-none d n (c ∷ cs) h b (Memᴰ.tail m) f =
    let off : ((c.dev == d) && (c.blockno == n)) ≡ false =
      elim (Bool-cases ((c.dev == d) && (c.blockno == n))) [
        | inl e ↦ let h' = rw e at h in absurd (cc)
        | inr e ↦ e
      ] in
    cached-none d n cs (rw off at h) b m f

pub idle-some :
    (bs : List Buf) (b : Buf) → idle bs ≡ some b → Memᴰ b bs × (b.busy ≡ false) × (b.dirty ≡ false)
unfolding idle
idle-some [] b h = absurd (cc)
idle-some (c ∷ cs) b h = elim (Option-cases (idle cs)) [
  | inl e ↦ elim (Bool-cases (not c.busy && not c.dirty)) [
    | inl f ↦
        let h' : some c ≡ some b = rw (e, f) at h in
        let e' = some_inj h' in
        (
          Memᴰ.head (sym e'),
          ap (λ (x : Buf). x.busy) (sym e') ∙ ground arith,
          ap (λ (x : Buf). x.dirty) (sym e') ∙ ground arith,
        )
    | inr f ↦ let h' = rw (e, f) at h in absurd (cc)
  ]
  | inr (d, e) ↦
      let h' : some d ≡ some b = rw e at h in
      let (m, x, y) = idle-some cs b (e ∙ h') in (Memᴰ.tail m, x, y)
]

-- The new list holds the buffer, the other buffers of the old one, and no more.
pub record Updated (b : Buf) (bs cs : List Buf) : Type 0 where
  pub holds : Memᴰ b cs
  pub old : (c : Buf) → Memᴰ c cs → (c ≡ b) ⊎ (Memᴰ c bs × (c.number ≢ b.number))
  pub keeps : (c : Buf) → Memᴰ c bs → c.number ≢ b.number → Memᴰ c cs

pub Updated-trans :
    (b b' : Buf) (bs cs ds : List Buf)
    → b.number ≡ b'.number
    → Updated b bs cs
    → Updated b' cs ds
    → Updated b' bs ds
Updated-trans b b' bs cs ds e u v = record {
  holds = v.holds;
  old = λ c m. elim (v.old c m) [
    | inl here ↦ inl here
    | inr (m', ne) ↦ elim (u.old c m') [
      | inl same ↦ absurd (ne (ap (λ (x : Buf). x.number) same ∙ e))
      | inr (m'', _) ↦ inr (m'', ne)
    ]
  ];
  keeps = λ c m ne. v.keeps c (u.keeps c m (λ z. ne (z ∙ e))) ne;
}

put-old :
    (b : Buf) (bs : List Buf) (c : Buf)
    → Memᴰ c (put b bs)
    → (c ≡ b) ⊎ (Memᴰ c bs × (c.number ≢ b.number))
unfolding put
put-old b [] c m = absurd (elim m [ ])
put-old b (x ∷ xs) c (Memᴰ.head e) = elim (Bool-cases (x.number == b.number)) [
  | inl on ↦ inl (e ∙ rw on refl)
  | inr off ↦
      let e' : c ≡ x = e ∙ rw off refl in
      inr (
        Memᴰ.head e',
        λ z. ==_ne (x.number) (b.number) off (ap (λ (y : Buf). y.number) (sym e') ∙ z),
      )
]
put-old b (x ∷ xs) c (Memᴰ.tail m) = elim (put-old b xs c m) [
  | inl e ↦ inl e
  | inr (m', ne) ↦ inr (Memᴰ.tail m', ne)
]

put-keeps :
    (b : Buf) (bs : List Buf) (c : Buf) → Memᴰ c bs → c.number ≢ b.number → Memᴰ c (put b bs)
unfolding put
put-keeps b [] c m ne = m
put-keeps b (x ∷ xs) c (Memᴰ.head e) ne =
    let off : (x.number == b.number) ≡ false =
      ne_== (x.number) (b.number) (λ z. ne (ap (λ (y : Buf). y.number) e ∙ z)) in
    Memᴰ.head (e ∙ sym (ap (λ t. if t then b else x) off))
put-keeps b (x ∷ xs) c (Memᴰ.tail m) ne = Memᴰ.tail (put-keeps b xs c m ne)

put-holds :
    (b : Buf) (bs : List Buf) (c : Buf) → Memᴰ c bs → c.number ≡ b.number → Memᴰ b (put b bs)
unfolding put
put-holds b [] c m e = absurd (elim m [ ])
put-holds b (x ∷ xs) c (Memᴰ.head h) e =
    let on : (x.number == b.number) ≡ true =
      (==_iff (x.number) (b.number)).1 (ap (λ (y : Buf). y.number) (sym h) ∙ e) in
    Memᴰ.head (sym (ap (λ t. if t then b else x) on))
put-holds b (x ∷ xs) c (Memᴰ.tail m) e = Memᴰ.tail (put-holds b xs c m e)

pub put-Updated :
    (b : Buf) (bs : List Buf) (c : Buf) → Memᴰ c bs → c.number ≡ b.number → Updated b bs (put b bs)
put-Updated b bs c m e = record {
  holds = put-holds b bs c m e;
  old = put-old b bs;
  keeps = put-keeps b bs;
}

unlink-old : (i : ℕ) (bs : List Buf) (c : Buf) → Memᴰ c (unlink i bs) → Memᴰ c bs × (c.number ≢ i)
unfolding unlink
unlink-old i [] c m = absurd (elim m [ ])
unlink-old i (x ∷ xs) c m = go (x.number == i) refl (unlink-old i xs c) m
  where
    go :
        (t : Bool)
        → (x.number == i) ≡ t
        → (Memᴰ c (unlink i xs) → Memᴰ c xs × (c.number ≢ i))
        → Memᴰ c (if t then unlink i xs else x ∷ unlink i xs)
        → Memᴰ c (x ∷ xs) × (c.number ≢ i)
    go true e rest m = let (m', ne) = rest m in (Memᴰ.tail m', ne)
    go false e rest (Memᴰ.head h) =
        (Memᴰ.head h, λ z. ==_ne (x.number) i e (ap (λ (y : Buf). y.number) (sym h) ∙ z))
    go false e rest (Memᴰ.tail m) = let (m', ne) = rest m in (Memᴰ.tail m', ne)

unlink-keeps : (i : ℕ) (bs : List Buf) (c : Buf) → Memᴰ c bs → c.number ≢ i → Memᴰ c (unlink i bs)
unfolding unlink
unlink-keeps i [] c m ne = m
unlink-keeps i (x ∷ xs) c m ne = go (x.number == i) refl (λ z. unlink-keeps i xs c z ne) m
  where
    go :
        (t : Bool)
        → (x.number == i) ≡ t
        → (Memᴰ c xs → Memᴰ c (unlink i xs))
        → Memᴰ c (x ∷ xs)
        → Memᴰ c (if t then unlink i xs else x ∷ unlink i xs)
    go true e rest (Memᴰ.head h) =
        absurd (ne (ap (λ (y : Buf). y.number) h ∙ (==_iff (x.number) i).0 e))
    go true e rest (Memᴰ.tail m) = rest m
    go false e rest (Memᴰ.head h) = Memᴰ.head h
    go false e rest (Memᴰ.tail m) = Memᴰ.tail (rest m)

pub front-Updated : (b : Buf) (bs : List Buf) → Updated b bs (b ∷ unlink b.number bs)
front-Updated b bs = record {
  holds = Memᴰ.head refl;
  old = λ c m. go c m;
  keeps = λ c m ne. Memᴰ.tail (unlink-keeps b.number bs c m ne);
}
  where
    go : (c : Buf) → Memᴰ c (b ∷ unlink b.number bs) → (c ≡ b) ⊎ (Memᴰ c bs × (c.number ≢ b.number))
    go c (Memᴰ.head e) = inl e
    go c (Memᴰ.tail m) = inr (unlink-old b.number bs c m)
