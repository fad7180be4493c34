-- ===== src/Bio/Coherence.antt =====
-- What the buffer cache of kernel/bio.c says a block holds, and the invariant behind it.
use cs_3224_operating_system.Base.{
  ℕ, ◌≡◌, refl, ◌≢◌, inl, inr, ◌∙◌, sym, ap, subst, true, false, none, some, if◌then◌else◌,
  Bool-cases, Option-cases,
}
use mathlib.Core.List.{Memᴰ}
use native.Mathlib.Decide.{ℕ_discrete}
use cs_3224_operating_system.Log.Blocks.{Block}
use cs_3224_operating_system.Bio.{Buf, Cache, cached, no_dev}
use cs_3224_operating_system.Bio.Buffers.{IsFor, Updated, cached-some, cached-none}

-- What a block holds: its buffer, where it has one with the data in it, or else the disk.
abbrev pub content : Cache → Buf → Block
content s b = if b.valid then b.data_of else s.disk b.dev b.blockno

unfoldable pub view : Cache → (dev blockno : ℕ) → Block
unfolding cached
view s dev blockno = elim (cached dev blockno s.bufs) [
  | some b ↦ content s b
  | none ↦ s.disk dev blockno
]

-- Buffers have numbers of their own, a block has one buffer, a buffer without its data is in
-- nobody's use, one that somebody uses is for a device, and one that is not dirty has what is on the disk.
pub record Coherent (s : Cache) : Type 0 where
  pub numbers : (b c : Buf) → Memᴰ b s.bufs → Memᴰ c s.bufs → b.number ≡ c.number → b ≡ c
  pub single :
      (b c : Buf) → Memᴰ b s.bufs → Memᴰ c s.bufs → b.dev ≢ no_dev → IsFor b.dev b.blockno c → b ≡ c
  pub filled : (b : Buf) → Memᴰ b s.bufs → b.valid ≡ false → (b.busy ≡ false) × (b.dirty ≡ false)
  pub used : (b : Buf) → Memᴰ b s.bufs → b.busy ≡ true → b.dev ≢ no_dev
  pub clean :
      (b : Buf)
      → Memᴰ b s.bufs
      → b.valid ≡ true
      → b.dirty ≡ false
      → b.data_of ≡ s.disk b.dev b.blockno

-- The buffer `b` takes the place of the buffer `from`.
pub record Change (s : Cache) (b : Buf) (t : Cache) : Type 0 where
  pub from : Buf
  pub member : Memᴰ from s.bufs
  pub number_kept : from.number ≡ b.number
  pub updated : Updated b s.bufs t.bufs
  pub alone :
      (c : Buf) → Memᴰ c s.bufs → IsFor b.dev b.blockno c → b.dev ≢ no_dev → c.number ≡ b.number
  pub disk_kept : (d n : ℕ) → ¬ (IsFor d n b) → t.disk d n ≡ s.disk d n
  pub has_data : b.valid ≡ true
  pub synced : b.dirty ≡ false → b.data_of ≡ t.disk b.dev b.blockno
  pub let_go :
      ¬ (IsFor from.dev from.blockno b)
      → from.valid ≡ true
      → from.data_of ≡ s.disk from.dev from.blockno

-- The other buffers for a block whose disk changes.
pub other_block :
    (s : Cache) (b : Buf) (t : Cache) (c : Buf)
    → Change s b t
    → Memᴰ c s.bufs
    → c.number ≢ b.number
    → b.dev ≢ no_dev
    → t.disk c.dev c.blockno ≡ s.disk c.dev c.blockno
other_block s b t c ch m ne real =
    ch.disk_kept c.dev c.blockno (λ (p, q). ne (ch.alone c m (sym p, sym q) real))

pub Change-Coherent :
    (s : Cache) (b : Buf) (t : Cache) → Coherent s → Change s b t → b.dev ≢ no_dev → Coherent t
Change-Coherent s b t inv ch real = record {
  numbers = λ x y mx my e. elim ((ch.updated).old x mx) [
    | inl ex ↦ elim ((ch.updated).old y my) [
      | inl ey ↦ ex ∙ sym ey
      | inr (my', ne) ↦ absurd (ne (sym e ∙ ap (λ (z : Buf). z.number) ex))
    ]
    | inr (mx', ne) ↦ elim ((ch.updated).old y my) [
      | inl ey ↦ absurd (ne (e ∙ ap (λ (z : Buf). z.number) ey))
      | inr (my', _) ↦ inv.numbers x y mx' my' e
    ]
  ];
  single = λ x y mx my dev_ok same. elim ((ch.updated).old x mx) [
    | inl ex ↦ elim ((ch.updated).old y my) [
      | inl ey ↦ ex ∙ sym ey
      | inr (my', ne) ↦
          absurd (ne (ch.alone y my' (subst (λ (z : Buf). IsFor z.dev z.blockno y) ex same) real))
    ]
    | inr (mx', ne) ↦ elim ((ch.updated).old y my) [
      | inl ey ↦
          let (p, q) = subst (IsFor x.dev x.blockno) ey same in
          absurd (ne (ch.alone x mx' (sym p, sym q) real))
      | inr (my', _) ↦ inv.single x y mx' my' dev_ok same
    ]
  ];
  filled = λ x m off. elim ((ch.updated).old x m) [
    | inl e ↦ let clash = sym (ap (λ (z : Buf). z.valid) e ∙ ch.has_data) ∙ off in absurd (cc)
    | inr (m', _) ↦ inv.filled x m' off
  ];
  used = λ x m on. elim ((ch.updated).old x m) [
    | inl e ↦ λ z. real (ap (λ (y : Buf). y.dev) (sym e) ∙ z)
    | inr (m', _) ↦ inv.used x m' on
  ];
  clean = λ x m on off. elim ((ch.updated).old x m) [
    | inl e ↦
        subst (λ (z : Buf). z.data_of ≡ t.disk z.dev z.blockno) (sym e)
          (ch.synced (sym (ap (λ (z : Buf). z.dirty) e) ∙ off))
    | inr (m', ne) ↦ inv.clean x m' on off ∙ sym (other_block s b t x ch m' ne real)
  ];
}

pub view-content :
    (s : Cache) (b : Buf)
    → Coherent s
    → Memᴰ b s.bufs
    → b.dev ≢ no_dev
    → view s b.dev b.blockno ≡ content s b
unfolding view
view-content s b inv m real = elim (Option-cases (cached b.dev b.blockno s.bufs)) [
  | inl e ↦ absurd (cached-none b.dev b.blockno s.bufs e b m (refl, refl))
  | inr (c, e) ↦
      let (mc, f) = cached-some b.dev b.blockno s.bufs c e in
      rw (view, e) (ap (content s) (sym (inv.single b c m mc real f)))
]

pub view-disk :
    (s : Cache) (d n : ℕ) → ((c : Buf) → Memᴰ c s.bufs → ¬ (IsFor d n c)) → view s d n ≡ s.disk d n
unfolding view
view-disk s d n h = elim (Option-cases (cached d n s.bufs)) [
  | inl e ↦ rw (view, e) refl
  | inr (c, e) ↦ let (mc, f) = cached-some d n s.bufs c e in absurd (h c mc f)
]

pub Change-here :
    (s : Cache) (b : Buf) (t : Cache)
    → Coherent s
    → Change s b t
    → b.dev ≢ no_dev
    → view t b.dev b.blockno ≡ b.data_of
Change-here s b t inv ch real =
    view-content t b (Change-Coherent s b t inv ch real) (ch.updated).holds real
    ∙ ap (λ v. if v then b.data_of else t.disk b.dev b.blockno) ch.has_data

pub Change-others :
    (s : Cache) (b : Buf) (t : Cache) (d n : ℕ)
    → Coherent s
    → Change s b t
    → b.dev ≢ no_dev
    → d ≢ no_dev
    → ¬ (IsFor d n b)
    → view t d n ≡ view s d n
Change-others s b t d n inv ch real dev_ok ne = elim (Option-cases (cached d n s.bufs)) [
  | inl e ↦
      let before = cached-none d n s.bufs e in
      view-disk t d n (λ c m f. elim ((ch.updated).old c m) [
        | inl same ↦ ne (subst (IsFor d n) same f)
        | inr (m', _) ↦ before c m' f
      ])
      ∙ ch.disk_kept d n ne
      ∙ sym (view-disk s d n before)
  | inr (c, e) ↦ let (m, f) = cached-some d n s.bufs c e in found c m f
]
  where
    found : (c : Buf) → Memᴰ c s.bufs → IsFor d n c → view t d n ≡ view s d n
    found c m (p, q) =
        let real_c : c.dev ≢ no_dev = λ z. dev_ok (sym p ∙ z) in
        let shown : view s d n ≡ content s c =
          subst (λ (x : ℕ × ℕ). view s x.0 x.1 ≡ content s c)
            (ap (λ x. (x, c.blockno)) p ∙ ap (λ x. (d, x)) q) (view-content s c inv m real_c) in
        elim (ℕ_discrete c.number b.number) [
          | yes same ↦
              let is_from = inv.numbers c ch.from m ch.member (same ∙ sym ch.number_kept) in
              let gone : (x : Buf) → Memᴰ x t.bufs → ¬ (IsFor d n x) = λ x mx f.
                elim ((ch.updated).old x mx) [
                  | inl e ↦ ne (subst (IsFor d n) e f)
                  | inr (mx', other) ↦ other (
                      ap (λ (z : Buf). z.number)
                        (sym (inv.single c x m mx' real_c (f.0 ∙ sym p, f.1 ∙ sym q)))
                      ∙ same)
                ] in
              let on_disk : content s c ≡ s.disk d n = elim (Bool-cases c.valid) [
                | inl v ↦ rw v (
                    subst
                      (λ (z : Buf).
                        ¬ (IsFor z.dev z.blockno b)
                        → z.valid ≡ true
                        → z.data_of ≡ s.disk z.dev z.blockno)
                      (sym is_from) ch.let_go (λ (x, y). ne (x ∙ p, y ∙ q)) v
                    ∙ ap (λ x. s.disk x c.blockno) p
                    ∙ ap (s.disk d) q)
                | inr v ↦ rw v (ap (λ x. s.disk x c.blockno) p ∙ ap (s.disk d) q)
              ] in
              view-disk t d n gone ∙ ch.disk_kept d n ne ∙ sym on_disk ∙ sym shown
          | no other ↦
              let mt = (ch.updated).keeps c m other in
              let shown_t : view t d n ≡ content t c =
                subst (λ (x : ℕ × ℕ). view t x.0 x.1 ≡ content t c)
                  (ap (λ x. (x, c.blockno)) p ∙ ap (λ x. (d, x)) q)
                  (view-content t c (Change-Coherent s b t inv ch real) mt real_c) in
              shown_t
              ∙ ap (λ k. if c.valid then c.data_of else k) (other_block s b t c ch m other real)
              ∙ sym shown
        ]
