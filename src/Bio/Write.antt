-- ===== src/Bio/Write.antt =====
-- What bwrite, brelse and a logged change of a buffer do to the cache of kernel/bio.c, and the cache at
-- boot.
use cs_3224_operating_system.Base.{
  ℕ, zero, suc, ◌+◌, ◌≡◌, refl, ◌≢◌, inl, inr, ◌∙◌, sym, ap, subst, Bool, true, false, not, List,
  [], ◌∷◌, if◌then◌else◌, Bool-cases,
}
use mathlib.Core.List.{Memᴰ}
use cs_3224_operating_system.Log.{Outcome}
use cs_3224_operating_system.Log.Blocks.{Block}
use cs_3224_operating_system.Bio.{
  Buf, Cache, nbuf, no_dev, new_buf, binit_loop, binit, put, store_buf, unlink, iderw, bwrite,
  brelse,
}
use cs_3224_operating_system.Bio.Buffers.{
  Updated-trans, put-Updated, front-Updated, test_complete, test_false,
}
use cs_3224_operating_system.Bio.Coherence.{view, Coherent, Change, view-disk}
use cs_3224_operating_system.Bio.Fetched.{same_block}
use cs_3224_operating_system.Bio.Read.{clean_buf, written_cache, iderw_lem}

pub busy-valid : (s : Cache) (b : Buf) → Coherent s → Memᴰ b s.bufs → b.busy ≡ true → b.valid ≡ true
busy-valid s b inv m on = elim (Bool-cases b.valid) [
  | inl v ↦ v
  | inr v ↦ let off = (inv.filled b m v).0 in absurd (cc)
]

pub brelse-Change :
    (s : Cache) (b : Buf) (t : Cache)
    → Coherent s
    → Memᴰ b s.bufs
    → brelse b s ≡ Outcome.ok t
    → (b.busy ≡ true) × Change s (record b { busy = false }) t
unfolding brelse
brelse-Change s b t inv m h = go b.busy refl h
  where
    released : Cache
    released = record s { bufs = record b { busy = false } ∷ unlink b.number s.bufs }

    change : b.busy ≡ true → Change s (record b { busy = false }) released
    change on =
        same_block s b (record b { busy = false }) released inv m (refl, refl) refl
          (front-Updated (record b { busy = false }) s.bufs) (λ d n ne. refl)
          (busy-valid s b inv m on) (λ clean. inv.clean b m (busy-valid s b inv m on) clean)

    ok_inj : (x y : Cache) → ◌≡◌ {A = Outcome Cache} (Outcome.ok x) (Outcome.ok y) → x ≡ y
    ok_inj x y e = cc

    go :
        (busy_b : Bool)
        → b.busy ≡ busy_b
        → (if not busy_b then Outcome.panic else Outcome.ok released) ≡ Outcome.ok t
        → (b.busy ≡ true) × Change s (record b { busy = false }) t
    go false e h = absurd (cc)
    go true e h = (e, subst (Change s (record b { busy = false })) (ok_inj released t h) (change e))

-- `memmove` into a buffer and `log_write` of it: the new data wait in the cache.
abbrev pub logged : Buf → Block → Buf
logged b x = record b { data_of = x; dirty = true }

pub logged-Change :
    (s : Cache) (b : Buf) (x : Block)
    → Coherent s
    → Memᴰ b s.bufs
    → b.busy ≡ true
    → Change s (logged b x) (store_buf (logged b x) s)
logged-Change s b x inv m on =
    same_block s b (logged b x) (store_buf (logged b x) s) inv m (refl, refl) refl
      (put-Updated (logged b x) s.bufs b m refl) (λ d n ne. refl) (busy-valid s b inv m on)
      (λ clean. absurd (cc))

abbrev pub filled_with : Buf → Block → Buf
filled_with b x = record b { data_of = x }

module _ (havedisk1 : Bool) where
  pub bwrite-Change :
      (s : Cache) (b : Buf) (x : Block) (t : Cache)
      → Coherent s
      → Memᴰ b s.bufs
      → bwrite havedisk1 (filled_with b x) s ≡ Outcome.ok t
      → (b.busy ≡ true) × Change s (clean_buf (filled_with b x)) t
  unfolding bwrite
  bwrite-Change s b x t inv m h = go b.busy refl h
    where
      c : Buf
      c = clean_buf (filled_with b x)

      dirty_c : Buf
      dirty_c = logged b x

      change : Change s c (written_cache dirty_c (store_buf dirty_c s))
      change =
          let first = put-Updated dirty_c s.bufs b m refl in
          same_block s b c (written_cache dirty_c (store_buf dirty_c s)) inv m (refl, refl) refl
            (Updated-trans dirty_c c s.bufs (put dirty_c s.bufs) (put c (put dirty_c s.bufs)) refl
              first (put-Updated c (put dirty_c s.bufs) dirty_c first.holds refl))
            (λ d n ne. ap (λ v. if v then x else s.disk d n) (test_false d n c ne)) refl
            (λ z. sym (
              ap (λ v. if v then x else s.disk b.dev b.blockno)
                (test_complete b.dev b.blockno c (refl, refl))))

      ok_inj : (y z : Cache) → ◌≡◌ {A = Outcome Cache} (Outcome.ok y) (Outcome.ok z) → y ≡ z
      ok_inj y z e = cc

      after :
          (o : Outcome (Buf × Cache))
          → iderw havedisk1 dirty_c (store_buf dirty_c s) ≡ o
          → (elim o as (λ x. Outcome Cache) [
            | Outcome.ok (b', t) ↦ Outcome.ok t
            | Outcome.panic ↦ Outcome.panic
          ])
            ≡ Outcome.ok t
          → Change s c t
      after Outcome.panic e h = absurd (cc)
      after (Outcome.ok (b2, t2)) e h =
          let (p, q) = iderw_lem havedisk1 dirty_c b2 (store_buf dirty_c s) t2 e in
          subst (Change s c) (q ∙ ok_inj t2 t h) change

      go :
          (busy_b : Bool)
          → b.busy ≡ busy_b
          → (if not busy_b
              then Outcome.panic
              else elim (iderw havedisk1 dirty_c (store_buf dirty_c s)) as (λ x. Outcome Cache) [
                | Outcome.ok (b', t) ↦ Outcome.ok t
                | Outcome.panic ↦ Outcome.panic
              ])
            ≡ Outcome.ok t
          → (b.busy ≡ true) × Change s c t
      go false e h = absurd (cc)
      go true e h = (e, after (iderw havedisk1 dirty_c (store_buf dirty_c s)) refl h)

-- The binit loop makes buffers with the numbers that it counts.
binit_loop-new :
    (rounds i : ℕ) (bs : List Buf)
    → ((c : Buf) → Memᴰ c bs → c ≡ new_buf c.number)
    → (c : Buf) → Memᴰ c (binit_loop rounds i bs)
    → c ≡ new_buf c.number
unfolding binit_loop
binit_loop-new zero i bs h = h
binit_loop-new (suc rounds) i bs h =
    binit_loop-new rounds (i + 1) (new_buf i ∷ bs) (λ c m. next c m)
  where
    next : (c : Buf) → Memᴰ c (new_buf i ∷ bs) → c ≡ new_buf c.number
    next c (Memᴰ.head e) = e ∙ ap new_buf (sym (ap (λ (z : Buf). z.number) e))
    next c (Memᴰ.tail m) = h c m

pub binit-Coherent : (disk : ℕ → ℕ → Block) → Coherent (binit disk)
unfolding binit
binit-Coherent disk =
    let new = binit_loop-new nbuf 0 [] (λ c m. absurd (elim m [ ])) in
    record {
      numbers = λ b c mb mc e. new b mb ∙ ap new_buf e ∙ sym (new c mc);
      single = λ b c mb mc real same. absurd (real (ap (λ (z : Buf). z.dev) (new b mb)));
      filled = λ b m off. (ap (λ (z : Buf). z.busy) (new b m), ap (λ (z : Buf). z.dirty) (new b m));
      used = λ b m on. let off = ap (λ (z : Buf). z.busy) (new b m) in absurd (cc);
      clean = λ b m on. let off = ap (λ (z : Buf). z.valid) (new b m) in absurd (cc);
    }

pub binit-view : (disk : ℕ → ℕ → Block) (d n : ℕ) → d ≢ no_dev → view (binit disk) d n ≡ disk d n
unfolding binit
binit-view disk d n real =
    let new = binit_loop-new nbuf 0 [] (λ c m. absurd (elim m [ ])) in
    view-disk (binit disk) d n (λ c m f. real (sym f.0 ∙ ap (λ (z : Buf). z.dev) (new c m)))
