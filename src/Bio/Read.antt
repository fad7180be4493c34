-- ===== src/Bio/Read.antt =====
-- What bread of kernel/bio.c returns, through bget and iderw, and what it leaves in the cache.
use cs_3224_operating_system.Base.{
  ℕ, ◌≡◌, refl, ◌≢◌, inl, inr, ◌∙◌, sym, ap, subst, Bool, true, false, not, ◌&&◌, ◌||◌, Option,
  none, some, if◌then◌else◌, ◌==◌, Option-cases,
}
use mathlib.Core.List.{Memᴰ}
use cs_3224_operating_system.Log.{Outcome}
use cs_3224_operating_system.Bio.{
  Buf, Cache, Got, no_dev, put, cached, idle, store_buf, recycled, bget, write_disk, iderw, bread,
}
use cs_3224_operating_system.Bio.Buffers.{IsFor, cached-some, cached-none, idle-some}
use cs_3224_operating_system.Bio.Coherence.{Coherent}
use cs_3224_operating_system.Bio.Fetched.{
  Fetched, filled_buf, cached-Fetched, filled-Fetched, recycled-Fetched,
}

pub pair_inj :
    {b b' : Buf} {s s' : Cache}
    → ◌≡◌ {A = Outcome (Buf × Cache)} (Outcome.ok (b, s)) (Outcome.ok (b', s'))
    → (b ≡ b') × (s ≡ s')
pair_inj e = (cc, cc)

got_inj : {b b' : Buf} {s s' : Cache} → Got.got b s ≡ Got.got b' s' → (b ≡ b') × (s ≡ s')
got_inj e = (cc, cc)

-- The buffer once `iderw` has written it, and the disk with it.
abbrev pub clean_buf : Buf → Buf
clean_buf b = record b { dirty = false; valid = true }

abbrev pub written_cache : Buf → Cache → Cache
written_cache b s = record {
  bufs = put (clean_buf b) s.bufs;
  disk = write_disk s.disk (clean_buf b);
}

module _ (havedisk1 : Bool) where
  pub iderw_lem :
      (b b' : Buf) (s s' : Cache)
      → iderw havedisk1 b s ≡ Outcome.ok (b', s')
      → ((if b.dirty then clean_buf b else filled_buf s b) ≡ b')
        × ((if b.dirty then written_cache b s else store_buf (filled_buf s b) s) ≡ s')
  unfolding iderw
  iderw_lem b b' s s' h =
      go (not b.busy || (b.valid && not b.dirty) || (not (b.dev == 0) && not havedisk1)) b.dirty h
    where
      go :
          (guard dirty_b : Bool)
          → ◌≡◌ {A = Outcome (Buf × Cache)}
              (if guard
                then Outcome.panic
                else if dirty_b
                then Outcome.ok (clean_buf b, written_cache b s)
                else Outcome.ok (filled_buf s b, store_buf (filled_buf s b) s))
              (Outcome.ok (b', s'))
          → ((if dirty_b then clean_buf b else filled_buf s b) ≡ b')
            × ((if dirty_b then written_cache b s else store_buf (filled_buf s b) s) ≡ s')
      go true d h = absurd (cc)
      go false true h = pair_inj h
      go false false h = pair_inj h

  -- What `bread` does with the buffer that it has got.
  read_rest :
      (s : Cache) (d n : ℕ) (b b' : Buf) (t t' : Cache)
      → (b.valid ≡ false → b.dirty ≡ false)
      → (b.valid ≡ true → Fetched s d n b t)
      → (b.valid ≡ false → Fetched s d n (filled_buf t b) (store_buf (filled_buf t b) t))
      → (if b.valid then Got.got b t else elim (iderw havedisk1 b t) as (λ x. Got) [
        | Outcome.ok (b', t') ↦ Got.got b' t'
        | Outcome.panic ↦ Got.panicked
      ])
        ≡ Got.got b' t'
      → Fetched s d n b' t'
  read_rest s d n b b' t t' clean now later h = go b.valid refl h
    where
      fetched :
          Fetched s d n (filled_buf t b) (store_buf (filled_buf t b) t)
          → (filled_buf t b ≡ b') × (store_buf (filled_buf t b) t ≡ t')
          → Fetched s d n b' t'
      fetched f (p, q) =
          subst (λ x. Fetched s d n x t') p (subst (λ x. Fetched s d n (filled_buf t b) x) q f)

      after :
          (o : Outcome (Buf × Cache))
          → iderw havedisk1 b t ≡ o
          → b.dirty ≡ false
          → Fetched s d n (filled_buf t b) (store_buf (filled_buf t b) t)
          → (elim o as (λ x. Got) [
            | Outcome.ok (b', t') ↦ Got.got b' t'
            | Outcome.panic ↦ Got.panicked
          ])
            ≡ Got.got b' t'
          → Fetched s d n b' t'
      after Outcome.panic e off f h = absurd (cc)
      after (Outcome.ok (b2, t2)) e off f h =
          let (p, q) = iderw_lem b b2 t t2 e in
          let (p', q') = got_inj h in
          fetched f (
            ap (λ v. if v then clean_buf b else filled_buf t b) (sym off) ∙ p ∙ p',
            ap (λ v. if v then written_cache b t else store_buf (filled_buf t b) t) (sym off)
                ∙ q
                ∙ q',
          )

      go :
          (v : Bool)
          → b.valid ≡ v
          → (if v then Got.got b t else elim (iderw havedisk1 b t) as (λ x. Got) [
            | Outcome.ok (b', t') ↦ Got.got b' t'
            | Outcome.panic ↦ Got.panicked
          ])
            ≡ Got.got b' t'
          → Fetched s d n b' t'
      go true e h =
          let (p, q) = got_inj h in
          subst (λ x. Fetched s d n x t') p (subst (λ x. Fetched s d n b x) q (now e))
      go false e h = after (iderw havedisk1 b t) refl (clean e) (later e) h

  -- What `bread` does with what `bget` returns.
  abbrev rest_of : Got → Got
  rest_of o = elim o [
    | Got.got b t ↦ if b.valid then Got.got b t else elim (iderw havedisk1 b t) [
      | Outcome.ok (b', t') ↦ Got.got b' t'
      | Outcome.panic ↦ Got.panicked
    ]
    | Got.asleep ↦ Got.asleep
    | Got.panicked ↦ Got.panicked
  ]

  pub bread-Fetched :
      (s : Cache) (d n : ℕ) (b : Buf) (t : Cache)
      → Coherent s
      → d ≢ no_dev
      → bread havedisk1 d n s ≡ Got.got b t
      → Fetched s d n b t
  unfolding bread bget
  bread-Fetched s d n b t inv real h = elim (Option-cases (cached d n s.bufs)) [
    | inl absent ↦ recycle (idle s.bufs) refl absent (rw (bread, bget, absent) at h)
    | inr (c, e) ↦
        let (m, for_c) = cached-some d n s.bufs c e in
        found c m for_c c.busy refl (rw (bread, bget, e) at h)
  ]
    where
      found :
          (c : Buf)
          → Memᴰ c s.bufs
          → IsFor d n c
          → (busy_c : Bool) → c.busy ≡ busy_c
          → rest_of (
              if busy_c
              then Got.asleep
              else Got.got (record c { busy = true }) (store_buf (record c { busy = true }) s))
            ≡ Got.got b t
          → Fetched s d n b t
      found c m f true e h = absurd (cc)
      found c m (p, q) false e h =
          let c1 : Buf = record c { busy = true } in
          let real_c : c.dev ≢ no_dev = λ z. real (sym p ∙ z) in
          subst (λ x. Fetched s x n b t) p
            (subst (λ x. Fetched s c.dev x b t) q
              (read_rest s c.dev c.blockno c1 b (store_buf c1 s) t (λ v. (inv.filled c m v).1)
                (λ v. cached-Fetched s c inv m e v real_c)
                (λ v. filled-Fetched s c inv m e v real_c) h))

      recycle :
          (o : Option Buf)
          → idle s.bufs ≡ o
          → cached d n s.bufs ≡ none
          → rest_of (elim o [
            | some b ↦ Got.got (recycled d n b) (store_buf (recycled d n b) s)
            | none ↦ Got.panicked
          ])
            ≡ Got.got b t
          → Fetched s d n b t
      recycle none e absent h = absurd (cc)
      recycle (some c) e absent h =
          let (m, not_busy, not_dirty) = idle-some s.bufs c e in
          read_rest s d n (recycled d n c) b (store_buf (recycled d n c) s) t (λ z. refl)
            (λ z. absurd cc)
            (λ z. recycled-Fetched s d n c inv m not_busy not_dirty (cached-none d n s.bufs absent))
            h
