-- ===== src/Bio/Fetched.antt =====
-- What the cases of bget and bread of kernel/bio.c leave: a cached buffer, one that is filled, and
-- one that is recycled.
use cs_3224_operating_system.Base.{
  ℕ, ◌≡◌, refl, ◌≢◌, ◌∙◌, sym, ap, subst, true, false, if◌then◌else◌,
}
use mathlib.Core.List.{Memᴰ}
use cs_3224_operating_system.Bio.{Buf, Cache, no_dev, put, store_buf, recycled}
use cs_3224_operating_system.Bio.Buffers.{IsFor, Updated, Updated-trans, put-Updated}
use cs_3224_operating_system.Bio.Coherence.{view, Coherent, Change, view-content, view-disk}

-- The buffer that bread returns is for the block, was in nobody's use before, and is in the
-- caller's use after; it has what the block held, and no block holds anything else than before.
pub record Fetched (s : Cache) (d n : ℕ) (b : Buf) (t : Cache) : Type 0 where
  pub change : Change s b t
  pub for_block : IsFor d n b
  pub taken : b.busy ≡ true
  pub was_idle : (c : Buf) → Memᴰ c s.bufs → c.number ≡ b.number → c.busy ≡ false
  pub data_read : b.data_of ≡ view s d n

-- A write of one buffer that leaves its block.
pub same_block :
    (s : Cache) (c b : Buf) (t : Cache)
    → Coherent s
    → Memᴰ c s.bufs
    → IsFor b.dev b.blockno c
    → c.number ≡ b.number
    → Updated b s.bufs t.bufs
    → ((d n : ℕ) → ¬ (IsFor d n b) → t.disk d n ≡ s.disk d n)
    → b.valid ≡ true
    → (b.dirty ≡ false → b.data_of ≡ t.disk b.dev b.blockno)
    → Change s b t
same_block s c b t inv m for_b num upd disk has sync = record {
  from = c;
  member = m;
  number_kept = num;
  updated = upd;
  alone = λ x mx (p, q) real.
      ap (λ (z : Buf). z.number)
        (inv.single x c mx m (λ z. real (sym p ∙ z)) (for_b.0 ∙ sym p, for_b.1 ∙ sym q))
      ∙ num;
  disk_kept = disk;
  has_data = has;
  synced = sync;
  let_go = λ other. absurd (other (sym for_b.0, sym for_b.1));
}

alone_number :
    (s : Cache) (c : Buf)
    → Coherent s
    → Memᴰ c s.bufs
    → c.busy ≡ false
    → (x : Buf) → Memᴰ x s.bufs
    → x.number ≡ c.number
    → x.busy ≡ false
alone_number s c inv m idle_c x mx e =
    subst (λ (z : Buf). z.busy ≡ false) (inv.numbers c x m mx (sym e)) idle_c

pub cached-Fetched :
    (s : Cache) (c : Buf)
    → Coherent s
    → Memᴰ c s.bufs
    → c.busy ≡ false
    → c.valid ≡ true
    → c.dev ≢ no_dev
    → Fetched s c.dev c.blockno (record c { busy = true }) (store_buf (record c { busy = true }) s)
cached-Fetched s c inv m idle_c valid_c real =
    let b : Buf = record c { busy = true } in
    record {
      change =
          same_block s c b (store_buf b s) inv m (refl, refl) refl (put-Updated b s.bufs c m refl)
            (λ d n ne. refl) valid_c (λ clean. inv.clean c m valid_c clean);
      for_block = (refl, refl);
      taken = refl;
      was_idle = alone_number s c inv m idle_c;
      data_read = sym (
          view-content s c inv m real
          ∙ ap (λ v. if v then c.data_of else s.disk c.dev c.blockno) valid_c);
    }

-- The buffer once `iderw` has read its block into it.
abbrev pub filled_buf : Cache → Buf → Buf
filled_buf s b = record b { valid = true; data_of = s.disk b.dev b.blockno }

twice_Updated :
    (s : Cache) (c b : Buf)
    → Memᴰ c s.bufs
    → c.number ≡ b.number
    → Updated (filled_buf s b) s.bufs (put (filled_buf s b) (put b s.bufs))
twice_Updated s c b m e =
    let first = put-Updated b s.bufs c m e in
    Updated-trans b (filled_buf s b) s.bufs (put b s.bufs) (put (filled_buf s b) (put b s.bufs))
      refl first (put-Updated (filled_buf s b) (put b s.bufs) b first.holds refl)

pub filled-Fetched :
    (s : Cache) (c : Buf)
    → Coherent s
    → Memᴰ c s.bufs
    → c.busy ≡ false
    → c.valid ≡ false
    → c.dev ≢ no_dev
    → Fetched s c.dev c.blockno (filled_buf s (record c { busy = true })) (
        store_buf
          (filled_buf s (record c { busy = true }))
          (store_buf (record c { busy = true }) s))
filled-Fetched s c inv m idle_c invalid real =
    let b : Buf = record c { busy = true } in
    let b' = filled_buf s b in
    record {
      change =
          same_block s c b' (store_buf b' (store_buf b s)) inv m (refl, refl) refl
            (twice_Updated s c b m refl) (λ d n ne. refl) refl (λ clean. refl);
      for_block = (refl, refl);
      taken = refl;
      was_idle = alone_number s c inv m idle_c;
      data_read = sym (
          view-content s c inv m real
          ∙ ap (λ v. if v then c.data_of else s.disk c.dev c.blockno) invalid);
    }

pub recycled-Fetched :
    (s : Cache) (d n : ℕ) (c : Buf)
    → Coherent s
    → Memᴰ c s.bufs
    → c.busy ≡ false
    → c.dirty ≡ false
    → ((x : Buf) → Memᴰ x s.bufs → ¬ (IsFor d n x))
    → Fetched s d n
        (filled_buf s (recycled d n c))
        (store_buf (filled_buf s (recycled d n c)) (store_buf (recycled d n c) s))
recycled-Fetched s d n c inv m idle_c clean_c absent =
    let b = recycled d n c in
    let b' = filled_buf s b in
    record {
      change = record {
        from = c;
        member = m;
        number_kept = refl;
        updated = twice_Updated s c b m refl;
        alone = λ x mx same real. absurd (absent x mx same);
        disk_kept = λ x y ne. refl;
        has_data = refl;
        synced = λ z. refl;
        let_go = λ other valid_c. inv.clean c m valid_c clean_c;
      };
      for_block = (refl, refl);
      taken = refl;
      was_idle = alone_number s c inv m idle_c;
      data_read = sym (view-disk s d n absent);
    }
