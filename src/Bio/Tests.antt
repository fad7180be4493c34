-- ===== src/Bio/Tests.antt =====
-- Runs of the buffer cache of kernel/bio.c, and the theorems at concrete inputs.
use cs_3224_operating_system.Base.{◌≡◌, refl, ◌≢◌, true, false, [], ◌∷◌, arith}
use mathlib.Core.List.{Memᴰ}
use cs_3224_operating_system.Log.{Outcome}
use cs_3224_operating_system.Bio.{
  Buf, Cache, Got, no_dev, new_buf, binit, write_disk, bread, bwrite, brelse,
}
use cs_3224_operating_system.Bio.Buffers.{IsFor, cached-some}
use cs_3224_operating_system.Bio.Write.{filled_with}
use cs_3224_operating_system.Bio.Store.{Blocks, Run, bread-Run, Run-single}

-- Block n holds n.
abbrev start : Blocks
start d n = n ∷ []

abbrev cache_of : Got → Cache
cache_of o = elim o [ Got.got b t ↦ t | _ ↦ binit start ]

abbrev buf_of : Got → Buf
buf_of o = elim o [ Got.got b t ↦ b | _ ↦ new_buf 0 ]

abbrev ok_of : Outcome Cache → Cache
ok_of o = elim o [ Outcome.ok t ↦ t | Outcome.panic ↦ binit start ]

abbrev first : Got
first = bread false 0 3 (binit start)

-- Block 3 gets the content 8.
abbrev written_buf : Buf
written_buf = filled_with (buf_of first) (8 ∷ [])

abbrev written : Cache
written = ok_of (bwrite false written_buf (cache_of first))

abbrev released : Cache
released = ok_of (brelse written_buf written)

abbrev again : Got
again = bread false 0 3 released

reads_back : (buf_of again).data_of ≡ 8 ∷ []
unfolding binit bread bwrite brelse
reads_back = refl

-- A second `bread` of a block in use sleeps.
in_use : bread false 0 3 (cache_of first) ≡ Got.asleep
unfolding binit bread
in_use = refl

first_ok : first ≡ Got.got (buf_of first) (cache_of first)
unfolding binit bread
first_ok = refl

first_member : Memᴰ (buf_of first) (cache_of first).bufs
unfolding binit bread
first_member = (cached-some 0 3 (cache_of first).bufs (buf_of first) refl).0

written_ok : bwrite false written_buf (cache_of first) ≡ Outcome.ok written
unfolding binit bread bwrite
written_ok = refl

written_member : Memᴰ written_buf written.bufs
unfolding binit bread bwrite
written_member = (cached-some 0 3 written.bufs written_buf refl).0

released_ok : brelse written_buf written ≡ Outcome.ok released
unfolding binit bread bwrite brelse
released_ok = refl

again_ok : again ≡ Got.got (buf_of again) (cache_of again)
unfolding binit bread bwrite brelse
again_ok = refl

three_steps : Run false start released (write_disk start written_buf)
three_steps =
    Run.release written_buf
      (Run.write (buf_of first) (8 ∷ [])
        (Run.read 0 3 (buf_of first) Run.boot (omega arith) first_ok) first_member written_ok)
      written_member released_ok

bread-Run_example :
    IsFor 0 3 (buf_of again)
    × ((buf_of again).data_of ≡ write_disk start written_buf 0 3)
    × ((c : Buf) → Memᴰ c released.bufs → c.number ≡ (buf_of again).number → c.busy ≡ false)
bread-Run_example =
    bread-Run false start (write_disk start written_buf) released (cache_of again) 0 3
      (buf_of again) three_steps (omega arith) again_ok

Run-single_example :
    ((b c : Buf)
      → Memᴰ b released.bufs
      → Memᴰ c released.bufs
      → b.dev ≢ no_dev
      → IsFor b.dev b.blockno c
      → b.number ≡ c.number)
    × ((b : Buf)
        → Memᴰ b released.bufs
        → b.valid ≡ true
        → b.dirty ≡ false
        → b.data_of ≡ released.disk b.dev b.blockno)
Run-single_example = Run-single false start (write_disk start written_buf) released three_steps
