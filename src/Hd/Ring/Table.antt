-- ===== src/Hd/Ring/Table.antt =====
-- The dynamic table of lib/nghttp2_hd.c on its ring buffer: `add_hd_table_incremental` and
-- `hd_context_shrink_table_size` with the calls on the ring that they make.
use newhttp.Common.{
  ℕ, zero, suc, ◌+◌, ◌-◌, Bool, ◌&&◌, true, false, [], Option, none, some, ltb, if◌then◌else◌,
}
use newhttp.Errors.{Rv, ok, err, abort, ◌>>=◌}
use newhttp.Frame.Types.{Nv}
use newhttp.Hd.Table.{Entry, nv_room}
use newhttp.Hd.Ring.{Ringbuf, ringbuf_get, ringbuf_push_front, ringbuf_pop_back}

pub record RingContext : Type 0 where
  pub hd_table : Ringbuf Entry
  pub hd_table_bufsize : ℕ
  pub hd_table_bufsize_max : ℕ

abbrev pub junk : Entry
junk = record { nv = record { name = []; value = []; flags = 0 }; token = none; flags = 0 }

-- The body of the loops.
unfoldable pub ring_evict_one : RingContext → Rv RingContext
ring_evict_one c = do
  ent ← ringbuf_get junk c.hd_table (c.hd_table.len - 1)
  hd_table ← ringbuf_pop_back c.hd_table
  ok (record {
    hd_table = hd_table;
    hd_table_bufsize = c.hd_table_bufsize - nv_room ent.nv;
    hd_table_bufsize_max = c.hd_table_bufsize_max;
  })

unfoldable pub ring_evict : ℕ → ℕ → RingContext → Rv RingContext
ring_evict zero room c = ok c
ring_evict (suc fuel) room c =
    elim (ltb c.hd_table_bufsize_max (c.hd_table_bufsize + room) && ltb 0 c.hd_table.len) [
      | true ↦ ring_evict_one c >>= ring_evict fuel room
      | false ↦ ok c
    ]

unfoldable pub ring_shrink_table_size : RingContext → Rv RingContext
ring_shrink_table_size c = ring_evict c.hd_table.len 0 c

-- The end of an addition: whether the ring took the entry.
unfoldable pub ring_added :
    ℕ → Entry → RingContext → Rv (Ringbuf Entry) → Rv (Option Entry × RingContext)
ring_added room new_ent c (ok r) = ok (
  some new_ent,
  record {
    hd_table = r;
    hd_table_bufsize = c.hd_table_bufsize + room;
    hd_table_bufsize_max = c.hd_table_bufsize_max;
  },
)
ring_added room new_ent c (err e) = ok (none, c)
ring_added room new_ent c abort = abort

-- `served` says whether the allocator gives the memory of the entry, and `malloc` whether it gives
-- so many bytes for the ring.
unfoldable pub ring_add_hd_table_incremental :
    Bool → (ℕ → Bool) → RingContext → Nv → Option ℕ → ℕ → Rv (Option Entry × RingContext)
ring_add_hd_table_incremental served malloc c nv token entry_flags = do
  let room = nv_room nv
  let new_ent : Entry = record { nv = nv; token = token; flags = entry_flags }
  c1 ← ring_evict c.hd_table.len room c
  if served
      then if ltb c1.hd_table_bufsize_max room
        then ok (some new_ent, c1)
        else ring_added room new_ent c1 (ringbuf_push_front junk malloc c1.hd_table new_ent)
      else ok (none, c1)
