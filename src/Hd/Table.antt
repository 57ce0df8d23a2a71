-- ===== src/Hd/Table.antt =====
-- The dynamic table of lib/nghttp2_hd.c: the entries with their sizes, newest first, and eviction.
-- The ring buffer is a list, and the reference counts, which decide when memory is freed, are left
-- out.
pub mod Laws
use newhttp.Common.{
  ℕ, zero, suc, ◌+◌, ◌-◌, Bool, ◌&&◌, List, [], ◌∷◌, Option, none, some, length, ltb, if◌then◌else◌,
}
use newhttp.Frame.Types.{Nv}

pub record Entry : Type 0 where
  pub nv : Nv
  pub token : Option ℕ
  pub flags : ℕ

pub record Context : Type 0 where
  pub hd_table : List Entry
  pub hd_table_bufsize : ℕ
  pub hd_table_bufsize_max : ℕ

abbrev pub entry_overhead : ℕ
entry_overhead = 32

abbrev pub entry_room : ℕ → ℕ → ℕ
entry_room namelen valuelen = entry_overhead + namelen + valuelen

abbrev pub nv_room : Nv → ℕ
nv_room nv = entry_room (length nv.name) (length nv.value)

-- The room of the oldest entry, and the table without it (`hd_ringbuf_pop_back`).
unfoldable pub last_room : List Entry → ℕ
last_room [] = 0
last_room (e ∷ []) = nv_room e.nv
last_room (e ∷ f ∷ es) = last_room (f ∷ es)

unfoldable pub pop_back : List Entry → List Entry
pop_back [] = []
pop_back (e ∷ []) = []
pop_back (e ∷ f ∷ es) = e ∷ pop_back (f ∷ es)

-- The body of the loops.
abbrev pub evict_one : Context → Context
evict_one c = record c {
  hd_table = pop_back c.hd_table;
  hd_table_bufsize = c.hd_table_bufsize - last_room c.hd_table;
}

-- The loop that makes `room`; the number of entries bounds its steps.
unfoldable pub evict : ℕ → ℕ → Context → Context
evict zero room c = c
evict (suc fuel) room c =
    let rest = evict fuel room (evict_one c) in
    if ltb c.hd_table_bufsize_max (c.hd_table_bufsize + room) && ltb 0 (length c.hd_table)
    then rest
    else c

unfoldable pub hd_context_shrink_table_size : Context → Context
unfolding evict
hd_context_shrink_table_size c = evict (length c.hd_table) 0 c

-- `served` says whether the allocator gives the memory of the entry, and `grown` whether it gives
-- that of the table.
unfoldable pub add_hd_table_incremental :
    Bool → Bool → Context → Nv → Option ℕ → ℕ → Option Entry × Context
unfolding evict
add_hd_table_incremental served grown c nv token entry_flags =
    let room = nv_room nv in
    let c1 = evict (length c.hd_table) room c in
    let new_ent : Entry = record { nv = nv; token = token; flags = entry_flags } in
    if served
    then if ltb c1.hd_table_bufsize_max room
      then (some new_ent, c1)
      else if grown
      then (
        some new_ent,
        record c1 {
          hd_table = new_ent ∷ c1.hd_table;
          hd_table_bufsize = c1.hd_table_bufsize + room;
        },
      )
      else (none, c1)
    else (none, c1)
