-- ===== src/Hd/Ring/Refine.antt =====
-- The dynamic table on its ring buffer does what the table as a list does.
use newhttp.Common.{
  ℕ, zero, suc, ◌+◌, ◌-◌, ◌≤◌, ◌<◌, ◌^◌, ◌≡◌, refl, ap, arith, Bool, ◌&&◌, true, false, ◌∷◌, Option,
  none, some, ltb, tabulate, length-tabulate, Bool-cases, inl, inr, lt→ltb, ◌⊎◌,
}
use newhttp.Errors.{Rv, ok}
use newhttp.Frame.Types.{Nv}
use newhttp.Hd.Table.{
  Entry, Context, nv_room, last_room, pop_back, evict_one, evict, hd_context_shrink_table_size,
  add_hd_table_incremental,
}
use newhttp.Hd.Ring.{cell, ringbuf_get, ringbuf_pop_back}
use newhttp.Hd.Ring.Laws.{IsRing, contents, ringbuf_push_front_lem}
use newhttp.Hd.Ring.Table.{
  RingContext, junk, ring_evict_one, ring_evict, ring_shrink_table_size, ring_added,
  ring_add_hd_table_incremental,
}

-- The table that a context on a ring stands for.
abbrev pub table_of : RingContext → Context
table_of c = record {
  hd_table = contents junk c.hd_table;
  hd_table_bufsize = c.hd_table_bufsize;
  hd_table_bufsize_max = c.hd_table_bufsize_max;
}

last_room-tabulate : (f : ℕ → Entry) (n : ℕ) → last_room (tabulate f (suc n)) ≡ nv_room (f n).nv
unfolding last_room
last_room-tabulate f zero = refl
last_room-tabulate f (suc n) = last_room-tabulate (λ i. f (suc i)) n

pop_back-tabulate : (f : ℕ → Entry) (n : ℕ) → pop_back (tabulate f (suc n)) ≡ tabulate f n
unfolding pop_back
pop_back-tabulate f zero = refl
pop_back-tabulate f (suc n) = ap (◌∷◌ (f 0)) (pop_back-tabulate (λ i. f (suc i)) n)

one_less : (n : ℕ) → suc n - 1 ≡ n
one_less n = omega arith

-- A call that ends well, in the table `t`.
record Reaches (t : Context) (len : ℕ) (run : Rv RingContext) : Type 0 where
  pub end : RingContext
  pub runs : run ≡ ok end
  pub ring : IsRing end.hd_table
  pub table : table_of end ≡ t
  pub shorter : end.hd_table.len ≤ len

ring_evict_one-Reaches :
    (c : RingContext) (n : ℕ)
    → IsRing c.hd_table
    → c.hd_table.len ≡ suc n
    → Reaches (evict_one (table_of c)) n (ring_evict_one c)
unfolding ring_evict_one ringbuf_get ringbuf_pop_back
ring_evict_one-Reaches c n v e =
    let f = cell junk c.hd_table in
    record {
      end = record {
        hd_table = record c.hd_table { len = n };
        hd_table_bufsize = c.hd_table_bufsize - nv_room (f n).nv;
        hd_table_bufsize_max = c.hd_table_bufsize_max;
      };
      runs =
          rw (e, one_less n, lt→ltb n (suc n) (omega arith), lt→ltb 0 (suc n) (omega arith)) refl;
      ring = record {
        k = v.k;
        narrow = v.narrow;
        mask = v.mask;
        slots = v.slots;
        fits = omega (arith, v.fits);
      };
      table = rw (e, pop_back-tabulate f n, last_room-tabulate f n) refl;
      shorter = omega arith;
    }

ring_evict-Reaches :
    (fuel room : ℕ) (c : RingContext)
    → IsRing c.hd_table
    → Reaches (evict fuel room (table_of c)) c.hd_table.len (ring_evict fuel room c)
unfolding ring_evict evict
ring_evict-Reaches zero room c v = record {
  end = c;
  runs = refl;
  ring = v;
  table = refl;
  shorter = omega arith;
}
ring_evict-Reaches (suc fuel) room c v =
    let t = table_of c in
    let count = length-tabulate (cell junk c.hd_table) c.hd_table.len in
    let more = ltb t.hd_table_bufsize_max (t.hd_table_bufsize + room) in
    elim (Bool-cases (more && ltb 0 c.hd_table.len)) [
      | inl y ↦
          let e : c.hd_table.len ≡ suc (c.hd_table.len - 1) = ground arith in
          let one = ring_evict_one-Reaches c (c.hd_table.len - 1) v e in
          let rest = ring_evict-Reaches fuel room one.end one.ring in
          record {
            end = rest.end;
            runs = rw (ring_evict, y, one.runs) rest.runs;
            ring = rest.ring;
            table = rw (count, y, ← one.table) rest.table;
            shorter = omega (arith, rest.shorter, one.shorter);
          }
      | inr n ↦ record {
        end = c;
        runs = rw (ring_evict, n) refl;
        ring = v;
        table = rw (count, n) refl;
        shorter = omega arith;
      }
    ]

-- `hd_context_shrink_table_size` on the ring makes no call that fails, and leaves the table that
-- it leaves on the list.
pub ring_shrink_table_size_lem :
    (c : RingContext)
    → IsRing c.hd_table
    → (c' : RingContext) × (ring_shrink_table_size c ≡ ok c')
      × IsRing c'.hd_table
      × (table_of c' ≡ hd_context_shrink_table_size (table_of c))
unfolding ring_shrink_table_size hd_context_shrink_table_size
ring_shrink_table_size_lem c v =
    let r = ring_evict-Reaches c.hd_table.len 0 c v in
    rw (length-tabulate (cell junk c.hd_table) c.hd_table.len) (r.end, r.runs, r.ring, r.table)

-- `add_hd_table_incremental` on the ring makes no call that fails, and gives the answer and leaves
-- the table of the addition on the list, where `grown` says whether the ring found memory; it did,
-- unless the allocator refused a request.
pub ring_add_hd_table_incremental_lem :
    (served : Bool) (malloc : ℕ → Bool) (c : RingContext) (nv : Nv) (token : Option ℕ) (flags : ℕ)
    → IsRing c.hd_table
    → c.hd_table.len < 2 ^ 63
    → (grown : Bool) × (answer : Option Entry) × (c' : RingContext) × (ring_add_hd_table_incremental
          served malloc c nv token flags
        ≡ ok (answer, c'))
      × ((answer, table_of c') ≡ add_hd_table_incremental served grown (table_of c) nv token flags)
      × IsRing c'.hd_table
      × ((grown ≡ true) ⊎ ((n : ℕ) × (malloc n ≡ false)))
unfolding ring_add_hd_table_incremental add_hd_table_incremental ring_added
ring_add_hd_table_incremental_lem served malloc c nv token flags v small =
    let r = ring_evict-Reaches c.hd_table.len (nv_room nv) c v in
    let ent : Entry = record { nv = nv; token = token; flags = flags } in
    rw (length-tabulate (cell junk c.hd_table) c.hd_table.len, r.runs, ← r.table)
      (elim (Bool-cases served) [
        | inr n ↦ rw n (true, none, r.end, refl, refl, r.ring, inl refl)
        | inl s ↦ elim (Bool-cases (ltb r.end.hd_table_bufsize_max (nv_room nv))) [
          | inl y ↦ rw (s, y) (true, some ent, r.end, refl, refl, r.ring, inl refl)
          | inr z ↦
              elim (ringbuf_push_front_lem junk malloc r.end.hd_table ent r.ring
                (omega (arith, r.shorter))) [
                  | inl (n, refused, e) ↦
                      rw (s, z, e) (false, none, r.end, refl, refl, r.ring, inr (n, refused))
                  | inr (h, e, w, same) ↦
                      rw (s, z, e) (true, some ent, _, refl, rw same refl, w, inl refl)
                ]
        ]
      ])
