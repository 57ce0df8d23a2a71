-- ===== src/Hd/Ring/Tests.antt =====
-- A ring of four slots whose first entry is put before index 0.
use newhttp.Common.{
  ℕ, ◌≡◌, ◌⊎◌, refl, arith, Bool, Option, none, List, [], ◌∷◌, true, false, replicate,
}
use newhttp.Errors.{Rv, ok}
use newhttp.Frame.Types.{Nv}
use newhttp.Hd.Table.{Entry, hd_context_shrink_table_size, add_hd_table_incremental}
use newhttp.Hd.Ring.{Ringbuf, ringbuf_init, ringbuf_push_front}
use newhttp.Hd.Ring.Laws.{IsRing, Served, contents, ringbuf_push_front_lem}
use newhttp.Hd.Ring.Table.{RingContext, junk, ring_shrink_table_size, ring_add_hd_table_incremental}
use newhttp.Hd.Ring.Refine.{table_of, ring_shrink_table_size_lem, ring_add_hd_table_incremental_lem}

abbrev four : Ringbuf Entry
four = record { buffer = replicate 4 junk; mask = 3; first = 0; len = 0 }

four_ok : IsRing four
four_ok = record { k = 2; narrow = omega arith; mask = refl; slots = refl; fits = omega arith }

abbrev field : Nv
field = record { name = 97 ∷ []; value = 98 ∷ []; flags = 0 }

abbrev entry : Entry
entry = record { nv = field; token = none; flags = 0 }

abbrev plenty : ℕ → Bool
plenty n = true

ringbuf_push_front_example :
    Served junk plenty
      (λ r'. contents junk r' ≡ entry ∷ [])
      (ringbuf_push_front junk plenty four entry)
ringbuf_push_front_example = ringbuf_push_front_lem junk plenty four entry four_ok (omega arith)

abbrev context : RingContext
context = record { hd_table = four; hd_table_bufsize = 0; hd_table_bufsize_max = 100 }

ring_shrink_table_size_example :
    (c' : RingContext) × (ring_shrink_table_size context ≡ ok c')
    × IsRing c'.hd_table
    × (table_of c' ≡ hd_context_shrink_table_size (table_of context))
ring_shrink_table_size_example = ring_shrink_table_size_lem context four_ok

ring_add_hd_table_incremental_example :
    (grown : Bool) × (answer : Option Entry) × (c' : RingContext) × (ring_add_hd_table_incremental
        true plenty context field none 0
      ≡ ok (answer, c'))
    × ((answer, table_of c') ≡ add_hd_table_incremental true grown (table_of context) field none 0)
    × IsRing c'.hd_table
    × ((grown ≡ true) ⊎ ((n : ℕ) × (plenty n ≡ false)))
ring_add_hd_table_incremental_example =
    ring_add_hd_table_incremental_lem true plenty context field none 0 four_ok (omega arith)

-- The slots of a ring for five bytes, after two are pushed.
abbrev slots : Rv (Ringbuf ℕ) → List ℕ
slots (ok r) = r.buffer
slots _ = []

abbrev push_on : ℕ → Rv (Ringbuf ℕ) → Rv (Ringbuf ℕ)
push_on b (ok r) = ringbuf_push_front 0 plenty r b
push_on b e = e

two_pushed :
    slots (push_on 2 (push_on 1 (ringbuf_init 0 plenty 5))) ≡ 0 ∷ 0 ∷ 0 ∷ 0 ∷ 0 ∷ 0 ∷ 2 ∷ 1 ∷ []
unfolding ringbuf_init ringbuf_push_front
two_pushed = refl
