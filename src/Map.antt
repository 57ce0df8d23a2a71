-- ===== src/Map.antt =====
-- lib/nghttp2_map.c: the hash map from stream identifiers to entries.
pub mod Hash
pub mod Find
pub mod Entries
pub mod Resize
pub mod Laws
pub mod Remove
mod Tests
use newhttp.Common.{
  ℕ, zero, suc, ◌+◌, ◌-◌, ◌*◌, ◌/◌, ◌^◌, ◌%◌, bit_and, bit_xor, Bool, true, false, List, [], ◌∷◌,
  Option, none, some, get_or, set, replicate, ltb, ◌==◌, if◌then◌else◌,
}
use newhttp.Errors.{Error, Rv, ok, err, abort}

-- An entry, with its address. The `next` pointers are the lists of the buckets; the entry that is
-- inserted is the one that `nghttp2_map_entry_init` made, whose `next` is null.
pub record MapEntry : Type 0 where
  pub key : ℕ
  pub address : ℕ

pub record Map : Type 0 where
  pub table : List (List MapEntry)
  pub tablelen : ℕ
  pub size : ℕ

abbrev pub initial_table_length : ℕ
initial_table_length = 256

-- `h >> n` of an `int32_t` whose bits are `h`, with copies of the sign bit from the left.
abbrev pub shift_right : ℕ → ℕ → ℕ
shift_right h n = if ltb h (2 ^ 31) then h / 2 ^ n else h / 2 ^ n + (2 ^ n - 1) * 2 ^ (32 - n)

unfoldable pub hash : ℕ → ℕ → ℕ
hash h modulus =
    let h1 = bit_xor h (bit_xor (shift_right h 20) (shift_right h 12)) in
    let h2 = bit_xor h1 (bit_xor (shift_right h1 7) (shift_right h1 4)) in bit_and h2 (modulus - 1)

abbrev pub bucket : List (List MapEntry) → ℕ → List MapEntry
bucket table h = get_or table h []

-- The loop of `nghttp2_map_find`, which is also the test for a duplicate in `insert`.
abbrev pub lookup : List MapEntry → ℕ → Option MapEntry
lookup [] k = none
lookup (e ∷ es) k = if e.key == k then some e else lookup es k

-- `insert` into the list `b` of the slot `h`.
unfoldable pub insert_at :
    List (List MapEntry) → ℕ → MapEntry → List MapEntry → Rv (List (List MapEntry))
insert_at table h entry [] = ok (set table h (entry ∷ []))
insert_at table h entry (p ∷ ps) = elim (lookup (p ∷ ps) entry.key) [
  | some found ↦ err Error.invalid_argument
  | none ↦ ok (set table h (entry ∷ p ∷ ps))
]

unfoldable pub insert : List (List MapEntry) → ℕ → MapEntry → Rv (List (List MapEntry))
insert table tablelen entry =
    let h = hash entry.key tablelen in insert_at table h entry (bucket table h)

-- The loops of `resize`, which pass over the code that `insert` returns.
unfoldable pub insert_or_keep : ℕ → List (List MapEntry) → MapEntry → List (List MapEntry)
insert_or_keep n table entry = elim (insert table n entry) [ ok table' ↦ table' | _ ↦ table ]

unfoldable pub move_bucket : ℕ → List MapEntry → List (List MapEntry) → List (List MapEntry)
move_bucket n [] new_table = new_table
move_bucket n (entry ∷ es) new_table = move_bucket n es (insert_or_keep n new_table entry)

unfoldable pub move_buckets : ℕ → List (List MapEntry) → List (List MapEntry) → List (List MapEntry)
unfolding move_bucket
move_buckets n [] new_table = new_table
move_buckets n (b ∷ bs) new_table = move_buckets n bs (move_bucket n b new_table)

-- `calloc` says whether the allocator gives so many slots.
unfoldable pub map_init : (ℕ → Bool) → Rv Map
map_init calloc =
    if calloc initial_table_length
    then ok (record {
      table = replicate initial_table_length [];
      tablelen = initial_table_length;
      size = 0;
    })
    else err Error.nomem

unfoldable pub resize : (ℕ → Bool) → Map → ℕ → Rv Map
resize calloc map new_tablelen =
    if calloc new_tablelen
    then ok (record {
      table = move_buckets new_tablelen map.table (replicate new_tablelen []);
      tablelen = new_tablelen;
      size = map.size;
    })
    else err Error.nomem

-- An insertion returns a code, and the map may have grown even where it fails.
unfoldable pub insert_in : Map → MapEntry → Rv (Unit {0}) × Map
insert_in map new_entry = elim (insert map.table map.tablelen new_entry) [
  | ok table ↦
      (ok tt, record { table = table; tablelen = map.tablelen; size = (map.size + 1) % 2 ^ 64 })
  | err e ↦ (err e, map)
  | abort ↦ (abort, map)
]

unfoldable pub map_insert : (ℕ → Bool) → Map → MapEntry → Rv (Unit {0}) × Map
unfolding insert_in resize
map_insert calloc map new_entry =
    if ltb (map.tablelen * 3 % 2 ^ 64) ((map.size + 1) * 4 % 2 ^ 64)
    then elim (resize calloc map (map.tablelen * 2 % 2 ^ 64)) [
      | ok map' ↦ insert_in map' new_entry
      | err e ↦ (err e, map)
      | abort ↦ (abort, map)
    ]
    else insert_in map new_entry

unfoldable pub map_find : Map → ℕ → Option MapEntry
map_find map k = lookup (bucket map.table (hash k map.tablelen)) k

-- The list without its first entry with the key.
abbrev pub unlink : List MapEntry → ℕ → List MapEntry
unlink [] k = []
unlink (e ∷ es) k = if e.key == k then es else e ∷ unlink es k

unfoldable pub map_remove : Map → ℕ → Rv Map
map_remove map k =
    let h = hash k map.tablelen in
    elim (lookup (bucket map.table h) k) [
      | some e ↦ ok (record {
        table = set map.table h (unlink (bucket map.table h) k);
        tablelen = map.tablelen;
        size = (map.size + 2 ^ 64 - 1) % 2 ^ 64;
      })
      | none ↦ err Error.invalid_argument
    ]

unfoldable pub map_size : Map → ℕ
map_size map = map.size

-- `nghttp2_map_each`: the first result of `func` that is not 0, or 0.
unfoldable pub each_entry : (MapEntry → ℕ) → List MapEntry → ℕ
each_entry func [] = 0
each_entry func (e ∷ es) =
    let rest = each_entry func es in let rv = func e in if rv == 0 then rest else rv

unfoldable pub each_bucket : (MapEntry → ℕ) → List (List MapEntry) → ℕ
unfolding each_entry
each_bucket func [] = 0
each_bucket func (b ∷ bs) =
    let rest = each_bucket func bs in let rv = each_entry func b in if rv == 0 then rest else rv

unfoldable pub map_each : (MapEntry → ℕ) → Map → ℕ
unfolding each_bucket
map_each func map = each_bucket func map.table
