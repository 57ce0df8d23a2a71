-- ===== src/Map/Laws.antt =====
-- The map as a function from keys to entries, and its size.
use newhttp.Common.{
  ℕ, suc, ◌+◌, ◌*◌, ◌^◌, ◌%◌, ◌≤◌, ◌<◌, ◌≡◌, refl, ap, sym, ◌∙◌, arith, Bool, true, false, none,
  some, ◌==◌, if◌then◌else◌, ◌⊎◌, inl, inr, Bool-cases, Option-cases, ltb, ltb→lt, ltb→ge,
}
use newhttp.Errors.{Error, Rv, ok, err}
use newhttp.Map.{Map, MapEntry, hash, lookup, insert_in, map_insert, map_find, map_init, resize}
use newhttp.Map.Hash.{IsTablelen, IsTablelen-small, IsTablelen-twice}
use newhttp.Map.Find.{
  find_in, total, IsTable, find_in-added, IsTable-added, total-added, insert_new, insert_duplicate,
}
use newhttp.Map.Resize.{IsTable-replicate, total-replicate, bucket-replicate, move_buckets_lem}

-- A map between two calls: its table is ordered, `size` counts the entries, and at most three
-- quarters as many as the buckets are in it.
pub record IsMap (map : Map) : Type 0 where
  pub wide : IsTablelen map.tablelen
  pub several : 2 ≤ map.tablelen
  pub table : IsTable map.tablelen map.table
  pub count : map.size ≡ total map.table
  pub loaded : map.size * 4 ≤ map.tablelen * 3

-- The map with one entry more.
pub record Added (e : MapEntry) (map map' : Map) : Type 0 where
  pub valid : IsMap map'
  pub found : (k : ℕ) → map_find map' k ≡ (if e.key == k then some e else map_find map k)
  pub more : map'.size ≡ suc map.size

-- The same entries, in a table that may have grown.
pub record Same (map map' : Map) : Type 0 where
  pub valid : IsMap map'
  pub found : (k : ℕ) → map_find map' k ≡ map_find map k
  pub size : map'.size ≡ map.size

-- The end of an insertion: a new entry is there, and for a key of the map the code is
-- `NGHTTP2_ERR_INVALID_ARGUMENT`.
abbrev pub Inserted : MapEntry → Map → Rv (Unit {0}) × Map → Type 0
Inserted e map (rv, map') =
    ((map_find map e.key ≡ none) × (rv ≡ ok tt) × Added e map map')
    ⊎ ((f : MapEntry) × (map_find map e.key ≡ some f)
        × (rv ≡ err Error.invalid_argument)
        × Same map map')

insert_in_lem :
    (map : Map) (e : MapEntry)
    → IsMap map
    → (map.size + 1) * 4 ≤ map.tablelen * 3
    → Inserted e map (insert_in map e)
unfolding insert_in map_find
insert_in_lem map e v room =
    let small : (map.size + 1) % 2 ^ 64 ≡ suc map.size =
      omega (arith, IsTablelen-small v.wide, v.loaded) in
    elim (Option-cases (find_in map.table map.tablelen e.key)) [
      | inl new ↦
          let add = IsTable-added map.table map.tablelen e v.wide v.table new in
          rw (insert_in, insert_new map.table map.tablelen e new, small)
            (inl (
              new,
              refl,
              record {
                valid = record {
                  wide = v.wide;
                  several = v.several;
                  table = add;
                  count =
                      omega (arith, total-added map.table map.tablelen e v.wide v.table, v.count);
                  loaded = omega arith;
                };
                found = find_in-added map.table map.tablelen e v.wide v.table;
                more = refl;
              },
            ))
      | inr (f, old) ↦
          rw (insert_in, insert_duplicate map.table map.tablelen e f old)
            (inr (f, old, refl, record { valid = v; found = λ k. refl; size = refl }))
    ]

resize_lem :
    (calloc : ℕ → Bool) (map : Map)
    → IsMap map
    → map.tablelen ≤ 2 ^ 30
    → ((calloc (map.tablelen * 2) ≡ false)
        × (resize calloc map (map.tablelen * 2) ≡ err Error.nomem))
      ⊎ ((map' : Map) × (resize calloc map (map.tablelen * 2) ≡ ok map')
          × Same map map'
          × (map'.tablelen ≡ map.tablelen * 2))
unfolding resize map_find
resize_lem calloc map v small =
    let n = map.tablelen * 2 in
    let wide = IsTablelen-twice v.wide small in
    let (t, find, count) = move_buckets_lem map.tablelen n map.table wide v.table in
    elim (Bool-cases (calloc n)) [
      | inl y ↦ rw y (
          inr (
            _,
            refl,
            record {
              valid = record {
                wide = wide;
                several = omega (arith, v.several);
                table = t;
                count = v.count ∙ sym count;
                loaded = omega (arith, v.loaded);
              };
              found = find;
              size = refl;
            },
            refl,
          ))
      | inr z ↦ rw z (inl (refl, refl))
    ]

Inserted-after :
    (e : MapEntry) {map map' : Map} (r : Rv (Unit {0}) × Map)
    → Same map map'
    → Inserted e map' r
    → Inserted e map r
Inserted-after e r s i = elim i [
  | inl (new, o, a) ↦ inl (
    sym (s.found e.key) ∙ new,
    o,
    record {
      valid = a.valid;
      found = λ k. a.found k ∙ ap (λ x. if e.key == k then some e else x) (s.found k);
      more = a.more ∙ ap suc s.size;
    },
  )
  | inr (f, old, o, a) ↦ inr (
    f,
    sym (s.found e.key) ∙ old,
    o,
    record { valid = a.valid; found = λ k. a.found k ∙ s.found k; size = a.size ∙ s.size },
  )
]

-- `nghttp2_map_insert` of an entry: without the memory for the table that it needs, it changes
-- nothing; with a key that the map holds, it gives `NGHTTP2_ERR_INVALID_ARGUMENT` and leaves the
-- entries; otherwise the map holds one entry more, under its key. The table is assumed to have at
-- most 2^30 buckets, so that its indices stay in an `int32_t` when it grows.
pub map_insert_lem :
    (calloc : ℕ → Bool) (map : Map) (e : MapEntry)
    → IsMap map
    → map.tablelen ≤ 2 ^ 30
    → ((calloc (map.tablelen * 2) ≡ false)
        × (map.tablelen * 3 < (map.size + 1) * 4)
        × (map_insert calloc map e ≡ (err Error.nomem, map)))
      ⊎ Inserted e map (map_insert calloc map e)
unfolding map_insert
map_insert_lem calloc map e v small =
    let t3 : map.tablelen * 3 % 2 ^ 64 ≡ map.tablelen * 3 = omega arith in
    let s4 : (map.size + 1) * 4 % 2 ^ 64 ≡ (map.size + 1) * 4 = omega (arith, v.loaded) in
    let t2 : map.tablelen * 2 % 2 ^ 64 ≡ map.tablelen * 2 = omega arith in
    rw (t3, s4, t2)
      (elim (Bool-cases (ltb (map.tablelen * 3) ((map.size + 1) * 4))) [
        | inr z ↦ rw z (inr (insert_in_lem map e v (ltb→ge _ _ z)))
        | inl y ↦ elim (resize_lem calloc map v small) [
          | inl (refused, r) ↦ rw (y, r) (inl (refused, ltb→lt _ _ y, refl))
          | inr (map', r, s, len) ↦
              rw (y, r)
                (inr (
                  Inserted-after e _ s
                    (insert_in_lem map' e s.valid (omega (arith, s.size, v.loaded, v.several)))))
        ]
      ])

-- `nghttp2_map_init`, where the allocator serves it, gives a map that holds nothing.
pub map_init_lem :
    (calloc : ℕ → Bool)
    → calloc 256 ≡ true
    → (map : Map) × (map_init calloc ≡ ok map) × IsMap map × ((k : ℕ) → map_find map k ≡ none)
unfolding map_init map_find
map_init_lem calloc y = rw y (
  _,
  refl,
  record {
    wide = record { k = 8; narrow = omega arith; power = refl };
    several = omega arith;
    table = IsTable-replicate 256;
    count = sym (total-replicate 256);
    loaded = omega arith;
  },
  λ k. ap (λ b. lookup b k) (bucket-replicate 256 (hash k 256)),
)
