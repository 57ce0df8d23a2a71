-- ===== src/Map/Tests.antt =====
-- A map with the entry of stream 1.
use newhttp.Common.{
  ℕ, ◌≡◌, ◌⊎◌, ◌<◌, ◌+◌, ◌^◌, refl, arith, Bool, Option, some, none, [], true, false, replicate,
  sym,
}
use newhttp.Errors.{Error, ok, err}
use newhttp.Map.{
  Map, MapEntry, hash, map_init, map_find, map_insert, map_remove, map_size, map_each,
}
use newhttp.Map.Hash.{IsTablelen}
use newhttp.Map.Find.{added, IsTable-added, total-added}
use newhttp.Map.Resize.{IsTable-replicate}
use newhttp.Map.Laws.{IsMap, Inserted, map_init_lem, map_insert_lem}
use newhttp.Map.Remove.{Removed, map_remove_lem}

abbrev stream_1 : MapEntry
stream_1 = record { key = 1; address = 1000 }

abbrev none_yet : Map
none_yet = record { table = replicate 4 []; tablelen = 4; size = 0 }

none_yet_ok : IsMap none_yet
none_yet_ok = record {
  wide = record { k = 2; narrow = omega arith; power = refl };
  several = omega arith;
  table = IsTable-replicate 4;
  count = refl;
  loaded = omega arith;
}

-- The allocator that serves every request.
abbrev plenty : ℕ → Bool
plenty n = true

map_init_example :
    (map : Map) × (map_init plenty ≡ ok map) × IsMap map × ((k : ℕ) → map_find map k ≡ none)
map_init_example = map_init_lem plenty refl

map_insert_example :
    ((plenty 8 ≡ false)
      × (12 < 4)
      × (map_insert plenty none_yet stream_1 ≡ (err Error.nomem, none_yet)))
    ⊎ Inserted stream_1 none_yet (map_insert plenty none_yet stream_1)
map_insert_example = map_insert_lem plenty none_yet stream_1 none_yet_ok (omega arith)

-- Stream identifiers of both signs as `int32_t`.
hashes : (hash 65793 256 ≡ 2) × (hash (2 ^ 31) 256 ≡ 112)
unfolding hash
hashes = (refl, refl)

wide : IsTablelen 4
wide = record { k = 2; narrow = omega arith; power = refl }

abbrev one_stream : Map
one_stream = record {
  table = added (replicate 4 []) 4 stream_1 wide (IsTable-replicate 4);
  tablelen = 4;
  size = 1;
}

one_stream_ok : IsMap one_stream
unfolding hash
one_stream_ok = record {
  wide = wide;
  several = omega arith;
  table = IsTable-added (replicate 4 []) 4 stream_1 wide (IsTable-replicate 4) refl;
  count = sym (total-added (replicate 4 []) 4 stream_1 wide (IsTable-replicate 4));
  loaded = omega arith;
}

map_remove_example :
    ((map_find one_stream 1 ≡ none) × (map_remove one_stream 1 ≡ err Error.invalid_argument))
    ⊎ ((map' : Map) × (map_remove one_stream 1 ≡ ok map') × Removed 1 one_stream map')
map_remove_example = map_remove_lem one_stream 1 one_stream_ok

-- A map that grows.
grown : Option MapEntry
grown =
    let insert : ℕ → Map → Map =
      λ k m. (map_insert plenty m (record { key = k; address = k + 1 })).1 in
    map_find (insert 9 (insert 7 (insert 5 (insert 3 (insert 1 none_yet))))) 7

grown_ok : grown ≡ some (record { key = 7; address = 8 })
unfolding grown map_find map_insert newhttp.Map.insert newhttp.Map.insert_at hash
    newhttp.Map.move_buckets newhttp.Map.insert_or_keep
grown_ok = refl
