-- ===== src/Hd/Tests.antt =====
-- Names that `lookup_token` of lib/nghttp2_hd.c knows, one that it does not, integers, and a dynamic table.
use newhttp.Common.{ℕ, ◌≡◌, ◌≤◌, ◌<◌, ◌^◌, ◌++◌, [], ◌∷◌, arith, refl, ◌↔◌, true, false, some, none}
use newhttp.Hd.Length.{
  Decoded, decoded, undefined, count_encoded_length, encode_length, decode_length,
}
use newhttp.Hd.Length.Steps.{finished}
use newhttp.Hd.Length.RoundTrip.{encode_length-decode_length}
use newhttp.Hd.Length.Bounds.{decode_length_lem}
use newhttp.Hd.Length.Pieces.{after_bytes, decode_length-append}
use newhttp.Common.Text.{codes}
use newhttp.Common.{◌⊎◌, ◌-◌}
use newhttp.Frame.Types.{Nv}
use newhttp.Hd.Table.{Entry, Context, add_hd_table_incremental, hd_context_shrink_table_size}
use newhttp.Hd.Table.Laws.{
  IsTable, fit, add_hd_table_incremental_lem, hd_context_shrink_table_size_lem,
}
use newhttp.Hd.Token
use newhttp.Hd.Lookup.{lookup_token}
use newhttp.Hd.StaticTable.{static_table}
use newhttp.Hd.Lookup.Laws.{names_of, listed, lookup_token_iff}

lookup_token_iff_example :
    (lookup_token (codes "content-length") ≡ some Token.content_length)
    ↔ (listed (codes "content-length") Token.content_length (names_of static_table) ≡ true)
lookup_token_iff_example = lookup_token_iff (codes "content-length") Token.content_length

unknown : lookup_token (codes "content-lengtg") ≡ none
unfolding lookup_token
unknown = refl

-- 1337 with a prefix of 5 bits (RFC 7541, appendix C.1.2), into a byte whose high bits are set.
encode_1337 : encode_length (0xe0 ∷ 0 ∷ 0 ∷ 0 ∷ []) 1337 5 ≡ (0xff ∷ 0x9a ∷ 0x0a ∷ 0 ∷ [], 3)
unfolding encode_length newhttp.Hd.Length.encode_loop
encode_1337 = refl

room_1337 : count_encoded_length 1337 5 ≤ 4
unfolding count_encoded_length
room_1337 = omega arith

encode_length-decode_length_example :
    (shift : ℕ) × (decode_length 0 0
        ((encode_length (0xe0 ∷ 0 ∷ 0 ∷ 0 ∷ []) 1337 5).0 ++ (7 ∷ []))
        5
      ≡ finished 1337 shift (encode_length (0xe0 ∷ 0 ∷ 0 ∷ 0 ∷ []) 1337 5).1)
encode_length-decode_length_example =
    encode_length-decode_length 0xe0 (0 ∷ 0 ∷ 0 ∷ []) (7 ∷ []) 1337 5 (omega arith) (omega arith)
      (omega arith) room_1337

abbrev whole_1337 : Decoded
whole_1337 = record { res = 1337; shift = 7; final = true; processed = 3 }

decode_1337 : decode_length 0 0 (0x1f ∷ 0x9a ∷ 0x0a ∷ []) 5 ≡ decoded whole_1337
unfolding decode_length
decode_1337 = refl

decode_length_example : (whole_1337.res < 2 ^ 32) × (whole_1337.processed ≤ 3)
decode_length_example =
    decode_length_lem 0 0 (0x1f ∷ 0x9a ∷ 0x0a ∷ []) 5 whole_1337 (omega arith) (omega arith)
      (omega arith) decode_1337

abbrev part_1337 : Decoded
part_1337 = record { res = 57; shift = 7; final = false; processed = 2 }

decode_part : decode_length 0 0 (0x1f ∷ 0x9a ∷ []) 5 ≡ decoded part_1337
unfolding decode_length
decode_part = refl

decode_length-append_example :
    decode_length 0 0 (0x1f ∷ ((0x9a ∷ []) ++ (0x0a ∷ []))) 5
    ≡ after_bytes 2 (decode_length 57 7 (0x0a ∷ []) 5)
decode_length-append_example =
    decode_length-append 0x1f (0x9a ∷ []) (0x0a ∷ []) 5 part_1337 (omega arith) decode_part refl

-- Five bytes that add nothing lead to a shift by 35.
undefined_shift : decode_length 0 0 (0x1f ∷ 0x80 ∷ 0x80 ∷ 0x80 ∷ 0x80 ∷ 0x80 ∷ 0 ∷ []) 5 ≡ undefined
unfolding decode_length
undefined_shift = refl

-- A table of 100 bytes with two entries of 38 bytes each.
abbrev small_entry : Entry
small_entry = record {
  nv = record { name = codes "age"; value = codes "123"; flags = 0 };
  token = none;
  flags = 0;
}

abbrev table : Context
table = record {
  hd_table = small_entry ∷ small_entry ∷ [];
  hd_table_bufsize = 76;
  hd_table_bufsize_max = 100;
}

table-IsTable : IsTable table
table-IsTable = record { size = refl; small = omega arith }

abbrev new_nv : Nv
new_nv = record { name = codes "via"; value = codes "proxy"; flags = 0 }

abbrev new_entry : Entry
new_entry = record { nv = new_nv; token = none; flags = 0 }

abbrev table_after : Context
table_after = (add_hd_table_incremental true true table new_nv none 0).1

add_hd_table_incremental_example :
    IsTable table_after
    × ((true ≡ true)
          × ((add_hd_table_incremental true true table new_nv none 0).0 ≡ some new_entry)
          × (table_after.hd_table ≡ new_entry ∷ fit (100 - 40) (small_entry ∷ small_entry ∷ []))
        ⊎ (true ≡ false)
          × ((add_hd_table_incremental true true table new_nv none 0).0 ≡ none)
          × (table_after.hd_table ≡ fit (100 - 40) (small_entry ∷ small_entry ∷ [])))
add_hd_table_incremental_example =
    add_hd_table_incremental_lem true true table new_nv none 0 table-IsTable

table_one_left : table_after.hd_table ≡ new_entry ∷ small_entry ∷ []
unfolding add_hd_table_incremental newhttp.Hd.Table.last_room newhttp.Hd.Table.pop_back
table_one_left = refl

-- The limit lowered to 40 bytes.
abbrev lowered : Context
lowered = record table { hd_table_bufsize_max = 40 }

hd_context_shrink_table_size_example :
    ((hd_context_shrink_table_size lowered).hd_table ≡ fit 40 (small_entry ∷ small_entry ∷ []))
    × IsTable (hd_context_shrink_table_size lowered)
hd_context_shrink_table_size_example = hd_context_shrink_table_size_lem lowered refl
