-- ===== src/Hd/Inflate/Tests.antt =====
-- Tests of strings in header fields, and their theorem at a concrete input. The bytes of
-- "custom-key" are those of RFC 7541, section C.4.3.
use newhttp.Common.{ℕ, ◌≤◌, ◌≡◌, refl, true, false, List, [], ◌∷◌, ◌++◌, replicate, arith}
use newhttp.Common.Text.{codes}
use newhttp.Errors.{Rv, ok, err, buffer_error, ◌>>=◌}
use newhttp.Buf.Chain.{Bufs}
use newhttp.Buf.Add.{
  bufs_add, bufs_add_loop, bufs_cpymem, bufs_avail, bufs_fast_addb, bufs_fast_addb_hold,
  bufs_fast_orb, bufs_fast_orb_hold, bufs_advance,
}
use newhttp.Buf.Add.Laws.{text}
use newhttp.Hd.Length.{count_encoded_length, encode_length}
use newhttp.Hd.Huffman.{huff_decode_context_init}
use newhttp.Hd.Huffman.SymTable.{huff_sym_table}
use newhttp.Hd.Huffman.Encode.{
  huff_encode, huff_encode_loop, huff_encode_sym, huff_start_byte, huff_encode_end,
  huff_encode_count,
}
use newhttp.Hd.Emit.{emit_string, emit_number}
use newhttp.Hd.Emit.StringLaws.{string_room}
use newhttp.Hd.Inflate.{Inflater, InflateState}
use newhttp.Hd.Inflate.Laws.{ReadsName, emit_string-name_step}

abbrev chunk : ℕ → Bufs
chunk n = record {
  before = [];
  cur = record { mem = replicate n 0; pos = 0; last = 0; mark = 0 };
  after = [];
  serves = λ i. true;
  chunk_length = n;
  max_chunk = 1;
  chunk_used = 1;
  chunk_keep = 1;
  offset = 0;
}

abbrev text_of : Rv Bufs → Rv (List ℕ)
text_of m = m >>= λ b. ok (text b)

emit_key :
    text_of (emit_string (chunk 32) (codes "custom-key"))
    ≡ ok (0x88 ∷ 0x25 ∷ 0xa8 ∷ 0x49 ∷ 0xe9 ∷ 0x5b ∷ 0xa9 ∷ 0x7d ∷ 0x7f ∷ [])
unfolding emit_string emit_number bufs_add bufs_add_loop bufs_cpymem bufs_avail encode_length
    huff_encode huff_encode_loop huff_encode_sym huff_start_byte huff_encode_end huff_encode_count
    count_encoded_length huff_sym_table bufs_fast_addb bufs_fast_addb_hold bufs_fast_orb
    bufs_fast_orb_hold
emit_key = refl

-- A string that Huffman coding does not make shorter is written as it is.
emit_plain : text_of (emit_string (chunk 32) (0 ∷ 1 ∷ [])) ≡ ok (2 ∷ 0 ∷ 1 ∷ [])
unfolding emit_string emit_number bufs_add bufs_add_loop bufs_cpymem bufs_avail encode_length
    huff_encode_count count_encoded_length huff_sym_table bufs_fast_addb
emit_plain = refl

emit_no_room : text_of (emit_string (chunk 4) (codes "custom-key")) ≡ err buffer_error
unfolding emit_string emit_number bufs_add bufs_add_loop bufs_cpymem bufs_avail encode_length
    huff_encode huff_encode_loop huff_encode_sym huff_start_byte huff_encode_end huff_encode_count
    count_encoded_length huff_sym_table bufs_fast_addb bufs_fast_addb_hold bufs_fast_orb
    bufs_fast_orb_hold bufs_advance
emit_no_room = refl

key_count : huff_encode_count (codes "custom-key") ≡ 8
unfolding huff_encode_count
key_count = refl

key_length : count_encoded_length 8 7 ≡ 1
unfolding count_encoded_length
key_length = refl

key_room : string_room (codes "custom-key") ≤ 32
key_room = rw key_count (rw key_length (omega arith))

abbrev fresh_inflater : Inflater
fresh_inflater = record {
  state = InflateState.newname_check_namelen;
  left = 0;
  shift = 0;
  huffman_encoded = false;
  huff_decode_ctx = huff_decode_context_init;
  nvbufs = chunk 64;
  newnamelen = 0;
}

emit_string-name_step_example :
    (bufs' : Bufs) × (s : List ℕ) × (emit_string (chunk 32) (codes "custom-key") ≡ ok bufs')
    × (text bufs' ≡ [] ++ s)
    × ReadsName fresh_inflater s (codes "custom-key") (7 ∷ [])
emit_string-name_step_example =
    emit_string-name_step (chunk 32) (codes "custom-key") (7 ∷ []) fresh_inflater (omega arith)
      (omega arith)
      (record { pos_le = omega arith; last_le = omega arith; fresh = tt; room = omega arith })
      key_room refl
      (record { pos_le = omega arith; last_le = omega arith; fresh = tt; room = omega arith })
      (omega arith)
