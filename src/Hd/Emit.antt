-- ===== src/Hd/Emit.antt =====
-- lib/nghttp2_hd.c: the blocks that the deflater writes for a header field.
pub mod Laws
pub mod StringLength
pub mod StringLaws
use newhttp.Common.{
  ℕ, ◌+◌, Bool, true, false, List, [], ◌∷◌, replicate, take, length, ltb, ◌==◌, if◌then◌else◌,
}
use newhttp.Errors.{Rv, ok, err, header_comp, assert, ◌>>=◌, ◌>>◌}
use newhttp.Buf.Chain.{Bufs}
use newhttp.Buf.Add.{bufs_addb, bufs_add}
use newhttp.Frame.Types.{Nv}
use newhttp.Hd.Length.{count_encoded_length, encode_length}
use newhttp.Hd.Huffman.Encode.{huff_encode, huff_encode_count}

-- `uint8_t sb[16]` with its first byte set; the others are not initialised.
abbrev pub sb : ℕ → List ℕ
sb first = first ∷ replicate 15 0

-- A number behind the bits of a first byte, which the emitting functions share.
unfoldable pub emit_number : Bufs → ℕ → ℕ → ℕ → Rv Bufs
emit_number bufs first n prefix =
    let blocklen = count_encoded_length n prefix in
    if ltb 16 blocklen
    then err header_comp
    else bufs_add bufs (take blocklen (encode_length (sb first) n prefix).0)

unfoldable pub emit_table_size : Bufs → ℕ → Rv Bufs
unfolding emit_number
emit_table_size bufs table_size = emit_number bufs 0x20 table_size 5

unfoldable pub emit_indexed_block : Bufs → ℕ → Rv Bufs
unfolding emit_number
emit_indexed_block bufs idx = emit_number bufs 0x80 (idx + 1) 7

-- A string, in Huffman coding if that is shorter.
unfoldable pub emit_string : Bufs → List ℕ → Rv Bufs
emit_string bufs str =
    let count = huff_encode_count str in
    let huffman = ltb count (length str) in
    let enclen = if huffman then count else length str in
    emit_number bufs (if huffman then 0x80 else 0) enclen 7 >>= λ bufs'.
    if huffman then huff_encode bufs' str else assert (enclen == length str) >> bufs_add bufs' str

-- `nghttp2_hd_indexing_mode`
pub data IndexingMode : Type 0 where
  with_indexing without_indexing never_indexing : IndexingMode

unfoldable pub pack_first_byte : IndexingMode → ℕ
pack_first_byte with_indexing = 0x40
pack_first_byte without_indexing = 0
pack_first_byte never_indexing = 0x10

unfoldable pub prefix_of : IndexingMode → ℕ
prefix_of with_indexing = 6
prefix_of without_indexing = 4
prefix_of never_indexing = 4

unfoldable pub emit_indname_block : Bufs → ℕ → Nv → IndexingMode → Rv Bufs
unfolding emit_number emit_string prefix_of pack_first_byte
emit_indname_block bufs idx nv mode =
    emit_number bufs (pack_first_byte mode) (idx + 1) (prefix_of mode) >>= λ bufs'.
    emit_string bufs' nv.value

unfoldable pub emit_newname_block : Bufs → Nv → IndexingMode → Rv Bufs
unfolding emit_string pack_first_byte
emit_newname_block bufs nv mode = bufs_addb bufs (pack_first_byte mode) >>= λ b.
    emit_string b nv.name >>= λ b'. emit_string b' nv.value
