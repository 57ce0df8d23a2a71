-- ===== src/Hd/Huffman/Encode.antt =====
-- lib/nghttp2_hd_huffman.c: the encoder. A symbol goes behind the bits of the byte at `last`, of
-- which `rembits` are still free.
pub mod Pieces
pub mod Rows
pub mod Tail
pub mod Started
pub mod Laws
pub mod Total
pub mod RoundTrip
use newhttp.Common.{
  ℕ, ◌+◌, ◌-◌, ◌*◌, ◌/◌, ◌%◌, ◌^◌, Bool, not, List, [], ◌∷◌, bit_and, ◌==◌, ltb, leb, if◌then◌else◌,
  get_or,
}
use newhttp.Errors.{Rv, ok, assert, ◌>>=◌, ◌>>◌}
use newhttp.Buf.Chain.{Bufs}
use newhttp.Buf.Add.{
  bufs_fast_addb, bufs_fast_addb_hold, bufs_fast_orb, bufs_fast_orb_hold, bufs_addb_hold,
  bufs_advance, bufs_cur_avail,
}
use newhttp.Hd.Huffman.Types.{HuffSym, s}
use newhttp.Hd.Huffman.SymTable.{huff_sym_table}

abbrev pub sym_row : ℕ → HuffSym
sym_row sym = get_or huff_sym_table sym (s 0 0)

-- `--` on a `size_t`.
abbrev pub dec_size : ℕ → ℕ
dec_size n = if n == 0 then 2 ^ 64 - 1 else n - 1

-- `if (nbits > k) { ... nbits -= 8; }` of the path for longer codes.
unfoldable pub add_above : ℕ → ℕ → Bufs × ℕ → Bufs × ℕ
add_above k code (bufs, nbits) =
    if ltb k nbits then (bufs_fast_addb bufs (code / 2 ^ k), nbits - 8) else (bufs, nbits)

unfoldable pub huff_encode_last : ℕ → Bufs × ℕ → Bufs × ℕ × ℕ
huff_encode_last code (bufs, nbits) =
    if nbits == 8
    then (let bufs' = bufs_fast_addb bufs code in (bufs', bufs_cur_avail bufs', 8))
    else (let bufs' = bufs_fast_addb_hold bufs code in (bufs', bufs_cur_avail bufs', 8 - nbits))

-- The aligned rest of a code, behind the check of the room.
unfoldable pub huff_encode_tail : Bufs → ℕ → ℕ → Bufs × ℕ × ℕ
unfolding huff_encode_last add_above
huff_encode_tail bufs nbits code =
    if ltb nbits 8
    then (let bufs' = bufs_fast_addb_hold bufs code in (bufs', bufs_cur_avail bufs', 8 - nbits))
    else huff_encode_last code
        (add_above 8 code (add_above 16 code (add_above 24 code (bufs, nbits))))

-- The code with its remaining bits aligned to whole bytes, in 32 bits.
unfoldable pub align : ℕ → ℕ → ℕ
align nbits code =
    if not (bit_and nbits 7 == 0) then code * 2 ^ (8 - bit_and nbits 7) % 2 ^ 32 else code

-- The rest of a code that does not fit the byte at `last`.
unfoldable pub huff_encode_rest : Bufs → ℕ → ℕ → ℕ → Rv (Bufs × ℕ × ℕ)
unfolding huff_encode_tail align
huff_encode_rest bufs avail nbits code =
    if ltb avail ((nbits + 7) / 8)
    then (bufs_advance bufs >>= λ bufs'.
        assert (leb 3 (bufs_cur_avail bufs'))
        >> ok (huff_encode_tail bufs' nbits (align nbits code)))
    else ok (huff_encode_tail bufs nbits (align nbits code))

-- The buffers, `avail` and the number of free bits.
unfoldable pub huff_encode_sym : Bufs → ℕ → ℕ → HuffSym → Rv (Bufs × ℕ × ℕ)
unfolding huff_encode_rest
huff_encode_sym bufs avail rembits row =
    if ltb row.nbits rembits
    then ok (
      bufs_fast_orb_hold bufs (row.code * 2 ^ (rembits - row.nbits) % 2 ^ 32),
      avail,
      rembits - row.nbits,
    )
    else if rembits == row.nbits
    then ok (bufs_fast_orb bufs row.code, dec_size avail, 8)
    else huff_encode_rest (bufs_fast_orb bufs (row.code / 2 ^ (row.nbits - rembits)))
        (dec_size avail) (row.nbits - rembits) row.code

-- A new byte is started where the last one is full.
unfoldable pub huff_start_byte : Bufs → ℕ → ℕ → Rv (Bufs × ℕ)
huff_start_byte bufs avail rembits =
    if rembits == 8
    then (if not (avail == 0)
        then ok (bufs_fast_addb_hold bufs 0, avail)
        else (bufs_addb_hold bufs 0 >>= λ bufs'. ok (bufs', bufs_cur_avail bufs')))
    else ok (bufs, avail)

unfoldable pub huff_encode_loop : Bufs → ℕ → ℕ → List ℕ → Rv (Bufs × ℕ × ℕ)
huff_encode_loop bufs avail rembits [] = ok (bufs, avail, rembits)
huff_encode_loop bufs avail rembits (byte ∷ src) =
    huff_start_byte bufs avail rembits >>= λ (bufs', avail').
    huff_encode_sym bufs' avail' rembits (sym_row byte) >>= λ (bufs'', avail'', rembits').
    huff_encode_loop bufs'' avail'' rembits' src

-- The padding is the start of the symbol 256.
unfoldable pub huff_encode_end : Bufs → ℕ → ℕ → Rv Bufs
huff_encode_end bufs avail rembits =
    if ltb rembits 8
    then assert (not (avail == 0))
      >> ok (bufs_fast_orb bufs ((sym_row 256).code / 2 ^ ((sym_row 256).nbits - rembits)))
    else ok bufs

unfoldable pub huff_encode : Bufs → List ℕ → Rv Bufs
huff_encode bufs src =
    huff_encode_loop bufs (bufs_cur_avail bufs) 8 src >>= λ (bufs', avail, rembits).
    huff_encode_end bufs' avail rembits

unfoldable pub count_bits : List ℕ → ℕ
unfolding huff_sym_table
count_bits [] = 0
count_bits (byte ∷ src) = (sym_row byte).nbits + count_bits src

-- `nghttp2_hd_huff_encode_count`: the bytes that the bits and their padding take.
unfoldable pub huff_encode_count : List ℕ → ℕ
unfolding count_bits
huff_encode_count src = (count_bits src + 7) / 8
