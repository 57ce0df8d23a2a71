-- ===== src/Hd/Huffman.antt =====
-- lib/nghttp2_hd_huffman.c: Huffman coding of strings. A symbol of the tables that is out of
-- range is read as the failing row; the states and the bytes of the source never are.
pub mod Types
pub mod SymTable
pub mod DecodeTable
pub mod Paths
pub mod Bits
pub mod Rows
pub mod Sound
pub mod Tree
pub mod Stream
pub mod Complete
pub mod Laws
pub mod Encode
mod Tests
use newhttp.Common.{
  ℕ, zero, suc, ◌+◌, ◌-◌, ◌/◌, ◌%◌, Bool, true, false, not, List, [], ◌∷◌, bit_and, ◌==◌, ◌&&◌,
  if◌then◌else◌, get_or, length,
}
use newhttp.Errors.{Rv, ok, err, header_comp, ◌>>=◌}
use newhttp.Buf.Chain.{Bufs}
use newhttp.Buf.Add.{bufs_fast_addb, bufs_addb, bufs_cur_avail}
use newhttp.Hd.Huffman.Types.{HuffDecode, d}
use newhttp.Hd.Huffman.DecodeTable.{huff_decode_table}

-- `nghttp2_huff_decode_flag`
abbrev pub huff_accepted : ℕ
huff_accepted = 1

abbrev pub huff_sym : ℕ
huff_sym = 2

abbrev pub huff_fail : ℕ
huff_fail = 4

abbrev pub has : HuffDecode → ℕ → Bool
has t flag = not (bit_and t.flags flag == 0)

unfoldable pub entry : ℕ → ℕ → HuffDecode
entry state nibble = get_or (get_or huff_decode_table state []) nibble (d 0 4 0)

-- `nghttp2_hd_huff_decode_context`
pub record HuffContext : Type 0 where
  pub state : ℕ
  pub accept : Bool

unfoldable pub huff_decode_context_init : HuffContext
huff_decode_context_init = record { state = 0; accept = true }

-- The macro: the buffers with the symbol, and the value of `avail`.
unfoldable pub huff_decode_sym_emit : Bufs → ℕ → ℕ → Rv (Bufs × ℕ)
huff_decode_sym_emit bufs sym avail =
    if not (avail == 0)
    then ok (bufs_fast_addb bufs sym, avail - 1)
    else bufs_addb bufs sym >>= λ bufs'. ok (bufs', bufs_cur_avail bufs')

-- What the loop does with one entry.
unfoldable pub huff_take : HuffDecode → Bufs → ℕ → Rv (Bufs × ℕ)
huff_take t bufs avail =
    if has t huff_fail
    then err header_comp
    else if has t huff_sym
    then huff_decode_sym_emit bufs t.sym avail
    else ok (bufs, avail)

unfoldable pub huff_decode_byte : HuffContext → Bufs → ℕ → ℕ → Rv (HuffContext × Bufs × ℕ)
huff_decode_byte ctx bufs avail byte =
    let high = entry ctx.state (byte / 16) in
    let low = entry high.state (bit_and byte 0xf) in
    huff_take high bufs avail >>= λ (bufs', avail').
    huff_take low bufs' avail' >>= λ (bufs'', avail'').
    ok (record { state = low.state; accept = has low huff_accepted }, bufs'', avail'')

unfoldable pub huff_decode_loop : HuffContext → Bufs → ℕ → List ℕ → Rv (HuffContext × Bufs × ℕ)
huff_decode_loop ctx bufs avail [] = ok (ctx, bufs, avail)
huff_decode_loop ctx bufs avail (byte ∷ src) =
    huff_decode_byte ctx bufs avail byte >>= λ (ctx', bufs', avail').
    huff_decode_loop ctx' bufs' avail' src

-- The context, the buffers and the number of bytes that are read.
unfoldable pub huff_decode : HuffContext → Bufs → List ℕ → Bool → Rv (HuffContext × Bufs × ℕ)
huff_decode ctx bufs src final =
    huff_decode_loop ctx bufs (bufs_cur_avail bufs) src >>= λ (ctx', bufs', _).
    if final && not ctx'.accept then err header_comp else ok (ctx', bufs', length src)
