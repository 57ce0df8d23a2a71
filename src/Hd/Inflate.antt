-- ===== src/Hd/Inflate.antt =====
-- lib/nghttp2_hd.c: how the inflater reads the strings of a header field.
pub mod NameLength
pub mod Laws
mod Tests
use newhttp.Common.{
  ℕ, ◌+◌, ◌-◌, ◌^◌, min, Bool, true, false, not, List, [], ◌∷◌, take, drop, length, leb, ltb, ◌==◌,
  if◌then◌else◌, bit_and, get_or,
}
use newhttp.Errors.{Rv, ok, err, abort, header_comp, ◌>>=◌}
use newhttp.Buf.Chain.{Bufs}
use newhttp.Buf.Add.{bufs_addb, bufs_add, bufs_len}
use newhttp.Hd.Length.{Decoding, decoded, failed, undefined, decode_length}
use newhttp.Hd.Huffman.{HuffContext, huff_decode_context_init, huff_decode}

abbrev pub max_nv : ℕ
max_nv = 65536

-- `nghttp2_hd_inflate_state`
pub data InflateState : Type 0 where
  expect_table_size inflate_start opcode read_table_size read_index : InflateState
  newname_check_namelen newname_read_namelen newname_read_namehuff : InflateState
  newname_read_name check_valuelen read_valuelen read_valuehuff read_value : InflateState

-- The part of `nghttp2_hd_inflater` that the strings need.
pub record Inflater : Type 0 where
  pub state : InflateState
  pub left : ℕ
  pub shift : ℕ
  pub huffman_encoded : Bool
  pub huff_decode_ctx : HuffContext
  pub nvbufs : Bufs
  pub newnamelen : ℕ

-- `src` are the bytes from `in` to `last`, and there is one at least.
unfoldable pub inflate_set_huffman_encoded : Inflater → List ℕ → Inflater
inflate_set_huffman_encoded inflater src = record inflater {
  huffman_encoded = not (bit_and (get_or src 0 0) (2 ^ 7) == 0);
}

-- The inflater, `rfin`, and the number of bytes read. A shift that C does not define stops it.
unfoldable pub store_len : Inflater → ℕ → Decoding → Rv (Inflater × Bool × ℕ)
store_len inflater maxlen failed = err header_comp
store_len inflater maxlen undefined = abort
store_len inflater maxlen (decoded d) =
    if ltb maxlen d.res
    then err header_comp
    else ok (record inflater { left = d.res; shift = d.shift }, d.final, d.processed)

unfoldable pub inflate_read_len : Inflater → List ℕ → ℕ → ℕ → Rv (Inflater × Bool × ℕ)
unfolding store_len
inflate_read_len inflater src prefix maxlen =
    store_len inflater maxlen (decode_length inflater.left inflater.shift src prefix)

-- The inflater and the number of bytes read.
unfoldable pub inflate_read_huff : Inflater → List ℕ → Rv (Inflater × ℕ)
inflate_read_huff inflater src =
    let final = leb inflater.left (length src) in
    let bytes = if final then take inflater.left src else src in
    huff_decode inflater.huff_decode_ctx inflater.nvbufs bytes final >>= λ (ctx, bufs, readlen).
    ok (
      record inflater { huff_decode_ctx = ctx; nvbufs = bufs; left = inflater.left - readlen },
      readlen,
    )

unfoldable pub inflate_read : Inflater → List ℕ → Rv (Inflater × ℕ)
inflate_read inflater src =
    let len = min (length src) inflater.left in
    bufs_add inflater.nvbufs (take len src) >>= λ bufs.
    ok (record inflater { nvbufs = bufs; left = inflater.left - len }, len)

-- A step of the loop of `nghttp2_hd_inflate_hd2`: it goes on with the rest of the input, or the
-- input is used up in the middle (`almost_ok`).
pub data Progress : Type 0 where
  goes_on : Inflater → List ℕ → Progress
  almost_ok : Inflater → Progress

-- The state NEWNAME_READ_NAMELEN.
unfoldable pub read_namelen : Inflater → List ℕ → Rv Progress
unfolding inflate_read_len
read_namelen inflater src = inflate_read_len inflater src 7 max_nv >>= λ (i, rfin, n).
    if not rfin
    then ok (almost_ok i)
    else if i.huffman_encoded
    then ok (
        goes_on
          (record i {
            huff_decode_ctx = huff_decode_context_init;
            state = InflateState.newname_read_namehuff;
          })
          (drop n src))
    else ok (goes_on (record i { state = InflateState.newname_read_name }) (drop n src))

-- The state NEWNAME_CHECK_NAMELEN, which falls through.
unfoldable pub check_namelen : Inflater → List ℕ → Rv Progress
unfolding read_namelen inflate_set_huffman_encoded
check_namelen inflater src =
    read_namelen
      (record (inflate_set_huffman_encoded inflater src) {
        state = InflateState.newname_read_namelen;
        left = 0;
        shift = 0;
      })
      src

-- Behind the last byte of a name.
unfoldable pub end_name : Inflater → List ℕ → Rv Progress
unfolding bufs_len
end_name i rest =
    if not (i.left == 0)
    then ok (almost_ok i)
    else (bufs_addb i.nvbufs 0 >>= λ bufs. ok (
        goes_on
          (record i {
            newnamelen = bufs_len i.nvbufs;
            nvbufs = bufs;
            state = InflateState.check_valuelen;
          })
          rest))

-- The states NEWNAME_READ_NAMEHUFF and NEWNAME_READ_NAME.
unfoldable pub read_namehuff : Inflater → List ℕ → Rv Progress
unfolding inflate_read_huff end_name
read_namehuff inflater src = inflate_read_huff inflater src >>= λ (i, n). end_name i (drop n src)

unfoldable pub read_name : Inflater → List ℕ → Rv Progress
unfolding inflate_read end_name
read_name inflater src = inflate_read inflater src >>= λ (i, n). end_name i (drop n src)

-- The switch, on the states of a name.
unfoldable pub name_switch : InflateState → Inflater → List ℕ → Rv Progress
unfolding check_namelen read_namelen read_namehuff read_name
name_switch newname_check_namelen i src = check_namelen i src
name_switch newname_read_namelen i src = read_namelen i src
name_switch newname_read_namehuff i src = read_namehuff i src
name_switch newname_read_name i src = read_name i src
name_switch _ i src = ok (goes_on i src)

unfoldable pub name_step : Inflater → List ℕ → Rv Progress
unfolding name_switch
name_step i src = name_switch i.state i src
